-- ===== src/Auth/Tokens.antt =====
-- What the two token requests of mcp_server/src/remote/auth-clerk.ts return and show.
use mathlib.Core.Path.{subst}
use cccollab.Base.{
  ℕ, String, ◌≡◌, ◌⊎◌, refl, sym, ◌∙◌, ap, Bool, true, false, Option, none, some, List, [], ◌∷◌,
  arith, eq_iff, Bool-cases, Option-cases, inl, inr,
}
use cccollab.Base.Nullable.{truthy}
use cccollab.Base.Text.{is_empty}
use cccollab.Base.Assoc.{Assoc, lookup}
use cccollab.Base.StrSet.{has}
use cccollab.Config.{Value, text}
use cccollab.Auth.{
  Web, Endpoint, Request, Response, TokenSet, TokenExchange, unexpected, Result, ok, failed,
  sensitive_response_fields, redact_sensitive_fields, is_secure_bearer_url,
  is_jwt_expired_or_undecodable, shaped, token_set, exchanged_tokens, usable, refreshed_set,
  refreshed_tokens, post_token, exchange_params, exchange_code_for_tokens, refresh_params,
  refresh_access_token,
}

lookup-redact_sensitive_fields :
    (fields : Assoc Value) (k : String)
    → has k sensitive_response_fields ≡ true
    → (lookup k (redact_sensitive_fields fields) ≡ none)
      ⊎ (lookup k (redact_sensitive_fields fields) ≡ some (text "<redacted>"))
unfolding redact_sensitive_fields lookup
lookup-redact_sensitive_fields [] k h = inl refl
lookup-redact_sensitive_fields ((j, v) ∷ fields) k h =
    ground (arith, eq_iff j k, h, lookup-redact_sensitive_fields fields k h)

-- What a token request sends, whatever the answer.
pub post_token-requests :
    (web : Web) (issuer : String) (params : List (String × String))
    (read : Response → Result TokenSet)
    → ((post_token web issuer params read).requests ≡ [])
      ⊎ ((url : Endpoint) × (is_secure_bearer_url url ≡ true)
          × ((post_token web issuer params read).requests
              ≡ record { endpoint = url; params = params } ∷ []))
unfolding post_token
post_token-requests web issuer params read =
    elim (Option-cases (web.resolve "/oauth/token" issuer)) [
      | inl none_ ↦ rw (none_, post_token) (inl refl)
      | inr (url, found) ↦ elim (Bool-cases (is_secure_bearer_url url)) [
        | inl secure ↦ rw (found, post_token) (rw secure (inr (url, secure, refl)))
        | inr plain ↦ rw (found, post_token) (rw plain (inl refl))
      ]
    ]

-- The result of an answer: tokens, or the error that shows the answer's fields.
abbrev pub is_read : Result TokenSet → Bool
is_read (ok t) = true
is_read (failed (unexpected shown)) = true
is_read _ = false

-- Such a result came from an answer.
pub post_token-read :
    (web : Web) (issuer : String) (params : List (String × String))
    (read : Response → Result TokenSet)
    → is_read (post_token web issuer params read).result ≡ true
    → (res : Response) × ((post_token web issuer params read).result ≡ read res)
unfolding post_token
post_token-read web issuer params read h = elim (Option-cases (web.resolve "/oauth/token" issuer)) [
  | inl none_ ↦ absurd (ground (arith, none_, h))
  | inr (url, found) ↦ elim (Bool-cases (is_secure_bearer_url url)) [
    | inr plain ↦ absurd (ground (arith, found, plain, h))
    | inl secure ↦
        let req : Request = record { endpoint = url; params = params } in
        elim (Option-cases (web.fetch req)) [
          | inl lost ↦ absurd (ground (arith, found, secure, lost, h))
          | inr (res, came) ↦ (res, rw (found, post_token) (rw secure (rw came refl)))
        ]
  ]
]

shaped-unexpected :
    (json : Assoc Value) (o : Option TokenSet) (shown : Assoc Value)
    → shaped json o ≡ failed (unexpected shown)
    → redact_sensitive_fields json ≡ shown
shaped-unexpected json none shown e = ground (arith, e)
shaped-unexpected json (some t) shown e = absurd (ground (arith, e))

exchanged_tokens-unexpected :
    (now : ℕ) (res : Response) (shown : Assoc Value)
    → exchanged_tokens now res ≡ failed (unexpected shown)
    → redact_sensitive_fields res.json ≡ shown
unfolding exchanged_tokens
exchanged_tokens-unexpected now res shown e = elim (Bool-cases res.is_ok) [
  | inl fine ↦ shaped-unexpected res.json (token_set now res.json) shown (ground (arith, fine, e))
  | inr bad ↦ absurd (ground (arith, bad, e))
]

refreshed_tokens-unexpected :
    (web : Web) (now : ℕ) (prior : String) (fallback : Option String) (res : Response)
    (shown : Assoc Value)
    → refreshed_tokens web now prior fallback res ≡ failed (unexpected shown)
    → redact_sensitive_fields res.json ≡ shown
unfolding refreshed_tokens
refreshed_tokens-unexpected web now prior fallback res shown e = elim (Bool-cases res.is_ok) [
  | inl fine ↦
      shaped-unexpected res.json (refreshed_set web now prior fallback res.json) shown
        (ground (arith, fine, e))
  | inr bad ↦ absurd (ground (arith, bad, e))
]

-- A map in which every sensitive field is missing or has the placeholder.
abbrev pub IsRedacted : Assoc Value → Type 0
IsRedacted shown =
    (k : String)
    → has k sensitive_response_fields ≡ true
    → (lookup k shown ≡ none) ⊎ (lookup k shown ≡ some (text "<redacted>"))

post_token-IsRedacted :
    (web : Web) (issuer : String) (params : List (String × String))
    (read : Response → Result TokenSet) (shown : Assoc Value)
    → ((res : Response)
        → read res ≡ failed (unexpected shown)
        → redact_sensitive_fields res.json ≡ shown)
    → (post_token web issuer params read).result ≡ failed (unexpected shown)
    → IsRedacted shown
post_token-IsRedacted web issuer params read shown h e =
    let (res, came) = post_token-read web issuer params read (ap is_read e) in
    subst IsRedacted (h res (sym came ∙ e)) (lookup-redact_sensitive_fields res.json)

-- The error that shows the fields of an answer, of either request, shows none of the secret ones: each
-- is missing or replaced by the placeholder.
pub unexpected-IsRedacted :
    (web : Web) (now : ℕ) (args : TokenExchange) (issuer client_id token : String)
    (fallback : Option String) (shown : Assoc Value)
    → ((exchange_code_for_tokens web now args).result ≡ failed (unexpected shown))
      ⊎ ((refresh_access_token web now issuer client_id token fallback).result
          ≡ failed (unexpected shown))
    → IsRedacted shown
unfolding exchange_code_for_tokens refresh_access_token
unexpected-IsRedacted web now args issuer client_id token fallback shown (inl e) =
    post_token-IsRedacted web args.issuer (exchange_params args) (exchanged_tokens now) shown
      (λ res q. exchanged_tokens-unexpected now res shown q) e
unexpected-IsRedacted web now args issuer client_id token fallback shown (inr e) =
    post_token-IsRedacted web issuer (refresh_params client_id token)
      (refreshed_tokens web now token fallback) shown
      (λ res q. refreshed_tokens-unexpected web now token fallback res shown q) e

pub truthy-some :
    (o : Option String) (t : String) → truthy o ≡ some t → (o ≡ some t) × (is_empty t ≡ false)
truthy-some none t e = absurd (ground (arith, e))
truthy-some (some s) t e = (ground (arith, e), ground (arith, e))

pub usable-some :
    (web : Web) (now : ℕ) (fallback : Option String) (t : String)
    → usable web now fallback ≡ some t
    → (fallback ≡ some t) × (is_empty t ≡ false) × (is_jwt_expired_or_undecodable web now t ≡ false)
unfolding usable
usable-some web now none t e = absurd (ground (arith, e))
usable-some web now (some s) t e = (ground (arith, e), ground (arith, e), ground (arith, e))
