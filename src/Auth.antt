-- ===== src/Auth.antt =====
-- mcp_server/src/remote/auth-clerk.ts. What it takes from outside is a parameter: the URL grammar, the
-- decoding of a token's payload, the answers to requests, the loopback listener and the browser.
pub mod Times
pub mod Tokens
pub mod Renewed
pub mod Pkce
pub mod Fetcher
mod Tests
use Prim.Native.Char.{Char, code}
use Prim.Native.String.{[], ◌∷◌}
use mathlib.Core.List
use cccollab.Base.{
  ℕ, String, Bool, true, false, not, ◌&&◌, ◌||◌, Option, none, some, List, if◌then◌else◌, eqb,
  str_eq,
}
use cccollab.Base.Nullable.{truthy, or_else, or_option, ◌>>=◌}
use cccollab.Base.Assoc.{Assoc, lookup}
use cccollab.Base.StrSet.{has}
use cccollab.Runtime.{Number}
use cccollab.Config.{Value, text, as_text}
use cccollab.Config.Save.{as_number}
use cccollab.Auth.Times.{expires_at, has_passed}

-- a URL, with the parts that the code reads
pub record Endpoint : Type 0 where
  pub href : String
  pub protocol : String
  pub hostname : String

-- a POST of a form, or the authorize URL with its query
pub record Request : Type 0 where
  pub endpoint : Endpoint
  pub params : List (String × String)

-- `res.ok`, and the fields of `res.json()`
pub record Response : Type 0 where
  pub is_ok : Bool
  pub json : Assoc Value

pub record Web : Type 0 where
  -- `new URL(path, base)`; `none` where it throws
  pub resolve : String → String → Option Endpoint
  -- the fields of a decoded payload; `none` where decoding or parsing throws, or it is no object
  pub decode_payload : String → Option (Assoc Value)
  -- `none` where the request fails or its answer is no JSON object
  pub fetch : Request → Option Response

pub record TokenSet : Type 0 where
  pub access_token : String
  pub refresh_token : String
  pub id_token : String
  pub access_token_expires_at : Number

pub data AuthError : Type 0 where
  invalid_url unreachable no_listener no_browser no_callback state_mismatch : AuthError
  insecure : (protocol hostname : String) → AuthError
  refused : (code : String) → AuthError
  unexpected : (shown : Assoc Value) → AuthError

pub data Result {ℓ} (A : Type ℓ) : Type ℓ where
  ok : A → Result A
  failed : AuthError → Result A

-- what a call sends, and what it returns or throws
pub record Sent {ℓ} (A : Type ℓ) : Type ℓ where
  pub requests : List Request
  pub result : Result A

abbrev pub sensitive_response_fields : List String
sensitive_response_fields = List.◌∷◌ "access_token" (
    List.◌∷◌ "refresh_token"
      (List.◌∷◌ "id_token" (List.◌∷◌ "code" (List.◌∷◌ "code_verifier" List.[]))))

unfoldable pub redact_sensitive_fields : Assoc Value → Assoc Value
redact_sensitive_fields List.[] = List.[]
redact_sensitive_fields (List.◌∷◌ (k, v) fields) =
    List.◌∷◌ (k, if has k sensitive_response_fields then text "<redacted>" else v)
      (redact_sensitive_fields fields)

unfoldable pub is_loopback_host : String → Bool
is_loopback_host hostname =
    str_eq hostname "localhost"
    || str_eq hostname "127.0.0.1"
    || str_eq hostname "::1"
    || str_eq hostname "[::1]"

-- `assertSecureBearerUrl` returns
unfoldable pub is_secure_bearer_url : Endpoint → Bool
unfolding is_loopback_host
is_secure_bearer_url url =
    str_eq url.protocol "https:" || (str_eq url.protocol "http:" && is_loopback_host url.hostname)

-- `text.split('.')`: its first part, and the text behind the first dot
abbrev pub first_part : String → String
first_part [] = []
first_part (c ∷ s) = let rest = first_part s in if eqb (code c) b'.' then [] else c ∷ rest

abbrev pub behind_dot : String → String
behind_dot [] = []
behind_dot (c ∷ s) = let rest = behind_dot s in if eqb (code c) b'.' then s else rest

-- `decodeJwtExp`: the payload is the second part, or ""
unfoldable pub decode_jwt_exp : Web → String → Option Number
decode_jwt_exp web jwt =
    web.decode_payload (first_part (behind_dot jwt)) >>= (λ fields. as_number (lookup "exp" fields))

unfoldable pub is_jwt_expired_or_undecodable : Web → ℕ → String → Bool
unfolding decode_jwt_exp
is_jwt_expired_or_undecodable web now jwt = elim (decode_jwt_exp web jwt) [
  | none ↦ true
  | some exp ↦ has_passed now exp
]

-- the error of an answer that is not `ok`
abbrev pub refusal : String → Assoc Value → AuthError
refusal fallback json = refused (or_else (as_text (lookup "error" json)) fallback)

abbrev pub shaped : Assoc Value → Option TokenSet → Result TokenSet
shaped json none = failed (unexpected (redact_sensitive_fields json))
shaped json (some tokens) = ok tokens

-- the tokens of an answer that has the expected shape
unfoldable pub token_set : ℕ → Assoc Value → Option TokenSet
token_set now json = do
  access_token ← as_text (lookup "access_token" json)
  refresh_token ← as_text (lookup "refresh_token" json)
  id_token ← as_text (lookup "id_token" json)
  expires_in ← as_number (lookup "expires_in" json)
  some (record {
    access_token = access_token;
    refresh_token = refresh_token;
    id_token = id_token;
    access_token_expires_at = expires_at now expires_in;
  })

-- what exchangeCodeForTokens makes of an answer
unfoldable pub exchanged_tokens : ℕ → Response → Result TokenSet
unfolding redact_sensitive_fields token_set
exchanged_tokens now res =
    if res.is_ok
    then shaped res.json (token_set now res.json)
    else failed (refusal "token_exchange_failed" res.json)

-- a fallback that is not empty and still valid
unfoldable pub usable : Web → ℕ → Option String → Option String
unfolding is_jwt_expired_or_undecodable
usable web now fallback =
    truthy fallback >>= (λ t. if is_jwt_expired_or_undecodable web now t then none else some t)

unfoldable pub refreshed_set : Web → ℕ → String → Option String → Assoc Value → Option TokenSet
unfolding usable
refreshed_set web now prior fallback json = do
  access_token ← as_text (lookup "access_token" json)
  id_token ← or_option (truthy (as_text (lookup "id_token" json))) (usable web now fallback)
  expires_in ← as_number (lookup "expires_in" json)
  some (record {
    access_token = access_token;
    refresh_token = or_else (truthy (as_text (lookup "refresh_token" json))) prior;
    id_token = id_token;
    access_token_expires_at = expires_at now expires_in;
  })

-- what refreshAccessToken makes of an answer
unfoldable pub refreshed_tokens : Web → ℕ → String → Option String → Response → Result TokenSet
unfolding redact_sensitive_fields refreshed_set
refreshed_tokens web now prior fallback res =
    if res.is_ok
    then shaped res.json (refreshed_set web now prior fallback res.json)
    else failed (refusal "refresh_failed" res.json)

abbrev pub answered : (Response → Result TokenSet) → Option Response → Result TokenSet
answered read none = failed unreachable
answered read (some res) = read res

-- The URL, its check and the request, as both grants send it.
unfoldable pub post_token :
    Web → String → List (String × String) → (Response → Result TokenSet) → Sent TokenSet
unfolding is_secure_bearer_url
post_token web issuer params read = elim (web.resolve "/oauth/token" issuer) [
  | none ↦ record { requests = List.[]; result = failed invalid_url }
  | some url ↦
      let req : Request = record { endpoint = url; params = params } in
      if is_secure_bearer_url url
      then record { requests = List.◌∷◌ req List.[]; result = answered read (web.fetch req) }
      else record { requests = List.[]; result = failed (insecure url.protocol url.hostname) }
]

pub record TokenExchange : Type 0 where
  pub issuer : String
  pub client_id : String
  pub redirect_uri : String
  pub code : String
  pub code_verifier : String

abbrev pub exchange_params : TokenExchange → List (String × String)
exchange_params args =
    List.◌∷◌ ("grant_type", "authorization_code")
      (List.◌∷◌ ("code", args.code)
        (List.◌∷◌ ("code_verifier", args.code_verifier)
          (List.◌∷◌ ("client_id", args.client_id)
            (List.◌∷◌ ("redirect_uri", args.redirect_uri) List.[]))))

unfoldable pub exchange_code_for_tokens : Web → ℕ → TokenExchange → Sent TokenSet
unfolding post_token exchanged_tokens
exchange_code_for_tokens web now args =
    post_token web args.issuer (exchange_params args) (exchanged_tokens now)

abbrev pub refresh_params : (client_id refresh_token : String) → List (String × String)
refresh_params client_id refresh_token =
    List.◌∷◌ ("grant_type", "refresh_token")
      (List.◌∷◌ ("refresh_token", refresh_token)
        (List.◌∷◌ ("client_id", client_id) (List.◌∷◌ ("scope", "openid profile email") List.[])))

unfoldable pub refresh_access_token :
    Web → ℕ → (issuer client_id refresh_token : String) → Option String → Sent TokenSet
unfolding post_token refreshed_tokens
refresh_access_token web now issuer client_id refresh_token fallback =
    post_token web issuer (refresh_params client_id refresh_token)
      (refreshed_tokens web now refresh_token fallback)
