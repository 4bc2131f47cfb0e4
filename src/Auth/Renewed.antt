-- ===== src/Auth/Renewed.antt =====
-- The tokens that refreshAccessToken returns (mcp_server/src/remote/auth-clerk.ts).
use mathlib.Core.Path.{subst}
use cccollab.Base.{
  ℕ, String, ◌≡◌, ◌⊎◌, refl, sym, ◌∙◌, ap, false, Option, none, some, arith, Bool-cases,
  Option-cases, inl, inr,
}
use cccollab.Base.Nullable.{truthy, or_else, or_option, ◌>>=◌}
use cccollab.Base.Text.{is_empty}
use cccollab.Base.Assoc.{Assoc, lookup}
use cccollab.Config.{Value, as_text}
use cccollab.Config.Save.{as_number}
use cccollab.Auth.{
  Web, Response, TokenSet, ok, is_jwt_expired_or_undecodable, shaped, usable, refreshed_set,
  refreshed_tokens, refresh_params, refresh_access_token,
}
use cccollab.Auth.Tokens.{is_read, post_token-read, truthy-some, usable-some}

pub bind-some {ℓ κ} :
    {A : Type ℓ} {B : Type κ} (o : Option A) (f : A → Option B) (b : B)
    → (o >>= f) ≡ some b
    → (a : A) × (o ≡ some a) × (f a ≡ some b)
bind-some none f b e = absurd (ground (arith, e))
bind-some (some a) f b e = (a, refl, e)

-- an ID token that came with the answer, or the fallback before its end
abbrev pub IsIssued : Web → ℕ → Option String → Assoc Value → String → Type 0
IsIssued web now fallback json t =
    (is_empty t ≡ false)
    × ((as_text (lookup "id_token" json) ≡ some t)
        ⊎ ((fallback ≡ some t) × (is_jwt_expired_or_undecodable web now t ≡ false)))

-- a refresh token that came with the answer, or the one that was sent
abbrev pub IsRotated : String → Assoc Value → String → Type 0
IsRotated prior json t = (as_text (lookup "refresh_token" json) ≡ some t) ⊎ (prior ≡ t)

issued :
    (web : Web) (now : ℕ) (fallback : Option String) (json : Assoc Value) (t : String)
    → or_option (truthy (as_text (lookup "id_token" json))) (usable web now fallback) ≡ some t
    → IsIssued web now fallback json t
issued web now fallback json t e = elim (Option-cases (truthy (as_text (lookup "id_token" json)))) [
  | inl none_ ↦
      let (f, full, valid) = usable-some web now fallback t (ground (arith, none_, e)) in
      (full, inr (f, valid))
  | inr (s, new) ↦
      let (f, full) = truthy-some (as_text (lookup "id_token" json)) t (ground (arith, new, e)) in
      (full, inl f)
]

rotated :
    (prior : String) (json : Assoc Value)
    → IsRotated prior json (or_else (truthy (as_text (lookup "refresh_token" json))) prior)
rotated prior json = elim (Option-cases (truthy (as_text (lookup "refresh_token" json)))) [
  | inl none_ ↦ rw none_ (inr refl)
  | inr (s, new) ↦ rw new (inl (truthy-some (as_text (lookup "refresh_token" json)) s new).0)
]

set_lem :
    (web : Web) (now : ℕ) (prior : String) (fallback : Option String) (json : Assoc Value)
    (t : TokenSet)
    → refreshed_set web now prior fallback json ≡ some t
    → IsIssued web now fallback json t.id_token × IsRotated prior json t.refresh_token
unfolding refreshed_set
set_lem web now prior fallback json t e =
    let (access, had, e2) = bind-some (as_text (lookup "access_token" json)) _ t e in
    let (id, got, e3) =
      bind-some (or_option (truthy (as_text (lookup "id_token" json))) (usable web now fallback)) _
        t e2 in
    let (n, is, e4) = bind-some (as_number (lookup "expires_in" json)) _ t e3 in
    let same_id : id ≡ t.id_token = ground (arith, e4) in
    let same_refresh : or_else (truthy (as_text (lookup "refresh_token" json))) prior
        ≡ t.refresh_token =
      ground (arith, e4) in
    (
      subst (IsIssued web now fallback json) same_id (issued web now fallback json id got),
      subst (IsRotated prior json) same_refresh (rotated prior json),
    )

shaped-ok :
    (json : Assoc Value) (o : Option TokenSet) (t : TokenSet) → shaped json o ≡ ok t → o ≡ some t
shaped-ok json none t e = absurd (ground (arith, e))
shaped-ok json (some s) t e = ground (arith, e)

tokens_lem :
    (web : Web) (now : ℕ) (prior : String) (fallback : Option String) (res : Response)
    (t : TokenSet)
    → refreshed_tokens web now prior fallback res ≡ ok t
    → IsIssued web now fallback res.json t.id_token × IsRotated prior res.json t.refresh_token
unfolding refreshed_tokens
tokens_lem web now prior fallback res t e = elim (Bool-cases res.is_ok) [
  | inl fine ↦ set_lem web now prior fallback res.json t (
      shaped-ok res.json (refreshed_set web now prior fallback res.json) t
        (ground (arith, fine, e)))
  | inr bad ↦ absurd (ground (arith, bad, e))
]

-- The tokens of a refresh that succeeds: the ID token is not empty, and came with the answer or is the
-- one at hand, before its end; the refresh token came with the answer or is the one that was sent.
pub refresh_access_token_lem :
    (web : Web) (now : ℕ) (issuer client_id prior : String) (fallback : Option String)
    (t : TokenSet)
    → (refresh_access_token web now issuer client_id prior fallback).result ≡ ok t
    → (res : Response) × IsIssued web now fallback res.json t.id_token
      × IsRotated prior res.json t.refresh_token
unfolding refresh_access_token
refresh_access_token_lem web now issuer client_id prior fallback t e =
    let (res, came) =
      post_token-read web issuer (refresh_params client_id prior)
        (refreshed_tokens web now prior fallback) (ap is_read e) in
    let (issued_, rotated_) = tokens_lem web now prior fallback res t (sym came ∙ e) in
    (res, issued_, rotated_)
