-- ===== src/Auth/Fetcher/Agrees.antt =====
-- What a call of the fetcher leaves in memory and on disk (mcp_server/src/remote/client.ts).
use mathlib.Core.Path.{subst}
use cccollab.Base.{
  ℕ, ◌≤◌, String, ◌≡◌, ◌≢◌, ◌⊎◌, refl, sym, ◌∙◌, ap, Bool, true, false, not, ◌&&◌, Option, none,
  some, List, [], length, arith, Bool-cases, Option-cases, inl, inr,
}
use cccollab.Base.Text.{is_empty}
use cccollab.Base.Nullable.{truthy, or_else, ◌>>=◌}
use cccollab.Runtime.{Number}
use cccollab.Config.Save.{
  PersistedAuth, Stored, stored, read_existing, write_location_auth, load_persisted_location_auth,
}
use cccollab.Config.Save.Kept.{load-write_location_auth}
use cccollab.Auth.{Web, Request, TokenSet, AuthError, Result, ok, failed, refresh_access_token}
use cccollab.Auth.Tokens.{truthy-some, post_token-requests}
use cccollab.Auth.Renewed.{bind-some, refresh_access_token_lem}
use cccollab.Auth.Times.{greater}
use cccollab.Auth.Fetcher.{
  RemoteClient, Memory, Call, still_fresh, is_fresh, newer, adopted, auth_of, memory_of, persist,
  after_refresh, refresh, locked_call, fetch_token,
}

-- The tokens in memory are the ones that the file has for the location.
abbrev pub IsOnDisk : String → Memory → Stored → Type 0
IsOnDisk location m file =
    (a : PersistedAuth) × (load_persisted_location_auth file location ≡ some a)
    × (a.id_token ≡ some m.id_token)
    × (a.refresh_token ≡ some m.refresh_token)
    × (a.access_token_expires_at ≡ some m.expires_at)

-- The answer is the ID token in memory, none where that is empty; there is at most one request; and a
-- token that came by a request is on disk with its refresh token and its end.
abbrev pub IsSettled : String → Call → Type 0
IsSettled location c =
    (c.answer ≡ truthy (some c.memory.id_token))
    × (length c.requests ≤ 1)
    × ((t : String) → c.answer ≡ some t → c.requests ≢ [] → IsOnDisk location c.memory c.file)

truthy-full : (t : String) → is_empty t ≡ false → some t ≡ truthy (some t)
truthy-full t e = ground (arith, e)

pub result-cases {ℓ} :
    {A : Type ℓ} (r : Result A) → ((e : AuthError) × (r ≡ failed e)) ⊎ ((a : A) × (r ≡ ok a))
result-cases (ok a) = inr (a, refl)
result-cases (failed e) = inl (e, refl)

persisted-IsOnDisk :
    (writable : Bool) (now : ℕ) (client : RemoteClient) (next : TokenSet) (file f : Stored)
    → persist writable now client next file ≡ some f
    → IsOnDisk client.location_name (memory_of next) f
persisted-IsOnDisk false now client next file f e = absurd (ground (arith, e))
persisted-IsOnDisk true now client next file f e = elim (Option-cases (read_existing file)) [
  | inl broken ↦ absurd (nothing broken)
  | inr (c, there) ↦
      let (n, _, wrote, loaded, _, _, _, _, _, _) =
        load-write_location_auth now client.location_name (auth_of now client next) file c there in
      let same : stored n ≡ f = ground (arith, wrote, e) in
      subst (IsOnDisk client.location_name (memory_of next)) same (_, loaded, refl, refl, refl)
]
  where
    nothing : read_existing file ≡ none → ⊥
    nothing broken = unfold write_location_auth in ground (arith, broken, e)

after_refresh-IsSettled :
    (writable : Bool) (now : ℕ) (client : RemoteClient) (requests : List Request) (file : Stored)
    (next : TokenSet)
    → is_empty next.id_token ≡ false
    → length requests ≤ 1
    → IsSettled client.location_name (after_refresh writable now client requests file next)
unfolding after_refresh is_empty
after_refresh-IsSettled writable now client requests file next full few =
    elim (Option-cases (persist writable now client next file)) [
      | inl none_ ↦ rw (none_, after_refresh) (refl, few, λ t e. absurd (ground (arith, e)))
      | inr (f, wrote) ↦
          rw (wrote, after_refresh)
            (
              truthy-full next.id_token full,
              few,
              λ t e some_sent. persisted-IsOnDisk writable now client next file f wrote,
            )
    ]

requests_few :
    (web : Web) (now : ℕ) (issuer client_id prior : String) (fallback : Option String)
    → length (refresh_access_token web now issuer client_id prior fallback).requests ≤ 1
unfolding refresh_access_token
requests_few web now issuer client_id prior fallback = elim (post_token-requests web issuer _ _) [
  | inl e ↦ subst IsFew (sym e) (omega arith)
  | inr (url, secure, e) ↦ subst IsFew (sym e) (omega arith)
]
  where
    IsFew : List Request → Type 0
    IsFew rs = length rs ≤ 1

refresh-IsSettled :
    (web : Web) (writable : Bool) (now : ℕ) (client : RemoteClient) (m : Memory) (file : Stored)
    → IsSettled client.location_name (refresh web writable now client m file)
unfolding refresh is_empty
refresh-IsSettled web writable now client m file =
    let few =
      requests_few web now client.clerk_issuer client.clerk_client_id m.refresh_token
        (some m.id_token) in
    let sent =
      refresh_access_token web now client.clerk_issuer client.clerk_client_id m.refresh_token
        (some m.id_token) in
    elim (result-cases sent.result) [
      | inl (e, bad) ↦ rw (bad, refresh) (refl, few, λ t e. absurd (ground (arith, e)))
      | inr (next, came) ↦
          let (res, issued, rotated) =
            refresh_access_token_lem web now client.clerk_issuer client.clerk_client_id
              m.refresh_token (some m.id_token) next came in
          rw (came, refresh)
            (after_refresh-IsSettled writable now client sent.requests file next issued.0 few)
    ]

-- Adopted tokens are those of the file, and the ID token is not empty.
pub adopted-some :
    (now : ℕ) (m : Memory) (d : PersistedAuth) (a : Memory)
    → adopted now m d ≡ some a
    → (d.id_token ≡ some a.id_token)
      × (is_empty a.id_token ≡ false)
      × (d.access_token_expires_at ≡ some a.expires_at)
      × (a.refresh_token ≡ or_else (truthy d.refresh_token) m.refresh_token)
unfolding adopted
adopted-some now m d a e =
    let (id, had, e2) = bind-some (truthy d.id_token) _ a e in
    let (at, was, e3) = bind-some d.access_token_expires_at _ a e2 in
    let (there, full) = truthy-some d.id_token id had in
    elim (Bool-cases (is_fresh now at && greater at m.expires_at)) [
      | inr stale ↦ absurd (ground (arith, stale, e3))
      | inl good ↦
          let made : newer now m d id at ≡ some a = e3 in
          let same_id : id ≡ a.id_token = ground (arith, good, made) in
          let same_at : at ≡ a.expires_at = ground (arith, good, made) in
          (
            there ∙ ap (λ (t : String). some t) same_id,
            subst (λ (t : String). is_empty t ≡ false) same_id full,
            was ∙ ap (λ (n : Number). some n) same_at,
            ground (arith, good, made),
          )
    ]

locked_call-IsSettled :
    (web : Web) (writable : Bool) (now : ℕ) (client : RemoteClient) (m : Memory) (file : Stored)
    → IsSettled client.location_name (locked_call web writable now client m file)
unfolding locked_call is_empty
locked_call-IsSettled web writable now client m file =
    let on_disk = load_persisted_location_auth file client.location_name in
    elim (Option-cases (on_disk >>= (λ d. adopted now m d))) [
      | inr (a, took) ↦
          let (d, there, e) = bind-some on_disk (λ d. adopted now m d) a took in
          let (same_id, full, same_at, same_refresh) = adopted-some now m d a e in
          rw (took, locked_call)
            (truthy-full a.id_token full, omega arith, λ t q ne. absurd (ne refl))
      | inl none_ ↦ elim (Bool-cases (is_empty m.refresh_token)) [
        | inl bare ↦
            rw (none_, locked_call) (rw bare (refl, omega arith, λ t e. absurd (ground (arith, e))))
        | inr has_ ↦
            rw (none_, locked_call) (rw has_ (refresh-IsSettled web writable now client m file))
      ]
    ]

-- A call that does not reject answers the ID token that it leaves in memory, and none exactly where that
-- is empty; it sends at most one request; and where it answers after a request, the file has the same
-- ID token, refresh token and end for the location.
pub fetch_token-IsSettled :
    (web : Web) (locks writable forced : Bool) (asked now : ℕ) (client : RemoteClient) (m : Memory)
    (file : Stored) (c : Call)
    → fetch_token web locks writable forced asked now client m file ≡ some c
    → IsSettled client.location_name c
unfolding fetch_token still_fresh
fetch_token-IsSettled web locks writable forced asked now client m file c e =
    elim (Bool-cases (not forced && still_fresh asked m)) [
      | inl cached ↦
          let same : record { answer = some m.id_token; memory = m; file = file; requests = [] }
              ≡ c =
            ground (arith, cached, e) in
          subst (IsSettled client.location_name) same (
            truthy-full m.id_token (ground (arith, cached)),
            omega arith,
            λ t q ne. absurd (ne refl),
          )
      | inr stale ↦ elim (Bool-cases locks) [
        | inl held ↦
            subst (IsSettled client.location_name) (ground (arith, stale, held, e))
              (locked_call-IsSettled web writable now client m file)
        | inr busy ↦ absurd (ground (arith, stale, busy, e))
      ]
    ]
