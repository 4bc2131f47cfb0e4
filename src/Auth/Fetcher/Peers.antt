-- ===== src/Auth/Fetcher/Peers.antt =====
-- Two processes that refresh one location (mcp_server/src/remote/client.ts).
use mathlib.Core.Path.{subst}
use cccollab.Base.{
  ℕ, String, ◌≡◌, ◌≢◌, refl, sym, ◌∙◌, ap, Bool, true, false, none, some, [], ◌∷◌, not, ◌&&◌, arith,
  Option-cases, inl, inr,
}
use cccollab.Base.Text.{is_empty}
use cccollab.Base.Nullable.{truthy, ◌>>=◌}
use cccollab.Runtime.{Number}
use cccollab.Config.Save.{PersistedAuth, Stored, load_persisted_location_auth}
use cccollab.Auth.{
  Web, Request, Endpoint, Sent, TokenSet, refusal, Response, failed, refreshed_tokens,
  refresh_params, is_secure_bearer_url, post_token, refresh_access_token,
}
use cccollab.Auth.Tokens.{truthy-some}
use cccollab.Auth.Times.{greater}
use cccollab.Auth.Fetcher.{
  RemoteClient, Memory, Call, still_fresh, is_fresh, adopted, refresh, locked_call, fetch_token,
}
use cccollab.Auth.Fetcher.Agrees.{IsOnDisk, fetch_token-IsSettled}

-- A call that must refresh, once it has the lock.
forced_call :
    (web : Web) (writable : Bool) (asked now : ℕ) (client : RemoteClient) (m : Memory)
    (file : Stored)
    → fetch_token web true writable true asked now client m file
      ≡ some (locked_call web writable now client m file)
unfolding fetch_token
forced_call web writable asked now client m file = refl

adopted-IsOnDisk :
    (now : ℕ) (location : String) (m a : Memory) (file : Stored)
    → IsOnDisk location a file
    → is_empty a.id_token ≡ false
    → is_empty a.refresh_token ≡ false
    → is_fresh now a.expires_at ≡ true
    → greater a.expires_at m.expires_at ≡ true
    → (load_persisted_location_auth file location >>= (λ d. adopted now m d)) ≡ some a
unfolding adopted
adopted-IsOnDisk now location m a file (d, there, id, refresh, at) full kept fresh later =
    rw there (rw id (rw full (rw at (rw fresh (rw later (rw refresh (rw kept refl)))))))

adopting_call :
    (web : Web) (writable : Bool) (now : ℕ) (client : RemoteClient) (m a : Memory) (file : Stored)
    → (load_persisted_location_auth file client.location_name >>= (λ d. adopted now m d)) ≡ some a
    → locked_call web writable now client m file
      ≡ record { answer = some a.id_token; memory = a; file = file; requests = [] }
unfolding locked_call
adopting_call web writable now client m a file e = rw (e, locked_call) refl

-- After a process has refreshed a location and has got a refresh token that is not empty, another one
-- that must refresh it takes over the three values of the file, answers the same ID token and sends
-- nothing, as long as the new tokens are fresh and end later than its own.
pub fetch_token-adopts :
    (web other_web : Web) (writable other_writable forced : Bool) (asked now other_asked later : ℕ)
    (client other_client : RemoteClient) (m other_m : Memory) (file : Stored) (c : Call)
    (t : String)
    → fetch_token web true writable forced asked now client m file ≡ some c
    → c.answer ≡ some t
    → c.requests ≢ []
    → is_empty c.memory.refresh_token ≡ false
    → other_client.location_name ≡ client.location_name
    → is_fresh later c.memory.expires_at ≡ true
    → greater c.memory.expires_at other_m.expires_at ≡ true
    → fetch_token other_web true other_writable true other_asked later other_client other_m c.file
      ≡ some (record { answer = some t; memory = c.memory; file = c.file; requests = [] })
fetch_token-adopts web other_web writable other_writable forced asked now other_asked later client
      other_client m other_m file c t e got sent kept same fresh newer_ =
    let (answers, few, on_disk) =
      fetch_token-IsSettled web true writable forced asked now client m file c e in
    let (id, full) = truthy-some (some c.memory.id_token) t (sym answers ∙ got) in
    let here : c.memory.id_token ≡ t = ground (arith, id) in
    let took =
      adopted-IsOnDisk later other_client.location_name other_m c.memory c.file
        (subst (λ (l : String). IsOnDisk l c.memory c.file) (sym same) (on_disk t got sent))
        (subst (λ (s : String). is_empty s ≡ false) (sym here) full) kept fresh newer_ in
    forced_call other_web other_writable other_asked later other_client other_m c.file
    ∙ ap (λ (c : Call). some c)
        (adopting_call other_web other_writable later other_client other_m c.memory c.file took)
    ∙ ap
        (λ (s : String).
          some (record { answer = some s; memory = c.memory; file = c.file; requests = [] }))
        here

not_adopted :
    (now : ℕ) (m : Memory) (d : PersistedAuth) (t : Number)
    → d.access_token_expires_at ≡ some t
    → is_fresh now t ≡ false
    → adopted now m d ≡ none
unfolding adopted
not_adopted now m d t at stale = elim (Option-cases (truthy d.id_token)) [
  | inl none_ ↦ rw none_ refl
  | inr (id, there) ↦ rw there (rw at (rw stale refl))
]

-- The request for new tokens that carries the process's own refresh token.
abbrev pub own_request : RemoteClient → Memory → Endpoint → Request
own_request client m url = record {
  endpoint = url;
  params = refresh_params client.clerk_client_id m.refresh_token;
}

refused_refresh :
    (web : Web) (now : ℕ) (client : RemoteClient) (m : Memory) (url : Endpoint) (res : Response)
    → web.resolve "/oauth/token" client.clerk_issuer ≡ some url
    → is_secure_bearer_url url ≡ true
    → web.fetch (own_request client m url) ≡ some res
    → res.is_ok ≡ false
    → refresh_access_token web now client.clerk_issuer client.clerk_client_id m.refresh_token
        (some m.id_token)
      ≡ record {
        requests = own_request client m url ∷ [];
        result = failed (refusal "refresh_failed" res.json);
      }
unfolding refresh_access_token post_token refreshed_tokens
refused_refresh web now client m url res found secure came bad =
    rw (found, post_token) (rw secure (rw came (rw bad refl)))

-- What a process sends that has to refresh is its own refresh token, also where the file has another
-- one. Where it has a refresh token, its tokens are not fresh any more or it is forced, neither are the
-- file's, and the endpoint answers the request with its own token with an error: that request is
-- the only one, the call answers none, the ID token in memory is gone and the file is as it was,
-- whatever refresh token the file has.
pub fetch_token-ignores_disk :
    (web : Web) (writable forced : Bool) (asked now : ℕ) (client : RemoteClient) (m : Memory)
    (file : Stored) (d : PersistedAuth) (t : Number) (url : Endpoint) (res : Response)
    → not forced && still_fresh asked m ≡ false
    → load_persisted_location_auth file client.location_name ≡ some d
    → d.access_token_expires_at ≡ some t
    → is_fresh now t ≡ false
    → is_empty m.refresh_token ≡ false
    → web.resolve "/oauth/token" client.clerk_issuer ≡ some url
    → is_secure_bearer_url url ≡ true
    → web.fetch (own_request client m url) ≡ some res
    → res.is_ok ≡ false
    → fetch_token web true writable forced asked now client m file
      ≡ some (record {
        answer = none;
        memory = record m { id_token = "" };
        file = file;
        requests = own_request client m url ∷ [];
      })
unfolding fetch_token locked_call refresh
fetch_token-ignores_disk web writable forced asked now client m file d t url res old there at stale
      has_ found secure came bad =
    let none_adopted : (load_persisted_location_auth file client.location_name
          >>= (λ d. adopted now m d))
        ≡ none =
      rw there (not_adopted now m d t at stale) in
    let refused = refused_refresh web now client m url res found secure came bad in
    rw (old, fetch_token)
      (rw (none_adopted, locked_call)
        (rw has_ (
          rw (refused, refresh)
            (ap
              (λ (sent : Sent TokenSet). some (record {
                answer = none;
                memory = record m { id_token = "" };
                file = file;
                requests = sent.requests;
              }))
              refused))))
