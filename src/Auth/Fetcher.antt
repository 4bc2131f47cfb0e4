-- ===== src/Auth/Fetcher.antt =====
-- makeClerkAuthFetcher of mcp_server/src/remote/client.ts: one call of the function that it returns.
-- A call that finds another one in flight waits for that one's answer, so what is modelled is the call
-- that runs.
pub mod Agrees
pub mod Peers
use cccollab.Base.{
  ℕ, ◌+◌, String, Bool, true, false, not, ◌&&◌, Option, none, some, List, [], ◌∷◌, if◌then◌else◌,
}
use cccollab.Base.Text.{is_empty}
use cccollab.Base.Nullable.{truthy, or_else, ◌>>=◌}
use cccollab.Runtime.{Number, of_ms, before_number}
use cccollab.Config.Save.{
  LocationAuth, PersistedAuth, Stored, write_location_auth, load_persisted_location_auth,
}
use cccollab.Auth.{Web, Request, TokenSet, Result, ok, failed, Sent, refresh_access_token}
use cccollab.Auth.Times.{greater}

abbrev pub clerk_freshness_margin_ms : ℕ
clerk_freshness_margin_ms = 10000

-- what the fetcher is made for
pub record RemoteClient : Type 0 where
  pub location_name : String
  pub url : String
  pub clerk_issuer : String
  pub clerk_client_id : String
  pub user_email : Option String
  pub user_id : Option String

-- `currentIdToken`, `currentRefreshToken` and `currentExpiresAt`
pub record Memory : Type 0 where
  pub id_token : String
  pub refresh_token : String
  pub expires_at : Number

-- `expiresAt - now > CLERK_FRESHNESS_MARGIN_MS`
unfoldable pub is_fresh : ℕ → Number → Bool
is_fresh now expires_at = before_number (now + clerk_freshness_margin_ms) expires_at

unfoldable pub still_fresh : ℕ → Memory → Bool
unfolding is_fresh
still_fresh now m = not (is_empty m.id_token) && is_fresh now m.expires_at

-- What one call answers, what it leaves in memory and on disk, and what it sends.
pub record Call : Type 0 where
  pub answer : Option String
  pub memory : Memory
  pub file : Stored
  pub requests : List Request

abbrev pub newer : ℕ → Memory → PersistedAuth → String → Number → Option Memory
newer now m on_disk id_token expires_at =
    if is_fresh now expires_at && greater expires_at m.expires_at
    then some (record {
      id_token = id_token;
      refresh_token = or_else (truthy on_disk.refresh_token) m.refresh_token;
      expires_at = expires_at;
    })
    else none

-- the peer's tokens, where they are fresh and newer than those in memory
unfoldable pub adopted : ℕ → Memory → PersistedAuth → Option Memory
unfolding is_fresh
adopted now m on_disk = do
  id_token ← truthy on_disk.id_token
  expires_at ← on_disk.access_token_expires_at
  newer now m on_disk id_token expires_at

abbrev pub auth_of : ℕ → RemoteClient → TokenSet → LocationAuth
auth_of now client next = record {
  url = some client.url;
  access_token = next.access_token;
  refresh_token = next.refresh_token;
  id_token = next.id_token;
  access_token_expires_at = next.access_token_expires_at;
  clerk_issuer = none;
  clerk_client_id = none;
  user_email = client.user_email;
  user_id = client.user_id;
  updated_at = some (of_ms now);
}

abbrev pub memory_of : TokenSet → Memory
memory_of next = record {
  id_token = next.id_token;
  refresh_token = next.refresh_token;
  expires_at = next.access_token_expires_at;
}

-- `persist`; it throws where the file cannot be written, or is no configuration
abbrev pub persist : Bool → ℕ → RemoteClient → TokenSet → Stored → Option Stored
persist true now client next file =
    write_location_auth now client.location_name (auth_of now client next) file
persist false now client next file = none

-- after `currentExpiresAt = next.accessTokenExpiresAt`
unfoldable pub after_refresh : Bool → ℕ → RemoteClient → List Request → Stored → TokenSet → Call
after_refresh writable now client requests file next =
    elim (persist writable now client next file) [
      | none ↦ record {
        answer = none;
        memory = record (memory_of next) { id_token = "" };
        file = file;
        requests = requests;
      }
      | some f ↦ record {
        answer = some next.id_token;
        memory = memory_of next;
        file = f;
        requests = requests;
      }
    ]

-- the inner `try` with its `catch`
unfoldable pub refresh : Web → Bool → ℕ → RemoteClient → Memory → Stored → Call
unfolding after_refresh
refresh web writable now client m file =
    let sent =
      refresh_access_token web now client.clerk_issuer client.clerk_client_id m.refresh_token
        (some m.id_token) in
    elim sent.result [
      | failed e ↦ record {
        answer = none;
        memory = record m { id_token = "" };
        file = file;
        requests = sent.requests;
      }
      | ok next ↦ after_refresh writable now client sent.requests file next
    ]

-- the callback under the lock
unfoldable pub locked_call : Web → Bool → ℕ → RemoteClient → Memory → Stored → Call
unfolding adopted refresh
locked_call web writable now client m file =
    elim (load_persisted_location_auth file client.location_name >>= (λ d. adopted now m d)) [
      | some a ↦ record { answer = some a.id_token; memory = a; file = file; requests = [] }
      | none ↦
          if is_empty m.refresh_token
          then record {
            answer = none;
            memory = record m { id_token = "" };
            file = file;
            requests = [];
          }
          else refresh web writable now client m file
    ]

-- A call at `asked`; `none` where the lock times out, which rejects. `now` is the clock once it is held.
unfoldable pub fetch_token :
    Web
    → (locks writable forced : Bool) → (asked now : ℕ) → RemoteClient
    → Memory
    → Stored
    → Option Call
unfolding still_fresh locked_call
fetch_token web locks writable forced asked now client m file =
    if not forced && still_fresh asked m
    then some (record { answer = some m.id_token; memory = m; file = file; requests = [] })
    else if locks
    then some (locked_call web writable now client m file)
    else none
