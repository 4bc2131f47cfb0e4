-- ===== src/Auth/Tests.antt =====
-- Runs of mcp_server/src/remote with a small token endpoint.
use cccollab.Base.{
  String, ◌≡◌, ◌≢◌, ◌⊎◌, refl, Bool, true, false, Option, none, some, List, [], ◌∷◌, ◌++◌,
  if◌then◌else◌, str_eq, arith, inr,
}
use cccollab.Base.Assoc.{Assoc, lookup}
use cccollab.Base.Text.{is_empty}
use cccollab.Base.StrSet.{has}
use cccollab.Runtime.{Number, of_ms, before_number}
use cccollab.Config.{Value, text, number}
use cccollab.Config.Save.{
  Stored, stored, PersistedAuth, persisted_auth, read_existing, load_persisted_location_auth,
  write_location_auth,
}
use cccollab.Auth.{
  Endpoint, is_secure_bearer_url, Web, Request, Response, TokenSet, TokenExchange, unexpected, ok,
  failed, refresh_access_token,
}
use cccollab.Auth.Tokens.{IsRedacted, unexpected-IsRedacted}
use cccollab.Auth.Pkce.{PkceArgs, Surroundings, Event, shut_down, run_clerk_pkce}
use cccollab.Auth.Pkce.Guarded.{IsSound, run_clerk_pkce-IsSound}
use cccollab.Auth.Times.{greater, expires_at}
use cccollab.Auth.Fetcher.{RemoteClient, Memory, Call, is_fresh, locked_call, fetch_token}
use cccollab.Auth.Fetcher.Agrees.{IsSettled, fetch_token-IsSettled}
use cccollab.Auth.Fetcher.Peers.{own_request, fetch_token-adopts, fetch_token-ignores_disk}

-- an endpoint that has used up the refresh token "R0", and answers "R1" with new tokens
abbrev new_tokens : Assoc Value
new_tokens =
    ("access_token", text "A2")
    ∷ ("refresh_token", text "R2")
    ∷ ("id_token", text "I2")
    ∷ ("expires_in", number (of_ms 3600))
    ∷ []

abbrev answer_to : Option String → Response
answer_to none = record { is_ok = true; json = new_tokens }
answer_to (some token) =
    if str_eq token "R0"
    then record { is_ok = false; json = ("error", text "invalid_grant") ∷ [] }
    else record { is_ok = true; json = new_tokens }

abbrev web : Web
web = record {
  resolve = λ path base. some (record { href = base; protocol = "https:"; hostname = "clerk" });
  decode_payload = λ s. none;
  fetch = λ req. some (answer_to (lookup "refresh_token" req.params));
}

abbrev odd_web : Web
odd_web = record web {
  fetch = λ req. some (record { is_ok = true; json = ("id_token", text "secret") ∷ [] });
}

abbrev client : RemoteClient
client = record {
  location_name = "remote";
  url = "https://collab";
  clerk_issuer = "https://clerk";
  clerk_client_id = "app";
  user_email = none;
  user_id = none;
}

abbrev file_with : String → Number → Stored
file_with token at = stored (record {
  name = none;
  objective = none;
  locations = some (
      (
        "remote",
        record {
          fields =
              ("refreshToken", text token)
              ∷ ("idToken", text "I1")
              ∷ ("accessTokenExpiresAt", number at)
              ∷ [];
          active = none;
          channels = none;
        },
      )
      ∷ []);
})

abbrev memory : Memory
memory = record { id_token = "I1"; refresh_token = "R1"; expires_at = of_ms 1000 }

abbrev shown : Assoc Value
shown = ("id_token", text "<redacted>") ∷ []

abbrev exchange : TokenExchange
exchange = record {
  issuer = "https://clerk";
  client_id = "app";
  redirect_uri = "http://127.0.0.1:53682/cccollab-oauth-callback";
  code = "c";
  code_verifier = "v";
}

odd_answer :
    (refresh_access_token odd_web 5000 "https://clerk" "app" "R1" none).result
    ≡ failed (unexpected shown)
unfolding refresh_access_token lookup is_empty has
odd_answer = refl

unexpected-IsRedacted_example : IsRedacted shown
unexpected-IsRedacted_example =
    unexpected-IsRedacted odd_web 5000 exchange "https://clerk" "app" "R1" none shown
      (inr odd_answer)

abbrev tokens : TokenSet
tokens = record {
  access_token = "A2";
  refresh_token = "R2";
  id_token = "I2";
  access_token_expires_at = of_ms 3605000;
}

good_answer : (refresh_access_token web 5000 "https://clerk" "app" "R1" none).result ≡ ok tokens
unfolding refresh_access_token lookup is_empty expires_at
good_answer = refl

abbrev surroundings : Surroundings
surroundings = record {
  listen = λ port. some port;
  opens = λ req. true;
  callback = some (record { code = "c"; state = some "s" });
  code_verifier = "v";
  state = "s";
  challenge = λ v. v;
  redirect_uri = λ port. "http://127.0.0.1:53682/cccollab-oauth-callback";
  now = 5000;
}

abbrev pkce_args : PkceArgs
pkce_args = record {
  issuer = "https://clerk";
  client_id = "app";
  scopes = none;
  redirect_port = none;
}

run_clerk_pkce-IsSound_example :
    IsSound surroundings pkce_args (run_clerk_pkce web surroundings pkce_args)
    × (((run_clerk_pkce web surroundings pkce_args).events ≡ [])
        ⊎ ((before : List Event) × ((run_clerk_pkce web surroundings pkce_args).events
              ≡ before ++ shut_down ∷ [])))
run_clerk_pkce-IsSound_example = run_clerk_pkce-IsSound web surroundings pkce_args

abbrev disk : Stored
disk = file_with "R1" (of_ms 1000)

abbrev refreshed : Call
refreshed = locked_call web true 5000 client memory disk

refreshed_run : fetch_token web true true true 5000 5000 client memory disk ≡ some refreshed
unfolding fetch_token
refreshed_run = refl

fetch_token-IsSettled_example : IsSettled "remote" refreshed
fetch_token-IsSettled_example =
    fetch_token-IsSettled web true true true 5000 5000 client memory disk refreshed refreshed_run

refreshed_answer : refreshed.answer ≡ some "I2"
unfolding locked_call lookup is_empty read_existing persisted_auth is_fresh
    load_persisted_location_auth before_number refresh_access_token write_location_auth expires_at
refreshed_answer = refl

abbrev no_requests : List Request → Bool
no_requests [] = true
no_requests (r ∷ rs) = false

refreshed_sent : no_requests refreshed.requests ≡ false
unfolding locked_call lookup is_empty read_existing persisted_auth is_fresh
    load_persisted_location_auth before_number refresh_access_token write_location_auth expires_at
refreshed_sent = refl

refreshed_asked : refreshed.requests ≢ []
refreshed_asked e = absurd (ground (arith, e, refreshed_sent))

refreshed_kept : is_empty refreshed.memory.refresh_token ≡ false
unfolding locked_call lookup is_empty read_existing persisted_auth is_fresh
    load_persisted_location_auth before_number refresh_access_token write_location_auth expires_at
refreshed_kept = refl

refreshed_fresh : is_fresh 6000 refreshed.memory.expires_at ≡ true
unfolding locked_call lookup is_empty read_existing persisted_auth is_fresh
    load_persisted_location_auth before_number refresh_access_token write_location_auth expires_at
refreshed_fresh = refl

refreshed_later : greater refreshed.memory.expires_at memory.expires_at ≡ true
unfolding locked_call lookup is_empty read_existing persisted_auth is_fresh
    load_persisted_location_auth before_number refresh_access_token write_location_auth expires_at
    greater
refreshed_later = refl

fetch_token-adopts_example :
    fetch_token web true true true 6000 6000 client memory refreshed.file
    ≡ some (record {
      answer = some "I2";
      memory = refreshed.memory;
      file = refreshed.file;
      requests = [];
    })
fetch_token-adopts_example =
    fetch_token-adopts web web true true true 5000 5000 6000 6000 client client memory memory disk
      refreshed "I2" refreshed_run refreshed_answer refreshed_asked refreshed_kept refl
      refreshed_fresh refreshed_later

-- the peer has used up "R0" and has got "R1", but its tokens have run out
abbrev used : Memory
used = record memory { refresh_token = "R0" }

abbrev on_disk : PersistedAuth
on_disk = persisted_auth (
    ("refreshToken", text "R1")
    ∷ ("idToken", text "I1")
    ∷ ("accessTokenExpiresAt", number (of_ms 1000))
    ∷ [])

disk_loads : load_persisted_location_auth disk "remote" ≡ some on_disk
unfolding load_persisted_location_auth lookup read_existing
disk_loads = refl

disk_at : on_disk.access_token_expires_at ≡ some (of_ms 1000)
unfolding persisted_auth lookup
disk_at = refl

disk_stale : is_fresh 5000 (of_ms 1000) ≡ false
unfolding is_fresh before_number
disk_stale = refl

abbrev token_url : Endpoint
token_url = record { href = "https://clerk"; protocol = "https:"; hostname = "clerk" }

fetch_token-ignores_disk_example :
    fetch_token web true true true 5000 5000 client used disk
    ≡ some (record {
      answer = none;
      memory = record used { id_token = "" };
      file = disk;
      requests = own_request client used token_url ∷ [];
    })
unfolding is_empty is_secure_bearer_url lookup
fetch_token-ignores_disk_example =
    fetch_token-ignores_disk web true true 5000 5000 client used disk on_disk (of_ms 1000) token_url
      (answer_to (some "R0")) refl disk_loads disk_at disk_stale refl refl refl refl refl
