-- ===== src/Auth/Pkce.antt =====
-- buildAuthorizeUrl and runClerkPkce of mcp_server/src/remote/auth-clerk.ts. The random texts, the hash
-- of node:crypto, the loopback listener and the browser are arguments.
pub mod Guarded
use cccollab.Base.{
  ℕ, String, Bool, true, false, Option, none, some, List, [], ◌∷◌, ◌++◌, map, if◌then◌else◌, str_eq,
}
use cccollab.Base.Nullable.{or_else, ◌>>=◌}
use cccollab.Auth.{
  Web, Request, TokenSet, TokenExchange, AuthError, invalid_url, no_listener, no_browser,
  no_callback, state_mismatch, Result, ok, failed, exchange_code_for_tokens,
}
use Prim.Native.String

abbrev pub default_clerk_redirect_port : ℕ
default_clerk_redirect_port = 53682

abbrev pub default_clerk_scopes : List String
default_clerk_scopes = "openid" ∷ "profile" ∷ "email" ∷ []

-- `join(' ')`
unfoldable pub join_scopes : List String → String
join_scopes [] = ""
join_scopes (s ∷ []) = s
join_scopes (s ∷ ss) = String.◌++◌ s (String.◌++◌ " " (join_scopes ss))

pub record PkceArgs : Type 0 where
  pub issuer : String
  pub client_id : String
  pub scopes : Option (List String)
  pub redirect_port : Option ℕ

-- `buildAuthorizeUrl`: the URL and what is set in its query
unfoldable pub build_authorize_url :
    Web → PkceArgs → (redirect_uri code_challenge state : String) → Option Request
unfolding join_scopes
build_authorize_url web args redirect_uri code_challenge state =
    web.resolve "/oauth/authorize" args.issuer >>= (λ url. some (record {
      endpoint = url;
      params =
          ("client_id", args.client_id)
          ∷ ("redirect_uri", redirect_uri)
          ∷ ("response_type", "code")
          ∷ ("code_challenge", code_challenge)
          ∷ ("code_challenge_method", "S256")
          ∷ ("state", state)
          ∷ ("scope", join_scopes (or_else args.scopes default_clerk_scopes))
          ∷ [];
    }))

-- what comes back to the loopback listener
pub record Callback : Type 0 where
  pub code : String
  pub state : Option String

-- What surrounds the flow: the port that a listener gets (`none` where it does not start), whether the
-- browser opens, the callback (`none` where it times out), and the texts that are drawn.
pub record Surroundings : Type 0 where
  pub listen : ℕ → Option ℕ
  pub opens : Request → Bool
  pub callback : Option Callback
  pub code_verifier : String
  pub state : String
  pub challenge : String → String
  pub redirect_uri : ℕ → String
  pub now : ℕ

pub data Event : Type 0 where
  listening : (port : ℕ) → Event
  opened : (url : Request) → Event
  posted : (request : Request) → Event
  shut_down : Event

pub record Flow : Type 0 where
  pub events : List Event
  pub result : Result TokenSet

abbrev pub matches : String → Option String → Bool
matches state none = false
matches state (some s) = str_eq s state

abbrev pub exchange_of : Surroundings → PkceArgs → ℕ → Callback → TokenExchange
exchange_of w args port cb = record {
  issuer = args.issuer;
  client_id = args.client_id;
  redirect_uri = w.redirect_uri port;
  code = cb.code;
  code_verifier = w.code_verifier;
}

-- from the callback on
unfoldable pub handle_callback : Web → Surroundings → PkceArgs → ℕ → Option Callback → Flow
handle_callback web w args port none = record { events = []; result = failed no_callback }
handle_callback web w args port (some cb) =
    let sent = exchange_code_for_tokens web w.now (exchange_of w args port cb) in
    if matches w.state cb.state
    then record { events = map posted sent.requests; result = sent.result }
    else record { events = []; result = failed state_mismatch }

-- the body of the `try`
unfoldable pub authorize : Web → Surroundings → PkceArgs → ℕ → Flow
unfolding build_authorize_url handle_callback
authorize web w args port =
    elim (build_authorize_url web args (w.redirect_uri port) (w.challenge w.code_verifier)
      w.state) [
        | none ↦ record { events = []; result = failed invalid_url }
        | some url ↦
            let rest = handle_callback web w args port w.callback in
            if w.opens url
            then record { events = opened url ∷ rest.events; result = rest.result }
            else record { events = []; result = failed no_browser }
      ]

unfoldable pub run_clerk_pkce : Web → Surroundings → PkceArgs → Flow
unfolding authorize
run_clerk_pkce web w args =
    elim (w.listen (or_else args.redirect_port default_clerk_redirect_port)) [
      | none ↦ record { events = []; result = failed no_listener }
      | some port ↦
          let inner = authorize web w args port in
          record { events = listening port ∷ inner.events ++ shut_down ∷ []; result = inner.result }
    ]
