-- ===== src/Auth/Pkce/Guarded.antt =====
-- What runClerkPkce may send, and when (mcp_server/src/remote/auth-clerk.ts).
use mathlib.Core.Path.{subst}
use cccollab.Base.{
  ℕ, String, ◌≡◌, ◌⊎◌, refl, sym, true, Option, none, some, List, [], ◌∷◌, ◌++◌, map, arith, eq_iff,
  Bool-cases, Option-cases, inl, inr, All, All-append,
}
use cccollab.Base.Nullable.{or_else}
use cccollab.Auth.{
  Web, Request, TokenSet, ok, is_secure_bearer_url, exchange_params, exchange_code_for_tokens,
}
use cccollab.Auth.Tokens.{post_token-requests}
use cccollab.Auth.Pkce.{
  PkceArgs, Callback, Surroundings, Event, listening, posted, shut_down, Flow,
  default_clerk_redirect_port, matches, exchange_of, build_authorize_url, handle_callback,
  authorize, run_clerk_pkce,
}

-- the callback brought back the state that was drawn
abbrev pub IsReturned : Surroundings → Callback → Type 0
IsReturned w cb = (w.callback ≡ some cb) × (cb.state ≡ some w.state)

-- A request of the flow carries the code of a returned callback and the verifier, to a secure endpoint.
abbrev pub IsGuarded : Surroundings → PkceArgs → Event → Type 0
IsGuarded w args (posted req) =
    (is_secure_bearer_url req.endpoint ≡ true)
    × ((port : ℕ) × (cb : Callback) × IsReturned w cb
        × (req.params ≡ exchange_params (exchange_of w args port cb)))
IsGuarded w args _ = Unit

matches-state : (state : String) (o : Option String) → matches state o ≡ true → o ≡ some state
matches-state state none h = absurd (ground (arith, h))
matches-state state (some s) h = ground (arith, h, eq_iff s state)

-- What a flow does is guarded, and tokens come only with a returned callback.
abbrev pub IsSound : Surroundings → PkceArgs → Flow → Type 0
IsSound w args f =
    All (IsGuarded w args) f.events
    × ((t : TokenSet) → f.result ≡ ok t → (cb : Callback) × IsReturned w cb)

exchange-IsGuarded :
    (web : Web) (w : Surroundings) (args : PkceArgs) (port : ℕ) (cb : Callback)
    → IsReturned w cb
    → All
        (IsGuarded w args)
        (map posted (exchange_code_for_tokens web w.now (exchange_of w args port cb)).requests)
unfolding exchange_code_for_tokens
exchange-IsGuarded web w args port cb returned =
    elim (post_token-requests web args.issuer (exchange_params (exchange_of w args port cb)) _) [
      | inl e ↦ subst Guards (sym e) tt
      | inr (url, secure, e) ↦ subst Guards (sym e) ((secure, (port, cb, returned, refl)), tt)
    ]
  where
    Guards : List Request → Type 0
    Guards rs = All (IsGuarded w args) (map posted rs)

handle_callback-IsSound :
    (web : Web) (w : Surroundings) (args : PkceArgs) (port : ℕ) (o : Option Callback)
    → w.callback ≡ o
    → IsSound w args (handle_callback web w args port o)
unfolding handle_callback
handle_callback-IsSound web w args port none came = (tt, λ t e. absurd (ground (arith, e)))
handle_callback-IsSound web w args port (some cb) came =
    elim (Bool-cases (matches w.state cb.state)) [
      | inr differs ↦ rw (differs, handle_callback) (tt, λ t e. absurd (ground (arith, e)))
      | inl same ↦
          let returned : IsReturned w cb = (came, matches-state w.state cb.state same) in
          rw (same, handle_callback)
            (exchange-IsGuarded web w args port cb returned, λ t e. (cb, returned))
    ]

authorize-IsSound :
    (web : Web) (w : Surroundings) (args : PkceArgs) (port : ℕ)
    → IsSound w args (authorize web w args port)
unfolding authorize
authorize-IsSound web w args port =
    let rest = handle_callback-IsSound web w args port w.callback refl in
    elim (Option-cases
      (build_authorize_url web args (w.redirect_uri port) (w.challenge w.code_verifier) w.state)) [
        | inl none_ ↦ rw (none_, authorize) (tt, λ t e. absurd (ground (arith, e)))
        | inr (url, built) ↦ elim (Bool-cases (w.opens url)) [
          | inl opens ↦ rw (built, authorize) (rw opens ((tt, rest.0), rest.1))
          | inr fails ↦ rw (built, authorize) (rw fails (tt, λ t e. absurd (ground (arith, e))))
        ]
      ]

-- Whatever comes back, the flow posts nothing but the code of a callback that has the drawn state, with
-- the drawn verifier and to a secure endpoint; it returns tokens only after such a callback; and once
-- its listener has started, the last thing that it does is to shut it down.
pub run_clerk_pkce-IsSound :
    (web : Web) (w : Surroundings) (args : PkceArgs)
    → IsSound w args (run_clerk_pkce web w args)
      × (((run_clerk_pkce web w args).events ≡ [])
          ⊎ ((before : List Event) × ((run_clerk_pkce web w args).events
                ≡ before ++ shut_down ∷ [])))
unfolding run_clerk_pkce
run_clerk_pkce-IsSound web w args =
    elim (Option-cases (w.listen (or_else args.redirect_port default_clerk_redirect_port))) [
      | inl none_ ↦ rw (none_, run_clerk_pkce) ((tt, λ t e. absurd (ground (arith, e))), inl refl)
      | inr (port, got) ↦
          let inner = authorize-IsSound web w args port in
          rw (got, run_clerk_pkce)
            (
              ((tt, All-append (IsGuarded w args) _ _ inner.0 (tt, tt)), inner.1),
              inr (listening port ∷ (authorize web w args port).events, refl),
            )
    ]
