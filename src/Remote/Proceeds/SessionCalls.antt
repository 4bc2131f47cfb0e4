-- ===== src/Remote/Proceeds/SessionCalls.antt =====
-- The methods of a session of mcp_server/src/transport/remote.ts, for `Proceeds`.
use cccollab.Base.{ℕ, String, true, Option, none, some, [], Bool-cases, inl, inr, ◌||◌}
use cccollab.Base.Nullable.{truthy}
use cccollab.Remote.Backend.{Ref, Thrown}
use cccollab.Remote.Errors.{is_function_not_found_error, is_auth_error}
use cccollab.Remote.State.{Remote, register_failure}
use cccollab.Remote.Calls.{
  finished, waits, returned, Failure, disabled, rethrown, settle, organization_name, session_args,
}
use cccollab.Remote.Calls.Sessions
use cccollab.Remote.Evolves.{register_failure-Evolves}
use cccollab.Remote.Evolves.Learning.{know_all-Evolves, session-Evolves}
use cccollab.Remote.Proceeds.{Proceeds, ends, throws, ends_in, after, when_enabled-Proceeds, asks}

module _ {A : Failure → Type 0} where
  pub heartbeat_failed-Proceeds :
      (now : ℕ) (e : Thrown) (s : Remote) → Proceeds A s (Sessions.heartbeat_failed now e s)
  unfolding Sessions.heartbeat_failed
  heartbeat_failed-Proceeds now e s =
      elim (Bool-cases (is_function_not_found_error e || is_auth_error e)) [
        | inl real ↦
            rw (real, Sessions.heartbeat_failed) (ends_in s _ _ (register_failure-Evolves e now s))
        | inr transient ↦ rw (transient, Sessions.heartbeat_failed) (ends s _)
      ]

  introduced-Proceeds :
      (now : ℕ) (id : String) (s : Remote) → Proceeds A s (Sessions.introduced now id s)
  unfolding Sessions.introduced
  introduced-Proceeds now id s =
      let t : Remote = record s { session_id = some id; heartbeat = true } in
      after s t _ (session-Evolves s (some id) true) (
        asks t Ref.list_joined_for_user _ _ _ (λ later e u. ends u _)
          (λ later ids u. ends_in u _ _ (know_all-Evolves ids u)))

  pub introduce-Proceeds :
      A disabled
      → ((e : Thrown) → A (rethrown e))
      → (name : String) (objective organization : Option String) (r : Remote)
      → Proceeds A r (Sessions.introduce name objective organization r)
  unfolding Sessions.introduce Sessions.introduce_failed
  introduce-Proceeds off other name objective organization r = when_enabled-Proceeds _ _ r off (
      asks r Ref.introduce _ _ _
        (λ now e s.
          after s (register_failure e now s) _ (register_failure-Evolves e now s)
            (throws (register_failure e now s) _ (other e)))
        introduced-Proceeds)

  pub bound_name-Proceeds : (r : Remote) → Proceeds A r (Sessions.get_bound_organization_name r)
  unfolding Sessions.get_bound_organization_name
  bound_name-Proceeds r = when_enabled-Proceeds _ _ r tt (go (truthy r.session_id))
    where
      go :
          (session : Option String)
          → Proceeds A r (elim session [
            | none ↦ finished r (returned (organization_name none))
            | some id ↦ waits r Ref.get_session_context (session_args id []) (
                settle
                  (λ now e r'. finished r' (returned (organization_name none)))
                  (λ now name r'. finished r' (returned (organization_name (some name)))))
          ])
      go none = ends r _
      go (some id) =
          asks r Ref.get_session_context _ _ _ (λ now e s. ends s _) (λ now name s. ends s _)
