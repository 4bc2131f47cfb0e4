-- ===== src/Remote/Calls/Sessions.antt =====
-- The session methods of mcp_server/src/transport/remote.ts, with the heartbeat.
use cccollab.Base.{ℕ, String, true, ◌||◌, Option, none, some, [], ◌∷◌, ◌++◌, map, if◌then◌else◌}
use cccollab.Base.Nullable.{truthy}
use cccollab.Transport.{TransportSession}
use cccollab.Remote.Backend.{text, SessionDoc, Thrown, Ref}
use cccollab.Remote.Errors.{is_function_not_found_error, is_auth_error}
use cccollab.Remote.State.{Remote, org_scoped_args, register_failure}
use cccollab.Remote.Calls.{
  Next, finished, waits, returned, threw, settle, fall_back, with_session, when_enabled,
  session_args, nothing, organization_name, sessions, disabled, rethrown,
}
use cccollab.Remote.Calls.Channels.{given_text}
use cccollab.Remote.Calls.Topics.{know_all}

abbrev done : Remote → Next
done r = finished r (returned nothing)

-- `introduce` behind its mutation: `startHeartbeat`, and the preload, whose errors are dropped
unfoldable pub introduced : ℕ → String → Remote → Next
introduced now id r =
    let r' : Remote = record r { session_id = some id; heartbeat = true } in
    waits r' Ref.list_joined_for_user (org_scoped_args r' [])
      (settle (λ later e s. done s) (λ later ids s. done (know_all ids s)))

-- the `catch` that rethrows
unfoldable pub introduce_failed : ℕ → Thrown → Remote → Next
introduce_failed now e r = finished (register_failure e now r) (threw (rethrown e))

unfoldable pub introduce : String → Option String → Option String → Remote → Next
unfolding introduced introduce_failed
introduce name objective organization r =
    when_enabled (threw disabled)
      (waits r Ref.introduce
        (("sessionName", text name) ∷ given_text "objective" objective
          ++ given_text "organizationId" organization)
        (settle introduce_failed introduced))
      r

-- the `catch` of `sendHeartbeat`
unfoldable pub heartbeat_failed : ℕ → Thrown → Remote → Next
heartbeat_failed now e r =
    if is_function_not_found_error e || is_auth_error e
    then done (register_failure e now r)
    else done r

unfoldable pub send_heartbeat : Remote → Next
unfolding heartbeat_failed
send_heartbeat r =
    with_session (returned nothing)
      (λ id.
        waits r Ref.update_last_seen (session_args id [])
          (settle heartbeat_failed (λ now a r'. done r')))
      r

-- `getBoundOrganizationName`; an empty id is no session either
unfoldable pub get_bound_organization_name : Remote → Next
get_bound_organization_name r =
    when_enabled (returned (organization_name none))
      (elim (truthy r.session_id) [
        | none ↦ finished r (returned (organization_name none))
        | some id ↦ waits r Ref.get_session_context (session_args id []) (
            settle (λ now e r'. finished r' (returned (organization_name none)))
              (λ now name r'. finished r' (returned (organization_name (some name)))))
      ])
      r

abbrev to_session : SessionDoc → TransportSession
to_session s = record {
  id = some s.id;
  name = s.session_name;
  objective = s.objective;
  machine = s.machine;
  channels = [];
  registered_at = s.created_at;
  last_seen = s.last_seen_at;
}

unfoldable pub list_sessions : Option String → Remote → Next
list_sessions channel r =
    when_enabled (returned (sessions []))
      (waits r Ref.sessions_by_channel (org_scoped_args r (given_text "channel" channel)) (
        settle (fall_back (sessions []))
          (λ now rows r'. finished r' (returned (sessions (map to_session rows))))))
      r

unfoldable pub deregister_session : Remote → Next
deregister_session r =
    with_session (returned nothing)
      (λ id.
        waits r Ref.remove (session_args id [])
          (settle (λ now e r'. done r') (λ now a r'. done r')))
      r
