-- ===== src/Broker/Sessions.antt =====
-- The session handlers of mcp_server/src/broker.ts.
use cccollab.Base.{ℕ, String, Bool, true, Option, none, some, [], map, keep}
use cccollab.Base.Nullable.{truthy, or_option}
use cccollab.Base.Assoc.{lookup, set, delete, values}
use cccollab.Base.StrSet.{has}
use cccollab.Runtime.{Runtime}
use cccollab.Broker.State.{
  Broker, Env, SessionInfo, SessionRow, Response, respond, error, done, session_list,
}
use cccollab.Broker.Members.{normalize_channel, remove_session_from_all_channels}
use cccollab.Broker.Channels.{Fields, field}

unfoldable pub is_member : Option String → SessionInfo → Bool
is_member none s = true
is_member (some channel) s = has channel s.channels

abbrev session_row : SessionInfo → SessionRow
session_row s = record {
  name = s.name;
  objective = s.objective;
  registered_at = s.registered_at;
  channels = s.channels;
}

-- GET /sessions
unfoldable pub get_sessions : Runtime → Fields → Broker → Broker × Response
unfolding field
get_sessions rt query b =
    let filter = normalize_channel rt (field "channel" query) in
    (b, respond 200 (session_list (map session_row (keep (is_member filter) (values b.sessions)))))

unfoldable pub registered : ℕ → String → Option String → Option SessionInfo → SessionInfo
registered now name objective (some existing) = record existing {
  objective = or_option objective existing.objective;
}
registered now name objective none = record {
  name = name;
  objective = objective;
  registered_at = now;
  channels = [];
}

-- POST /sessions
unfoldable pub post_session : Env → Fields → Broker → Broker × Response
unfolding field registered
post_session env body b = elim (truthy (field "name" body)) [
  | none ↦ (b, respond 400 (error "name is required"))
  | some name ↦
      let info = registered env.now name (field "objective" body) (lookup name b.sessions) in
      (record b { sessions = set name info b.sessions }, respond 200 done)
]

-- DELETE /sessions/:name; `none` is the URIError of `decodeURIComponent`, which nothing catches
unfoldable pub delete_session : Runtime → String → Broker → Option (Broker × Response)
delete_session rt segment b = elim (rt.decode_uri segment) [
  | none ↦ none
  | some name ↦
      let b' = remove_session_from_all_channels name b in
      some (record b' { sessions = delete name b'.sessions }, respond 200 done)
]
