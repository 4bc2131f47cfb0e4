-- ===== src/Broker/Members.antt =====
-- The functions of mcp_server/src/broker.ts that change the maps, and the broadcast.
use cccollab.Base.{
  ℕ, String, Bool, false, not, Option, none, some, List, [], ◌∷◌, ◌++◌, map, if◌then◌else◌, keep,
  str_eq,
}
use cccollab.Base.Text.{trim, is_empty}
use cccollab.Base.Assoc.{lookup, set, delete, map_values}
use cccollab.Base.StrSet.{has, add, remove}
use cccollab.Runtime.{Runtime}
use cccollab.Broker.State.{Broker, Env, Event, LocalTopic, SessionInfo}

-- `raw` is `none` where it is no text.
unfoldable pub normalize_channel : Runtime → Option String → Option String
normalize_channel rt none = none
normalize_channel rt (some raw) =
    let trimmed = rt.lower (trim raw) in if is_empty trimmed then none else some trimmed

-- Each connection is written to; one on which the write throws is dropped.
unfoldable pub broadcast : Env → Event → Broker → Broker
broadcast env event b =
    let reached = keep env.writable b.clients in
    record b { clients = reached; sent = b.sent ++ map (λ c. (c, event)) reached }

unfoldable pub ensure_session : ℕ → String → Broker → SessionInfo
ensure_session now name b = elim (lookup name b.sessions) [
  | none ↦ record { name = name; objective = none; registered_at = now; channels = [] }
  | some info ↦ info
]

abbrev pub members_of : String → Broker → List String
members_of channel b = elim (lookup channel b.channels) [ none ↦ [] | some members ↦ members ]

unfoldable pub join_channel : ℕ → String → String → Broker → Broker × Bool
unfolding ensure_session
join_channel now session_name channel b =
    let info = ensure_session now session_name b in
    let already = has channel info.channels in
    let info' = record info { channels = add channel info.channels } in
    (
      record b {
        sessions = set session_name info' b.sessions;
        channels = set channel (add session_name (members_of channel b)) b.channels;
      },
      not already,
    )

-- `members.delete(name)`, and the channel's entry with its last member
unfoldable pub drop_member : String → String → Broker → Broker
drop_member session_name channel b = elim (lookup channel b.channels) [
  | none ↦ b
  | some members ↦ elim (remove session_name members) [
    | [] ↦ record b { channels = delete channel b.channels }
    | m ∷ ms ↦ record b { channels = set channel (m ∷ ms) b.channels }
  ]
]

unfoldable pub leave_topic_of : String → String → LocalTopic → LocalTopic
leave_topic_of session_name channel t =
    if str_eq t.channel channel
    then record t { joined_sessions = remove session_name t.joined_sessions }
    else t

unfoldable pub leave_channel : String → String → Broker → Broker × Bool
unfolding drop_member leave_topic_of
leave_channel session_name channel b = elim (lookup session_name b.sessions) [
  | none ↦ (b, false)
  | some info ↦
      let removed = has channel info.channels in
      let info' = record info { channels = remove channel info.channels } in
      let b' =
        drop_member session_name channel
          (record b { sessions = set session_name info' b.sessions }) in
      (record b' { topics = map_values (leave_topic_of session_name channel) b'.topics }, removed)
]

unfoldable pub leave_all : String → List String → Broker → Broker
leave_all session_name [] b = b
leave_all session_name (ch ∷ chs) b = leave_all session_name chs (leave_channel session_name ch b).0

unfoldable pub remove_session_from_all_channels : String → Broker → Broker
unfolding leave_all
remove_session_from_all_channels session_name b = elim (lookup session_name b.sessions) [
  | none ↦ b
  | some info ↦ leave_all session_name info.channels b
]
