-- ===== src/Broker/Actions.antt =====
-- The topic actions of mcp_server/src/broker.ts: POST /topics/:id/(messages|join|leave|archive|
-- unarchive).
use cccollab.Base.{ℕ, String, Option, none, some, List, [], ◌∷◌, ◌++◌, if◌then◌else◌}
use cccollab.Base.Nullable.{truthy, or_else, ◌>>=◌}
use cccollab.Base.Assoc.{lookup, set}
use cccollab.Base.StrSet.{add, remove}
use cccollab.Runtime.{Runtime}
use cccollab.Broker.State.{
  Broker, Env, Request, LocalTopic, LocalTopicMessage, active, archived, Response, respond, message,
  topic_archived, topic_unarchived, error, done, topic_joined,
}
use cccollab.Broker.Members.{broadcast}
use cccollab.Broker.Channels.{Fields, field, is_subscribed, quoted_channel, read_body, invalid_json}
use cccollab.Broker.Topics.{not_found}

pub data Action : Type 0 where
  messages join leave archive unarchive : Action

-- The topic object is the map's value: a write to it is a write of its key.
abbrev pub put_topic : String → LocalTopic → Broker → Broker
put_topic id t b = record b { topics = set id t b.topics }

abbrev pub message_fields : Fields → Option (String × String)
message_fields body = do
  text ← truthy (field "text" body)
  sender ← truthy (field "sender" body)
  some (text, sender)

abbrev pub new_message : Env → String → String → LocalTopicMessage
new_message env text sender = record { sender = sender; text = text; ts = env.now }

unfoldable pub post_message : Env → String → LocalTopic → Fields → Broker → Broker × Response
unfolding field is_subscribed
post_message env id t body b = elim (message_fields body) [
  | none ↦ (b, respond 400 (error "text and sender are required"))
  | some (text, sender) ↦
      if is_subscribed sender t.channel b
      then (
        broadcast env (message t.channel id sender text env.now) (
            put_topic id (record t { messages = t.messages ++ new_message env text sender ∷ [] })
              b),
        respond 200 done,
      )
      else (
        b,
        respond 403 (error (quoted_channel "Sender is not subscribed to channel \"" t.channel)),
      )
]

unfoldable pub join_topic : String → LocalTopic → Fields → Broker → Broker × Response
unfolding field is_subscribed
join_topic id t body b = elim (truthy (field "sessionId" body)) [
  | none ↦ (b, respond 400 (error "sessionId is required"))
  | some session_id ↦
      if is_subscribed session_id t.channel b
      then (
        put_topic id (record t { joined_sessions = add session_id t.joined_sessions }) b,
        respond 200 (topic_joined t.channel t.messages),
      )
      else (
        b,
        respond 403 (error (quoted_channel "You are not subscribed to channel \"" t.channel)),
      )
]

unfoldable pub leave_topic : String → LocalTopic → Fields → Broker → Broker × Response
unfolding field
leave_topic id t body b = elim (truthy (field "sessionId" body)) [
  | none ↦ (b, respond 200 done)
  | some session_id ↦ (
    put_topic id (record t { joined_sessions = remove session_id t.joined_sessions }) b,
    respond 200 done,
  )
]

unfoldable pub archive_topic : Env → String → LocalTopic → Fields → Broker → Broker × Response
unfolding field
archive_topic env id t body b = (
  broadcast env (topic_archived t.channel id (or_else (field "archivedBy" body) "unknown"))
      (put_topic id (record t { state = archived }) b),
  respond 200 done,
)

unfoldable pub unarchive_topic : Env → String → LocalTopic → Fields → Broker → Broker × Response
unfolding field
unarchive_topic env id t body b = (
  broadcast env (topic_unarchived t.channel id (or_else (field "unarchivedBy" body) "unknown"))
      (put_topic id (record t { state = active }) b),
  respond 200 done,
)

unfoldable pub run_action : Env → String → LocalTopic → Action → Fields → Broker → Broker × Response
run_action env id t messages body b = post_message env id t body b
run_action env id t join body b = join_topic id t body b
run_action env id t leave body b = leave_topic id t body b
run_action env id t archive body b = archive_topic env id t body b
run_action env id t unarchive body b = unarchive_topic env id t body b

-- `rawBody ? JSON.parse(rawBody) : {}`
parse_or_empty : Runtime → List ℕ → Option Fields
parse_or_empty rt [] = some []
parse_or_empty rt (c ∷ cs) = rt.parse_json (c ∷ cs)

unfoldable pub action_body : Runtime → Request → Option Fields
unfolding read_body parse_or_empty
action_body rt req = do bytes ← read_body req; parse_or_empty rt bytes

-- POST /topics/:id/:action. A topic is never removed from the map nor replaced there, so the object
-- that the source looks up before it awaits the body is the map's value after it.
unfoldable pub post_action : Runtime → Env → String → Action → Request → Broker → Broker × Response
post_action rt env id action req b = elim (lookup id b.topics) [
  | none ↦ (b, not_found)
  | some t ↦ elim (action_body rt req) [
    | none ↦ (b, invalid_json)
    | some body ↦ run_action env id t action body b
  ]
]
