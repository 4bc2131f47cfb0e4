-- ===== src/Broker/Channels.antt =====
-- Request bodies, and the channel handlers of mcp_server/src/broker.ts.
use Prim.Native.String
use cccollab.Base.{
  ℕ, ◌+◌, ◌*◌, String, Bool, false, Option, none, some, List, [], ◌∷◌, ◌++◌, map, if◌then◌else◌,
  length, ltb,
}
use cccollab.Base.Nullable.{truthy, ◌>>=◌}
use cccollab.Base.Assoc.{lookup}
use cccollab.Base.StrSet.{has}
use cccollab.Runtime.{Runtime}
use cccollab.Broker.State.{
  Broker, Env, Request, Response, respond, raw, broadcast_sent, health, event_stream, error, done,
  channel_joined, channel_left, channel_list, ChannelRow,
}
use cccollab.Broker.Members.{normalize_channel, broadcast, join_channel, leave_channel, members_of}

abbrev pub max_body_size : ℕ
max_body_size = 1024 * 1024

-- The `data` events of `readBody`: what has arrived, and its size; `none` is the rejection.
unfoldable pub read_chunks : List ℕ → ℕ → List (List ℕ) → Option (List ℕ)
read_chunks got size [] = some got
read_chunks got size (chunk ∷ chunks) =
    let rest = read_chunks (got ++ chunk) (size + length chunk) chunks in
    if ltb max_body_size (size + length chunk) then none else rest

unfoldable pub read_body : Request → Option (List ℕ)
unfolding read_chunks
read_body req = if req.failed then none else read_chunks [] 0 req.chunks

abbrev pub Fields : Type 0
Fields = List (String × String)

-- `JSON.parse(await readBody(req))`; `none` is what the handlers' `catch` answers
unfoldable pub json_body : Runtime → Request → Option Fields
unfolding read_body
json_body rt req = do bytes ← read_body req; rt.parse_json bytes

-- `body.k`
unfoldable pub field : String → Fields → Option String
field k body = lookup k body

abbrev pub invalid_json : Response
invalid_json = respond 400 (error "invalid JSON")

infixr 65 ◌+++◌
abbrev pub ◌+++◌ : String → String → String
s +++ t = String.◌++◌ s t

-- `sessions.get(name)` is there and is subscribed to the channel
unfoldable pub is_subscribed : String → String → Broker → Bool
is_subscribed name channel b = elim (lookup name b.sessions) [
  | none ↦ false
  | some info ↦ has channel info.channels
]

-- A handler's work on the parsed body, or its `catch`.
abbrev pub with_body : Runtime → Request → Broker → (Fields → Broker × Response) → Broker × Response
with_body rt req b handler = elim (json_body rt req) [
  | none ↦ (b, invalid_json)
  | some body ↦ handler body
]

-- GET /health
unfoldable pub get_health : Broker → Broker × Response
get_health b = (b, respond 200 (health (length b.clients)))

-- GET /events
unfoldable pub get_events : Env → Broker → Broker × Response
get_events env b =
    (record b { clients = b.clients ++ env.connection ∷ [] }, respond 200 event_stream)

-- POST /local-event: `{ source: 'local', ...event }`
unfoldable pub local_event : Env → Fields → Broker → Broker × Response
local_event env event b = elim (truthy (field "type" event)) [
  | none ↦ (b, respond 400 (error "type is required"))
  | some type ↦ (broadcast env (raw (("source", "local") ∷ event)) b, respond 200 done)
]

abbrev pub row : String → ℕ → ChannelRow
row name size = record { name = name; subscriber_count = size; session_count = size }

-- GET /channels
unfoldable pub get_channels : Option String → Broker → Broker × Response
get_channels session_id b = elim (truthy session_id) [
  | none ↦ (b, respond 200 (channel_list (map (λ e. row e.0 (length e.1)) b.channels)))
  | some name ↦ elim (lookup name b.sessions) [
    | none ↦ (b, respond 200 (channel_list []))
    | some info ↦ (
      b,
      respond 200 (channel_list (map (λ ch. row ch (length (members_of ch b))) info.channels)),
    )
  ]
]

-- `!sessionId || !channel`
abbrev pub session_and_channel : Runtime → Fields → Option (String × String)
session_and_channel rt body = do
  session_id ← truthy (field "sessionId" body)
  channel ← normalize_channel rt (field "channel" body)
  some (session_id, channel)

abbrev pub missing_channel : Response
missing_channel = respond 400 (error "sessionId and non-empty channel are required")

-- POST /channels/join
unfoldable pub post_join : Runtime → Env → Fields → Broker → Broker × Response
unfolding field
post_join rt env body b = elim (session_and_channel rt body) [
  | none ↦ (b, missing_channel)
  | some (session_id, channel) ↦
      let b' = (join_channel env.now session_id channel b).0 in
      (b', respond 200 (channel_joined channel (length (members_of channel b'))))
]

-- POST /channels/leave
unfoldable pub post_leave : Runtime → Fields → Broker → Broker × Response
unfolding field
post_leave rt body b = elim (session_and_channel rt body) [
  | none ↦ (b, missing_channel)
  | some (session_id, channel) ↦
      ((leave_channel session_id channel b).0, respond 200 (channel_left channel))
]

abbrev pub quoted_channel : String → String → String
quoted_channel start channel = start +++ channel +++ "\"."

-- `!body.text || !body.sender || !channel`
abbrev pub broadcast_fields : Runtime → Fields → Option (String × String × String)
broadcast_fields rt body = do
  text ← truthy (field "text" body)
  sender ← truthy (field "sender" body)
  channel ← normalize_channel rt (field "channel" body)
  some (text, sender, channel)

-- POST /broadcast
unfoldable pub post_broadcast : Runtime → Env → Fields → Broker → Broker × Response
unfolding field is_subscribed
post_broadcast rt env body b = elim (broadcast_fields rt body) [
  | none ↦ (b, respond 400 (error "text, sender and channel are required"))
  | some (text, sender, channel) ↦
      if is_subscribed sender channel b
      then (broadcast env (broadcast_sent channel sender text env.now) b, respond 200 done)
      else (
        b,
        respond 400 (error (quoted_channel "Sender is not subscribed to channel \"" channel)),
      )
]
