-- ===== src/Listener.antt =====
-- mcp_server/src/broker-event-listener.ts: the SSE stream cut into lines, and which events a
-- session's bus gets. `isExactSelf` is of mcp_server/src/session.ts.
pub mod Stream
pub mod Heard
pub mod Pushed
pub mod Tests
use Prim.Native.Char.{Char, code}
use Prim.Native.String
use Prim.Native.String.{[], ◌∷◌}
use mathlib.Core.List
use cccollab.Base.{
  ℕ, String, Bool, true, false, not, ◌&&◌, Option, none, some, List, if◌then◌else◌, eqb, str_eq,
}
use cccollab.Base.Text.{is_empty}
use cccollab.Base.Nullable.{truthy, or_else, ◌>>=◌}
use cccollab.Base.Assoc.{is_some}
use cccollab.Runtime.{Runtime}
use cccollab.Context.{ActiveContext, normalize_channel_name, is_channel_subscribed, is_topic_joined}
use cccollab.MessageBus.{ParsedMessage}

-- The complete lines of a text, and what stands behind the last newline.
abbrev pub grow_line : Char → List String × String → List String × String
grow_line c (List.[], rest) = (List.[], c ∷ rest)
grow_line c (List.◌∷◌ l ls, rest) = (List.◌∷◌ (c ∷ l) ls, rest)

-- `buffer.split('\n')`, the last part popped
unfoldable pub split_lines : String → List String × String
split_lines [] = (List.[], [])
split_lines (c ∷ s) =
    let rest = split_lines s in
    if eqb (code c) b'\n' then (List.◌∷◌ [] rest.0, rest.1) else grow_line c rest

-- `res.on('data')`, over the bytes of the chunks: the lines that they complete, and the buffer.
-- `decode` is `chunk.toString()`, which decodes each chunk by itself.
unfoldable pub on_data : (List ℕ → String) → String → List (List ℕ) → List String × String
on_data decode buffer List.[] = (List.[], buffer)
on_data decode buffer (List.◌∷◌ chunk chunks) =
    let lines = split_lines (String.◌++◌ buffer (decode chunk)) in
    let later = on_data decode lines.1 chunks in (List.◌++◌ lines.0 later.0, later.1)

pub data EventType : Type 0 where
  message topic_created topic_archived topic_unarchived broadcast other : EventType

pub record EventTopic : Type 0 where
  pub topic : String
  pub channel : Option String
  pub creator : String
  pub created_at : Option String

pub record LocalEvent : Type 0 where
  pub type : EventType
  pub channel : Option String
  pub topic_id : Option String
  pub topic : Option EventTopic
  pub sender : Option String
  pub text : Option String
  pub archived_by : Option String
  pub unarchived_by : Option String
  pub ts : Option String

-- `isExactSelf`; the session's name is missing until it is set
unfoldable pub is_exact_self : Option String → String → Bool
is_exact_self none sender = false
is_exact_self (some name) sender = str_eq sender name

-- `author && this.session.isExactSelf(author)`
unfoldable pub is_own : Option String → Option String → Bool
unfolding is_exact_self
is_own name author = elim (truthy author) [ none ↦ false | some a ↦ is_exact_self name a ]

unfoldable pub channel_subscribed : Runtime → ActiveContext → String → Bool
channel_subscribed rt c channel = not (is_empty channel) && is_channel_subscribed rt channel none c

-- `!event.topicId || !isTopicJoined(event.topicId)`, with the topic where neither holds
unfoldable pub joined_topic : ActiveContext → Option String → Option String
joined_topic c topic_id = do id ← truthy topic_id; if is_topic_joined id c then some id else none

abbrev pub parsed : String → String → String → String → Option String → ParsedMessage
parsed sender text ts channel thread_ts = record {
  sender = sender;
  text = text;
  ts = ts;
  channel = channel;
  channel_name = some channel;
  thread_ts = thread_ts;
}

infixr 6 ◌+++◌
abbrev ◌+++◌ : String → String → String
s +++ t = String.◌++◌ s t

abbrev pub topic_channel : LocalEvent → EventTopic → String
topic_channel e t = or_else e.channel (or_else t.channel "")

abbrev pub new_topic_text : String → EventTopic → String
new_topic_text channel t = "New topic in \"" +++ channel +++ "\": \"" +++ t.topic +++ "\""

-- The case `topic_created`, where the event has a topic; `none` is a dropped event. `now` is
-- `new Date().toISOString()`.
unfoldable pub on_new_topic :
    Runtime
    → String
    → Option String
    → ActiveContext
    → LocalEvent
    → EventTopic
    → Option ParsedMessage
on_new_topic rt now name c e t =
    let channel = normalize_channel_name rt (topic_channel e t) in
    if channel_subscribed rt c channel && not (is_own name (some t.creator))
    then some (parsed t.creator (new_topic_text channel t) (or_else t.created_at now) channel none)
    else none

-- The cases `message`, `topic_archived` and `topic_unarchived`, by author, text and time.
unfoldable pub on_topic_event :
    Runtime
    → Option String
    → ActiveContext
    → LocalEvent
    → Option String
    → String
    → String
    → Option ParsedMessage
on_topic_event rt name c e author text ts =
    let channel = normalize_channel_name rt (or_else e.channel "") in
    let heard = channel_subscribed rt c channel && not (is_own name author) in
    elim (joined_topic c e.topic_id) [
      | none ↦ none
      | some id ↦
          if heard then some (parsed (or_else author "unknown") text ts channel (some id)) else none
    ]

-- The case `broadcast`.
unfoldable pub on_broadcast :
    Runtime → String → Option String → ActiveContext → LocalEvent → Option ParsedMessage
on_broadcast rt now name c e =
    let channel = normalize_channel_name rt (or_else e.channel "") in
    if channel_subscribed rt c channel && not (is_own name e.sender)
    then some
        (parsed (or_else e.sender "unknown") (or_else e.text "") (or_else e.ts now) channel none)
    else none

-- the switch of `handleLocalEvent`
unfoldable pub on_event :
    Runtime → String → Option String → ActiveContext → LocalEvent → EventType → Option ParsedMessage
on_event rt now name c e topic_created = elim e.topic [
  | none ↦ none
  | some t ↦ on_new_topic rt now name c e t
]
on_event rt now name c e message =
    on_topic_event rt name c e e.sender (or_else e.text "") (or_else e.ts now)
on_event rt now name c e topic_archived =
    on_topic_event rt name c e e.archived_by "Topic archived" now
on_event rt now name c e topic_unarchived =
    on_topic_event rt name c e e.unarchived_by "Topic unarchived" now
on_event rt now name c e broadcast = on_broadcast rt now name c e
on_event rt now name c e other = none

-- `handleLocalEvent`: the message that is pushed to the bus, `none` where the event is dropped.
unfoldable pub handle_local_event :
    Runtime → String → Option String → ActiveContext → LocalEvent → Option ParsedMessage
unfolding on_event
handle_local_event rt now name c e = on_event rt now name c e e.type
