-- ===== src/Broker/Topics.antt =====
-- The topic handlers of mcp_server/src/broker.ts: create, list, show and page.
use cccollab.Base.{
  String, Bool, true, false, ◌&&◌, ◌||◌, Option, none, some, List, [], ◌∷◌, map, if◌then◌else◌,
  length, keep, str_eq,
}
use cccollab.Base.Text.{trim}
use cccollab.Base.Nullable.{truthy, ◌>>=◌}
use cccollab.Base.Assoc.{Assoc, lookup, set, values}
use cccollab.Base.StrSet.{has}
use cccollab.Runtime.{Runtime, Number, is_finite}
use cccollab.History.{HistoryEntry, HistoryPage, clamp_history_limit, page_topic_history}
use cccollab.Broker.State.{
  Broker, Env, LocalTopic, LocalTopicMessage, TopicState, active, archived, TopicData, TopicRow,
  Response, respond, topic_created, error, conflict, topic_made, topic_list, topic_shown, history,
}
use cccollab.Broker.Members.{normalize_channel, broadcast}
use cccollab.Broker.Channels.{Fields, field, is_subscribed, quoted_channel, ◌+++◌}

abbrev pub topic_data : LocalTopic → TopicData
topic_data t = record {
  id = t.id;
  topic = t.topic;
  channel = t.channel;
  creator = t.creator;
  state = t.state;
  created_at = t.created_at;
}

abbrev pub is_active : TopicState → Bool
is_active active = true
is_active archived = false

-- `topic.trim().toLowerCase()`
unfoldable pub fold_name : Runtime → String → String
fold_name rt name = rt.lower (trim name)

unfoldable pub is_named : Runtime → String → String → LocalTopic → Bool
is_named rt channel wanted t =
    is_active t.state && str_eq t.channel channel && str_eq (fold_name rt t.topic) wanted

-- the loop over `topics.values()`: the first topic that the name is taken by
unfoldable pub find_named : Runtime → String → String → Assoc LocalTopic → Option LocalTopic
unfolding is_named
find_named rt channel wanted [] = none
find_named rt channel wanted ((k, t) ∷ ts) =
    if is_named rt channel wanted t then some t else find_named rt channel wanted ts

abbrev pub topic_fields : Runtime → Fields → Option (String × String × String)
topic_fields rt body = do
  topic ← truthy (field "topic" body)
  creator ← truthy (field "creator" body)
  channel ← normalize_channel rt (field "channel" body)
  some (topic, creator, channel)

abbrev pub new_topic : Env → String → String → String → LocalTopic
new_topic env topic creator channel = record {
  id = env.uuid;
  topic = topic;
  channel = channel;
  creator = creator;
  state = active;
  created_at = env.now;
  messages = [];
  joined_sessions = [];
}

abbrev name_taken : String → LocalTopic → String
name_taken channel t =
    "A topic named \"" +++ t.topic +++ "\" already exists in " +++ channel
    +++ ". Join it instead, or use a different name."

-- The checks behind the 400s passed: the name must be free.
unfoldable pub create_topic : Runtime → Env → String → String → String → Broker → Broker × Response
create_topic rt env topic creator channel b =
    elim (find_named rt channel (fold_name rt topic) b.topics) [
      | some t ↦ (b, respond 409 (conflict (name_taken channel t) (topic_data t)))
      | none ↦
          let t = new_topic env topic creator channel in
          (
            broadcast env (topic_created channel (topic_data t))
                (record b { topics = set env.uuid t b.topics }),
            respond 200 (topic_made (topic_data t)),
          )
    ]

-- POST /topics
unfoldable pub post_topic : Runtime → Env → Fields → Broker → Broker × Response
unfolding field is_subscribed
post_topic rt env body b = elim (topic_fields rt body) [
  | none ↦ (b, respond 400 (error "topic, creator and channel are required"))
  | some (topic, creator, channel) ↦
      if is_subscribed creator channel b then create_topic rt env topic creator channel b else (
        b,
        respond 400 (error (quoted_channel "Creator is not subscribed to channel \"" channel)),
      )
]

-- `allowedChannels`; `none` is no filter
unfoldable pub allowed_channels :
    Runtime → Option String → Option String → Broker → Option (List String)
allowed_channels rt channel session_id b = elim (normalize_channel rt channel) [
  | some ch ↦ some (ch ∷ [])
  | none ↦ elim (truthy session_id) [
    | none ↦ none
    | some name ↦ elim (lookup name b.sessions) [ none ↦ some [] | some info ↦ some info.channels ]
  ]
]

abbrev pub is_allowed : Option (List String) → String → Bool
is_allowed none channel = true
is_allowed (some channels) channel = has channel channels

unfoldable pub is_listed : Bool → Option (List String) → LocalTopic → Bool
is_listed include_archived allowed t =
    (include_archived || is_active t.state) && is_allowed allowed t.channel

abbrev pub topic_row : LocalTopic → TopicRow
topic_row t = record { topic = topic_data t; message_count = length t.messages }

abbrev pub is_text : Option String → String → Bool
is_text none s = false
is_text (some r) s = str_eq r s

-- GET /topics
unfoldable pub get_topics : Runtime → Fields → Broker → Broker × Response
unfolding field
get_topics rt query b =
    let include_archived = is_text (field "include_archived" query) "true" in
    let allowed = allowed_channels rt (field "channel" query) (field "sessionId" query) b in
    (
      b,
      respond 200 (
          topic_list (map topic_row (keep (is_listed include_archived allowed) (values b.topics)))),
    )

abbrev pub not_found : Response
not_found = respond 404 (error "topic not found")

-- GET /topics/:id
unfoldable pub get_topic : String → Fields → Broker → Broker × Response
unfolding field is_subscribed
get_topic id query b = elim (lookup id b.topics) [
  | none ↦ (b, not_found)
  | some t ↦ elim (truthy (field "sessionId" query)) [
    | none ↦ (b, respond 400 (error "sessionId query parameter is required"))
    | some session_id ↦
        if is_subscribed session_id t.channel b
        then (b, respond 200 (topic_shown (topic_data t) t.messages))
        else (b, respond 403 (error (quoted_channel "Not subscribed to channel \"" t.channel)))
  ]
]

abbrev pub history_entry : LocalTopicMessage → HistoryEntry
history_entry m = record { sender = m.sender; text = m.text; ts = m.ts }

-- `Number.isFinite(beforeNum) ? beforeNum : null`
unfoldable pub before_cursor : Runtime → Option String → Option Number
before_cursor rt none = none
before_cursor rt (some raw) = let n = rt.to_number raw in if is_finite n then some n else none

abbrev pub page_response : Broker → Option HistoryPage → Option (Broker × Response)
page_response b none = none
page_response b (some p) = some (b, respond 200 (history p))

-- GET /topics/:id/messages; `none` is an exception that nothing catches
unfoldable pub get_history : Runtime → String → Fields → Broker → Option (Broker × Response)
unfolding field before_cursor
get_history rt id query b = elim (lookup id b.topics) [
  | none ↦ some (b, not_found)
  | some t ↦ page_response b (
      page_topic_history (map history_entry t.messages)
        (clamp_history_limit rt.to_number (field "limit" query))
        (before_cursor rt (field "before" query)))
]
