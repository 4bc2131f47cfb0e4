-- ===== src/Broker/State.antt =====
-- The data of mcp_server/src/broker.ts: what it keeps, what it answers and what it broadcasts.
use cccollab.Base.{ℕ, String, Bool, Option, List, []}
use cccollab.Base.Assoc.{Assoc}
use cccollab.History.{HistoryPage}

-- A timestamp is the epoch-ms number that its ISO text stands for.
pub record LocalTopicMessage : Type 0 where
  pub sender : String
  pub text : String
  pub ts : ℕ

pub data TopicState : Type 0 where
  active archived : TopicState

pub record LocalTopic : Type 0 where
  pub id : String
  pub topic : String
  pub channel : String
  pub creator : String
  pub state : TopicState
  pub created_at : ℕ
  pub messages : List LocalTopicMessage
  pub joined_sessions : List String

pub record SessionInfo : Type 0 where
  pub name : String
  pub objective : Option String
  pub registered_at : ℕ
  pub channels : List String

-- The fields of a topic that responses and events carry.
pub record TopicData : Type 0 where
  pub id : String
  pub topic : String
  pub channel : String
  pub creator : String
  pub state : TopicState
  pub created_at : ℕ

pub data Event : Type 0 where
  -- a `/local-event` body, its `source` before its fields
  raw : List (String × String) → Event
  broadcast_sent : (channel sender text : String) (ts : ℕ) → Event
  topic_created : (channel : String) → TopicData → Event
  message : (channel topic_id sender text : String) (ts : ℕ) → Event
  topic_archived : (channel topic_id archived_by : String) → Event
  topic_unarchived : (channel topic_id unarchived_by : String) → Event

-- The module's maps, its SSE connections, and what has been written to each connection.
pub record Broker : Type 0 where
  pub topics : Assoc LocalTopic
  pub sessions : Assoc SessionInfo
  pub channels : Assoc (List String)
  pub clients : List ℕ
  pub sent : List (ℕ × Event)

abbrev pub init : Broker
init = record { topics = []; sessions = []; channels = []; clients = []; sent = [] }

pub record ChannelRow : Type 0 where
  pub name : String
  pub subscriber_count : ℕ
  pub session_count : ℕ

pub record TopicRow : Type 0 where
  pub topic : TopicData
  pub message_count : ℕ

pub record SessionRow : Type 0 where
  pub name : String
  pub objective : Option String
  pub registered_at : ℕ
  pub channels : List String

-- The JSON bodies of the responses, one constructor for each shape.
pub data Body : Type 0 where
  health : (connections : ℕ) → Body
  event_stream : Body
  error : String → Body
  conflict : String → TopicData → Body
  done : Body
  channel_joined : (channel : String) (subscriber_count : ℕ) → Body
  channel_left : (channel : String) → Body
  channel_list : List ChannelRow → Body
  topic_made : TopicData → Body
  topic_list : List TopicRow → Body
  topic_shown : TopicData → List LocalTopicMessage → Body
  history : HistoryPage → Body
  topic_joined : (channel : String) → List LocalTopicMessage → Body
  session_list : List SessionRow → Body

pub record Response : Type 0 where
  pub status : ℕ
  pub body : Body

abbrev pub respond : ℕ → Body → Response
respond status body = record { status = status; body = body }

-- What a request finds: the clock, the next UUID, its connection, and the connections that a write
-- does not throw on.
pub record Env : Type 0 where
  pub now : ℕ
  pub uuid : String
  pub connection : ℕ
  pub writable : ℕ → Bool

-- A request's body in the chunks that arrive; `failed` where the connection errors.
pub record Request : Type 0 where
  pub method : String
  pub url : String
  pub chunks : List (List ℕ)
  pub failed : Bool
