-- ===== src/Remote/Backend.antt =====
-- The backend's functions that mcp_server/src/transport/remote.ts calls, and what they answer.
use cccollab.Base.{ℕ, String, Bool, Option, List, [], ◌∷◌}
use cccollab.Base.Assoc.{Assoc}

-- `Refs`: the function references, by the field that holds each
pub data Ref : Type 0 where
  introduce update_last_seen remove whoami sessions_by_channel get_session_context : Ref
  join_channel leave_channel list_all list_for_user : Ref
  start join_topic leave_topic archive unarchive : Ref
  topics_by_channel get_by_id list_joined_for_user : Ref
  send_to_channel send_to_topic ack_channel : Ref
  messages_by_topic messages_by_channel read_channel_history read_topic_history : Ref
  organizations_for_user : Ref

-- `makeRefs`: the properties of `anyApi` that lead to each reference
unfoldable pub path_of : Ref → List String
path_of introduce = "cccollab" ∷ "sessions" ∷ "introduce" ∷ []
path_of update_last_seen = "cccollab" ∷ "sessions" ∷ "updateLastSeen" ∷ []
path_of remove = "cccollab" ∷ "sessions" ∷ "remove" ∷ []
path_of whoami = "cccollab" ∷ "sessions" ∷ "whoami" ∷ []
path_of sessions_by_channel = "cccollab" ∷ "sessions" ∷ "listByChannel" ∷ []
path_of get_session_context = "cccollab" ∷ "sessions" ∷ "getSessionContext" ∷ []
path_of join_channel = "cccollab" ∷ "channels" ∷ "join" ∷ []
path_of leave_channel = "cccollab" ∷ "channels" ∷ "leave" ∷ []
path_of list_all = "cccollab" ∷ "channels" ∷ "listAll" ∷ []
path_of list_for_user = "cccollab" ∷ "channels" ∷ "listForUser" ∷ []
path_of start = "cccollab" ∷ "topics" ∷ "start" ∷ []
path_of join_topic = "cccollab" ∷ "topics" ∷ "join" ∷ []
path_of leave_topic = "cccollab" ∷ "topics" ∷ "leave" ∷ []
path_of archive = "cccollab" ∷ "topics" ∷ "archive" ∷ []
path_of unarchive = "cccollab" ∷ "topics" ∷ "unarchive" ∷ []
path_of topics_by_channel = "cccollab" ∷ "topics" ∷ "listByChannel" ∷ []
path_of get_by_id = "cccollab" ∷ "topics" ∷ "getById" ∷ []
path_of list_joined_for_user = "cccollab" ∷ "topics" ∷ "listJoinedForSession" ∷ []
path_of send_to_channel = "cccollab" ∷ "messages" ∷ "sendToChannel" ∷ []
path_of send_to_topic = "cccollab" ∷ "messages" ∷ "sendToTopic" ∷ []
path_of ack_channel = "cccollab" ∷ "messages" ∷ "ackChannel" ∷ []
path_of messages_by_topic = "cccollab" ∷ "messages" ∷ "listByTopic" ∷ []
path_of messages_by_channel = "cccollab" ∷ "messages" ∷ "listByChannel" ∷ []
path_of read_channel_history = "cccollab" ∷ "messages" ∷ "readChannelHistory" ∷ []
path_of read_topic_history = "cccollab" ∷ "messages" ∷ "readTopicHistory" ∷ []
path_of organizations_for_user = "cccollab" ∷ "organizations" ∷ "listForUser" ∷ []

-- A field of a call's argument object; one that is undefined is left out.
pub data Arg : Type 0 where
  text : String → Arg
  number : ℕ → Arg
  flag : Bool → Arg

abbrev pub Args : Type 0
Args = Assoc Arg

pub record ChannelJoined : Type 0 where
  pub channel_id : Option String
  pub latest_ts : Option ℕ

pub record ChannelDoc : Type 0 where
  pub channel_id : String
  pub name : String
  pub subscriber_count : ℕ
  pub present_session_count : Option ℕ
  pub message_count : Option ℕ

pub record TopicStarted : Type 0 where
  pub topic_id : String
  pub name : String
  pub state : String

pub record TopicListed : Type 0 where
  pub topic_id : String
  pub name : String
  pub state : String
  pub creator_session_id : String
  pub created_at : ℕ
  pub message_count : Option ℕ
  pub joined : Option Bool

pub record TopicDoc : Type 0 where
  pub id : String
  pub topic : String
  pub channel_id : String
  pub state : String
  pub creator_session_id : String
  pub created_at : ℕ

pub record SessionDoc : Type 0 where
  pub id : String
  pub session_name : String
  pub objective : Option String
  pub machine : Option String
  pub created_at : ℕ
  pub last_seen_at : Option ℕ

pub record MessageRow : Type 0 where
  pub id : String
  pub from_session_id : String
  pub text : String
  pub ts : ℕ

pub record HistoryRow : Type 0 where
  pub from_session_id : String
  pub sender_session_name : Option String
  pub text : String
  pub ts : ℕ

pub record RawPage : Type 0 where
  pub messages : List HistoryRow
  pub has_more : Bool

pub record Organization : Type 0 where
  pub id : String
  pub name : String

-- What the code takes an answer for. An object of which it reads one field is that field; of an
-- answer with `Unit` it reads nothing.
abbrev pub Answer : Ref → Type 0
Answer introduce = String
Answer sessions_by_channel = List SessionDoc
Answer get_session_context = String
Answer join_channel = ChannelJoined
Answer list_all = List ChannelDoc
Answer start = TopicStarted
Answer join_topic = String
Answer topics_by_channel = List TopicListed
Answer get_by_id = TopicDoc
Answer list_joined_for_user = List String
Answer messages_by_topic = List MessageRow
Answer messages_by_channel = List MessageRow
Answer read_channel_history = RawPage
Answer read_topic_history = RawPage
Answer organizations_for_user = List Organization
Answer _ = Unit {0}

-- A value that the client throws: what the code reads of it. `text` is `String(err)`, `code` and
-- `data_message` the texts of the fields of `err.data`.
pub record Thrown : Type 0 where
  pub is_error : Bool
  pub name : String
  pub message : String
  pub text : String
  pub code : Option String
  pub data_message : Option String

pub data Reply (A : Type 0) : Type 0 where
  resolved : A → Reply A
  rejected : Thrown → Reply A
