-- ===== src/Local.antt =====
-- mcp_server/src/transport/local.ts: the request behind each method, and what is made of the answer.
-- encodeURIComponent is an argument.
pub mod Routes
pub mod Sent
pub mod Tests
use Prim.Native.String
use cccollab.Base.{
  ℕ, String, Bool, true, false, Option, none, some, List, [], ◌∷◌, ◌++◌, map, if◌then◌else◌, eqb,
  leb, ltb, ◌&&◌,
}
use cccollab.Base.Nullable.{truthy}
use cccollab.Transport.{TransportHistoryMessage, TransportHistoryPage}
use cccollab.History.{HistoryEntry, HistoryPage}
use cccollab.Broker.State.{
  Response, Body, ChannelRow, TopicData, TopicRow, LocalTopicMessage, SessionRow, channel_joined,
  channel_list, topic_made, topic_list, topic_shown, topic_joined, session_list, history, conflict,
}

-- A method of the transport with its arguments. A number in a query is its text.
pub data Method : Type 0 where
  introduce : (session : String) → (objective : Option String) → Method
  join_channel leave_channel : (session channel : String) → Method
  list_channels : (session : Option String) → Method
  broadcast : (session channel text : String) → Method
  create_topic : (session channel topic : String) → Method
  list_topics : (session channel : Option String) → (include_archived : Bool) → Method
  get_topic_by_id join_topic leave_topic archive_topic unarchive_topic :
      (session id : String) → Method
  send_topic_message : (session id text : String) → Method
  list_sessions : (channel : Option String) → Method
  read_topic_messages : (id : String) → (limit before : Option String) → Method
  deregister_session : (session : String) → Method

-- What is sent: the query before it is encoded, and the fields of the JSON body.
pub record Call : Type 0 where
  pub method : String
  pub path : String
  pub query : List (String × String)
  pub body : Option (List (String × String))

abbrev pub get_call : String → List (String × String) → Call
get_call path query = record { method = "GET"; path = path; query = query; body = none }

abbrev pub post_call : String → List (String × String) → Call
post_call path body = record { method = "POST"; path = path; query = []; body = some body }

-- a field or a parameter that is left out where there is no value
abbrev pub given : String → Option String → List (String × String)
given k none = []
given k (some v) = (k, v) ∷ []

abbrev pub topic_path : String → String → String
topic_path id word = String.◌++◌ "/topics/" (String.◌++◌ id (String.◌++◌ "/" word))

-- `if (channel) … else if (sessionName) …`
abbrev pub topics_of : Option String → Option String → List (String × String)
topics_of session (some c) = ("channel", c) ∷ []
topics_of session none = given "sessionId" session

unfoldable pub call_of : (String → String) → Method → Call
call_of encode (introduce s o) = post_call "/sessions" (("name", s) ∷ given "objective" o)
call_of encode (join_channel s c) =
    post_call "/channels/join" (("sessionId", s) ∷ ("channel", c) ∷ [])
call_of encode (leave_channel s c) =
    post_call "/channels/leave" (("sessionId", s) ∷ ("channel", c) ∷ [])
call_of encode (list_channels s) = get_call "/channels" (given "sessionId" (truthy s))
call_of encode (broadcast s c t) =
    post_call "/broadcast" (("sender", s) ∷ ("channel", c) ∷ ("text", t) ∷ [])
call_of encode (create_topic s c t) =
    post_call "/topics" (("topic", t) ∷ ("creator", s) ∷ ("channel", c) ∷ [])
call_of encode (list_topics s c all) =
    get_call "/topics"
      ((if all then ("include_archived", "true") ∷ [] else []) ++ topics_of (truthy s) (truthy c))
call_of encode (get_topic_by_id s id) =
    get_call (String.◌++◌ "/topics/" (encode id)) (("sessionId", s) ∷ [])
call_of encode (join_topic s id) = post_call (topic_path (encode id) "join") (("sessionId", s) ∷ [])
call_of encode (leave_topic s id) =
    post_call (topic_path (encode id) "leave") (("sessionId", s) ∷ [])
call_of encode (archive_topic s id) =
    post_call (topic_path (encode id) "archive") (("archivedBy", s) ∷ [])
call_of encode (unarchive_topic s id) =
    post_call (topic_path (encode id) "unarchive") (("unarchivedBy", s) ∷ [])
call_of encode (send_topic_message s id t) =
    post_call (topic_path (encode id) "messages") (("sender", s) ∷ ("text", t) ∷ [])
call_of encode (list_sessions c) = get_call "/sessions" (given "channel" (truthy c))
call_of encode (read_topic_messages id limit before) =
    get_call (topic_path (encode id) "messages") (given "limit" limit ++ given "before" before)
call_of encode (deregister_session s) = record {
  method = "DELETE";
  path = String.◌++◌ "/sessions/" (encode s);
  query = [];
  body = none;
}

-- What a method returns or throws: `TopicNameConflictError`, the error with the status, nothing or
-- null, or what it takes from the body; `unread` is a body that has not the fields it takes.
pub data Answer : Type 0 where
  name_conflict : (error : String) → Answer
  failed : (status : ℕ) → Body → Answer
  nothing : Answer
  subscribers : ℕ → Answer
  channels : List ChannelRow → Answer
  topic : TopicData → Answer
  topics : List TopicRow → Answer
  joined : (channel : String) → (history : List LocalTopicMessage) → Answer
  sessions : List SessionRow → Answer
  page : TransportHistoryPage → Answer
  unread : Body → Answer

abbrev to_message : HistoryEntry → TransportHistoryMessage
to_message m = record {
  sender = m.sender;
  sender_session_name = some m.sender;
  text = m.text;
  ts = m.ts;
}

abbrev first_ts : List HistoryEntry → Option ℕ
first_ts [] = none
first_ts (m ∷ ms) = some m.ts

unfoldable pub to_page : HistoryPage → TransportHistoryPage
to_page p = record {
  messages = map to_message p.messages;
  has_more = p.has_more;
  oldest_ts = first_ts p.messages;
}

-- what a method makes of the body of an answer that is ok
unfoldable pub taken : Method → Body → Answer
unfolding to_page
taken (join_channel s c) (channel_joined name count) = subscribers count
taken (join_channel s c) body = subscribers 1
taken (list_channels s) (channel_list rows) = channels rows
taken (create_topic s c t) (topic_made made) = topic made
taken (list_topics s c all) (topic_list rows) = topics rows
taken (get_topic_by_id s id) (topic_shown shown messages) = topic shown
taken (join_topic s id) (topic_joined channel messages) = joined channel messages
taken (list_sessions c) (session_list rows) = sessions rows
taken (read_topic_messages id limit before) (history p) = page (to_page p)
taken (introduce s o) body = nothing
taken (leave_channel s c) body = nothing
taken (broadcast s c t) body = nothing
taken (leave_topic s id) body = nothing
taken (archive_topic s id) body = nothing
taken (unarchive_topic s id) body = nothing
taken (send_topic_message s id t) body = nothing
taken (deregister_session s) body = nothing
taken m body = unread body

-- `body.error` of a 409
abbrev conflict_of : Body → Answer
conflict_of (conflict e t) = name_conflict e
conflict_of body = unread body

-- `res.ok`
abbrev pub is_ok : ℕ → Bool
is_ok status = leb 200 status && ltb status 300

unfoldable pub answer_of : Method → Response → Answer
unfolding taken
answer_of (create_topic s c t) res =
    if eqb res.status 409
    then conflict_of res.body
    else if is_ok res.status
    then taken (create_topic s c t) res.body
    else failed res.status res.body
answer_of (get_topic_by_id s id) res =
    if is_ok res.status then taken (get_topic_by_id s id) res.body else nothing
answer_of (deregister_session s) res = nothing
answer_of m res = if is_ok res.status then taken m res.body else failed res.status res.body
