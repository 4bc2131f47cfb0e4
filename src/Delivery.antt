-- ===== src/Delivery.antt =====
-- The way of an event from `broadcast` of mcp_server/src/broker.ts, over a connection, to
-- `res.on('data')` of mcp_server/src/broker-event-listener.ts.
pub mod Stream
pub mod Pushed
mod Tests
use Prim.Native.String
use cccollab.Base.{ℕ, String, Option, none, some, List, [], ◌∷◌, str_eq, if◌then◌else◌}
use cccollab.Base.Text.{strip_prefix}
use cccollab.Base.Nullable.{or_else, ◌>>=◌}
use cccollab.Base.Assoc.{lookup}
use cccollab.Broker.State.{
  Event, TopicData, raw, broadcast_sent, topic_created, message, topic_archived, topic_unarchived,
}
use cccollab.Listener
use cccollab.Listener.{LocalEvent, EventType}

-- What both ends take from the JavaScript runtime: `toISOString` of a time, `JSON.stringify` of an
-- event, and `JSON.parse` of a text as the listener reads it, `none` where it throws or
-- `isLocalEvent` fails. `posted` is what it reads of an object with these fields, as /local-event
-- passes them on. `utf8` is the bytes that a write of a text sends, `decode` is `toString` of a buffer.
pub record Wire : Type 0 where
  pub iso : ℕ → String
  pub stringify : Event → String
  pub parse : String → Option LocalEvent
  pub posted : List (String × String) → Option LocalEvent
  pub utf8 : String → List ℕ
  pub decode : List ℕ → String

-- `data: ${data}\n\n`
abbrev pub frame : String → String
frame json = String.◌++◌ "data: " (String.◌++◌ json (String.◌++◌ "\n" "\n"))

-- what these events write to a connection
unfoldable pub stream : Wire → List Event → String
stream wire [] = ""
stream wire (e ∷ es) = String.◌++◌ (frame (wire.stringify e)) (stream wire es)

-- one line of the stream
abbrev pub on_line : Wire → String → Option LocalEvent
on_line wire line = strip_prefix "data: " line >>= (λ json. wire.parse json)

abbrev pub put_event : Option LocalEvent → List LocalEvent → List LocalEvent
put_event none es = es
put_event (some e) es = e ∷ es

-- The events that the listener handles, of the lines that the stream has completed.
unfoldable pub events_in : Wire → List String → List LocalEvent
events_in wire [] = []
events_in wire (line ∷ lines) = put_event (on_line wire line) (events_in wire lines)

abbrev no_fields : EventType → LocalEvent
no_fields type = record {
  type = type;
  channel = none;
  topic_id = none;
  topic = none;
  sender = none;
  text = none;
  archived_by = none;
  unarchived_by = none;
  ts = none;
}

-- the objects that the broker writes, as a `BrokerLocalEvent`
abbrev pub broadcast_seen : Wire → String → String → String → ℕ → LocalEvent
broadcast_seen wire channel sender text ts = record (no_fields Listener.broadcast) {
  channel = some channel;
  sender = some sender;
  text = some text;
  ts = some (wire.iso ts);
}

abbrev pub created_seen : Wire → String → TopicData → LocalEvent
created_seen wire channel t = record (no_fields Listener.topic_created) {
  channel = some channel;
  topic = some (record {
    topic = t.topic;
    channel = some t.channel;
    creator = t.creator;
    created_at = some (wire.iso t.created_at);
  });
}

abbrev pub message_seen : Wire → String → String → String → String → ℕ → LocalEvent
message_seen wire channel id sender text ts = record (no_fields Listener.message) {
  channel = some channel;
  topic_id = some id;
  sender = some sender;
  text = some text;
  ts = some (wire.iso ts);
}

abbrev pub archived_seen : String → String → String → LocalEvent
archived_seen channel id by = record (no_fields Listener.topic_archived) {
  channel = some channel;
  topic_id = some id;
  archived_by = some by;
}

abbrev pub unarchived_seen : String → String → String → LocalEvent
unarchived_seen channel id by = record (no_fields Listener.topic_unarchived) {
  channel = some channel;
  topic_id = some id;
  unarchived_by = some by;
}

-- The object of an event.
unfoldable pub event_seen : Wire → Event → Option LocalEvent
event_seen wire (raw fields) = wire.posted fields
event_seen wire (broadcast_sent channel sender text ts) =
    some (broadcast_seen wire channel sender text ts)
event_seen wire (topic_created channel t) = some (created_seen wire channel t)
event_seen wire (message channel id sender text ts) =
    some (message_seen wire channel id sender text ts)
event_seen wire (topic_archived channel id by) = some (archived_seen channel id by)
event_seen wire (topic_unarchived channel id by) = some (unarchived_seen channel id by)

-- the objects of several events
unfoldable pub events_seen : Wire → List Event → List LocalEvent
unfolding event_seen
events_seen wire [] = []
events_seen wire (e ∷ es) = put_event (event_seen wire e) (events_seen wire es)
