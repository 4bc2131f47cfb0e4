-- ===== src/Remote/Feeds.antt =====
-- The subscriptions of mcp_server/src/transport/remote.ts: how they are made, what a batch of rows
-- does, and how they end.
use cccollab.Base.{
  ℕ, String, Bool, true, false, not, ◌||◌, Option, none, some, List, [], ◌∷◌, ◌++◌, map,
  if◌then◌else◌, str_eq, eqb, ltb, keep,
}
use cccollab.Base.Assoc.{Assoc, lookup}
use cccollab.Base.StrSet.{has}
use cccollab.Remote.Backend.{Args, text, number, MessageRow, Ref}
use cccollab.Remote.State.{
  Remote, Subscription, Feed, topic, channel, unresolved, BoundedIdSet, empty_ids, add_id,
  dedup_capacity, org_scoped_args, advance,
}
use cccollab.Remote.Calls.{Next, finished, waits, returned, nothing, settle, fall_back}
use cccollab.Remote.Calls.Channels.{given_number, find_channel, with_match}

-- `ParsedMessage`, its time as the number that the ISO text stands for
pub record FeedMessage : Type 0 where
  pub sender : String
  pub text : String
  pub ts : ℕ
  pub channel : String
  pub channel_name : String
  pub thread_ts : Option String

unfoldable pub is_tracked : ℕ → List ℕ → Bool
is_tracked h [] = false
is_tracked h (x ∷ xs) = eqb x h || is_tracked h xs

abbrev pub fresh_subscription : ℕ → String → Feed → Option String → Args → Bool → Subscription
fresh_subscription handle name feed own query is_open = record {
  handle = handle;
  channel_name = name;
  feed = feed;
  own_session_id = own;
  seen = empty_ids;
  query = query;
  is_open = is_open;
}

-- `trackUnsubscribe` of a new subscription
abbrev pub track : Subscription → Remote → Remote
track s r = record r { subscriptions = s ∷ r.subscriptions; tracked = r.tracked ++ s.handle ∷ [] }

-- `subscribeTopicMessages`; a subscription that is not made hands out a no-op
unfoldable pub subscribe_topic_messages : ℕ → String → String → Remote → Remote
subscribe_topic_messages handle id name r =
    if not r.enabled || r.shutdown_started
    then r
    else track
        (fresh_subscription handle name (topic id) r.session_id
          (org_scoped_args r
            (("topicId", text id) ∷ given_number "sinceTs" (lookup id r.topic_max_ts)))
          true)
        r

-- `register`'s arguments: the session, if there is one, and the cursor
unfoldable pub channel_query : String → Remote → Args
unfolding org_scoped_args
channel_query id r =
    org_scoped_args r (("channelId", text id) ∷ [])
    ++ given_number "sinceTs" (lookup id r.channel_max_ts)

unfoldable pub open_feed : ℕ → String → Remote → Subscription → Subscription
unfolding channel_query
open_feed handle id r s =
    if eqb s.handle handle
    then record s {
      feed = channel id;
      own_session_id = r.session_id;
      query = channel_query id r;
      is_open = true;
    }
    else s

-- `register`, once the channel's id is there
unfoldable pub register : ℕ → String → Remote → Remote
unfolding open_feed is_tracked
register handle id r =
    if is_tracked handle r.tracked
    then record r { subscriptions = map (open_feed handle id r) r.subscriptions }
    else r

abbrev pub registered : ℕ → Option String → Remote → Next
registered handle none r = finished r (returned nothing)
registered handle (some id) r = finished (register handle id r) (returned nothing)

-- the id from the cache, or the lookup of it
unfoldable pub begin_feed : (String → String) → ℕ → String → Remote → Next
begin_feed lower handle name r = elim (lookup name r.channel_ids_by_name) [
  | some id ↦ finished (register handle id r) (returned nothing)
  | none ↦ waits r Ref.list_all (org_scoped_args r []) (
      settle (fall_back nothing)
        (λ now rows s. with_match name (find_channel lower name rows) s (registered handle)))
]

-- `subscribeChannelMessages`. The source calls `register` before it tracks the callback where the id
-- is known: the same state.
unfoldable pub subscribe_channel_messages : (String → String) → ℕ → String → Remote → Next
unfolding begin_feed
subscribe_channel_messages lower handle name r =
    if not r.enabled || r.shutdown_started
    then finished r (returned nothing)
    else begin_feed lower handle name
        (track (fresh_subscription handle name unresolved none [] false) r)

-- What a batch leaves: the ids seen, the cursors, what is handed on, and the highest new time.
pub record Batch : Type 0 where
  pub seen : BoundedIdSet
  pub cursors : Assoc ℕ
  pub events : List FeedMessage
  pub highest : ℕ

abbrev pub is_own : Option String → MessageRow → Bool
is_own none row = false
is_own (some id) row = str_eq row.from_session_id id

abbrev pub event_of : String → Option String → MessageRow → FeedMessage
event_of name thread row = record {
  sender = row.from_session_id;
  text = row.text;
  ts = row.ts;
  channel = name;
  channel_name = name;
  thread_ts = thread;
}

-- One row that has not been seen. A message of the session itself moves the cursor only.
unfoldable pub take_row :
    Option String → String → Option String → String → MessageRow → Batch → Batch
unfolding add_id advance
take_row own name thread key row b = record {
  seen = add_id dedup_capacity row.id b.seen;
  cursors = advance key row.ts b.cursors;
  events = if is_own own row then b.events else b.events ++ event_of name thread row ∷ [];
  highest = if ltb b.highest row.ts then row.ts else b.highest;
}

unfoldable pub see_row :
    Option String → String → Option String → String → MessageRow → Batch → Batch
see_row own name thread key row b =
    if has row.id b.seen.ids then b else take_row own name thread key row b

-- The loop of both `onUpdate` callbacks over their rows; the topic's has no `highestTsInBatch`.
unfoldable pub take_rows :
    Option String → String → Option String → String → List MessageRow → Batch → Batch
take_rows own name thread key [] b = b
take_rows own name thread key (row ∷ rows) b =
    take_rows own name thread key rows (see_row own name thread key row b)

abbrev pub empty_batch : BoundedIdSet → Assoc ℕ → Batch
empty_batch seen cursors = record { seen = seen; cursors = cursors; events = []; highest = 0 }

unfoldable pub replace_seen : ℕ → BoundedIdSet → Subscription → Subscription
replace_seen handle seen s = if eqb s.handle handle then record s { seen = seen } else s

-- `if (highestTsInBatch > 0 && sessionId !== null)`: the acknowledgement that is sent
unfoldable pub ack_of : Option String → String → ℕ → Option Args
ack_of none id highest = none
ack_of (some session) id highest =
    if ltb 0 highest
    then some (("sessionId", text session) ∷ ("channelId", text id) ∷ ("ts", number highest) ∷ [])
    else none

-- What an update of a subscription leaves, hands on, and acknowledges.
pub record Updated : Type 0 where
  pub remote : Remote
  pub events : List FeedMessage
  pub ack : Option Args

unfoldable pub update_feed : Subscription → List MessageRow → Feed → Remote → Updated
unfolding take_rows replace_seen ack_of
update_feed s rows (topic id) r =
    let b =
      take_rows s.own_session_id s.channel_name (some id) id rows
        (empty_batch s.seen r.topic_max_ts) in
    record {
      remote = record r {
        topic_max_ts = b.cursors;
        subscriptions = map (replace_seen s.handle b.seen) r.subscriptions;
      };
      events = b.events;
      ack = none;
    }
update_feed s rows (channel id) r =
    let b =
      take_rows s.own_session_id s.channel_name none id rows
        (empty_batch s.seen r.channel_max_ts) in
    record {
      remote = record r {
        channel_max_ts = b.cursors;
        subscriptions = map (replace_seen s.handle b.seen) r.subscriptions;
      };
      events = b.events;
      ack = ack_of s.own_session_id id b.highest;
    }
update_feed s rows unresolved r = record { remote = r; events = []; ack = none }

-- the client's call of a subscription's update callback
unfoldable pub on_update : Subscription → List MessageRow → Remote → Updated
unfolding update_feed
on_update s rows r = update_feed s rows s.feed r

unfoldable pub close_feed : ℕ → Subscription → Subscription
close_feed handle s = if eqb s.handle handle then record s { is_open = false } else s

-- the callback that `trackUnsubscribe` hands out
unfoldable pub unsubscribe : ℕ → Remote → Remote
unfolding close_feed is_tracked
unsubscribe handle r =
    if is_tracked handle r.tracked
    then record r {
      tracked = keep (λ h. not (eqb h handle)) r.tracked;
      subscriptions = map (close_feed handle) r.subscriptions;
    }
    else r

unfoldable pub unsubscribe_all : List ℕ → Remote → Remote
unfolding unsubscribe
unsubscribe_all [] r = r
unsubscribe_all (h ∷ hs) r = unsubscribe_all hs (unsubscribe h r)

unfoldable pub close_all : Remote → Remote
unfolding unsubscribe_all
close_all r =
    let stopped : Remote = record r {
      shutdown_started = true;
      enabled = false;
      heartbeat = false;
    } in
    record (unsubscribe_all r.tracked stopped) { tracked = [] }

-- `shutdown`; it then awaits the client's `close`, whose errors are dropped
unfoldable pub shutdown : Remote → Remote
unfolding close_all
shutdown r = if r.shutdown_started then r else close_all r

unfoldable pub prime_topic_cursor : String → ℕ → Remote → Remote
unfolding advance
prime_topic_cursor id ts r = record r { topic_max_ts = advance id ts r.topic_max_ts }

unfoldable pub prime_channel_cursor : String → ℕ → Remote → Remote
unfolding advance
prime_channel_cursor name ts r = elim (lookup name r.channel_ids_by_name) [
  | none ↦ r
  | some id ↦ record r { channel_max_ts = advance id ts r.channel_max_ts }
]
