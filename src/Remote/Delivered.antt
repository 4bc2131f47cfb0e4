-- ===== src/Remote/Delivered.antt =====
-- What a topic subscription of mcp_server/src/transport/remote.ts hands on, over all its updates.
pub mod Rows
use cccollab.Base.{
  ℕ, ◌+◌, ◌≤◌, ◌<◌, String, true, false, not, ◌||◌, ◌≡◌, refl, sym, ap, ◌∙◌, Option, none, some,
  List, [], ◌∷◌, ◌++◌, map, if◌then◌else◌, eqb, length, length-append, keep, keep-append, arith,
  Bool-cases, inl, inr,
}
use mathlib.Core.List.{append_assoc, append-nil, map-append}
use cccollab.Base.Assoc.{lookup}
use cccollab.Base.StrSet.{has, add}
use cccollab.Remote.Backend.{Args, text, MessageRow}
use cccollab.Remote.State.{
  Remote, Subscription, topic, BoundedIdSet, evict, add_id, dedup_capacity, org_scoped_args,
}
use cccollab.Remote.Feeds.{
  FeedMessage, Batch, empty_batch, is_own, event_of, take_row, see_row, take_rows, replace_seen,
  update_feed, on_update, subscribe_topic_messages, fresh_subscription, track,
}
use cccollab.Remote.Calls.Channels.{given_number}
use cccollab.Remote.Delivered.Rows.{
  firsts, ids_of, flat, ids_with, handed, take_rows_lem, firsts-append, length-firsts,
  length-ids_of, handed-append,
}

-- the subscription under a handle
unfoldable pub find_feed : ℕ → List Subscription → Option Subscription
find_feed handle [] = none
find_feed handle (s ∷ ss) = if eqb s.handle handle then some s else find_feed handle ss

-- All that the subscription hands on, update by update.
unfoldable pub feed_events : ℕ → List (List MessageRow) → Remote → List FeedMessage
feed_events handle [] r = []
feed_events handle (rows ∷ batches) r = elim (find_feed handle r.subscriptions) [
  | none ↦ []
  | some s ↦ (on_update s rows r).events ++ feed_events handle batches (on_update s rows r).remote
]

-- the handle's subscription after an update
find_feed-replaced :
    (handle : ℕ) (seen : BoundedIdSet) (ss : List Subscription) (s : Subscription)
    → find_feed handle ss ≡ some s
    → find_feed handle (map (replace_seen handle seen) ss) ≡ some (record s { seen = seen })
unfolding find_feed replace_seen
find_feed-replaced handle seen [] s e = cc
find_feed-replaced handle seen (x ∷ ss) s e = elim (Bool-cases (eqb x.handle handle)) [
  | inl same ↦ ground (arith, same, e)
  | inr other ↦ ground (arith, other, find_feed-replaced handle seen ss s, e)
]

module _ (handle : ℕ) (id name : String) (own : Option String) (query : Args) where
  abbrev subscribed : List String → Subscription
  subscribed seen = record (fresh_subscription handle name (topic id) own query true) {
    seen = ids_with seen;
  }

  -- one update, from a set with room for it
  updated :
      (rows : List MessageRow) (seen : List String) (r : Remote)
      → find_feed handle r.subscriptions ≡ some (subscribed seen)
      → length seen + length rows ≤ dedup_capacity
      → ((on_update (subscribed seen) rows r).events ≡ handed own name (some id) (firsts seen rows))
        × (find_feed handle (on_update (subscribed seen) rows r).remote.subscriptions
            ≡ some (subscribed (seen ++ ids_of (firsts seen rows))))
  unfolding on_update update_feed
  updated rows seen r found room =
      let b = take_rows own name (some id) id rows (empty_batch (ids_with seen) r.topic_max_ts) in
      let batch =
        take_rows_lem own name (some id) id rows seen (empty_batch (ids_with seen) r.topic_max_ts)
          refl room in
      (
        batch.0,
        find_feed-replaced handle b.seen r.subscriptions (subscribed seen) found
            ∙ ap (λ (ids : BoundedIdSet). some (record (subscribed seen) { seen = ids })) batch.1,
      )

  feed_events_from :
      (batches : List (List MessageRow)) (seen : List String) (r : Remote)
      → find_feed handle r.subscriptions ≡ some (subscribed seen)
      → length seen + length (flat batches) ≤ dedup_capacity
      → feed_events handle batches r ≡ handed own name (some id) (firsts seen (flat batches))
  unfolding feed_events firsts
  feed_events_from [] seen r found room = refl
  feed_events_from (rows ∷ batches) seen r found room =
      let fits = length-append {0} rows (flat batches) in
      let now = updated rows seen r found (omega arith) in
      let seen' = seen ++ ids_of (firsts seen rows) in
      let later = feed_events_from batches seen' (on_update (subscribed seen) rows r).remote now.1 (
        omega (
          arith,
          length-append {0} seen (ids_of (firsts seen rows)),
          length-ids_of (firsts seen rows),
          length-firsts seen rows,
        )) in
      rw (found, feed_events)
        (rw (now.0, later)
          (sym (handed-append own name (some id) (firsts seen rows) (firsts seen' (flat batches)))
            ∙ ap (handed own name (some id)) (sym (firsts-append rows (flat batches) seen))))

find_feed_first : (s : Subscription) (ss : List Subscription) → find_feed s.handle (s ∷ ss) ≡ some s
unfolding find_feed
find_feed_first s ss = ground arith

-- Over all updates of a new topic subscription of an enabled transport, as long as they bring no more
-- rows than the set of seen ids can hold, however often each row is brought and however the rows are
-- spread: every message of another session is handed on exactly once, in the order of its first
-- appearance, with the subscription's channel and topic, and no message of the session itself is.
pub feed_events-subscribe :
    (handle : ℕ) (id name : String) (batches : List (List MessageRow)) (r : Remote)
    → r.enabled ≡ true
    → r.shutdown_started ≡ false
    → length (flat batches) ≤ dedup_capacity
    → feed_events handle batches (subscribe_topic_messages handle id name r)
      ≡ handed r.session_id name (some id) (firsts [] (flat batches))
unfolding subscribe_topic_messages
feed_events-subscribe handle id name batches r on live fits =
    let off : (not r.enabled || r.shutdown_started) ≡ false = ground (arith, on, live) in
    let query =
      org_scoped_args r
        (("topicId", text id) ∷ given_number "sinceTs" (lookup id r.topic_max_ts)) in
    let s = fresh_subscription handle name (topic id) r.session_id query true in
    rw (off, subscribe_topic_messages)
      (feed_events_from handle id name r.session_id query batches [] (track s r)
        (find_feed_first s r.subscriptions) (omega arith))
