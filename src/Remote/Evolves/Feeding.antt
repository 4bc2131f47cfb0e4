-- ===== src/Remote/Evolves/Feeding.antt =====
-- The subscriptions of mcp_server/src/transport/remote.ts: those that are open are tracked, and none is
-- after the shutdown.
use cccollab.Base.{
  ℕ, ◌≤◌, String, true, false, not, ◌||◌, ◌≡◌, refl, ◌∙◌, ap, Option, none, some, List, [], ◌∷◌,
  ◌++◌, map, eqb, eqb_iff, arith, Bool-cases, inl, inr, All, keep,
}
use native.Mathlib.Nat.{le_refl, le_trans}
use cccollab.Base.StrSet.{has}
use cccollab.Remote.Backend.{MessageRow}
use cccollab.Remote.State.{
  Remote, Subscription, Feed, topic, channel, unresolved, BoundedIdSet, cursor,
}
use cccollab.Remote.Feeds.{
  is_tracked, track, subscribe_topic_messages, open_feed, register, Batch, empty_batch, take_row,
  see_row, take_rows, replace_seen, update_feed, on_update, close_feed, unsubscribe,
}
use cccollab.Remote.Evolves.{
  Evolves, Evolves-refl, Evolves-trans, TrackedIfOpen, feeds-Evolves, advance_grows,
}
use cccollab.Remote.Evolves.Learning.{topic_cursor-Evolves, channel_cursor-Evolves}

-- A change of each subscription that opens none keeps the open ones tracked.
pub All-map_feeds :
    (f : Subscription → Subscription) (ts us : List ℕ) (ss : List Subscription)
    → ((s : Subscription) → TrackedIfOpen ts s → TrackedIfOpen us (f s))
    → All (TrackedIfOpen ts) ss
    → All (TrackedIfOpen us) (map f ss)
All-map_feeds f ts us [] h a = tt
All-map_feeds f ts us (s ∷ ss) h a = (h s a.0, All-map_feeds f ts us ss h a.1)

pub All-more :
    (ts us : List ℕ) (ss : List Subscription)
    → ((h : ℕ) → is_tracked h ts ≡ true → is_tracked h us ≡ true)
    → All (TrackedIfOpen ts) ss
    → All (TrackedIfOpen us) ss
All-more ts us [] h a = tt
All-more ts us (s ∷ ss) h a = (λ o. h s.handle (a.0 o), All-more ts us ss h a.1)

is_tracked-append :
    (h : ℕ) (xs ys : List ℕ) → is_tracked h (xs ++ ys) ≡ (is_tracked h xs || is_tracked h ys)
unfolding is_tracked
is_tracked-append h [] ys = refl
is_tracked-append h (x ∷ xs) ys = ground (arith, is_tracked-append h xs ys)

is_tracked-keep :
    (h g : ℕ) (xs : List ℕ)
    → is_tracked g xs ≡ true
    → eqb g h ≡ false
    → is_tracked g (keep (λ x. not (eqb x h)) xs) ≡ true
unfolding is_tracked
is_tracked-keep h g [] t n = t
is_tracked-keep h g (x ∷ xs) t n = ground (arith, is_tracked-keep h g xs, t, n)

pub track-Evolves :
    (s : Subscription) (r : Remote) → r.shutdown_started ≡ false → Evolves r (track s r)
track-Evolves s r live = feeds-Evolves r (r.tracked ++ s.handle ∷ []) (s ∷ r.subscriptions) λ h. (
  λ shut. cc,
  (
    λ o. is_tracked-append s.handle r.tracked (s.handle ∷ []) ∙ unfold is_tracked in ground arith,
    All-more r.tracked (r.tracked ++ s.handle ∷ []) r.subscriptions
        (λ g t. is_tracked-append g r.tracked (s.handle ∷ []) ∙ rw t refl) h.open_tracked,
  ),
)

open_feed-TrackedIfOpen :
    (handle : ℕ) (id : String) (r : Remote) (ts : List ℕ)
    → is_tracked handle ts ≡ true
    → (s : Subscription) → TrackedIfOpen ts s
    → TrackedIfOpen ts (open_feed handle id r s)
unfolding open_feed
open_feed-TrackedIfOpen handle id r ts t s h = elim (Bool-cases (eqb s.handle handle)) [
  | inl same ↦
      rw (same, open_feed) (λ o. ap (λ k. is_tracked k ts) ((eqb_iff s.handle handle).0 same) ∙ t)
  | inr other ↦ rw (other, open_feed) h
]

pub close_feed-TrackedIfOpen :
    (handle : ℕ) (ts : List ℕ) (s : Subscription)
    → TrackedIfOpen ts s
    → TrackedIfOpen (keep (λ h. not (eqb h handle)) ts) (close_feed handle s)
unfolding close_feed
close_feed-TrackedIfOpen handle ts s h = elim (Bool-cases (eqb s.handle handle)) [
  | inl same ↦ rw (same, close_feed) (λ o. cc)
  | inr other ↦ rw (other, close_feed) (λ o. is_tracked-keep handle s.handle ts (h o) other)
]

replace_seen-TrackedIfOpen :
    (handle : ℕ) (seen : BoundedIdSet) (ts : List ℕ) (s : Subscription)
    → TrackedIfOpen ts s
    → TrackedIfOpen ts (replace_seen handle seen s)
unfolding replace_seen
replace_seen-TrackedIfOpen handle seen ts s h = elim (Bool-cases (eqb s.handle handle)) [
  | inl same ↦ rw (same, replace_seen) h
  | inr other ↦ rw (other, replace_seen) h
]

pub register-Evolves : (handle : ℕ) (id : String) (r : Remote) → Evolves r (register handle id r)
unfolding register
register-Evolves handle id r = elim (Bool-cases (is_tracked handle r.tracked)) [
  | inl t ↦
      rw (t, register)
        (feeds-Evolves r r.tracked (map (open_feed handle id r) r.subscriptions) λ h. (
          h.swept,
          All-map_feeds (open_feed handle id r) r.tracked r.tracked r.subscriptions
              (open_feed-TrackedIfOpen handle id r r.tracked t) h.open_tracked,
        ))
  | inr gone ↦ rw (gone, register) (Evolves-refl r)
]

pub unsubscribe-Evolves : (handle : ℕ) (r : Remote) → Evolves r (unsubscribe handle r)
unfolding unsubscribe
unsubscribe-Evolves handle r = elim (Bool-cases (is_tracked handle r.tracked)) [
  | inl t ↦
      let left = keep (λ h. not (eqb h handle)) r.tracked in
      rw (t, unsubscribe)
        (feeds-Evolves r left (map (close_feed handle) r.subscriptions) λ h. (
          λ shut. ap (λ ts. keep (λ g. not (eqb g handle)) ts) (h.swept shut),
          All-map_feeds (close_feed handle) r.tracked left r.subscriptions
              (close_feed-TrackedIfOpen handle r.tracked) h.open_tracked,
        ))
  | inr gone ↦ rw (gone, unsubscribe) (Evolves-refl r)
]

replaced-Evolves :
    (handle : ℕ) (seen : BoundedIdSet) (r : Remote)
    → Evolves r (record r { subscriptions = map (replace_seen handle seen) r.subscriptions })
replaced-Evolves handle seen r =
    feeds-Evolves r r.tracked (map (replace_seen handle seen) r.subscriptions) λ h. (
      h.swept,
      All-map_feeds (replace_seen handle seen) r.tracked r.tracked r.subscriptions
          (replace_seen-TrackedIfOpen handle seen r.tracked) h.open_tracked,
    )

-- no row takes a cursor back
module _ (own : Option String) (name : String) (thread : Option String) (key : String) where
  see_row_grows :
      (row : MessageRow) (b : Batch) (k : String)
      → cursor k b.cursors ≤ cursor k (see_row own name thread key row b).cursors
  unfolding see_row
  see_row_grows row b k = elim (Bool-cases (has row.id b.seen.ids)) [
    | inl old ↦ rw (old, see_row) (le_refl _)
    | inr new ↦ rw (new, see_row) (unfold take_row in advance_grows key row.ts b.cursors k)
  ]

  pub take_rows_grows :
      (rows : List MessageRow) (b : Batch) (k : String)
      → cursor k b.cursors ≤ cursor k (take_rows own name thread key rows b).cursors
  unfolding take_rows
  take_rows_grows [] b k = le_refl _
  take_rows_grows (row ∷ rows) b k =
      le_trans (see_row_grows row b k) (take_rows_grows rows (see_row own name thread key row b) k)

update_feed-Evolves :
    (s : Subscription) (rows : List MessageRow) (f : Feed) (r : Remote)
    → Evolves r (update_feed s rows f r).remote
unfolding update_feed
update_feed-Evolves s rows (topic id) r =
    let b =
      take_rows s.own_session_id s.channel_name (some id) id rows
        (empty_batch s.seen r.topic_max_ts) in
    Evolves-trans
      (topic_cursor-Evolves r b.cursors (
        take_rows_grows s.own_session_id s.channel_name (some id) id rows
          (empty_batch s.seen r.topic_max_ts)))
      (replaced-Evolves s.handle b.seen (record r { topic_max_ts = b.cursors }))
update_feed-Evolves s rows (channel id) r =
    let b =
      take_rows s.own_session_id s.channel_name none id rows
        (empty_batch s.seen r.channel_max_ts) in
    Evolves-trans
      (channel_cursor-Evolves r b.cursors (
        take_rows_grows s.own_session_id s.channel_name none id rows
          (empty_batch s.seen r.channel_max_ts)))
      (replaced-Evolves s.handle b.seen (record r { channel_max_ts = b.cursors }))
update_feed-Evolves s rows unresolved r = Evolves-refl r

pub on_update-Evolves :
    (s : Subscription) (rows : List MessageRow) (r : Remote) → Evolves r (on_update s rows r).remote
unfolding on_update
on_update-Evolves s rows r = update_feed-Evolves s rows s.feed r

pub subscribe_topic_messages-Evolves :
    (handle : ℕ) (id name : String) (r : Remote)
    → Evolves r (subscribe_topic_messages handle id name r)
unfolding subscribe_topic_messages
subscribe_topic_messages-Evolves handle id name r =
    elim (Bool-cases (not r.enabled || r.shutdown_started)) [
      | inl off ↦ rw (off, subscribe_topic_messages) (Evolves-refl r)
      | inr on ↦ rw (on, subscribe_topic_messages) (track-Evolves _ r (ground (arith, on)))
    ]
