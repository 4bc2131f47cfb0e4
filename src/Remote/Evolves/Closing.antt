-- ===== src/Remote/Evolves/Closing.antt =====
-- `shutdown` of mcp_server/src/transport/remote.ts closes every subscription.
use cccollab.Base.{
  ℕ, Bool, true, false, not, ◌≡◌, refl, sym, ◌∙◌, ap, List, [], ◌∷◌, if◌then◌else◌, eqb, eqb_iff,
  arith, Bool-cases, inl, inr, All, keep,
}
use mathlib.Core.Path.{subst}
use mathlib.Core.Bool.{true≢false}
use native.Mathlib.Nat.{le_refl}
use cccollab.Remote.State.{Remote, Subscription}
use cccollab.Remote.Feeds.{
  is_tracked, close_feed, unsubscribe, unsubscribe_all, close_all, shutdown,
}
use cccollab.Remote.Evolves.{Evolves, Evolves-refl, IsSound, TrackedIfOpen}
use cccollab.Remote.Evolves.Feeding.{All-more, All-map_feeds, close_feed-TrackedIfOpen}

unsubscribe-open_tracked :
    (handle : ℕ) (r : Remote)
    → All (TrackedIfOpen r.tracked) r.subscriptions
    → All (TrackedIfOpen (unsubscribe handle r).tracked) (unsubscribe handle r).subscriptions
unfolding unsubscribe
unsubscribe-open_tracked handle r h = elim (Bool-cases (is_tracked handle r.tracked)) [
  | inl t ↦
      rw (t, unsubscribe)
        (All-map_feeds (close_feed handle) r.tracked (keep (λ h. not (eqb h handle)) r.tracked)
          r.subscriptions (close_feed-TrackedIfOpen handle r.tracked) h)
  | inr gone ↦ rw (gone, unsubscribe) h
]

unsubscribe_all-open_tracked :
    (hs : List ℕ) (r : Remote)
    → All (TrackedIfOpen r.tracked) r.subscriptions
    → All (TrackedIfOpen (unsubscribe_all hs r).tracked) (unsubscribe_all hs r).subscriptions
unfolding unsubscribe_all
unsubscribe_all-open_tracked [] r h = h
unsubscribe_all-open_tracked (x ∷ hs) r h =
    unsubscribe_all-open_tracked hs (unsubscribe x r) (unsubscribe-open_tracked x r h)

is_tracked-of_keep :
    (h g : ℕ) (xs : List ℕ)
    → is_tracked g (keep (λ x. not (eqb x h)) xs) ≡ true
    → (eqb h g ≡ false) × (is_tracked g xs ≡ true)
unfolding is_tracked
is_tracked-of_keep h g [] t = cc
is_tracked-of_keep h g (x ∷ xs) t = ground (arith, is_tracked-of_keep h g xs, t)

is_tracked-unsubscribe :
    (h g : ℕ) (r : Remote)
    → is_tracked g (unsubscribe h r).tracked ≡ true
    → (eqb h g ≡ false) × (is_tracked g r.tracked ≡ true)
unfolding unsubscribe
is_tracked-unsubscribe h g r t = elim (Bool-cases (is_tracked h r.tracked)) [
  | inl there ↦ is_tracked-of_keep h g r.tracked (rw (there, unsubscribe) at t)
  | inr gone ↦
      let left : is_tracked g r.tracked ≡ true = rw (gone, unsubscribe) at t in
      elim (Bool-cases (eqb h g)) [
        | inl same ↦ absurd (
            true≢false
              (sym left ∙ ap (λ k. is_tracked k r.tracked) (sym ((eqb_iff h g).0 same)) ∙ gone))
        | inr other ↦ (other, left)
      ]
]

is_tracked-unsubscribe_all :
    (hs : List ℕ) (g : ℕ) (r : Remote)
    → is_tracked g (unsubscribe_all hs r).tracked ≡ true
    → (is_tracked g hs ≡ false) × (is_tracked g r.tracked ≡ true)
unfolding unsubscribe_all is_tracked
is_tracked-unsubscribe_all [] g r t = (refl, t)
is_tracked-unsubscribe_all (x ∷ hs) g r t =
    let later = is_tracked-unsubscribe_all hs g (unsubscribe x r) t in
    let now = is_tracked-unsubscribe x g r later.1 in (ground (arith, later.0, now.0), now.1)

-- what the callbacks leave alone
abbrev with_feeds : Remote → Remote → Remote
with_feeds r s = record r { tracked = s.tracked; subscriptions = s.subscriptions }

unsubscribe_lem : (h : ℕ) (r : Remote) → unsubscribe h r ≡ with_feeds r (unsubscribe h r)
unfolding unsubscribe
unsubscribe_lem h r = elim (Bool-cases (is_tracked h r.tracked)) [
  | inl there ↦ rw (there, unsubscribe) refl
  | inr gone ↦ rw (gone, unsubscribe) refl
]

unsubscribe_all_lem :
    (hs : List ℕ) (r : Remote) → unsubscribe_all hs r ≡ with_feeds r (unsubscribe_all hs r)
unfolding unsubscribe_all
unsubscribe_all_lem [] r = refl
unsubscribe_all_lem (h ∷ hs) r =
    unsubscribe_all_lem hs (unsubscribe h r)
    ∙ ap (λ (s : Remote). with_feeds s (unsubscribe_all hs (unsubscribe h r))) (unsubscribe_lem h r)

all_invoked :
    (r s : Remote) (g : ℕ)
    → s.tracked ≡ r.tracked
    → is_tracked g (unsubscribe_all r.tracked s).tracked ≡ true
    → is_tracked g [] ≡ true
all_invoked r s g same t =
    let both = is_tracked-unsubscribe_all r.tracked g s t in
    absurd (true≢false (sym both.1 ∙ ap (is_tracked g) same ∙ both.0))

abbrev stopped : Remote → Remote
stopped r = record r { shutdown_started = true; enabled = false; heartbeat = false }

closed-Evolves :
    (r : Remote) (feeds : List Subscription)
    → (IsSound r → All (TrackedIfOpen []) feeds)
    → Evolves r (record (stopped r) { tracked = []; subscriptions = feeds })
closed-Evolves r feeds closed = record {
  disabled = λ h. refl;
  shut = λ h. refl;
  known = λ k h. h;
  topic_cursor = λ k. le_refl _;
  channel_cursor = λ k. le_refl _;
  named = λ k h. h;
  sound = λ h. record {
    degraded = λ d. refl;
    shut = λ d. refl;
    swept = λ d. refl;
    below = λ e. cc;
    open_tracked = closed h;
  };
}

close_all-Evolves : (r : Remote) → Evolves r (close_all r)
unfolding close_all
close_all-Evolves r =
    let swept = unsubscribe_all r.tracked (stopped r) in
    subst (λ (s : Remote). Evolves r (record s { tracked = [] }))
      (sym (unsubscribe_all_lem r.tracked (stopped r)))
      (closed-Evolves r swept.subscriptions λ h.
        All-more swept.tracked [] swept.subscriptions (λ g t. all_invoked r (stopped r) g refl t)
          (unsubscribe_all-open_tracked r.tracked (stopped r) h.open_tracked))

pub shutdown-Evolves : (r : Remote) → Evolves r (shutdown r)
unfolding shutdown
shutdown-Evolves r = go r.shutdown_started
  where
    go : (b : Bool) → Evolves r (if b then r else close_all r)
    go true = Evolves-refl r
    go false = close_all-Evolves r
