-- ===== src/Remote/Breaker.antt =====
-- The circuit breaker of mcp_server/src/transport/remote.ts over a series of failures.
use cccollab.Base.{
  ℕ, ◌+◌, ◌≤◌, ◌<◌, Bool, true, false, not, ◌||◌, ◌≡◌, refl, sym, ap, ◌∙◌, List, [], ◌∷◌, ◌++◌, map,
  if◌then◌else◌, leb, ltb, ltb→lt, length, All, arith, Bool-cases, inl, inr,
}
use cccollab.Remote.Backend.{Thrown}
use cccollab.Remote.Errors.{message_of, is_function_not_found_error, is_auth_error}
use cccollab.Remote.State.{
  Remote, init, Degradation, failures, subscription_failures, degradation_window_ms,
  degradation_threshold, drop_old, count_failure, register_failure, register_subscription_failure,
}
use cccollab.Remote.Evolves.{count_failure-Evolves}

-- A failure of an operation, or of a subscription.
pub record Failing : Type 0 where
  pub of_feed : Bool
  pub error : Thrown
  pub at : ℕ

-- one that says nothing of the deployment or of the session's token
abbrev pub IsTransient : Failing → Type 0
IsTransient f =
    (is_function_not_found_error f.error ≡ false)
    × (f.of_feed ≡ false → is_auth_error f.error ≡ false)

unfoldable pub fail_one : Failing → Remote → Remote
fail_one f r =
    if f.of_feed
    then register_subscription_failure f.error f.at r
    else register_failure f.error f.at r

unfoldable pub fail_all : List Failing → Remote → Remote
fail_all [] r = r
fail_all (f ∷ fs) r = fail_all fs (fail_one f r)

abbrev pub Ascending : List ℕ → Type 0
Ascending [] = Unit
Ascending (t ∷ []) = Unit
Ascending (t ∷ (u ∷ ts)) = (t ≤ u) × Ascending (u ∷ ts)

-- Some three in a row are within the window.
unfoldable pub crowded : List ℕ → Bool
crowded [] = false
crowded (a ∷ []) = false
crowded (a ∷ (b ∷ [])) = false
crowded (a ∷ (b ∷ (c ∷ ts))) = leb c (a + degradation_window_ms) || crowded (b ∷ (c ∷ ts))

-- The failures that are counted, and whether the transport stays enabled.
stays : List ℕ → List ℕ → Bool
stays recent [] = true
stays recent (t ∷ ts) =
    let kept = drop_old t (recent ++ t ∷ []) in
    let rest = stays kept ts in if leb degradation_threshold (length kept) then false else rest

crowded_skip :
    (a t : ℕ) (ts : List ℕ)
    → a + degradation_window_ms < t
    → Ascending (t ∷ ts)
    → crowded (a ∷ (t ∷ ts)) ≡ crowded (t ∷ ts)
unfolding crowded
crowded_skip a t [] h asc = refl
crowded_skip a t (c ∷ ts) h asc = ground (arith, h, asc.0)

crowded_far :
    (a b t : ℕ) (ts : List ℕ)
    → ltb (a + degradation_window_ms) t ≡ true
    → crowded (a ∷ (b ∷ (t ∷ ts))) ≡ crowded (b ∷ (t ∷ ts))
unfolding crowded
crowded_far a b t ts h = ground (arith, h)

crowded_near :
    (a b t : ℕ) (ts : List ℕ)
    → ltb (a + degradation_window_ms) t ≡ false
    → crowded (a ∷ (b ∷ (t ∷ ts))) ≡ true
unfolding crowded
crowded_near a b t ts h = ground (arith, h)

own_time : (t : ℕ) → ltb (t + degradation_window_ms) t ≡ false
own_time t = ground arith

-- the next failure where none, one or two are counted
stays_none : (t : ℕ) (ts : List ℕ) → stays [] (t ∷ ts) ≡ stays (t ∷ []) ts
unfolding stays drop_old
stays_none t ts = rw (own_time t) refl

module _ (t : ℕ) (ts : List ℕ) (one : stays (t ∷ []) ts ≡ not (crowded (t ∷ ts))) where
  stays_one :
      (a : ℕ)
      → Ascending (t ∷ ts)
      → (stays (a ∷ (t ∷ [])) ts ≡ not (crowded (a ∷ (t ∷ ts))))
      → stays (a ∷ []) (t ∷ ts) ≡ not (crowded (a ∷ (t ∷ ts)))
  unfolding stays drop_old
  stays_one a asc two = elim (Bool-cases (ltb (a + degradation_window_ms) t)) [
    | inl old ↦ rw (old, own_time t) (one ∙ ap not (sym (crowded_skip a t ts (ltb→lt _ _ old) asc)))
    | inr kept ↦ rw kept two
  ]

  stays_two :
      (a b : ℕ)
      → Ascending (t ∷ ts)
      → (stays (b ∷ (t ∷ [])) ts ≡ not (crowded (b ∷ (t ∷ ts))))
      → stays (a ∷ (b ∷ [])) (t ∷ ts) ≡ not (crowded (a ∷ (b ∷ (t ∷ ts))))
  unfolding stays drop_old
  stays_two a b asc two = elim (Bool-cases (ltb (a + degradation_window_ms) t)) [
    | inr kept ↦ rw (kept, crowded_near a b t ts kept) refl
    | inl old ↦
        rw (old, crowded_far a b t ts old)
          (elim (Bool-cases (ltb (b + degradation_window_ms) t)) [
            | inl older ↦
                rw (older, own_time t)
                  (one ∙ ap not (sym (crowded_skip b t ts (ltb→lt _ _ older) asc)))
            | inr kept ↦ rw kept two
          ])
  ]

-- what the three kinds of counted failures lead to
abbrev Parts : ℕ → List ℕ → Type 0
Parts t ts =
    (stays (t ∷ []) ts ≡ not (crowded (t ∷ ts)))
    × ((a : ℕ) → stays (a ∷ (t ∷ [])) ts ≡ not (crowded (a ∷ (t ∷ ts))))

stays-Parts : (t : ℕ) (ts : List ℕ) → Ascending (t ∷ ts) → Parts t ts
unfolding stays crowded
stays-Parts t [] asc = (refl, λ a. refl)
stays-Parts t (u ∷ us) asc =
    let later = stays-Parts u us asc.1 in
    (stays_one u us later.0 t asc.1 (later.1 t), λ a. stays_two u us later.0 a t asc.1 (later.1 t))

stays_lem : (ts : List ℕ) → Ascending ts → stays [] ts ≡ not (crowded ts)
unfolding stays crowded
stays_lem [] asc = refl
stays_lem (t ∷ ts) asc = stays_none t ts ∙ (stays-Parts t ts asc).0

-- A failure that is transient is counted.
fail_one-count :
    (f : Failing) (r : Remote)
    → IsTransient f
    → (why : ℕ → Degradation) × (fail_one f r ≡ count_failure why f.at r)
unfolding fail_one register_failure register_subscription_failure
fail_one-count f r h = elim (Bool-cases f.of_feed) [
  | inl feed ↦ (
    (λ n. subscription_failures n (message_of f.error)),
    rw (feed, fail_one) (rw (h.0, register_subscription_failure) refl),
  )
  | inr op ↦ (
    (λ n. failures n (message_of f.error)),
    rw (op, fail_one) (rw (h.0, register_failure) (rw (h.1 op) refl)),
  )
]

fail_all-off :
    (fs : List Failing) (r : Remote)
    → All IsTransient fs
    → r.enabled ≡ false
    → (fail_all fs r).enabled ≡ false
unfolding fail_all
fail_all-off [] r h off = off
fail_all-off (f ∷ fs) r h off =
    let (why, e) = fail_one-count f r h.0 in
    fail_all-off fs (fail_one f r) h.1
      (ap (λ (s : Remote). s.enabled) e ∙ (count_failure-Evolves why f.at r).disabled off)

abbrev times : List Failing → List ℕ
times fs = map (λ (f : Failing). f.at) fs

module _ (why : ℕ → Degradation) (now : ℕ) (r : Remote) where
  count_full :
      leb degradation_threshold (length (drop_old now (r.recent_failures ++ now ∷ []))) ≡ true
      → (count_failure why now r).enabled ≡ false
  unfolding count_failure
  count_full h = rw (h, count_failure) refl

  count_few :
      leb degradation_threshold (length (drop_old now (r.recent_failures ++ now ∷ []))) ≡ false
      → count_failure why now r
        ≡ record r { recent_failures = drop_old now (r.recent_failures ++ now ∷ []) }
  unfolding count_failure
  count_few h = rw (h, count_failure) refl

fail_all-stays :
    (fs : List Failing) (r : Remote)
    → All IsTransient fs
    → r.enabled ≡ true
    → (fail_all fs r).enabled ≡ stays r.recent_failures (times fs)
unfolding fail_all stays
fail_all-stays [] r h on = on
fail_all-stays (f ∷ fs) r h on =
    let (why, e) = fail_one-count f r h.0 in
    let kept = drop_old f.at (r.recent_failures ++ f.at ∷ []) in
    ap (λ (s : Remote). (fail_all fs s).enabled) e
    ∙ elim (Bool-cases (leb degradation_threshold (length kept))) [
      | inl full ↦
          rw full (fail_all-off fs (count_failure why f.at r) h.1 (count_full why f.at r full))
      | inr few ↦ rw few (
          ap (λ (s : Remote). (fail_all fs s).enabled) (count_few why f.at r few)
          ∙ fail_all-stays fs (record r { recent_failures = kept }) h.1 on)
    ]

-- From its construction on, after failures that are all transient, at times that do not go back,
-- of operations and of subscriptions alike: the transport is still enabled exactly if no three
-- failures in a row are within 60 s.
pub fail_all-enabled :
    (fs : List Failing)
    → All IsTransient fs
    → Ascending (times fs)
    → (fail_all fs init).enabled ≡ not (crowded (times fs))
fail_all-enabled fs h asc = fail_all-stays fs init h refl ∙ stays_lem (times fs) asc
