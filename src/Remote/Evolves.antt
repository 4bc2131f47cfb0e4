-- ===== src/Remote/Evolves.antt =====
-- What holds of the transport of mcp_server/src/transport/remote.ts at all times, and what no step of
-- it takes back.
pub mod Learning
pub mod Feeding
pub mod Closing
use cccollab.Base.{
  ℕ, ◌≤◌, ◌<◌, String, Bool, true, false, not, ◌≡◌, refl, ◌∙◌, Option, none, some, List, [], ◌∷◌,
  ◌++◌, map, if◌then◌else◌, ltb, leb, eqb, eqb_iff, eq_iff, length, All, keep, arith, Bool-cases,
  inl, inr,
}
use native.Mathlib.Nat.{le_refl, le_trans}
use cccollab.Base.Assoc.{Assoc, lookup, set, is_some, lookup-set}
use cccollab.Base.StrSet.{has, add, has-add}
use cccollab.Remote.Backend.{Thrown}
use cccollab.Remote.State.{
  Remote, Subscription, cursor, advance, count_failure, drop_old, Degradation, register_failure,
  register_subscription_failure, degradation_threshold,
}
use cccollab.Remote.Errors.{is_function_not_found_error, is_auth_error}
use cccollab.Remote.Feeds.{is_tracked}

abbrev pub TrackedIfOpen : List ℕ → Subscription → Type 0
TrackedIfOpen tracked s = s.is_open ≡ true → is_tracked s.handle tracked ≡ true

pub record IsSound (r : Remote) : Type 0 where
  pub degraded : is_some r.degradation ≡ true → r.enabled ≡ false
  pub shut : r.shutdown_started ≡ true → r.enabled ≡ false
  pub swept : r.shutdown_started ≡ true → r.tracked ≡ []
  pub below : r.enabled ≡ true → length r.recent_failures < degradation_threshold
  pub open_tracked : All (TrackedIfOpen r.tracked) r.subscriptions

pub record Evolves (r s : Remote) : Type 0 where
  pub disabled : r.enabled ≡ false → s.enabled ≡ false
  pub shut : r.shutdown_started ≡ true → s.shutdown_started ≡ true
  pub known : (k : String) → has k r.known_topic_ids ≡ true → has k s.known_topic_ids ≡ true
  pub topic_cursor : (k : String) → cursor k r.topic_max_ts ≤ cursor k s.topic_max_ts
  pub channel_cursor : (k : String) → cursor k r.channel_max_ts ≤ cursor k s.channel_max_ts
  pub named :
      (k : String)
      → is_some (lookup k r.channel_ids_by_name) ≡ true
      → is_some (lookup k s.channel_ids_by_name) ≡ true
  pub sound : IsSound r → IsSound s

pub Evolves-refl : (r : Remote) → Evolves r r
Evolves-refl r = record {
  disabled = λ h. h;
  shut = λ h. h;
  known = λ k h. h;
  topic_cursor = λ k. le_refl _;
  channel_cursor = λ k. le_refl _;
  named = λ k h. h;
  sound = λ h. h;
}

pub Evolves-trans : {r s t : Remote} → Evolves r s → Evolves s t → Evolves r t
Evolves-trans e f = record {
  disabled = λ h. f.disabled (e.disabled h);
  shut = λ h. f.shut (e.shut h);
  known = λ k h. f.known k (e.known k h);
  topic_cursor = λ k. le_trans (e.topic_cursor k) (f.topic_cursor k);
  channel_cursor = λ k. le_trans (e.channel_cursor k) (f.channel_cursor k);
  named = λ k h. f.named k (e.named k h);
  sound = λ h. f.sound (e.sound h);
}

-- A step that only adds to what is known leaves the breaker and the subscriptions as they are.
pub learning-Evolves :
    (r : Remote) (session : Option String) (beats : Bool) (topics : List String)
    (names : Assoc String) (topic_ts channel_ts : Assoc ℕ)
    → ((k : String) → has k r.known_topic_ids ≡ true → has k topics ≡ true)
    → ((k : String)
        → is_some (lookup k r.channel_ids_by_name) ≡ true
        → is_some (lookup k names) ≡ true)
    → ((k : String) → cursor k r.topic_max_ts ≤ cursor k topic_ts)
    → ((k : String) → cursor k r.channel_max_ts ≤ cursor k channel_ts)
    → Evolves r (record r {
      session_id = session;
      heartbeat = beats;
      known_topic_ids = topics;
      channel_ids_by_name = names;
      topic_max_ts = topic_ts;
      channel_max_ts = channel_ts;
    })
learning-Evolves r session beats topics names topic_ts channel_ts known named topic_grows
      channel_grows =
    record {
      disabled = λ h. h;
      shut = λ h. h;
      known = known;
      topic_cursor = topic_grows;
      channel_cursor = channel_grows;
      named = named;
      sound = λ h. record {
        degraded = h.degraded;
        shut = h.shut;
        swept = h.swept;
        below = h.below;
        open_tracked = h.open_tracked;
      };
    }

-- A step of the breaker or of the subscriptions.
switching-Evolves :
    (r : Remote) (on : Bool) (recent tracked : List ℕ) (why : Option Degradation)
    (feeds : List Subscription)
    → (r.enabled ≡ false → on ≡ false)
    → (IsSound r
        → IsSound (record r {
          enabled = on;
          recent_failures = recent;
          degradation = why;
          tracked = tracked;
          subscriptions = feeds;
        }))
    → Evolves r (record r {
      enabled = on;
      recent_failures = recent;
      degradation = why;
      tracked = tracked;
      subscriptions = feeds;
    })
switching-Evolves r on recent tracked why feeds disabled sound = record {
  disabled = disabled;
  shut = λ h. h;
  known = λ k h. h;
  topic_cursor = λ k. le_refl _;
  channel_cursor = λ k. le_refl _;
  named = λ k h. h;
  sound = sound;
}

pub advance_grows :
    (k : String) (ts : ℕ) (m : Assoc ℕ) (j : String) → cursor j m ≤ cursor j (advance k ts m)
unfolding advance
advance_grows k ts m j = ground (arith, lookup-set k ts m j, eq_iff k j)

-- A step that disables the transport and touches nothing else but what has failed.
off-Evolves :
    (r : Remote) (recent : List ℕ) (why : Degradation)
    → Evolves r (record r { recent_failures = recent; enabled = false; degradation = some why })
off-Evolves r recent why =
    switching-Evolves r false recent r.tracked (some why) r.subscriptions (λ h. refl)
      λ h. record {
        degraded = λ d. refl;
        shut = λ d. refl;
        swept = h.swept;
        below = λ e. cc;
        open_tracked = h.open_tracked;
      }

counted-Evolves :
    (r : Remote) (recent : List ℕ)
    → length recent < degradation_threshold
    → Evolves r (record r { recent_failures = recent })
counted-Evolves r recent few =
    switching-Evolves r r.enabled recent r.tracked r.degradation r.subscriptions (λ h. h)
      λ h. record {
        degraded = h.degraded;
        shut = h.shut;
        swept = h.swept;
        below = λ e. few;
        open_tracked = h.open_tracked;
      }

pub count_failure-Evolves :
    (why : ℕ → Degradation) (now : ℕ) (r : Remote) → Evolves r (count_failure why now r)
unfolding count_failure
count_failure-Evolves why now r =
    let recent = drop_old now (r.recent_failures ++ now ∷ []) in
    elim (Bool-cases (leb degradation_threshold (length recent))) [
      | inl full ↦ rw (full, count_failure) (off-Evolves r recent (why (length recent)))
      | inr few ↦ rw (few, count_failure) (counted-Evolves r recent (ground (arith, few)))
    ]

pub register_failure-Evolves :
    (e : Thrown) (now : ℕ) (r : Remote) → Evolves r (register_failure e now r)
unfolding register_failure
register_failure-Evolves e now r = elim (Bool-cases (is_function_not_found_error e)) [
  | inl missing ↦ rw missing (off-Evolves r r.recent_failures _)
  | inr other ↦ rw other (elim (Bool-cases (is_auth_error e)) [
    | inl auth ↦ rw auth (off-Evolves r r.recent_failures _)
    | inr transient ↦ rw transient (count_failure-Evolves _ now r)
  ])
]

pub register_subscription_failure-Evolves :
    (e : Thrown) (now : ℕ) (r : Remote) → Evolves r (register_subscription_failure e now r)
unfolding register_subscription_failure
register_subscription_failure-Evolves e now r = elim (Bool-cases (is_function_not_found_error e)) [
  | inl missing ↦ rw missing (off-Evolves r r.recent_failures _)
  | inr other ↦ rw other (count_failure-Evolves _ now r)
]

-- A step on the subscriptions alone.
pub feeds-Evolves :
    (r : Remote) (ts : List ℕ) (ss : List Subscription)
    → (IsSound r → (r.shutdown_started ≡ true → ts ≡ []) × All (TrackedIfOpen ts) ss)
    → Evolves r (record r { tracked = ts; subscriptions = ss })
feeds-Evolves r ts ss keeps =
    switching-Evolves r r.enabled r.recent_failures ts r.degradation ss (λ h. h)
      λ h. record {
        degraded = h.degraded;
        shut = h.shut;
        swept = (keeps h).0;
        below = h.below;
        open_tracked = (keeps h).1;
      }
