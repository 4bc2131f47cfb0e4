-- ===== src/Remote/State.antt =====
-- The state of mcp_server/src/transport/remote.ts: its fields, the bounded set of ids, the circuit
-- breaker and the open subscriptions.
use cccollab.Base.{
  ℕ, ◌+◌, String, Bool, true, false, Option, none, some, List, [], ◌∷◌, ◌++◌, if◌then◌else◌, ltb,
  leb, length,
}
use cccollab.Base.Nullable.{or_else}
use cccollab.Base.Assoc.{Assoc, lookup, set}
use cccollab.Base.StrSet.{has, add, remove}
use cccollab.Remote.Backend.{Args, text, Thrown}
use cccollab.Remote.Errors.{message_of, is_function_not_found_error, is_auth_error}

abbrev pub degradation_window_ms : ℕ
degradation_window_ms = 60000

abbrev pub degradation_threshold : ℕ
degradation_threshold = 3

abbrev pub dedup_capacity : ℕ
dedup_capacity = 10000

-- `BoundedIdSet`: the set, and the ids in the order of insertion
pub record BoundedIdSet : Type 0 where
  pub ids : List String
  pub order : List String

abbrev pub empty_ids : BoundedIdSet
empty_ids = record { ids = []; order = [] }

-- `while (this.order.length > this.capacity)`: one round for each element at most
unfoldable pub evict : ℕ → List String → List String → BoundedIdSet
evict capacity ids [] = record { ids = ids; order = [] }
evict capacity ids (x ∷ order) =
    let rest = evict capacity (remove x ids) order in
    if ltb capacity (length (x ∷ order)) then rest else record { ids = ids; order = x ∷ order }

unfoldable pub add_id : ℕ → String → BoundedIdSet → BoundedIdSet
unfolding evict
add_id capacity id s =
    if has id s.ids then s else evict capacity (add id s.ids) (s.order ++ id ∷ [])

-- `degradationReason`, the text by what it says
pub data Degradation : Type 0 where
  function_not_found authentication_failed : (message : String) → Degradation
  failures subscription_failures : (count : ℕ) → (last : String) → Degradation

pub data Feed : Type 0 where
  topic : (topic_id : String) → Feed
  channel : (channel_id : String) → Feed
  unresolved : Feed

-- A subscription with what its callbacks close over; `is_open` while the client's `onUpdate` is.
pub record Subscription : Type 0 where
  pub handle : ℕ
  pub channel_name : String
  pub feed : Feed
  pub own_session_id : Option String
  pub seen : BoundedIdSet
  pub query : Args
  pub is_open : Bool

-- `tracked` has the handles of `trackedUnsubscribes`; a callback has been invoked exactly if its
-- handle is not there any more.
pub record Remote : Type 0 where
  pub enabled : Bool
  pub session_id : Option String
  pub recent_failures : List ℕ
  pub degradation : Option Degradation
  pub shutdown_started : Bool
  pub tracked : List ℕ
  pub subscriptions : List Subscription
  pub known_topic_ids : List String
  pub topic_max_ts : Assoc ℕ
  pub channel_ids_by_name : Assoc String
  pub channel_max_ts : Assoc ℕ
  pub heartbeat : Bool

abbrev pub init : Remote
init = record {
  enabled = true;
  session_id = none;
  recent_failures = [];
  degradation = none;
  shutdown_started = false;
  tracked = [];
  subscriptions = [];
  known_topic_ids = [];
  topic_max_ts = [];
  channel_ids_by_name = [];
  channel_max_ts = [];
  heartbeat = false;
}

-- `orgScopedArgs`
unfoldable pub org_scoped_args : Remote → Args → Args
org_scoped_args r args = elim r.session_id [
  | none ↦ args
  | some id ↦ args ++ ("sessionId", text id) ∷ []
]

abbrev pub cursor : String → Assoc ℕ → ℕ
cursor k m = or_else (lookup k m) 0

-- `const prior = m.get(k) ?? 0; if (ts > prior) m.set(k, ts)`
unfoldable pub advance : String → ℕ → Assoc ℕ → Assoc ℕ
unfolding lookup
advance k ts m = if ltb (cursor k m) ts then set k ts m else m

abbrev disable : Degradation → Remote → Remote
disable why r = record r { enabled = false; degradation = some why }

-- the loop that drops the failures that have left the window
unfoldable pub drop_old : ℕ → List ℕ → List ℕ
drop_old now [] = []
drop_old now (t ∷ ts) =
    let rest = drop_old now ts in if ltb (t + degradation_window_ms) now then rest else t ∷ ts

-- The end of both methods below: a failure is counted, and the third in the window disables.
unfoldable pub count_failure : (ℕ → Degradation) → ℕ → Remote → Remote
unfolding drop_old
count_failure why now r =
    let recent = drop_old now (r.recent_failures ++ now ∷ []) in
    if leb degradation_threshold (length recent)
    then record r {
      recent_failures = recent;
      enabled = false;
      degradation = some (why (length recent));
    }
    else record r { recent_failures = recent }

unfoldable pub register_failure : Thrown → ℕ → Remote → Remote
unfolding message_of
register_failure e now r =
    if is_function_not_found_error e
    then disable (function_not_found (message_of e)) r
    else if is_auth_error e
    then disable (authentication_failed (message_of e)) r
    else count_failure (λ n. failures n (message_of e)) now r

unfoldable pub register_subscription_failure : Thrown → ℕ → Remote → Remote
unfolding message_of
register_subscription_failure e now r =
    if is_function_not_found_error e
    then disable (function_not_found (message_of e)) r
    else count_failure (λ n. subscription_failures n (message_of e)) now r
