-- ===== src/History.antt =====
-- mcp_server/src/history-paging.ts: the window of a topic's history that one request returns, and
-- the cursor protocol of `readTopicMessages` (mcp_server/src/transport/local.ts).
pub mod Order
pub mod Limit
pub mod Paging
pub mod ReadBack
mod Tests
use Prim.Native.Nat.{max, min}
use cccollab.Base.{
  ℕ, zero, suc, ◌-◌, String, Bool, true, Option, none, some, List, [], ◌∷◌, ◌++◌, ltb, eqb,
  if◌then◌else◌, length, drop, keep,
}
use cccollab.Runtime.{Number, finite, nan, ℤ, pos, negsuc, is_finite, floor, before_number, of_ms}

abbrev pub history_default_limit : ℕ
history_default_limit = 50

abbrev pub history_max_limit : ℕ
history_max_limit = 200

-- `Math.max(1, Math.min(200, n))` of an integer
clamp_floor : ℤ → ℕ
clamp_floor (pos n) = max 1 (min history_max_limit n)
clamp_floor (negsuc n) = 1

clamp_number : Number → ℕ
clamp_number (finite n k) = clamp_floor (floor n k)
clamp_number _ = history_default_limit

-- `to_number` is the runtime's `Number(text)`.
unfoldable pub clamp_history_limit : (String → Number) → Option String → ℕ
unfolding clamp_number clamp_floor floor
clamp_history_limit to_number none = clamp_number nan
clamp_history_limit to_number (some raw) = clamp_number (to_number raw)

pub record HistoryEntry : Type 0 where
  pub sender : String
  pub text : String
  pub ts : ℕ

pub record HistoryPage : Type 0 where
  pub messages : List HistoryEntry
  pub has_more : Bool

-- `older[i]!.ts`; `none` is the TypeError of a read out of bounds
abbrev pub ts_at : List HistoryEntry → ℕ → Option ℕ
ts_at [] i = none
ts_at (m ∷ ms) zero = some m.ts
ts_at (m ∷ ms) (suc i) = ts_at ms i

-- `while (start > 0 && older[start - 1]!.ts === older[start]!.ts) start--`
pub grow : List HistoryEntry → ℕ → Option ℕ
grow older zero = some zero
grow older (suc s) =
    let lower = grow older s in
    elim (ts_at older s) [
      | none ↦ none
      | some a ↦ elim (ts_at older (suc s)) [
        | none ↦ none
        | some b ↦ if eqb a b then lower else some (suc s)
      ]
    ]

pub older_than : Option Number → List HistoryEntry → List HistoryEntry
older_than none all = all
older_than (some before) all = keep (λ m. before_number m.ts before) all

pub page_from : List HistoryEntry → Option ℕ → Option HistoryPage
page_from older none = none
page_from older (some start) = some (record { messages = drop start older; has_more = ltb 0 start })

-- `none` is a TypeError, which only `limit` 0 leads to.
unfoldable pub page_topic_history : List HistoryEntry → ℕ → Option Number → Option HistoryPage
unfolding page_from older_than grow before_number
page_topic_history all limit before =
    let older = older_than before all in page_from older (grow older (length older - limit))

-- The cursor that `readTopicMessages` hands back: the first message's `ts`.
abbrev pub oldest_ts : List HistoryEntry → Option ℕ
oldest_ts [] = none
oldest_ts (m ∷ ms) = some m.ts

-- A reader that follows the contract: ask again with `before` set to the page's `oldestTs` until
-- `hasMore` is false. `none` means that a request failed, or that the fuel ran out.
pub read_back :
    ℕ → List HistoryEntry → ℕ → Option Number → List HistoryEntry → Option (List HistoryEntry)
read_back zero all limit before acc = none
read_back (suc fuel) all limit before acc = elim (page_topic_history all limit before) [
  | none ↦ none
  | some p ↦
      let next = λ (t : ℕ). read_back fuel all limit (some (of_ms t)) (p.messages ++ acc) in
      elim p.has_more [
        | true ↦ elim (oldest_ts p.messages) [ none ↦ none | some t ↦ next t ]
        | _ ↦ some (p.messages ++ acc)
      ]
]
