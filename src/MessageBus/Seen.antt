-- ===== src/MessageBus/Seen.antt =====
-- Which messages `MessageBus.push` drops (mcp_server/src/message-bus.ts).
use cccollab.Base.{
  ℕ, ◌+◌, ◌≤◌, ◌<◌, String, ◌≡◌, refl, Bool, none, some, [], ◌∷◌, arith, eq_iff, if◌then◌else◌,
}
use cccollab.Base.Assoc.{Assoc, lookup}
use cccollab.MessageBus.{
  ParsedMessage, Dates, dropped, dedup_window_ms, dedup_key, vacuum, is_recent, push, deliver,
  remember,
}

-- no key twice, as in a `Map`
abbrev pub HasUniqueKeys : Assoc ℕ → Type 0
HasUniqueKeys [] = Unit
HasUniqueKeys ((k, t) ∷ m) = (lookup k m ≡ none) × HasUniqueKeys m

pub vacuum-absent :
    (now : ℕ) (m : Assoc ℕ) (k : String) → lookup k m ≡ none → lookup k (vacuum now m) ≡ none
unfolding lookup vacuum
vacuum-absent now [] k e = refl
vacuum-absent now ((j, t) ∷ m) k e = ground (arith, eq_iff j k, vacuum-absent now m k, e)

-- Of a key the sweep leaves the time it was seen exactly if that is less than a window ago.
pub lookup-vacuum :
    (now : ℕ) (m : Assoc ℕ) (k : String)
    → HasUniqueKeys m
    → lookup k (vacuum now m) ≡ (if is_recent now (lookup k m) then lookup k m else none)
unfolding lookup vacuum
lookup-vacuum now [] k h = refl
lookup-vacuum now ((j, t) ∷ m) k (a, h) =
    ground (arith, eq_iff j k, vacuum-absent now m k, lookup-vacuum now m k h, a)

-- The branches of `push`, by the table before the sweep.
pub push_lem :
    (dates : Dates) (now : ℕ) (accepted : Bool) (msg : ParsedMessage) (source : String)
    (table : Assoc ℕ)
    → HasUniqueKeys table
    → ((t : ℕ)
        → lookup (dedup_key dates msg) table ≡ some t
        → now < t + dedup_window_ms
        → push dates now accepted msg source table ≡ (vacuum now table, dropped msg source t ∷ []))
      × ((t : ℕ)
          → lookup (dedup_key dates msg) table ≡ some t
          → t + dedup_window_ms ≤ now
          → push dates now accepted msg source table
            ≡ (remember (dedup_key dates msg) now (vacuum now table), deliver accepted msg source))
      × (lookup (dedup_key dates msg) table ≡ none
          → push dates now accepted msg source table
            ≡ (remember (dedup_key dates msg) now (vacuum now table), deliver accepted msg source))
unfolding push vacuum
push_lem dates now accepted msg source table h = (
  λ t e l.
      let q : lookup key (vacuum now table) ≡ some t = ground (arith, swept, e, l) in
      rw (q, push) (ground arith),
  λ t e l.
      let q : lookup key (vacuum now table) ≡ none = ground (arith, swept, e, l) in
      rw (q, push) refl,
  λ e. let q : lookup key (vacuum now table) ≡ none = ground (arith, swept, e) in rw (q, push) refl,
)
  where
    key : String
    key = dedup_key dates msg

    swept :
        lookup key (vacuum now table)
        ≡ (if is_recent now (lookup key table) then lookup key table else none)
    swept = lookup-vacuum now table key h
