-- ===== src/MessageBus/Unique.antt =====
-- The table of `MessageBus` (mcp_server/src/message-bus.ts) is a map.
use cccollab.Base.{
  ℕ, ◌+◌, String, ◌≡◌, refl, Bool, none, [], ◌∷◌, arith, eq_iff, ltb, leb, length, str_eq,
  Bool-cases, Option-cases, inl, inr,
}
use cccollab.Base.Assoc.{Assoc, lookup, set, delete, lookup-set, lookup-delete}
use cccollab.MessageBus.{
  ParsedMessage, Dates, max_dedup_entries, dedup_window_ms, dedup_key, vacuum, is_recent, push,
  remember, trim_oldest, oldest_from,
}
use cccollab.MessageBus.Seen.{HasUniqueKeys, vacuum-absent}

pub vacuum-HasUniqueKeys : (now : ℕ) (m : Assoc ℕ) → HasUniqueKeys m → HasUniqueKeys (vacuum now m)
unfolding vacuum
vacuum-HasUniqueKeys now [] h = tt
vacuum-HasUniqueKeys now ((k, t) ∷ m) (a, h) =
    let rest = vacuum-HasUniqueKeys now m h in
    let free = vacuum-absent now m k a in
    elim (Bool-cases (leb (t + dedup_window_ms) now)) [
      | inl stale ↦ rw (stale, vacuum) rest
      | inr fresh ↦ rw (fresh, vacuum) (free, rest)
    ]

set-HasUniqueKeys : (k : String) (t : ℕ) (m : Assoc ℕ) → HasUniqueKeys m → HasUniqueKeys (set k t m)
unfolding set lookup
set-HasUniqueKeys k t [] h = (refl, tt)
set-HasUniqueKeys k t ((j, u) ∷ m) (a, h) =
    let rest = set-HasUniqueKeys k t m h in
    elim (Bool-cases (str_eq j k)) [
      | inl here ↦ rw (here, set) (a, h)
      | inr other ↦
          let free : lookup j (set k t m) ≡ none =
            ground (arith, lookup-set k t m j, eq_iff k j, eq_iff j k, other, a) in
          rw (other, set) (free, rest)
    ]

delete-HasUniqueKeys : (k : String) (m : Assoc ℕ) → HasUniqueKeys m → HasUniqueKeys (delete k m)
unfolding delete lookup
delete-HasUniqueKeys k [] h = tt
delete-HasUniqueKeys k ((j, u) ∷ m) (a, h) =
    let rest = delete-HasUniqueKeys k m h in
    elim (Bool-cases (str_eq j k)) [
      | inl here ↦ rw (here, delete) rest
      | inr other ↦
          let free : lookup j (delete k m) ≡ none = ground (arith, lookup-delete k m j, a) in
          rw (other, delete) (free, rest)
    ]

trim-HasUniqueKeys : (m : Assoc ℕ) → HasUniqueKeys m → HasUniqueKeys (trim_oldest m)
unfolding trim_oldest
trim-HasUniqueKeys m h = elim (Option-cases (oldest_from none m)) [
  | inl none_ ↦ rw (none_, trim_oldest) h
  | inr (e, there) ↦ rw (there, trim_oldest) (delete-HasUniqueKeys e.0 m h)
]

pub remember-HasUniqueKeys :
    (k : String) (now : ℕ) (m : Assoc ℕ) → HasUniqueKeys m → HasUniqueKeys (remember k now m)
unfolding remember
remember-HasUniqueKeys k now m h =
    let w = set-HasUniqueKeys k now m h in
    elim (Bool-cases (ltb max_dedup_entries (length (set k now m)))) [
      | inl over ↦ rw (over, remember) (trim-HasUniqueKeys (set k now m) w)
      | inr under ↦ rw (under, remember) w
    ]

-- A push writes no key twice.
pub push-HasUniqueKeys :
    (dates : Dates) (now : ℕ) (accepted : Bool) (msg : ParsedMessage) (source : String)
    (table : Assoc ℕ)
    → HasUniqueKeys table
    → HasUniqueKeys (push dates now accepted msg source table).0
unfolding push
push-HasUniqueKeys dates now accepted msg source table h =
    let swept = vacuum-HasUniqueKeys now table h in
    elim (Bool-cases (is_recent now (lookup (dedup_key dates msg) (vacuum now table)))) [
      | inl recent ↦ rw (recent, push) swept
      | inr old ↦
          rw (old, push) (remember-HasUniqueKeys (dedup_key dates msg) now (vacuum now table) swept)
    ]
