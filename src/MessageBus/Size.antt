-- ===== src/MessageBus/Size.antt =====
-- The table of `MessageBus` (mcp_server/src/message-bus.ts) stays within its cap.
use cccollab.Base.{
  ℕ, suc, ◌≤◌, String, ◌≡◌, refl, true, Bool, some, [], ◌∷◌, arith, eq_iff, ltb, length, Bool-cases,
  inl, inr, if◌then◌else◌, ◌⊎◌,
}
use cccollab.Base.Assoc.{Assoc, lookup, set, delete, contains}
use cccollab.MessageBus.{
  ParsedMessage, Dates, max_dedup_entries, dedup_key, vacuum, is_recent, push, remember,
  trim_oldest, oldest_from,
}

length-vacuum : (now : ℕ) (m : Assoc ℕ) → length (vacuum now m) ≤ length m
unfolding vacuum
length-vacuum now [] = omega arith
length-vacuum now ((k, t) ∷ m) = ground (arith, length-vacuum now m)

pub length-set : (k : String) (t : ℕ) (m : Assoc ℕ) → length (set k t m) ≤ suc (length m)
unfolding set
length-set k t [] = omega arith
length-set k t ((j, s) ∷ m) = ground (arith, length-set k t m)

length-delete : (k : String) (m : Assoc ℕ) → length (delete k m) ≤ length m
unfolding delete
length-delete k [] = omega arith
length-delete k ((j, s) ∷ m) = ground (arith, length-delete k m)

length-delete_there :
    (k : String) (m : Assoc ℕ) → contains k m ≡ true → suc (length (delete k m)) ≤ length m
unfolding delete contains
length-delete_there k [] e = absurd (ground (arith, e))
length-delete_there k ((j, s) ∷ m) e = ground (arith, length-delete k m, length-delete_there k m, e)

-- The oldest entry is one of them.
pub oldest_from_lem :
    (j : String) (s : ℕ) (m : Assoc ℕ)
    → (k : String) × (t : ℕ) × (oldest_from (some (j, s)) m ≡ some (k, t))
      × ((k ≡ j) ⊎ (contains k m ≡ true))
unfolding oldest_from contains
oldest_from_lem j s [] = (j, s, refl, inl refl)
oldest_from_lem j s ((i, t) ∷ m) =
    let (k, u, e, c) = oldest_from_lem j s m in
    let (k', u', e', c') = oldest_from_lem i t m in
    elim (Bool-cases (ltb t s)) [
      | inl older ↦ (k', u', ground (arith, older, e'), inr (ground (arith, eq_iff i k', c')))
      | inr newer ↦ elim c [
        | inl same ↦ (k, u, ground (arith, newer, e), inl same)
        | inr there ↦ (k, u, ground (arith, newer, e), inr (ground (arith, there)))
      ]
    ]

contains_head :
    (k j : String) (s : ℕ) (m : Assoc ℕ)
    → (k ≡ j) ⊎ (contains k m ≡ true)
    → contains k ((j, s) ∷ m) ≡ true
unfolding contains
contains_head k j s m (inl same) = ground (arith, eq_iff j k, same)
contains_head k j s m (inr there) = ground (arith, there)

length-trim :
    (j : String) (s : ℕ) (m : Assoc ℕ)
    → suc (length (trim_oldest ((j, s) ∷ m))) ≤ length ((j, s) ∷ m)
unfolding trim_oldest oldest_from
length-trim j s m =
    let (k, t, e, c) = oldest_from_lem j s m in
    let there : contains k ((j, s) ∷ m) ≡ true = contains_head k j s m c in
    rw (e, trim_oldest) (length-delete_there k ((j, s) ∷ m) there)

length-remember :
    (k : String) (now : ℕ) (m : Assoc ℕ)
    → length m ≤ max_dedup_entries
    → length (remember k now m) ≤ max_dedup_entries
unfolding remember
length-remember k now m h = go (set k now m) (length-set k now m)
  where
    go :
        (w : Assoc ℕ)
        → length w ≤ suc (length m)
        → length (if ltb max_dedup_entries (length w) then trim_oldest w else w) ≤ max_dedup_entries
    go [] l = omega arith
    go ((j, s) ∷ w) l = ground (arith, length-trim j s w, l, h)

-- A push keeps the table within 2048 keys.
pub length-push :
    (dates : Dates) (now : ℕ) (accepted : Bool) (msg : ParsedMessage) (source : String)
    (table : Assoc ℕ)
    → length table ≤ max_dedup_entries
    → length (push dates now accepted msg source table).0 ≤ max_dedup_entries
unfolding push
length-push dates now accepted msg source table h =
    let key = dedup_key dates msg in
    let swept = length-vacuum now table in
    elim (Bool-cases (is_recent now (lookup key (vacuum now table)))) [
      | inl recent ↦ rw (recent, push) (ground (arith, swept, h))
      | inr old ↦
          rw (old, push) (length-remember key now (vacuum now table) (ground (arith, swept, h)))
    ]
