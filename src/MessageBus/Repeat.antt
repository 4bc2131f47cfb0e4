-- ===== src/MessageBus/Repeat.antt =====
-- A message that comes again within the window (mcp_server/src/message-bus.ts).
use cccollab.Base.{
  ℕ, ◌+◌, ◌≤◌, ◌<◌, String, ◌≡◌, ◌≢◌, refl, ap, true, false, Bool, none, some, [], ◌∷◌, arith,
  eq_iff, ltb, leb, length, str_eq, Bool-cases, inl, inr,
}
use cccollab.Base.Assoc.{Assoc, lookup, set, lookup-set, lookup-delete}
use cccollab.MessageBus.{
  ParsedMessage, Dates, max_dedup_entries, dedup_window_ms, dedup_key, vacuum, is_recent, push,
  remember, trim_oldest, oldest_from, dropped,
}
use cccollab.MessageBus.Seen.{HasUniqueKeys, lookup-vacuum, push_lem}
use cccollab.MessageBus.Size.{length-set}
use cccollab.MessageBus.Unique.{vacuum-HasUniqueKeys, remember-HasUniqueKeys}

-- A key that is new, and not older than the first entry, is not the oldest.
oldest_from-set :
    (j : String) (s : ℕ) (m : Assoc ℕ) (key : String) (now : ℕ)
    → s ≤ now
    → j ≢ key
    → lookup key m ≡ none
    → (k : String) × (t : ℕ) × (oldest_from (some (j, s)) (set key now m) ≡ some (k, t)) × (k ≢ key)
unfolding oldest_from lookup set
oldest_from-set j s [] key now l ne a = (j, s, ground (arith, l), ne)
oldest_from-set j s ((i, t) ∷ m) key now l ne a =
    let ne' : i ≢ key = λ q. ground (arith, eq_iff i key, q, a) in
    let a' : lookup key m ≡ none = ground (arith, a) in
    let other : str_eq i key ≡ false = ground (arith, eq_iff i key, ne') in
    let (k, u, e, d) = oldest_from-set j s m key now l ne a' in
    elim (Bool-cases (ltb t s)) [
      | inl older ↦
          let (k', u', e', d') = oldest_from-set i t m key now (ground (arith, older, l)) ne' a' in
          (k', u', ground (arith, older, other, e'), d')
      | inr newer ↦ (k, u, ground (arith, newer, other, e), d)
    ]

-- no entry from after `now`
abbrev pub IsBefore : ℕ → Assoc ℕ → Type 0
IsBefore now [] = Unit
IsBefore now ((k, t) ∷ m) = (t ≤ now) × IsBefore now m

pub IsBefore-vacuum : (now : ℕ) (m : Assoc ℕ) → IsBefore now m → IsBefore now (vacuum now m)
unfolding vacuum
IsBefore-vacuum now [] h = tt
IsBefore-vacuum now ((k, t) ∷ m) (l, h) =
    let rest = IsBefore-vacuum now m h in
    elim (Bool-cases (leb (t + dedup_window_ms) now)) [
      | inl stale ↦ rw (stale, vacuum) rest
      | inr fresh ↦ rw (fresh, vacuum) (l, rest)
    ]

head_differs :
    (j : String) (s : ℕ) (m : Assoc ℕ) (key : String) → lookup key ((j, s) ∷ m) ≡ none → j ≢ key
unfolding lookup
head_differs j s m key a q = ground (arith, eq_iff j key, q, a)

tail_absent :
    (j : String) (s : ℕ) (m : Assoc ℕ) (key : String)
    → lookup key ((j, s) ∷ m) ≡ none
    → lookup key m ≡ none
unfolding lookup
tail_absent j s m key a = ground (arith, a)

first_oldest :
    (j : String) (s : ℕ) (m : Assoc ℕ) (key : String) (now : ℕ)
    → j ≢ key
    → oldest_from none (set key now ((j, s) ∷ m)) ≡ oldest_from (some (j, s)) (set key now m)
unfolding set oldest_from
first_oldest j s m key now ne = ground (arith, eq_iff j key, ne)

lookup-trim_oldest :
    (m : Assoc ℕ) (key : String) (now : ℕ)
    → IsBefore now m
    → lookup key m ≡ none
    → 1 ≤ length m
    → lookup key (trim_oldest (set key now m)) ≡ some now
unfolding trim_oldest
lookup-trim_oldest [] key now b a l = absurd (ground (arith, l))
lookup-trim_oldest ((j, s) ∷ m) key now (b, bs) a l =
    let ne : j ≢ key = head_differs j s m key a in
    let (k, u, e, d) = oldest_from-set j s m key now b ne (tail_absent j s m key a) in
    rw (first_oldest j s m key now ne, trim_oldest)
      (rw e (
        ground (
          arith,
          lookup-delete k (set key now ((j, s) ∷ m)) key,
          lookup-set key now ((j, s) ∷ m) key,
          eq_iff key key,
          eq_iff k key,
          d,
        )))

many :
    (key : String) (now : ℕ) (m : Assoc ℕ)
    → ltb max_dedup_entries (length (set key now m)) ≡ true
    → 1 ≤ length m
many key now m e = ground (arith, e, length-set key now m)

pub lookup-remember :
    (key : String) (now : ℕ) (m : Assoc ℕ)
    → IsBefore now m
    → lookup key m ≡ none
    → lookup key (remember key now m) ≡ some now
unfolding remember
lookup-remember key now m b a = elim (Bool-cases (ltb max_dedup_entries (length (set key now m)))) [
  | inl over ↦ rw (over, remember) (lookup-trim_oldest m key now b a (many key now m over))
  | inr under ↦ rw (under, remember) (ground (arith, lookup-set key now m key, eq_iff key key))
]

pushed :
    (dates : Dates) (now : ℕ) (accepted : Bool) (msg : ParsedMessage) (source : String)
    (table : Assoc ℕ)
    → lookup (dedup_key dates msg) (vacuum now table) ≡ none
    → (push dates now accepted msg source table).0
      ≡ remember (dedup_key dates msg) now (vacuum now table)
unfolding push
pushed dates now accepted msg source table absent = rw (absent, push) refl

-- With no key twice in the table, and by a clock that is not behind the table: where a message is
-- delivered and the very next push, less than 10 s later, has the same key, that push is dropped, even
-- where the table was full.
pub push_again :
    (dates : Dates) (now later : ℕ) (accepted accepted' : Bool) (msg msg' : ParsedMessage)
    (source source' : String) (table : Assoc ℕ)
    → HasUniqueKeys table
    → IsBefore now table
    → is_recent now (lookup (dedup_key dates msg) table) ≡ false
    → dedup_key dates msg' ≡ dedup_key dates msg
    → now ≤ later
    → later < now + dedup_window_ms
    → (push dates later accepted' msg' source' (push dates now accepted msg source table).0).1
      ≡ dropped msg' source' now ∷ []
push_again dates now later accepted accepted' msg msg' source source' table h b old same l w =
    let key = dedup_key dates msg in
    let swept : Assoc ℕ = vacuum now table in
    let absent : lookup key swept ≡ none = ground (arith, lookup-vacuum now table key h, old) in
    let first : (push dates now accepted msg source table).0 ≡ remember key now swept =
      pushed dates now accepted msg source table absent in
    let kept : lookup key (remember key now swept) ≡ some now =
      lookup-remember key now swept (IsBefore-vacuum now table b) absent in
    let map_ = remember-HasUniqueKeys key now swept (vacuum-HasUniqueKeys now table h) in
    rw (first) (
      ap (λ r. r.1)
        ((push_lem dates later accepted' msg' source' (remember key now swept) map_).0 now
          (rw same kept) w))
