-- ===== src/History/Order.antt =====
-- Cutting an ascending history at a change of timestamp.
use cccollab.Base.{
  ℕ, zero, suc, ◌+◌, ◌-◌, ◌≤◌, ◌<◌, ◌≡◌, refl, ◌≢◌, ap, ◌⊎◌, inl, inr, Bool, true, false, Option,
  none, some, List, [], ◌∷◌, ◌++◌, arith, ltb, eqb, if◌then◌else◌, length, take, drop, keep, All,
  Bool-cases,
}
use cccollab.History.{HistoryEntry, ts_at}

-- oldest first: no timestamp is above a later one
abbrev pub Ascending : List HistoryEntry → Type 0
Ascending [] = Unit
Ascending (m ∷ ms) = All (λ x. m.ts ≤ x.ts) ms × Ascending ms

pub Ascending-keep :
    (p : HistoryEntry → Bool) (ms : List HistoryEntry) → Ascending ms → Ascending (keep p ms)
Ascending-keep p [] h = tt
Ascending-keep p (m ∷ ms) h =
    ground (arith, Ascending-keep p ms h.1, cccollab.Base.All-keep (λ x. m.ts ≤ x.ts) p ms h.0)

pub ts_at-some : (ms : List HistoryEntry) (i : ℕ) → i < length ms → (t : ℕ) × (ts_at ms i ≡ some t)
ts_at-some [] i h = elim h [ ]
ts_at-some (m ∷ ms) zero h = (m.ts, refl)
ts_at-some (m ∷ ms) (suc i) h = ts_at-some ms i (omega arith)

All-le_trans :
    (a b : ℕ) (ms : List HistoryEntry) → a ≤ b → All (λ x. b ≤ x.ts) ms → All (λ x. a ≤ x.ts) ms
All-le_trans a b [] h k = tt
All-le_trans a b (m ∷ ms) h k = (omega arith, All-le_trans a b ms h k.1)

ts_at-ge :
    (a : ℕ) (ms : List HistoryEntry) (i b : ℕ)
    → All (λ x. a ≤ x.ts) ms
    → ts_at ms i ≡ some b
    → a ≤ b
ts_at-ge a [] i b h e = ground arith
ts_at-ge a (m ∷ ms) zero b h e = ground arith
ts_at-ge a (m ∷ ms) (suc i) b h e = ts_at-ge a ms i b h.1 e

ts_at_step :
    (ms : List HistoryEntry) (s a b : ℕ)
    → Ascending ms
    → ts_at ms s ≡ some a
    → ts_at ms (suc s) ≡ some b
    → a ≤ b
ts_at_step [] s a b h e f = cc
ts_at_step (m ∷ ms) zero a b h e f = ground (arith, ts_at-ge m.ts ms 0 b h.0 f)
ts_at_step (m ∷ ms) (suc s) a b h e f = ts_at_step ms s a b h.1 e f

-- From the cut on, nothing is before the first timestamp there.
pub All-drop_ge :
    (ms : List HistoryEntry) (s b : ℕ)
    → Ascending ms
    → ts_at ms s ≡ some b
    → All (λ x. b ≤ x.ts) (drop s ms)
All-drop_ge [] s b h e = cc
All-drop_ge (m ∷ ms) zero b h e = (ground arith, All-le_trans b m.ts ms (ground arith) h.0)
All-drop_ge (m ∷ ms) (suc s) b h e = All-drop_ge ms s b h.1 e

-- Below a cut between two different timestamps, everything is before the upper one.
pub All-take_lt :
    (ms : List HistoryEntry) (s a b : ℕ)
    → Ascending ms
    → ts_at ms s ≡ some a
    → ts_at ms (suc s) ≡ some b
    → a ≢ b
    → All (λ x. x.ts < b) (take (suc s) ms)
All-take_lt [] s a b h e f n = tt
All-take_lt (m ∷ ms) zero a b h e f n = (ground (arith, ts_at-ge m.ts ms 0 b h.0 f), tt)
All-take_lt (m ∷ ms) (suc s) a b h e f n = (
  ground (arith, ts_at-ge m.ts ms s a h.0 e, ts_at_step ms s a b h.1 e f),
  All-take_lt ms s a b h.1 e f n,
)
