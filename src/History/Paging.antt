-- ===== src/History/Paging.antt =====
-- What one page of `pageTopicHistory` holds (mcp_server/src/history-paging.ts).
use mathlib.Core.Path.{ap₂}
use mathlib.Core.List.{append-nil}
use cccollab.Base.{
  ℕ, zero, suc, ◌-◌, ◌≤◌, ◌<◌, ◌≡◌, refl, sym, ◌∙◌, ◌≢◌, ap, ◌⊎◌, inl, inr, Bool, true, false,
  Option, none, some, List, [], ◌∷◌, ◌++◌, arith, ltb, eqb, length, take, drop, keep, All,
  Bool-cases, take-append-drop, keep-append, keep-eq_self, keep-eq_nil, All-map, length-take_le,
  length-drop,
}
use cccollab.Runtime.{Number, before_number, of_ms}
use cccollab.History.{
  HistoryEntry, HistoryPage, ts_at, grow, older_than, page_from, page_topic_history, oldest_ts,
}
use cccollab.History.Order.{Ascending, Ascending-keep, ts_at-some, All-drop_ge, All-take_lt}

-- `start` is the beginning, or the timestamp changes there.
abbrev pub IsCut : List HistoryEntry → ℕ → Type 0
IsCut ms zero = Unit
IsCut ms (suc r) = (a : ℕ) × (b : ℕ) × (ts_at ms r ≡ some a) × (ts_at ms (suc r) ≡ some b) × (a ≢ b)

grow-IsCut :
    (ms : List HistoryEntry) (s : ℕ)
    → s < length ms
    → (start : ℕ) × (grow ms s ≡ some start) × (start ≤ s) × IsCut ms start
unfolding grow
grow-IsCut ms zero h = (0, refl, omega arith, tt)
grow-IsCut ms (suc s) h =
    let (a, ea) = ts_at-some ms s (omega arith) in
    let (b, eb) = ts_at-some ms (suc s) h in
    let (start, e, le, cut) = grow-IsCut ms s (omega arith) in
    elim (Bool-cases (eqb a b)) [
      | inl same ↦ (start, ground (arith, ea, eb, e), omega arith, cut)
      | inr other ↦ (suc s, ground (arith, ea, eb), omega arith, (a, b, ea, eb, ground arith))
    ]

before_ms-true : (t b : ℕ) → t < b → before_number t (of_ms b) ≡ true
unfolding before_number
before_ms-true t b h = ground arith

before_ms-false : (t b : ℕ) → b ≤ t → before_number t (of_ms b) ≡ false
unfolding before_number
before_ms-false t b h = ground arith

pub lt_of_before_ms : (t b : ℕ) → before_number t (of_ms b) ≡ true → t < b
unfolding before_number
lt_of_before_ms t b h = ground arith

-- The messages before a cut are the ones before its timestamp.
pub keep-before_cut :
    (ms : List HistoryEntry) (s b : ℕ)
    → Ascending ms
    → ts_at ms s ≡ some b
    → All (λ x. x.ts < b) (take s ms)
    → keep (λ m. before_number m.ts (of_ms b)) ms ≡ take s ms
keep-before_cut ms s b asc e lt =
    ap (keep p) (sym (take-append-drop s ms))
    ∙ keep-append p (take s ms) (drop s ms)
    ∙ ap₂ (λ (x y : List HistoryEntry). x ++ y)
        (keep-eq_self p (take s ms) (All-map (λ x h. before_ms-true x.ts b h) (take s ms) lt))
        (keep-eq_nil p (drop s ms)
          (All-map (λ x h. before_ms-false x.ts b h) (drop s ms) (All-drop_ge ms s b asc e)))
    ∙ append-nil (take s ms)
  where
    p : HistoryEntry → Bool
    p m = before_number m.ts (of_ms b)

pub oldest_ts-drop : (ms : List HistoryEntry) (s : ℕ) → oldest_ts (drop s ms) ≡ ts_at ms s
oldest_ts-drop [] zero = refl
oldest_ts-drop [] (suc s) = refl
oldest_ts-drop (m ∷ ms) zero = refl
oldest_ts-drop (m ∷ ms) (suc s) = oldest_ts-drop ms s

-- One page, against the messages that its cursor admits.
pub record IsWindow (older : List HistoryEntry) (limit : ℕ) (p : HistoryPage) : Type 0 where
  pub rest : List HistoryEntry
  pub split : older ≡ rest ++ p.messages
  pub more : p.has_more ≡ ltb 0 (length rest)
  pub enough : (limit ≤ length p.messages) ⊎ (rest ≡ [])
  pub before : (t : ℕ) → oldest_ts p.messages ≡ some t → All (λ x. x.ts < t) rest

IsWindow-cut :
    (older : List HistoryEntry) (limit start : ℕ)
    → Ascending older
    → 1 ≤ limit
    → start ≤ length older - limit
    → IsCut older start
    → IsWindow older limit (record { messages = drop start older; has_more = ltb 0 start })
IsWindow-cut older limit zero asc l le cut = record {
  rest = [];
  split = refl;
  more = refl;
  enough = inr refl;
  before = λ t e. tt;
}
IsWindow-cut older limit (suc r) asc l le (a, b, ea, eb, ne) = record {
  rest = take (suc r) older;
  split = sym (take-append-drop (suc r) older);
  more = ap (ltb 0) (sym (length-take_le (suc r) older (omega arith)));
  enough = inl (omega (arith, length-drop (suc r) older));
  before = λ t e.
      let eb' = sym (oldest_ts-drop older (suc r)) ∙ e in
      All-take_lt older r a t asc ea eb' (λ (q : a ≡ t). ne (ground (arith, eb', q)));
}

pub older_than-Ascending :
    (before : Option Number) (all : List HistoryEntry)
    → Ascending all
    → Ascending (older_than before all)
unfolding older_than
older_than-Ascending none all asc = asc
older_than-Ascending (some n) all asc = Ascending-keep (λ m. before_number m.ts n) all asc

pub window_start :
    (older : List HistoryEntry) (limit : ℕ)
    → 1 ≤ limit
    → (start : ℕ) × (grow older (length older - limit) ≡ some start)
      × (start ≤ length older - limit)
      × IsCut older start
unfolding grow
window_start [] limit l = (0, ground arith, omega arith, tt)
window_start (m ∷ ms) limit l = grow-IsCut (m ∷ ms) (length (m ∷ ms) - limit) (omega arith)

-- A positive limit is enough for a page, whatever the order of the messages.
pub page_total :
    (all : List HistoryEntry) (limit : ℕ) (before : Option Number)
    → 1 ≤ limit
    → (p : HistoryPage) × (page_topic_history all limit before ≡ some p)
unfolding page_from page_topic_history
page_total all limit before l =
    let (start, e, le, cut) = window_start (older_than before all) limit l in
    (_, ap (page_from (older_than before all)) e)

-- On an ascending history and a positive limit a request returns a page, never a TypeError. The
-- page is a suffix of the messages that the cursor admits, has at least `limit` of them or all of
-- them, and reports `hasMore` exactly when some are left; every message left is strictly before
-- the page's first.
pub page-IsWindow :
    (all : List HistoryEntry) (limit : ℕ) (before : Option Number)
    → Ascending all
    → 1 ≤ limit
    → (p : HistoryPage) × (page_topic_history all limit before ≡ some p)
      × IsWindow (older_than before all) limit p
unfolding page_from page_topic_history
page-IsWindow all limit before asc l =
    let older = older_than before all in
    let (start, e, le, cut) = window_start older limit l in
    (
      record { messages = drop start older; has_more = ltb 0 start },
      ap (page_from older) e,
      IsWindow-cut older limit start (older_than-Ascending before all asc) l le cut,
    )
