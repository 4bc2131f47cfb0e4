-- ===== src/History/ReadBack.antt =====
-- A reader who follows the cursor gets every message once.
use mathlib.Core.List.{append_assoc, append-nil}
use cccollab.Base.{
  ℕ, zero, suc, ◌-◌, ◌≤◌, ◌<◌, ◌≡◌, sym, ◌∙◌, ap, true, false, Option, none, some, List, [], ◌∷◌,
  ◌++◌, arith, ltb, length, take, drop, keep, All, lt→ltb, take-append-drop, All-of_keep, keep-keep,
  length-take_le,
}
use cccollab.Runtime.{Number, nan, infinite, finite, pos, negsuc, before_number, of_ms}
use cccollab.History.{
  HistoryEntry, ts_at, grow, older_than, page_from, page_topic_history, oldest_ts, read_back,
}
use cccollab.History.Order.{Ascending, Ascending-keep, All-take_lt}
use cccollab.History.Paging.{
  IsCut, keep-before_cut, lt_of_before_ms, oldest_ts-drop, older_than-Ascending, window_start,
}

before_number_mono :
    (t b : ℕ) (n : Number) → t < b → before_number b n ≡ true → before_number t n ≡ true
unfolding before_number
before_number_mono t b nan h e = e
before_number_mono t b (infinite positive) h e = e
before_number_mono t b (finite (pos n) k) h e = grind arith
before_number_mono t b (finite (negsuc n) k) h e = e

ts_at-before :
    (ms : List HistoryEntry) (n : Number) (i b : ℕ)
    → All (λ m. before_number m.ts n ≡ true) ms
    → ts_at ms i ≡ some b
    → before_number b n ≡ true
ts_at-before [] n i b h e = cc
ts_at-before (m ∷ ms) n zero b h e = ground (arith, h.0)
ts_at-before (m ∷ ms) n (suc i) b h e = ts_at-before ms n i b h.1 e

-- What the next cursor admits is what this page left.
older_than-next :
    (all : List HistoryEntry) (before : Option Number) (s b : ℕ)
    → Ascending all
    → ts_at (older_than before all) s ≡ some b
    → All (λ x. x.ts < b) (take s (older_than before all))
    → older_than (some (of_ms b)) all ≡ take s (older_than before all)
unfolding older_than
older_than-next all none s b asc e lt = keep-before_cut all s b asc e lt
older_than-next all (some n) s b asc e lt =
    sym (
      keep-keep (λ m. before_number m.ts (of_ms b)) (λ m. before_number m.ts n) all
        (λ x h. before_number_mono x.ts b n (lt_of_before_ms x.ts b h) (
          ts_at-before (keep (λ m. before_number m.ts n) all) n s b
            (All-of_keep (λ m. before_number m.ts n) all) e)))
    ∙ keep-before_cut (keep (λ m. before_number m.ts n) all) s b
        (Ascending-keep (λ m. before_number m.ts n) all asc) e lt

page_of_start :
    (all : List HistoryEntry) (limit : ℕ) (before : Option Number) (start : ℕ)
    → grow (older_than before all) (length (older_than before all) - limit) ≡ some start
    → page_topic_history all limit before
      ≡ some (record { messages = drop start (older_than before all); has_more = ltb 0 start })
unfolding page_topic_history page_from
page_of_start all limit before start e = ap (page_from (older_than before all)) e

-- The last page ends the reading.
read_back-last :
    (fuel : ℕ) (all : List HistoryEntry) (limit : ℕ) (before : Option Number)
    (acc messages : List HistoryEntry)
    → page_topic_history all limit before ≡ some (record { messages = messages; has_more = false })
    → read_back (suc fuel) all limit before acc ≡ some (messages ++ acc)
unfolding read_back
read_back-last fuel all limit before acc messages e = rw (e, read_back)

-- Any other one moves the cursor to its first message.
read_back-more :
    (fuel : ℕ) (all : List HistoryEntry) (limit : ℕ) (before : Option Number)
    (acc messages : List HistoryEntry) (b : ℕ)
    → page_topic_history all limit before ≡ some (record { messages = messages; has_more = true })
    → oldest_ts messages ≡ some b
    → read_back (suc fuel) all limit before acc
      ≡ read_back fuel all limit (some (of_ms b)) (messages ++ acc)
unfolding read_back
read_back-more fuel all limit before acc messages b e f = rw (e, f, read_back)

read_back_all :
    (fuel : ℕ) (all : List HistoryEntry) (limit : ℕ) (before : Option Number)
    (acc : List HistoryEntry)
    → Ascending all
    → 1 ≤ limit
    → length (older_than before all) < fuel
    → read_back fuel all limit before acc ≡ some (older_than before all ++ acc)
read_back_all zero all limit before acc asc l f = elim f [ ]
read_back_all (suc fuel) all limit before acc asc l f =
    let older = older_than before all in
    let (start, e, le, cut) = window_start older limit l in
    step start e le cut (λ before' acc'. read_back_all fuel all limit before' acc' asc l)
  where
    step :
        (start : ℕ)
        → grow (older_than before all) (length (older_than before all) - limit) ≡ some start
        → start ≤ length (older_than before all) - limit
        → IsCut (older_than before all) start
        → ((before' : Option Number) (acc' : List HistoryEntry)
            → length (older_than before' all) < fuel
            → read_back fuel all limit before' acc' ≡ some (older_than before' all ++ acc'))
        → read_back (suc fuel) all limit before acc ≡ some (older_than before all ++ acc)
    step zero e le cut ih =
        read_back-last fuel all limit before acc (older_than before all)
          (page_of_start all limit before 0 e)
    step (suc r) e le (a, b, ea, eb, ne) ih =
        let older = older_than before all in
        let cut = All-take_lt older r a b (older_than-Ascending before all asc) ea eb ne in
        let next = older_than-next all before (suc r) b asc eb cut in
        read_back-more fuel all limit before acc (drop (suc r) older) b
          (page_of_start all limit before (suc r) e
            ∙ ap (λ m. some (record { messages = drop (suc r) older; has_more = m }))
                (lt→ltb 0 (suc r) (omega arith)))
          (oldest_ts-drop older (suc r) ∙ eb)
        ∙ ih (some (of_ms b)) (drop (suc r) older ++ acc)
            (rw next (omega (arith, length-take_le (suc r) older (omega arith))))
        ∙ ap some (
            rw next (
              sym (append_assoc (take (suc r) older) (drop (suc r) older) acc)
              ∙ ap (λ x. x ++ acc) (take-append-drop (suc r) older)))

-- Reading back page by page from the newest message returns the whole ascending history, every
-- message once and in order, whatever the positive limit. One request more than there are messages
-- is enough.
pub read_back_complete :
    (fuel : ℕ) (all : List HistoryEntry) (limit : ℕ)
    → Ascending all
    → 1 ≤ limit
    → length all < fuel
    → read_back fuel all limit none [] ≡ some all
unfolding older_than
read_back_complete fuel all limit asc l f =
    read_back_all fuel all limit none [] asc l f ∙ ap some (append-nil all)
