-- ===== src/Remote/Delivered/Rows.antt =====
-- What a topic subscription of mcp_server/src/transport/remote.ts hands on of the rows of one update.
use cccollab.Base.{
  ℕ, ◌+◌, ◌≤◌, ◌<◌, String, true, false, not, ◌≡◌, refl, sym, ap, ◌∙◌, Option, List, [], ◌∷◌, ◌++◌,
  map, if◌then◌else◌, length, length-append, keep, keep-append, arith, Bool-cases, inl, inr,
}
use mathlib.Core.List.{append_assoc, append-nil, map-append}
use cccollab.Base.StrSet.{has, add}
use cccollab.Remote.Backend.{MessageRow}
use cccollab.Remote.State.{BoundedIdSet, evict, add_id, dedup_capacity}
use cccollab.Remote.Feeds.{FeedMessage, Batch, is_own, event_of, take_row, see_row, take_rows}

-- The rows whose ids have not been seen before, the seen ones as a list.
unfoldable pub firsts : List String → List MessageRow → List MessageRow
firsts seen [] = []
firsts seen (row ∷ rows) =
    if has row.id seen then firsts seen rows else row ∷ firsts (seen ++ row.id ∷ []) rows

abbrev pub ids_of : List MessageRow → List String
ids_of rows = map (λ (row : MessageRow). row.id) rows

abbrev pub flat : List (List MessageRow) → List MessageRow
flat [] = []
flat (rows ∷ batches) = rows ++ flat batches

-- the set with these ids, none of them evicted
abbrev pub ids_with : List String → BoundedIdSet
ids_with seen = record { ids = seen; order = seen }

evict_none :
    (capacity : ℕ) (ids order : List String)
    → length order ≤ capacity
    → evict capacity ids order ≡ record { ids = ids; order = order }
unfolding evict
evict_none capacity ids [] h = refl
evict_none capacity ids (x ∷ order) h = ground (arith, h)

add_id-ids_with :
    (id : String) (seen : List String)
    → has id seen ≡ false
    → length seen < dedup_capacity
    → add_id dedup_capacity id (ids_with seen) ≡ ids_with (seen ++ id ∷ [])
unfolding add_id add
add_id-ids_with id seen new room =
    rw (new, add_id)
      (evict_none dedup_capacity (seen ++ id ∷ []) (seen ++ id ∷ [])
        (omega (arith, length-append {0} seen (id ∷ []))))

-- The messages of some rows, less those that the session has sent itself.
abbrev pub handed : Option String → String → Option String → List MessageRow → List FeedMessage
handed own name thread rows = map (event_of name thread) (keep (λ row. not (is_own own row)) rows)

module _ (own : Option String) (name : String) (thread : Option String) (key : String) where
  module _ (row : MessageRow) (seen : List String) (b : Batch) (e : b.seen ≡ ids_with seen) where
    see_old : has row.id seen ≡ true → see_row own name thread key row b ≡ b
    unfolding see_row
    see_old h = let known : has row.id b.seen.ids ≡ true = rw e h in rw (known, see_row) refl

    see_new :
        has row.id seen ≡ false
        → see_row own name thread key row b ≡ take_row own name thread key row b
    unfolding see_row
    see_new h = let fresh : has row.id b.seen.ids ≡ false = rw e h in rw (fresh, see_row) refl

    take_row-seen :
        has row.id seen ≡ false
        → length seen < dedup_capacity
        → (take_row own name thread key row b).seen ≡ ids_with (seen ++ row.id ∷ [])
    unfolding take_row
    take_row-seen h room = rw e (add_id-ids_with row.id seen h room)

    take_row-events :
        (rest : List MessageRow)
        → (take_row own name thread key row b).events ++ handed own name thread rest
          ≡ b.events ++ handed own name thread (row ∷ rest)
    unfolding take_row
    take_row-events rest = elim (Bool-cases (is_own own row)) [
      | inl mine ↦ rw mine refl
      | inr other ↦
          rw other
            (append_assoc b.events (event_of name thread row ∷ []) (handed own name thread rest))
    ]

  -- a batch of rows from a set that has room for them
  pub take_rows_lem :
      (rows : List MessageRow) (seen : List String) (b : Batch)
      → b.seen ≡ ids_with seen
      → length seen + length rows ≤ dedup_capacity
      → ((take_rows own name thread key rows b).events
          ≡ b.events ++ handed own name thread (firsts seen rows))
        × ((take_rows own name thread key rows b).seen
            ≡ ids_with (seen ++ ids_of (firsts seen rows)))
  unfolding take_rows firsts
  take_rows_lem [] seen b e room =
      (sym (append-nil b.events), e ∙ ap ids_with (sym (append-nil seen)))
  take_rows_lem (row ∷ rows) seen b e room = elim (Bool-cases (has row.id seen)) [
    | inl old ↦
        let later = take_rows_lem rows seen b e (omega arith) in
        rw old (
          ap (λ (c : Batch). (take_rows own name thread key rows c).events)
                (see_old row seen b e old)
              ∙ later.0,
          ap (λ (c : Batch). (take_rows own name thread key rows c).seen) (see_old row seen b e old)
              ∙ later.1,
        )
    | inr new ↦
        let b' = take_row own name thread key row b in
        let later =
          take_rows_lem rows (seen ++ row.id ∷ []) b' (take_row-seen row seen b e new (omega arith))
            (omega (arith, length-append {0} seen (row.id ∷ []))) in
        rw new (
          ap (λ (c : Batch). (take_rows own name thread key rows c).events)
                (see_new row seen b e new)
              ∙ later.0
              ∙ take_row-events row seen b e (firsts (seen ++ row.id ∷ []) rows),
          ap (λ (c : Batch). (take_rows own name thread key rows c).seen) (see_new row seen b e new)
              ∙ later.1
              ∙ ap ids_with
                  (append_assoc seen (row.id ∷ []) (ids_of (firsts (seen ++ row.id ∷ []) rows))),
        )
  ]

pub firsts-append :
    (xs ys : List MessageRow) (seen : List String)
    → firsts seen (xs ++ ys) ≡ firsts seen xs ++ firsts (seen ++ ids_of (firsts seen xs)) ys
unfolding firsts
firsts-append [] ys seen = rw (append-nil seen) refl
firsts-append (x ∷ xs) ys seen = elim (Bool-cases (has x.id seen)) [
  | inl old ↦ rw old (firsts-append xs ys seen)
  | inr new ↦
      let seen' = seen ++ x.id ∷ [] in
      rw new (
        ap (λ rest. x ∷ rest)
          (firsts-append xs ys seen'
            ∙ ap (λ known. firsts seen' xs ++ firsts known ys)
                (append_assoc seen (x.id ∷ []) (ids_of (firsts seen' xs)))))
]

pub length-firsts :
    (seen : List String) (rows : List MessageRow) → length (firsts seen rows) ≤ length rows
unfolding firsts
length-firsts seen [] = omega arith
length-firsts seen (row ∷ rows) =
    ground (arith, length-firsts seen rows, length-firsts (seen ++ row.id ∷ []) rows)

pub length-ids_of : (rows : List MessageRow) → length (ids_of rows) ≡ length rows
length-ids_of [] = refl
length-ids_of (row ∷ rows) = omega (arith, length-ids_of rows)

pub handed-append :
    (own : Option String) (name : String) (thread : Option String) (xs ys : List MessageRow)
    → handed own name thread (xs ++ ys) ≡ handed own name thread xs ++ handed own name thread ys
handed-append own name thread xs ys = simp (keep-append, map-append)
