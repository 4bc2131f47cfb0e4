-- ===== src/Context/Topics.antt =====
-- The map of joined topics in mcp_server/src/context.ts.
use cccollab.Base.{
  String, ◌≡◌, refl, true, false, none, some, [], ◌∷◌, arith, eq_iff, str_eq, Bool-cases, inl, inr,
}
use cccollab.Base.Assoc.{Assoc, lookup, set, delete, lookup-set, lookup-delete}
use cccollab.Context.{JoinedTopic, is_in, drop_topics}

-- No topic of the channel is left when they are dropped.
pub lookup-drop_topics :
    (channel location : String) (m : Assoc JoinedTopic) (ts : String) (t : JoinedTopic)
    → lookup ts (drop_topics channel location m) ≡ some t
    → is_in channel location t ≡ false
unfolding lookup drop_topics
lookup-drop_topics channel location [] ts t e = cc
lookup-drop_topics channel location ((k, u) ∷ m) ts t e =
    ground (arith, eq_iff k ts, lookup-drop_topics channel location m ts t, e)

-- The key of a map is there once: no entry behind it has its key.
abbrev pub HasUniqueKeys : Assoc JoinedTopic → Type 0
HasUniqueKeys [] = Unit
HasUniqueKeys ((k, t) ∷ m) = (lookup k m ≡ none) × HasUniqueKeys m

drop_topics-absent :
    (channel location : String) (m : Assoc JoinedTopic) (ts : String)
    → lookup ts m ≡ none
    → lookup ts (drop_topics channel location m) ≡ none
unfolding lookup drop_topics
drop_topics-absent channel location [] ts e = refl
drop_topics-absent channel location ((k, u) ∷ m) ts e =
    ground (arith, eq_iff k ts, drop_topics-absent channel location m ts, e)

pub drop_topics-drops :
    (channel location : String) (m : Assoc JoinedTopic) (ts : String) (t : JoinedTopic)
    → HasUniqueKeys m
    → lookup ts m ≡ some t
    → is_in channel location t ≡ true
    → lookup ts (drop_topics channel location m) ≡ none
unfolding lookup drop_topics
drop_topics-drops channel location [] ts t h e i = refl
drop_topics-drops channel location ((k, u) ∷ m) ts t (a, h) e i = ground (
  arith,
  eq_iff k ts,
  drop_topics-absent channel location m ts,
  drop_topics-drops channel location m ts t h,
  a,
  e,
  i,
)

pub drop_topics-HasUniqueKeys :
    (channel location : String) (m : Assoc JoinedTopic)
    → HasUniqueKeys m
    → HasUniqueKeys (drop_topics channel location m)
unfolding drop_topics
drop_topics-HasUniqueKeys channel location [] h = tt
drop_topics-HasUniqueKeys channel location ((k, t) ∷ m) (a, h) =
    let rest = drop_topics-HasUniqueKeys channel location m h in
    let free = drop_topics-absent channel location m k a in
    elim (Bool-cases (is_in channel location t)) [
      | inl here ↦ rw (here, drop_topics) rest
      | inr other ↦ rw (other, drop_topics) (free, rest)
    ]

pub set-HasUniqueKeys :
    (k : String) (t : JoinedTopic) (m : Assoc JoinedTopic)
    → HasUniqueKeys m
    → HasUniqueKeys (set k t m)
unfolding set lookup
set-HasUniqueKeys k t [] h = (refl, tt)
set-HasUniqueKeys k t ((j, u) ∷ m) (a, h) =
    let rest = set-HasUniqueKeys k t m h in
    elim (Bool-cases (str_eq j k)) [
      | inl here ↦ rw (here, set) (a, h)
      | inr other ↦
          let free : lookup j (set k t m) ≡ none =
            ground (arith, lookup-set k t m j, eq_iff k j, eq_iff j k, other, a) in
          rw (other, set) (free, rest)
    ]

pub delete-HasUniqueKeys :
    (k : String) (m : Assoc JoinedTopic) → HasUniqueKeys m → HasUniqueKeys (delete k m)
unfolding delete lookup
delete-HasUniqueKeys k [] h = tt
delete-HasUniqueKeys k ((j, u) ∷ m) (a, h) =
    let rest = delete-HasUniqueKeys k m h in
    elim (Bool-cases (str_eq j k)) [
      | inl here ↦ rw (here, delete) rest
      | inr other ↦
          let free : lookup j (delete k m) ≡ none = ground (arith, lookup-delete k m j, a) in
          rw (other, delete) (free, rest)
    ]

-- What is left was there.
pub lookup-drop_topics_old :
    (channel location : String) (m : Assoc JoinedTopic) (ts : String) (t : JoinedTopic)
    → HasUniqueKeys m
    → lookup ts (drop_topics channel location m) ≡ some t
    → lookup ts m ≡ some t
unfolding lookup drop_topics
lookup-drop_topics_old channel location [] ts t h e = e
lookup-drop_topics_old channel location ((k, u) ∷ m) ts t (a, h) e = ground (
  arith,
  eq_iff k ts,
  drop_topics-absent channel location m ts,
  lookup-drop_topics_old channel location m ts t h,
  a,
  e,
)
