-- ===== src/Context/Find/Joined.antt =====
-- What `findJoinedTopic` of mcp_server/src/context.ts finds.
use mathlib.Core.Path.{subst}
use cccollab.Base.{
  String, ◌≡◌, ◌⊎◌, refl, Bool, true, false, none, some, List, [], ◌∷◌, arith, eq_iff, Bool-cases,
  Option-cases, inl, inr,
}
use cccollab.Base.Assoc.{Assoc, lookup}
use cccollab.Runtime.{Runtime}
use cccollab.Context.{ActiveContext, JoinedTopic}
use cccollab.Context.Topics.{HasUniqueKeys}
use cccollab.Context.Find.{FoundTopic, found, is_exact, is_fuzzy, matching, pick, find_joined_topic}

-- in the list
abbrev pub IsIn : FoundTopic → List FoundTopic → Type 0
IsIn f [] = ⊥
IsIn f (g ∷ gs) = (g ≡ f) ⊎ IsIn f gs

pick-IsIn :
    (exact fuzzy : List FoundTopic) (f : FoundTopic)
    → pick exact fuzzy ≡ some f
    → IsIn f exact ⊎ IsIn f fuzzy
pick-IsIn [] [] f e = absurd (ground (arith, e))
pick-IsIn [] (g ∷ []) f e = inr (inl (ground (arith, e)))
pick-IsIn [] (g ∷ h ∷ gs) f e = absurd (ground (arith, e))
pick-IsIn (g ∷ []) fuzzy f e = inl (inl (ground (arith, e)))
pick-IsIn (g ∷ h ∷ gs) fuzzy f e = absurd (ground (arith, e))

head-joined :
    (k : String) (t : JoinedTopic) (m : Assoc JoinedTopic) (f : FoundTopic)
    → found k t ≡ f
    → lookup f.thread_ts ((k, t) ∷ m) ≡ some f.topic
unfolding lookup
head-joined k t m f q =
    subst (λ (f : FoundTopic). lookup f.thread_ts ((k, t) ∷ m) ≡ some f.topic) q
      (ground (arith, eq_iff k k))

tail-joined :
    (k : String) (t : JoinedTopic) (m : Assoc JoinedTopic) (f : FoundTopic)
    → lookup k m ≡ none
    → lookup f.thread_ts m ≡ some f.topic
    → lookup f.thread_ts ((k, t) ∷ m) ≡ some f.topic
unfolding lookup
tail-joined k t m f a h = ground (arith, eq_iff k f.thread_ts, a, h)

matching-joined :
    (p : JoinedTopic → Bool) (m : Assoc JoinedTopic) (f : FoundTopic)
    → HasUniqueKeys m
    → IsIn f (matching p m)
    → (lookup f.thread_ts m ≡ some f.topic) × (p f.topic ≡ true)
unfolding matching
matching-joined p [] f h i = absurd i
matching-joined p ((k, t) ∷ m) f (a, h) i = elim (Bool-cases (p t)) [
  | inl holds ↦ elim (subst (IsIn f) (kept holds) i) [
    | inl q ↦ (head-joined k t m f q, subst (λ (f : FoundTopic). p f.topic ≡ true) q holds)
    | inr j ↦ behind (matching-joined p m f h j)
  ]
  | inr fails ↦ behind (matching-joined p m f h (subst (IsIn f) (dropped fails) i))
]
  where
    kept : p t ≡ true → matching p ((k, t) ∷ m) ≡ found k t ∷ matching p m
    kept e = rw (e, matching) refl

    dropped : p t ≡ false → matching p ((k, t) ∷ m) ≡ matching p m
    dropped e = rw (e, matching) refl

    behind :
        (lookup f.thread_ts m ≡ some f.topic) × (p f.topic ≡ true)
        → (lookup f.thread_ts ((k, t) ∷ m) ≡ some f.topic) × (p f.topic ≡ true)
    behind (l, q) = (tail-joined k t m f a l, q)

-- Where no topic is joined twice, what is found is a joined topic under its own id: the one with the query as its id, or one whose
-- name is the query or has it as a part, up to case.
pub find_joined_topic_lem :
    (rt : Runtime) (query : String) (c : ActiveContext) (f : FoundTopic)
    → HasUniqueKeys c.joined_topics
    → find_joined_topic rt query c ≡ some f
    → (lookup f.thread_ts c.joined_topics ≡ some f.topic)
      × ((f.thread_ts ≡ query)
          ⊎ (is_exact rt (rt.lower query) f.topic ≡ true)
          ⊎ (is_fuzzy rt (rt.lower query) f.topic ≡ true))
unfolding find_joined_topic
find_joined_topic_lem rt query c f h e = elim (Option-cases (lookup query c.joined_topics)) [
  | inl none_ ↦
      let q = rt.lower query in
      let exact = matching (is_exact rt q) c.joined_topics in
      let fuzzy = matching (is_fuzzy rt q) c.joined_topics in
      let picked : pick exact fuzzy ≡ some f = ground (arith, none_, e) in
      elim (pick-IsIn exact fuzzy f picked) [
        | inl i ↦
            let (l, x) = matching-joined (is_exact rt q) c.joined_topics f h i in (l, inr (inl x))
        | inr i ↦
            let (l, x) = matching-joined (is_fuzzy rt q) c.joined_topics f h i in (l, inr (inr x))
      ]
  | inr (t, there) ↦
      let q : found query t ≡ f = ground (arith, there, e) in
      subst
        (λ (f : FoundTopic).
          (lookup f.thread_ts c.joined_topics ≡ some f.topic)
          × ((f.thread_ts ≡ query)
              ⊎ (is_exact rt (rt.lower query) f.topic ≡ true)
              ⊎ (is_fuzzy rt (rt.lower query) f.topic ≡ true)))
        q (there, inl refl)
]
