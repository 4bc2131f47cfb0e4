-- ===== src/Broker/Names.antt =====
-- Names of active topics in mcp_server/src/broker.ts: POST /topics refuses a taken one.
use mathlib.Core.Option
use mathlib.Core.Path.{subst}
use cccollab.Base.{
  String, ◌≡◌, ◌≢◌, refl, sym, ap, ◌∙◌, true, false, none, some, [], ◌∷◌, arith, eq_iff, str_eq,
  Option-cases, Bool-cases, inl, inr, ◌⊎◌,
}
use cccollab.Base.Assoc.{
  Assoc, lookup, set, lookup-set, lookup-set_cases, map_values, lookup-map_values,
}
use cccollab.Runtime.{Runtime, Url}
use cccollab.Broker.State.{Broker, Env, Request, Response, LocalTopic, active, archived}
use cccollab.Broker.Members.{leave_topic_of, broadcast}
use cccollab.Broker.Topics.{find_named, is_named, fold_name, is_active, new_topic}
use cccollab.Broker.Actions.{Action, unarchive_topic}
use cccollab.Broker.Channels.{Fields}
use cccollab.Broker.Route.{route}
use cccollab.Broker.Server.{handle}
use cccollab.Broker.Change.{
  Edit, posted, joined, unjoined, closed, reopened, Scope, Change, same, edit, leave_topics, create,
  leave_each-keeps,
}
use cccollab.Broker.Refine.{handle-Changes, is_unarchive, scope_of}

-- Two active topics of a channel whose names agree up to case and outer spaces are one.
abbrev pub HasUniqueNames : Runtime → Assoc LocalTopic → Type 0
HasUniqueNames rt topics =
    (id id' : String) (t t' : LocalTopic)
    → lookup id topics ≡ some t
    → lookup id' topics ≡ some t'
    → is_active t.state ≡ true
    → is_active t'.state ≡ true
    → t.channel ≡ t'.channel
    → fold_name rt t.topic ≡ fold_name rt t'.topic
    → id ≡ id'

-- A topic that is in its channel under its name, and is active only if the other one is.
abbrev Kept : LocalTopic → LocalTopic → Type 0
Kept t t' =
    (t'.channel ≡ t.channel)
    × (t'.topic ≡ t.topic)
    × (is_active t'.state ≡ true → is_active t.state ≡ true)

abbrev Origin : Assoc LocalTopic → Assoc LocalTopic → Type 0
Origin m m' =
    (id : String) (t' : LocalTopic)
    → lookup id m' ≡ some t'
    → (t : LocalTopic) × (lookup id m ≡ some t) × Kept t t'

Origin-HasUniqueNames :
    (rt : Runtime) (m m' : Assoc LocalTopic)
    → Origin m m'
    → HasUniqueNames rt m
    → HasUniqueNames rt m'
Origin-HasUniqueNames rt m m' o h id id' t t' e e' a a' c n =
    let (s, es, (cs, ns, act)) = o id t e in
    let (s', es', (cs', ns', act')) = o id' t' e' in
    h id id' s s' es es' (act a) (act' a') (sym cs ∙ c ∙ cs')
      (ap (fold_name rt) (sym ns) ∙ n ∙ ap (fold_name rt) ns')

Edit-Kept :
    {env : Env} {action : Action} {t t' : LocalTopic} → Edit env false t action t' → Kept t t'
Edit-Kept (posted text sender) = (refl, refl, λ a. a)
Edit-Kept (joined s) = (refl, refl, λ a. a)
Edit-Kept (unjoined s) = (refl, refl, λ a. a)
Edit-Kept closed = (refl, refl, λ a. cc)
Edit-Kept (reopened p) = cc

leave-Kept : (s c : String) (t : LocalTopic) → Kept t (leave_topic_of s c t)
unfolding leave_topic_of
leave-Kept s c t = elim (Bool-cases (str_eq t.channel c)) [
  | inl here ↦ rw (here, leave_topic_of) (refl, refl, λ a. a)
  | inr there ↦ rw (there, leave_topic_of) (refl, refl, λ a. a)
]

set-Origin :
    (m : Assoc LocalTopic) (id : String) (t t' : LocalTopic)
    → lookup id m ≡ some t
    → Kept t t'
    → Origin m (set id t' m)
set-Origin m id t t' e k id1 t1 e1 = elim (Bool-cases (str_eq id id1)) [
  | inl here ↦
      let q : id ≡ id1 = (eq_iff id id1).0 here in
      let same : t' ≡ t1 = ground (arith, lookup-set id t' m id1, here, e1) in
      subst (λ x. (y : LocalTopic) × (lookup id1 m ≡ some y) × Kept y x) same (t, rw (← q) e, k)
  | inr there ↦ (t1, ground (arith, lookup-set id t' m id1, there, e1), (refl, refl, λ a. a))
]

map-Origin : (s c : String) (m : Assoc LocalTopic) → Origin m (map_values (leave_topic_of s c) m)
map-Origin s c m id t' e =
    let e' : Option.map (leave_topic_of s c) (lookup id m) ≡ some t' =
      sym (lookup-map_values (leave_topic_of s c) m id) ∙ e in
    elim (Option-cases (lookup id m)) [
      | inl missing ↦ absurd (ground (arith, missing, e'))
      | inr (t, there) ↦
          let same : leave_topic_of s c t ≡ t' = ground (arith, there, e') in
          (t, there, subst (Kept t) same (leave-Kept s c t))
    ]

find_named-cons :
    (rt : Runtime) (channel wanted k : String) (t : LocalTopic) (m : Assoc LocalTopic)
    → find_named rt channel wanted ((k, t) ∷ m) ≡ none
    → (is_named rt channel wanted t ≡ false) × (find_named rt channel wanted m ≡ none)
unfolding find_named
find_named-cons rt channel wanted k t m free = ground (arith, free)

lookup_cons :
    (id k : String) (t t0 : LocalTopic) (m : Assoc LocalTopic)
    → lookup id ((k, t0) ∷ m) ≡ some t
    → (t0 ≡ t) ⊎ (lookup id m ≡ some t)
unfolding lookup
lookup_cons id k t t0 m e = ground (arith, e)

-- A free name is no active topic's.
find_named-none :
    (rt : Runtime) (channel wanted : String) (m : Assoc LocalTopic) (id : String) (t : LocalTopic)
    → find_named rt channel wanted m ≡ none
    → lookup id m ≡ some t
    → is_named rt channel wanted t ≡ false
find_named-none rt channel wanted [] id t free e = unfold lookup in cc
find_named-none rt channel wanted ((k, t0) ∷ m) id t free e =
    let (other, free') = find_named-cons rt channel wanted k t0 m free in
    elim (lookup_cons id k t t0 m e) [
      | inl here ↦ rw (← here) other
      | inr there ↦ find_named-none rt channel wanted m id t free' there
    ]

not_named :
    (rt : Runtime) (channel wanted : String) (t : LocalTopic)
    → is_named rt channel wanted t ≡ false
    → is_active t.state ≡ true
    → t.channel ≡ channel
    → fold_name rt t.topic ≡ wanted
    → ⊥
unfolding is_named
not_named rt channel wanted t f a c n =
    ground (arith, f, a, eq_iff t.channel channel, c, eq_iff (fold_name rt t.topic) wanted, n)

-- A new topic under a free name.
create-HasUniqueNames :
    (rt : Runtime) (m : Assoc LocalTopic) (id : String) (t : LocalTopic)
    → find_named rt t.channel (fold_name rt t.topic) m ≡ none
    → HasUniqueNames rt m
    → HasUniqueNames rt (set id t m)
create-HasUniqueNames rt m id t free h id1 id2 t1 t2 e1 e2 a1 a2 c n =
    elim (lookup-set_cases id t m id1 t1 e1) [
      | inl (p1, q1) ↦ elim (lookup-set_cases id t m id2 t2 e2) [
        | inl (p2, q2) ↦ sym p1 ∙ p2
        | inr f2 ↦ absurd (
            clash t2 id2 f2 a2 (ap (λ x. x.channel) q1 ∙ c) (ap (λ x. fold_name rt x.topic) q1 ∙ n))
      ]
      | inr f1 ↦ elim (lookup-set_cases id t m id2 t2 e2) [
        | inl (p2, q2) ↦ absurd (
            clash t1 id1 f1 a1 (ap (λ x. x.channel) q2 ∙ sym c)
              (ap (λ x. fold_name rt x.topic) q2 ∙ sym n))
        | inr f2 ↦ h id1 id2 t1 t2 f1 f2 a1 a2 c n
      ]
    ]
  where
    clash :
        (t' : LocalTopic) (j : String)
        → lookup j m ≡ some t'
        → is_active t'.state ≡ true
        → t.channel ≡ t'.channel
        → fold_name rt t.topic ≡ fold_name rt t'.topic
        → ⊥
    clash t' j f a cs ns =
        not_named rt t.channel (fold_name rt t.topic) t'
          (find_named-none rt t.channel (fold_name rt t.topic) m j t' free f) a (sym cs) (sym ns)

Change-HasUniqueNames :
    {rt : Runtime} {env : Env} {scope : Scope} {m m' : Assoc LocalTopic}
    → Change rt env false scope m m'
    → HasUniqueNames rt m
    → HasUniqueNames rt m'
Change-HasUniqueNames same h = h
Change-HasUniqueNames {rt} {m} (edit id {t} {t'} there e q) h =
    Origin-HasUniqueNames rt m (set id t' m) (set-Origin m id t t' there (Edit-Kept e)) h
Change-HasUniqueNames {rt} {m} (leave_topics s cs q) h =
    leave_each-keeps (HasUniqueNames rt) s cs
      (λ c m1. Origin-HasUniqueNames rt m1 (map_values (leave_topic_of s c) m1) (map-Origin s c m1))
      m h
Change-HasUniqueNames {rt} {env} {m = m} (create topic creator channel q free) h =
    create-HasUniqueNames rt m env.uuid (new_topic env topic creator channel) free h

-- Where no two active topics of a channel have names that agree up to case and outer spaces, that
-- stays so after any answered request but an unarchive.
pub handle-HasUniqueNames :
    (rt : Runtime) (env : Env) (req : Request) (b c : Broker) (res : Response) (url : Url)
    → rt.parse_url req.url ≡ some url
    → is_unarchive (route req.method url.pathname) ≡ false
    → handle rt env req b ≡ some (c, res)
    → HasUniqueNames rt b.topics
    → HasUniqueNames rt c.topics
handle-HasUniqueNames rt env req b c res url p other e h =
    Change-HasUniqueNames
      (subst
        (λ u. Change rt env u (scope_of rt req b (route req.method url.pathname)) b.topics c.topics)
        other (handle-Changes rt env req b c res url p e))
      h

-- An unarchive checks no name: where another active topic of the channel has taken the archived
-- topic's name, it leaves two active topics under one name.
pub unarchive_topic_not-HasUniqueNames :
    (rt : Runtime) (env : Env) (id id' : String) (t t' : LocalTopic) (body : Fields) (b : Broker)
    → lookup id b.topics ≡ some t
    → lookup id' b.topics ≡ some t'
    → t.state ≡ archived
    → t'.state ≡ active
    → t.channel ≡ t'.channel
    → fold_name rt t.topic ≡ fold_name rt t'.topic
    → ¬ HasUniqueNames rt (unarchive_topic env id t body b).0.topics
unfolding unarchive_topic broadcast
unarchive_topic_not-HasUniqueNames rt env id id' t t' body b e e' s s' c n h =
    let ne : id ≢ id' = λ q. ground (arith, q, e, e', s, s') in
    let t1 : LocalTopic = record t { state = active } in
    ne (
      h id id' t1 t' (ground (arith, lookup-set id t1 b.topics id, eq_iff id id))
        (ground (arith, lookup-set id t1 b.topics id', eq_iff id id', e', ne)) refl
        (ap is_active s') c n)
