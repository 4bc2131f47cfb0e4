-- ===== src/Broker/Log.antt =====
-- The topics of mcp_server/src/broker.ts stay, and their message logs only grow.
use mathlib.Core.Option
use mathlib.Core.Path.{subst}
use mathlib.Core.List.{append-nil}
use cccollab.Base.{
  String, ◌≡◌, refl, sym, ap, ◌∙◌, Bool, none, some, List, [], ◌++◌, arith, eq_iff, str_eq,
  Bool-cases, inl, inr,
}
use cccollab.Base.Assoc.{Assoc, lookup, set, map_values, lookup-set, lookup-map_values}
use cccollab.Runtime.{Runtime, Url}
use cccollab.Broker.State.{Broker, Env, Request, Response, LocalTopic, LocalTopicMessage}
use cccollab.Broker.Members.{leave_topic_of}
use cccollab.Broker.Topics.{new_topic}
use cccollab.Broker.Actions.{Action}
use cccollab.Broker.Server.{handle}
use cccollab.Broker.Change.{
  Edit, posted, joined, unjoined, closed, reopened, Scope, Change, same, edit, leave_topics, create,
  leave_each-keeps,
}
use cccollab.Broker.Refine.{handle-Changes}

-- `t'` is `t` with its identity, its log and at most more messages behind it.
abbrev pub Continues : LocalTopic → LocalTopic → Type 0
Continues t t' =
    (t'.id ≡ t.id)
    × (t'.topic ≡ t.topic)
    × (t'.channel ≡ t.channel)
    × (t'.creator ≡ t.creator)
    × (t'.created_at ≡ t.created_at)
    × ((added : List LocalTopicMessage) × (t'.messages ≡ t.messages ++ added))

abbrev pub Persists : Assoc LocalTopic → Assoc LocalTopic → Type 0
Persists m m' =
    (id : String) (t : LocalTopic)
    → lookup id m ≡ some t
    → (t' : LocalTopic) × (lookup id m' ≡ some t') × Continues t t'

Continues-refl : (t : LocalTopic) → Continues t t
Continues-refl t = (refl, refl, refl, refl, refl, ([], sym (append-nil t.messages)))

Edit-Continues :
    {env : Env} {u : Bool} {action : Action} {t t' : LocalTopic}
    → Edit env u t action t'
    → Continues t t'
Edit-Continues {t} (posted text sender) = (refl, refl, refl, refl, refl, (_, refl))
Edit-Continues {t} (joined s) = Continues-refl t
Edit-Continues {t} (unjoined s) = Continues-refl t
Edit-Continues {t} closed = Continues-refl t
Edit-Continues {t} (reopened p) = Continues-refl t

leave-Continues :
    (s c : String) (t t' : LocalTopic) → Continues t t' → Continues t (leave_topic_of s c t')
leave-Continues s c t t' k = elim (Bool-cases (str_eq t'.channel c)) [
  | inl here ↦ unfold leave_topic_of in rw here k
  | inr there ↦ unfold leave_topic_of in rw there k
]

set-Persists :
    (m : Assoc LocalTopic) (id : String) (t t' : LocalTopic)
    → lookup id m ≡ some t
    → Continues t t'
    → Persists m (set id t' m)
set-Persists m id t t' e k id1 t1 e1 = elim (Bool-cases (str_eq id id1)) [
  | inl here ↦
      let q : t ≡ t1 = ground (arith, eq_iff id id1, here, e, e1) in
      (t', ground (arith, lookup-set id t' m id1, here), subst (λ x. Continues x t') q k)
  | inr there ↦ (t1, ground (arith, lookup-set id t' m id1, there, e1), Continues-refl t1)
]

leave-Persists :
    (s : String) (m : Assoc LocalTopic) (c : String) (m1 : Assoc LocalTopic)
    → Persists m m1
    → Persists m (map_values (leave_topic_of s c) m1)
leave-Persists s m c m1 h id t e =
    let (t1, e1, k1) = h id t e in
    (
      leave_topic_of s c t1,
      lookup-map_values (leave_topic_of s c) m1 id ∙ ap (Option.map (leave_topic_of s c)) e1,
      leave-Continues s c t t1 k1,
    )

Change-Persists :
    {rt : Runtime} {env : Env} {u : Bool} {scope : Scope} {m m' : Assoc LocalTopic}
    → Change rt env u scope m m'
    → lookup env.uuid m ≡ none
    → Persists m m'
Change-Persists same f id t e = (t, e, Continues-refl t)
Change-Persists {m} (edit id {t} {t'} there k q) f id' t1 e =
    set-Persists m id t t' there (Edit-Continues k) id' t1 e
Change-Persists {m} (leave_topics s cs q) f id t e =
    leave_each-keeps (Persists m) s cs (leave-Persists s m) m
      (λ id1 t1 e1. (t1, e1, Continues-refl t1)) id t e
Change-Persists {env} {m} (create topic creator channel q free) f id t e = (
  t,
  ground (
    arith,
    lookup-set env.uuid (new_topic env topic creator channel) m id,
    eq_iff env.uuid id,
    f,
    e,
  ),
  Continues-refl t,
)

-- A request that the broker answers, with a new UUID at hand, keeps every topic: under its id, with
-- its id, name, channel, creator and time of creation, and with its messages in front of any new
-- ones.
pub handle-Persists :
    (rt : Runtime) (env : Env) (req : Request) (b c : Broker) (res : Response) (url : Url)
    → rt.parse_url req.url ≡ some url
    → handle rt env req b ≡ some (c, res)
    → lookup env.uuid b.topics ≡ none
    → Persists b.topics c.topics
handle-Persists rt env req b c res url p e f =
    Change-Persists (handle-Changes rt env req b c res url p e) f
