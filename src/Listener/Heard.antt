-- ===== src/Listener/Heard.antt =====
-- Which events of the broker reach a session (mcp_server/src/broker-event-listener.ts).
use cccollab.Base.{
  String, ◌≡◌, ◌≢◌, refl, true, false, Bool, not, ◌&&◌, Option, none, some, arith, eq_iff,
  Bool-cases, Option-cases, inl, inr, if◌then◌else◌,
}
use cccollab.Base.Text.{is_empty}
use cccollab.Base.Nullable.{truthy, or_else}
use mathlib.Core.Path.{subst}
use cccollab.Runtime.{Runtime}
use cccollab.Context.{ActiveContext, normalize_channel_name, is_channel_subscribed, is_topic_joined}
use cccollab.MessageBus.{ParsedMessage}
use cccollab.Listener.{
  LocalEvent, EventType, EventTopic, message, topic_created, topic_archived, topic_unarchived,
  broadcast, other, is_exact_self, is_own, channel_subscribed, joined_topic, parsed, on_topic_event,
  on_broadcast,
}

abbrev pub creator_of : Option EventTopic → Option String
creator_of none = none
creator_of (some t) = some t.creator

-- who caused an event
abbrev pub author_by : LocalEvent → EventType → Option String
author_by e topic_created = creator_of e.topic
author_by e topic_archived = e.archived_by
author_by e topic_unarchived = e.unarchived_by
author_by e message = e.sender
author_by e broadcast = e.sender
author_by e other = none

abbrev pub author : LocalEvent → Option String
author e = author_by e e.type

-- A message for the session: in a channel that it is subscribed to, in no thread but one of a topic
-- that it has joined, and from another session.
abbrev pub IsForMe :
    Runtime → Option String → ActiveContext → Option String → ParsedMessage → Type 0
IsForMe rt name c by msg =
    (is_channel_subscribed rt msg.channel none c ≡ true)
    × ((t : String) → msg.thread_ts ≡ some t → is_topic_joined t c ≡ true)
    × ((a : String) → is_empty a ≡ false → by ≡ some a → name ≢ some a)

pub is_own-false :
    (name by : Option String) (a : String)
    → is_own name by ≡ false
    → is_empty a ≡ false
    → by ≡ some a
    → name ≢ some a
unfolding is_own is_exact_self
is_own-false name by a h e b q = ground (arith, h, e, b, q, eq_iff a a)

pub guard_lem :
    (rt : Runtime) (c : ActiveContext) (channel : String) (name by : Option String)
    → channel_subscribed rt c channel && not (is_own name by) ≡ true
    → (is_channel_subscribed rt channel none c ≡ true) × (is_own name by ≡ false)
unfolding channel_subscribed
guard_lem rt c channel name by h = (ground (arith, h), ground (arith, h))

joined_topic_lem :
    (c : ActiveContext) (topic_id : Option String) (id : String)
    → joined_topic c topic_id ≡ some id
    → is_topic_joined id c ≡ true
unfolding joined_topic
joined_topic_lem c topic_id id h = elim (Option-cases (truthy topic_id)) [
  | inl none_ ↦ ground (arith, none_, h)
  | inr (s, there) ↦ elim (Bool-cases (is_topic_joined s c)) [
    | inl joined ↦
        let q : s ≡ id = ground (arith, there, joined, h) in
        subst (λ (s : String). is_topic_joined s c ≡ true) q joined
    | inr missing ↦ ground (arith, there, missing, h)
  ]
]

-- The result of a test that guards a message.
pub guarded :
    (p : Bool) (m msg : ParsedMessage)
    → (if p then some m else none) ≡ some msg
    → (p ≡ true) × (m ≡ msg)
guarded true m msg e = (refl, cc)
guarded false m msg e = absurd (ground (arith, e))

pub topic_event-IsForMe :
    (rt : Runtime) (name : Option String) (c : ActiveContext) (e : LocalEvent) (by : Option String)
    (text ts : String) (msg : ParsedMessage)
    → on_topic_event rt name c e by text ts ≡ some msg
    → IsForMe rt name c by msg
unfolding on_topic_event
topic_event-IsForMe rt name c e by text ts msg h =
    let channel = normalize_channel_name rt (or_else e.channel "") in
    elim (Option-cases (joined_topic c e.topic_id)) [
      | inl none_ ↦ absurd (ground (arith, none_, h))
      | inr (id, there) ↦
          let m = parsed (or_else by "unknown") text ts channel (some id) in
          let q : (if channel_subscribed rt c channel && not (is_own name by) then some m else none)
              ≡ some msg =
            ground (arith, there, h) in
          let (p, same) =
            guarded (channel_subscribed rt c channel && not (is_own name by)) m msg q in
          let (sub, own) = guard_lem rt c channel name by p in
          subst (IsForMe rt name c by) same (
            sub,
            λ t u. joined_topic_lem c e.topic_id t (ground (arith, there, u)),
            λ a n b. is_own-false name by a own n b,
          )
    ]

pub broadcast-IsForMe :
    (rt : Runtime) (now : String) (name : Option String) (c : ActiveContext) (e : LocalEvent)
    (msg : ParsedMessage)
    → on_broadcast rt now name c e ≡ some msg
    → IsForMe rt name c e.sender msg
unfolding on_broadcast
broadcast-IsForMe rt now name c e msg h =
    let channel = normalize_channel_name rt (or_else e.channel "") in
    let m =
      parsed (or_else e.sender "unknown") (or_else e.text "") (or_else e.ts now) channel none in
    let (p, same) =
      guarded (channel_subscribed rt c channel && not (is_own name e.sender)) m msg h in
    let (sub, own) = guard_lem rt c channel name e.sender p in
    subst (IsForMe rt name c e.sender) same
      (sub, λ t u. absurd (ground (arith, u)), λ a n b. is_own-false name e.sender a own n b)
