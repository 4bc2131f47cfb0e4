-- ===== src/Listener/Pushed.antt =====
-- What a session's bus gets of the broker's events (mcp_server/src/broker-event-listener.ts).
use cccollab.Base.{
  String, ◌≡◌, ◌≢◌, ap, ◌∙◌, refl, true, false, not, ◌&&◌, Option, none, some, arith, eq_iff,
  str_eq, Bool-cases, Option-cases, inl, inr,
}
use cccollab.Base.Text.{is_empty}
use cccollab.Base.Nullable.{or_else}
use mathlib.Core.Path.{subst}
use cccollab.Runtime.{Runtime}
use cccollab.Context.{ActiveContext, normalize_channel_name, is_topic_joined}
use cccollab.MessageBus.{ParsedMessage}
use cccollab.Listener.{
  LocalEvent, EventType, EventTopic, message, topic_created, topic_archived, topic_unarchived,
  broadcast, other, is_exact_self, is_own, channel_subscribed, joined_topic, parsed, topic_channel,
  on_new_topic, new_topic_text, on_event, on_topic_event, handle_local_event,
}
use cccollab.Listener.Heard.{
  author, author_by, IsForMe, is_own-false, guard_lem, guarded, topic_event-IsForMe,
  broadcast-IsForMe,
}

created-IsForMe :
    (rt : Runtime) (now : String) (name : Option String) (c : ActiveContext) (e : LocalEvent)
    (t : EventTopic) (msg : ParsedMessage)
    → on_new_topic rt now name c e t ≡ some msg
    → IsForMe rt name c (some t.creator) msg
unfolding on_new_topic
created-IsForMe rt now name c e t msg h =
    let channel = normalize_channel_name rt (topic_channel e t) in
    let m = parsed t.creator (new_topic_text channel t) (or_else t.created_at now) channel none in
    let (p, same) =
      guarded (channel_subscribed rt c channel && not (is_own name (some t.creator))) m msg h in
    let (sub, own) = guard_lem rt c channel name (some t.creator) p in
    subst (IsForMe rt name c (some t.creator)) same (
      sub,
      λ s u. absurd (ground (arith, u)),
      λ a n b. is_own-false name (some t.creator) a own n b,
    )

on_event-IsForMe :
    (rt : Runtime) (now : String) (name : Option String) (c : ActiveContext) (e : LocalEvent)
    (type : EventType) (msg : ParsedMessage)
    → on_event rt now name c e type ≡ some msg
    → IsForMe rt name c (author_by e type) msg
unfolding on_event
on_event-IsForMe rt now name c e topic_created msg h = elim (Option-cases e.topic) [
  | inl none_ ↦ absurd (ground (arith, none_, h))
  | inr (t, there) ↦
      let q : on_new_topic rt now name c e t ≡ some msg = ground (arith, there, h) in
      rw (there) (created-IsForMe rt now name c e t msg q)
]
on_event-IsForMe rt now name c e message msg h =
    topic_event-IsForMe rt name c e e.sender (or_else e.text "") (or_else e.ts now) msg h
on_event-IsForMe rt now name c e topic_archived msg h =
    topic_event-IsForMe rt name c e e.archived_by "Topic archived" now msg h
on_event-IsForMe rt now name c e topic_unarchived msg h =
    topic_event-IsForMe rt name c e e.unarchived_by "Topic unarchived" now msg h
on_event-IsForMe rt now name c e broadcast msg h = broadcast-IsForMe rt now name c e msg h
on_event-IsForMe rt now name c e other msg h = absurd (ground (arith, h))

-- Whatever the bus gets of an event is for the session: its channel is one that the session is
-- subscribed to, its thread, if it has one, a topic that the session has joined, and its author is
-- not the session's name.
pub handle_local_event-IsForMe :
    (rt : Runtime) (now : String) (name : Option String) (c : ActiveContext) (e : LocalEvent)
    (msg : ParsedMessage)
    → handle_local_event rt now name c e ≡ some msg
    → IsForMe rt name c (author e) msg
unfolding handle_local_event
handle_local_event-IsForMe rt now name c e msg h = on_event-IsForMe rt now name c e e.type msg h

other_author :
    (name : Option String) (sender : String)
    → name ≢ some sender
    → is_own name (some sender) ≡ false
unfolding is_own is_exact_self
other_author none sender ne = ground arith
other_author (some n) sender ne = elim (Bool-cases (str_eq sender n)) [
  | inl same ↦ absurd (ne (ground (arith, same, eq_iff sender n)))
  | inr differ ↦ ground (arith, differ)
]

joined_topic-some :
    (c : ActiveContext) (id : String)
    → is_empty id ≡ false
    → is_topic_joined id c ≡ true
    → joined_topic c (some id) ≡ some id
unfolding joined_topic
joined_topic-some c id n joined = ground (arith, n, joined)

topic_event_lem :
    (rt : Runtime) (name : Option String) (c : ActiveContext) (e : LocalEvent) (by : Option String)
    (text ts id : String)
    → joined_topic c e.topic_id ≡ some id
    → channel_subscribed rt c (normalize_channel_name rt (or_else e.channel "")) ≡ true
    → is_own name by ≡ false
    → on_topic_event rt name c e by text ts
      ≡ some (
          parsed
            (or_else by "unknown")
            text
            ts
            (normalize_channel_name rt (or_else e.channel ""))
            (some id))
unfolding on_topic_event
topic_event_lem rt name c e by text ts id j sub own = rw (j, on_topic_event) (rw (sub, own) refl)

-- A message of another session to a topic that the session has joined, in a channel that it is
-- subscribed to, reaches the bus with its sender, text and time.
pub handle_local_event-message :
    (rt : Runtime) (now : String) (name : Option String) (c : ActiveContext) (e : LocalEvent)
    (channel id sender text ts : String)
    → e.type ≡ message
    → e.channel ≡ some channel
    → e.topic_id ≡ some id
    → e.sender ≡ some sender
    → e.text ≡ some text
    → e.ts ≡ some ts
    → is_empty id ≡ false
    → channel_subscribed rt c (normalize_channel_name rt channel) ≡ true
    → is_topic_joined id c ≡ true
    → name ≢ some sender
    → handle_local_event rt now name c e
      ≡ some (parsed sender text ts (normalize_channel_name rt channel) (some id))
unfolding handle_local_event on_event
handle_local_event-message rt now name c e channel id sender text ts ty ch to se te ti n sub joined
      ne =
    ap (on_event rt now name c e) ty
    ∙ topic_event_lem rt name c e e.sender (or_else e.text "") (or_else e.ts now) id
        (ap (joined_topic c) to ∙ joined_topic-some c id n joined)
        (ap
            (λ (o : Option String).
              channel_subscribed rt c (normalize_channel_name rt (or_else o "")))
            ch
          ∙ sub)
        (ap (is_own name) se ∙ other_author name sender ne)
    ∙ ground (arith, se, te, ti, ch)
