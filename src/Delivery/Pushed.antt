-- ===== src/Delivery/Pushed.antt =====
-- A message from the call of sendTopicMessage (mcp_server/src/transport/local.ts), over the broker
-- (mcp_server/src/broker.ts), to the listeners (mcp_server/src/broker-event-listener.ts).
use cccollab.Base.{
  ℕ, String, ◌≡◌, ◌≢◌, refl, ap, sym, ◌∙◌, true, false, Option, none, some, List, [], ◌∷◌, ◌++◌,
  map, keep, keep-append, eqb, arith, Bool-cases, Option-cases, inl, inr, eq_iff, All,
  All-append_left,
}
use mathlib.Core.List.{map-append}
use mathlib.Core.Path.{subst}
use cccollab.Base.Text.{is_empty}
use cccollab.Base.Nullable.{or_else}
use cccollab.Base.Assoc.{lookup}
use cccollab.Runtime.{Runtime}
use cccollab.Context.{ActiveContext, normalize_channel_name, is_topic_joined}
use cccollab.Broker.State.{
  Broker, Env, Event, Request, Response, LocalTopic, respond, done, message,
}
use cccollab.Broker.Channels.{Fields, is_subscribed}
use cccollab.Broker.Actions.{post_message}
use cccollab.Broker.Post.{IsPostable, post_message-sent}
use cccollab.Broker.Server.{handle}
use cccollab.Listener
use cccollab.Listener.{
  LocalEvent, is_own, channel_subscribed, joined_topic, parsed, on_data, on_event, on_topic_event,
  handle_local_event,
}
use cccollab.Listener.Stream.{join_texts}
use cccollab.Listener.Pushed.{handle_local_event-message}
use cccollab.Local.{Method}
use cccollab.Local.Routes.{IsEncoding, is_dot}
use cccollab.Local.Sent.{Carries, handle-send_topic_message, fields_of}
use cccollab.Delivery.{Wire, stream, events_in, event_seen, events_seen, put_event, message_seen}
use cccollab.Delivery.Stream.{Passes, IsUtf8, chunks_of, events_in-stream}

-- what has been written to a connection
abbrev pub received : ℕ → List (ℕ × Event) → List Event
received c sent = map (λ w. w.1) (keep (λ w. eqb w.0 c) sent)

received-append :
    (c : ℕ) (xs ys : List (ℕ × Event)) → received c (xs ++ ys) ≡ received c xs ++ received c ys
received-append c xs ys = simp (keep-append, map-append)

received-written :
    (c : ℕ) (e : Event) (cs : List ℕ)
    → received c (map (λ x. (x, e)) cs) ≡ map (λ x. e) (keep (λ x. eqb x c) cs)
received-written c e [] = refl
received-written c e (x ∷ cs) = ground (arith, received-written c e cs)

put_event-append :
    (o : Option LocalEvent) (es fs all : List LocalEvent)
    → all ≡ es ++ fs
    → put_event o all ≡ put_event o es ++ fs
put_event-append none es fs all h = h
put_event-append (some e) es fs all h = ap (λ rest. e ∷ rest) h

events_seen-append :
    (wire : Wire) (es fs : List Event)
    → events_seen wire (es ++ fs) ≡ events_seen wire es ++ events_seen wire fs
unfolding events_seen
events_seen-append wire [] fs = refl
events_seen-append wire (e ∷ es) fs =
    put_event-append (event_seen wire e) (events_seen wire es) (events_seen wire fs) _
      (events_seen-append wire es fs)

-- The state that a request leaves.
abbrev pub state_after : Option (Broker × Response) → Broker → Broker
state_after none b = b
state_after (some o) b = o.0

own_message :
    (rt : Runtime) (c : ActiveContext) (e : LocalEvent) (name text ts : String)
    → is_own (some name) (some name) ≡ true
    → on_topic_event rt (some name) c e (some name) text ts ≡ none
unfolding on_topic_event
own_message rt c e name text ts own = elim (Option-cases (joined_topic c e.topic_id)) [
  | inl absent ↦ rw (absent, on_topic_event) refl
  | inr (id, there) ↦
      rw (there, own, on_topic_event)
        (elim (Bool-cases
          (channel_subscribed rt c (normalize_channel_name rt (or_else e.channel "")))) [
            | inl sub ↦ rw sub refl
            | inr sub ↦ rw sub refl
          ])
]

own_name : (name : String) → is_empty name ≡ false → is_own (some name) (some name) ≡ true
unfolding is_own Listener.is_exact_self
own_name name n = ground (arith, n, eq_iff name name)

written :
    (env : Env) (id : String) (t : LocalTopic) (body : Fields) (b : Broker) (text sender : String)
    (c : ℕ)
    → IsPostable b t body text sender
    → keep (λ x. eqb x c) (keep env.writable b.clients) ≡ c ∷ []
    → received c (post_message env id t body b).0.sent
      ≡ received c b.sent ++ message t.channel id sender text env.now ∷ []
written env id t body b text sender c post once =
    let event = message t.channel id sender text env.now in
    let writable = keep env.writable b.clients in
    ap (received c) (post_message-sent env id t body b text sender post)
    ∙ received-append c b.sent (map (λ x. (x, event)) writable)
    ∙ ap (λ es. received c b.sent ++ es)
        (received-written c event writable ∙ ap (map (λ x. event)) once)

-- The objects that a listener gets after the message, by those that it had before.
heard_next :
    (wire : Wire) (before after : List String) (es : List Event) (now : ℕ)
    (channel id sender text : String)
    → All (Passes wire) (es ++ message channel id sender text now ∷ [])
    → All (IsUtf8 wire) before
    → All (IsUtf8 wire) after
    → join_texts before ≡ stream wire es
    → join_texts after ≡ stream wire (es ++ message channel id sender text now ∷ [])
    → events_in wire (on_data wire.decode "" (chunks_of wire after)).0
      ≡ events_in wire (on_data wire.decode "" (chunks_of wire before)).0
        ++ message_seen wire channel id sender text now ∷ []
unfolding events_seen event_seen
heard_next wire before after es now channel id sender text laws whole_before whole_after had has =
    let event = message channel id sender text now in
    (events_in-stream wire (es ++ event ∷ []) after laws whole_after has).0
    ∙ events_seen-append wire es (event ∷ [])
    ∙ ap (λ seen. seen ++ message_seen wire channel id sender text now ∷ [])
        (sym
          (events_in-stream wire es before (All-append_left (Passes wire) es (event ∷ []) laws)
            whole_before had).0)

-- A message with a text that a session sends through the local transport to a topic of a channel
-- that it is subscribed to, the id being one that the encoding leaves as it is, and not "." or
-- "..": the broker accepts it. On a connection that is open once and can be written to, where the stream is cut into chunks
-- between characters, its listener then handles the same events as before and the message behind
-- them. It pushes it, with its sender, text and time, where it is the one of another session that is
-- subscribed to the channel and has joined the topic; the sender's own listener drops it.
pub sent_message-pushed :
    (rt : Runtime) (encode : String → String) (wire : Wire) (env : Env) (session id text : String)
    (t : LocalTopic) (req : Request) (b : Broker) (c : ℕ) (before after : List String)
    (now : String) (name : Option String) (ctx own_ctx : ActiveContext)
    → IsEncoding encode
    → All (Passes wire) (received c (state_after (handle rt env req b) b).sent)
    → All (IsUtf8 wire) before
    → All (IsUtf8 wire) after
    → encode id ≡ id
    → is_empty id ≡ false
    → is_dot id ≡ false
    → is_empty session ≡ false
    → is_empty text ≡ false
    → lookup id b.topics ≡ some t
    → is_subscribed session t.channel b ≡ true
    → Carries rt encode (Method.send_topic_message session id text) req
    → keep (λ x. eqb x c) (keep env.writable b.clients) ≡ c ∷ []
    → join_texts before ≡ stream wire (received c b.sent)
    → join_texts after ≡ stream wire (received c (state_after (handle rt env req b) b).sent)
    → channel_subscribed rt ctx (normalize_channel_name rt t.channel) ≡ true
    → is_topic_joined id ctx ≡ true
    → name ≢ some session
    → (handle rt env req b ≡ some (state_after (handle rt env req b) b, respond 200 done))
      × (events_in wire (on_data wire.decode "" (chunks_of wire after)).0
          ≡ events_in wire (on_data wire.decode "" (chunks_of wire before)).0
            ++ message_seen wire t.channel id session text env.now ∷ [])
      × (handle_local_event rt now name ctx (message_seen wire t.channel id session text env.now)
          ≡ some (
              parsed session text
                (wire.iso env.now)
                (normalize_channel_name rt t.channel)
                (some id)))
      × (handle_local_event rt now
            (some session)
            own_ctx
            (message_seen wire t.channel id session text env.now)
          ≡ none)
unfolding handle_local_event on_event
sent_message-pushed rt encode wire env session id text t req b c before after now name ctx own_ctx
      enc laws whole_before whole_after same i d s x there member sent once had has sub joined
      other =
    let body : Fields = ("sender", session) ∷ ("text", text) ∷ [] in
    let e = message_seen wire t.channel id session text env.now in
    let step =
      handle-send_topic_message rt encode env session id text t req b enc same i d s x there member
        sent in
    let grown =
      ap (λ o. received c (state_after o b).sent) step
      ∙ written env id t body b text session c (fields_of session text s x, member) once in
    (
      step ∙ ap (λ o. some (state_after o b, respond 200 done)) (sym step),
      heard_next wire before after (received c b.sent) env.now t.channel id session text
          (subst (All (Passes wire)) grown laws) whole_before whole_after had
          (has ∙ ap (stream wire) grown),
      handle_local_event-message rt now name ctx e t.channel id session text (wire.iso env.now) refl
          refl refl refl refl refl i sub joined other,
      own_message rt own_ctx e session text (wire.iso env.now) (own_name session s),
    )
