-- ===== src/Broker/Post.antt =====
-- A message posted to mcp_server/src/broker.ts, and what is read back and pushed.
use cccollab.Base.{String, ◌≡◌, refl, ◌∙◌, true, some, [], ◌∷◌, ◌++◌, map, arith, eq_iff, keep}
use cccollab.Base.Nullable.{truthy}
use cccollab.Base.Assoc.{lookup, lookup-set}
use cccollab.Broker.State.{Broker, Env, respond, LocalTopic, Event, message, done, topic_shown}
use cccollab.Broker.Members.{broadcast}
use cccollab.Broker.Channels.{Fields, field, is_subscribed}
use cccollab.Broker.Topics.{get_topic, topic_data}
use cccollab.Broker.Actions.{put_topic, post_message, message_fields, new_message}

-- the message that a body asks for, with its sender subscribed to the topic's channel
abbrev pub IsPostable : Broker → LocalTopic → Fields → String → String → Type 0
IsPostable b t body text sender =
    (message_fields body ≡ some (text, sender)) × (is_subscribed sender t.channel b ≡ true)

is_subscribed-put :
    (name channel id : String) (t : LocalTopic) (env : Env) (event : Event) (b : Broker)
    → is_subscribed name channel (broadcast env event (put_topic id t b))
      ≡ is_subscribed name channel b
unfolding is_subscribed broadcast
is_subscribed-put name channel id t env event b = refl

accepted :
    (env : Env) (id : String) (t : LocalTopic) (body : Fields) (b : Broker) (text sender : String)
    → IsPostable b t body text sender
    → post_message env id t body b ≡ (
      broadcast env
          (message t.channel id sender text env.now)
          (put_topic id (record t { messages = t.messages ++ new_message env text sender ∷ [] }) b),
      respond 200 done,
    )
unfolding post_message
accepted env id t body b text sender (fields, member) = rw (fields, member, post_message)

shown :
    (id : String) (t : LocalTopic) (query : Fields) (b : Broker) (reader : String)
    → lookup id b.topics ≡ some t
    → truthy (field "sessionId" query) ≡ some reader
    → is_subscribed reader t.channel b ≡ true
    → get_topic id query b ≡ (b, respond 200 (topic_shown (topic_data t) t.messages))
unfolding get_topic
shown id t query b reader e r s = rw (e, r, s, get_topic)

lookup-posted :
    (env : Env) (event : Event) (id : String) (t : LocalTopic) (b : Broker)
    → lookup id (broadcast env event (put_topic id t b)).topics ≡ some t
unfolding broadcast
lookup-posted env event id t b = ground (arith, lookup-set id t b.topics id, eq_iff id id)

sent-posted :
    (env : Env) (event : Event) (id : String) (t : LocalTopic) (b : Broker)
    → (broadcast env event (put_topic id t b)).sent
      ≡ b.sent ++ map (λ c. (c, event)) (keep env.writable b.clients)
unfolding broadcast
sent-posted env event id t b = refl

pub post_message-sent :
    (env : Env) (id : String) (t : LocalTopic) (body : Fields) (b : Broker) (text sender : String)
    → IsPostable b t body text sender
    → (post_message env id t body b).0.sent
      ≡ b.sent
        ++ map (λ c. (c, message t.channel id sender text env.now)) (keep env.writable b.clients)
post_message-sent env id t body b text sender post =
    rw (accepted env id t body b text sender post) (
      sent-posted env (message t.channel id sender text env.now) id
        (record t { messages = t.messages ++ new_message env text sender ∷ [] }) b)

-- The topic that is left, and that no subscription has changed.
pub posted_topic :
    (env : Env) (id : String) (t : LocalTopic) (body : Fields) (b : Broker) (text sender : String)
    → IsPostable b t body text sender
    → (lookup id (post_message env id t body b).0.topics
        ≡ some (record t { messages = t.messages ++ new_message env text sender ∷ [] }))
      × ((name channel : String)
          → is_subscribed name channel (post_message env id t body b).0
            ≡ is_subscribed name channel b)
posted_topic env id t body b text sender post =
    let t' : LocalTopic = record t { messages = t.messages ++ new_message env text sender ∷ [] } in
    let event = message t.channel id sender text env.now in
    rw (accepted env id t body b text sender post) (
      lookup-posted env event id t' b,
      λ name channel. is_subscribed-put name channel id t' env event b,
    )

-- A message with a text and a sender who is subscribed to the topic's channel is accepted: it is
-- written, once and in order, to every connection that can be written to, and whoever is subscribed
-- to the channel then reads the topic with it behind the messages that were there.
pub get_topic-post_message :
    (env : Env) (id : String) (t : LocalTopic) (body : Fields) (b : Broker)
    (text sender reader : String) (query : Fields)
    → IsPostable b t body text sender
    → truthy (field "sessionId" query) ≡ some reader
    → is_subscribed reader t.channel b ≡ true
    → ((post_message env id t body b).0.sent
        ≡ b.sent
          ++ map (λ c. (c, message t.channel id sender text env.now)) (keep env.writable b.clients))
      × (get_topic id query (post_message env id t body b).0 ≡ (
        (post_message env id t body b).0,
        respond 200 (topic_shown (topic_data t) (t.messages ++ new_message env text sender ∷ [])),
      ))
get_topic-post_message env id t body b text sender reader query (fields, member) r s =
    let t' : LocalTopic = record t { messages = t.messages ++ new_message env text sender ∷ [] } in
    let event = message t.channel id sender text env.now in
    rw (accepted env id t body b text sender (fields, member)) (
      sent-posted env event id t' b,
      shown id t' query (broadcast env event (put_topic id t' b)) reader
          (lookup-posted env event id t' b) r
          (is_subscribed-put reader t.channel id t' env event b ∙ s),
    )
