-- ===== src/Broker/Handlers.antt =====
-- The handlers of mcp_server/src/broker.ts that write keep its maps consistent.
use cccollab.Base.{
  String, ◌≡◌, Option, none, some, arith, eq_iff, Option-cases, Bool-cases, inl, inr,
}
use cccollab.Base.Nullable.{truthy}
use cccollab.Base.Assoc.{lookup}
use cccollab.Base.StrSet.{has-add, has-remove, has-ne-nil}
use cccollab.Runtime.{Runtime}
use cccollab.Broker.State.{Broker, Env, Response, LocalTopic}
use cccollab.Broker.Channels.{
  Fields, is_subscribed, local_event, post_join, post_leave, post_broadcast, session_and_channel,
  broadcast_fields, field,
}
use cccollab.Broker.Topics.{
  create_topic, post_topic, find_named, fold_name, topic_fields, new_topic,
}
use cccollab.Broker.Actions.{
  Action, messages, join, leave, archive, unarchive, put_topic, run_action, post_message,
  join_topic, leave_topic, archive_topic, unarchive_topic, message_fields,
}
use cccollab.Broker.Sessions.{post_session, delete_session}
use cccollab.Broker.Invariant.{IsConsistent, join-IsConsistent, leave-IsConsistent}
use cccollab.Broker.Preserve.{
  broadcast-IsConsistent, put_topic-IsConsistent, set_session-IsConsistent,
  delete_entry-IsConsistent, remove_all-IsConsistent, remove_all-gone, registered-channels,
}

-- A property of the state that a handler leaves, if it answers.
abbrev pub After : (Broker → Type 0) → Option (Broker × Response) → Type 0
After P none = Unit
After P (some (b, res)) = P b

module _ (rt : Runtime) (env : Env) (b : Broker) (h : IsConsistent b) where
  pub local_event-IsConsistent : (body : Fields) → IsConsistent (local_event env body b).0
  unfolding local_event
  local_event-IsConsistent body = elim (Option-cases (truthy (field "type" body))) [
    | inl absent ↦ rw (absent, local_event) h
    | inr (type, found) ↦ rw (found, local_event) (broadcast-IsConsistent env _ b h)
  ]

  pub post_join-IsConsistent : (body : Fields) → IsConsistent (post_join rt env body b).0
  unfolding post_join
  post_join-IsConsistent body = elim (Option-cases (session_and_channel rt body)) [
    | inl absent ↦ rw (absent, post_join) h
    | inr ((s, c), found) ↦ rw (found, post_join) (join-IsConsistent env.now s c b h)
  ]

  pub post_leave-IsConsistent : (body : Fields) → IsConsistent (post_leave rt body b).0
  unfolding post_leave
  post_leave-IsConsistent body = elim (Option-cases (session_and_channel rt body)) [
    | inl absent ↦ rw (absent, post_leave) h
    | inr ((s, c), found) ↦ rw (found, post_leave) (leave-IsConsistent s c b h)
  ]

  pub post_broadcast-IsConsistent : (body : Fields) → IsConsistent (post_broadcast rt env body b).0
  unfolding post_broadcast
  post_broadcast-IsConsistent body = elim (Option-cases (broadcast_fields rt body)) [
    | inl absent ↦ rw (absent, post_broadcast) h
    | inr ((text, s, c), found) ↦ elim (Bool-cases (is_subscribed s c b)) [
      | inl member ↦ rw (found, member, post_broadcast) (broadcast-IsConsistent env _ b h)
      | inr stranger ↦ rw (found, stranger, post_broadcast) h
    ]
  ]

  pub create_topic-IsConsistent :
      (topic creator channel : String)
      → IsConsistent (create_topic rt env topic creator channel b).0
  unfolding create_topic
  create_topic-IsConsistent topic creator channel =
      elim (Option-cases (find_named rt channel (fold_name rt topic) b.topics)) [
        | inl free ↦
            let t = new_topic env topic creator channel in
            rw (free, create_topic)
              (broadcast-IsConsistent env _ (put_topic env.uuid t b)
                (put_topic-IsConsistent env.uuid t b h (λ s m. cc (m, has-ne-nil s))))
        | inr (t, taken) ↦ rw (taken, create_topic) h
      ]

  pub post_topic-IsConsistent : (body : Fields) → IsConsistent (post_topic rt env body b).0
  unfolding post_topic
  post_topic-IsConsistent body = elim (Option-cases (topic_fields rt body)) [
    | inl absent ↦ rw (absent, post_topic) h
    | inr ((topic, s, c), found) ↦ elim (Bool-cases (is_subscribed s c b)) [
      | inl member ↦ rw (found, member, post_topic) (create_topic-IsConsistent topic s c)
      | inr stranger ↦ rw (found, stranger, post_topic) h
    ]
  ]

  pub post_session-IsConsistent : (body : Fields) → IsConsistent (post_session env body b).0
  unfolding post_session
  post_session-IsConsistent body = elim (Option-cases (truthy (field "name" body))) [
    | inl absent ↦ rw (absent, post_session) h
    | inr (name, found) ↦
        rw (found, post_session)
          (set_session-IsConsistent name _ b h
            (λ c. registered-channels env.now name (field "objective" body) b c))
  ]

module _ (rt : Runtime) (b : Broker) (h : IsConsistent b) where
  pub delete_session-IsConsistent :
      (segment : String) → After IsConsistent (delete_session rt segment b)
  unfolding delete_session
  delete_session-IsConsistent segment = elim (Option-cases (rt.decode_uri segment)) [
    | inl bad ↦ rw (bad, delete_session) tt
    | inr (name, found) ↦
        rw (found, delete_session)
          (delete_entry-IsConsistent name _ (remove_all-IsConsistent name b h)
            (remove_all-gone name b))
  ]

-- What the actions do to a topic keeps its joined sessions among the channel's subscribers.
module _ (env : Env) (id : String) (t : LocalTopic) (b : Broker) (h : IsConsistent b)
    (there : lookup id b.topics ≡ some t) where
  pub post_message-IsConsistent : (body : Fields) → IsConsistent (post_message env id t body b).0
  unfolding post_message
  post_message-IsConsistent body = elim (Option-cases (message_fields body)) [
    | inl absent ↦ rw (absent, post_message) h
    | inr ((text, s), found) ↦ elim (Bool-cases (is_subscribed s t.channel b)) [
      | inl member ↦
          rw (found, member, post_message)
            (broadcast-IsConsistent env _ _
              (put_topic-IsConsistent id _ b h (λ s' m. h.joined id t s' there m)))
      | inr stranger ↦ rw (found, stranger, post_message) h
    ]
  ]

  pub join_topic-IsConsistent : (body : Fields) → IsConsistent (join_topic id t body b).0
  unfolding join_topic
  join_topic-IsConsistent body = elim (Option-cases (truthy (field "sessionId" body))) [
    | inl absent ↦ rw (absent, join_topic) h
    | inr (s, found) ↦ elim (Bool-cases (is_subscribed s t.channel b)) [
      | inl member ↦
          rw (found, member, join_topic)
            (put_topic-IsConsistent id _ b h (λ s' m. ground (
              arith,
              m,
              member,
              has-add s t.joined_sessions s',
              eq_iff s s',
              h.joined id t s' there,
            )))
      | inr stranger ↦ rw (found, stranger, join_topic) h
    ]
  ]

  pub leave_topic-IsConsistent : (body : Fields) → IsConsistent (leave_topic id t body b).0
  unfolding leave_topic
  leave_topic-IsConsistent body = elim (Option-cases (truthy (field "sessionId" body))) [
    | inl absent ↦ rw (absent, leave_topic) h
    | inr (s, found) ↦
        rw (found, leave_topic)
          (put_topic-IsConsistent id _ b h
            (λ s' m. ground (arith, m, has-remove s t.joined_sessions s', h.joined id t s' there)))
  ]

  pub run_action-IsConsistent :
      (action : Action) (body : Fields) → IsConsistent (run_action env id t action body b).0
  unfolding run_action archive_topic unarchive_topic
  run_action-IsConsistent messages body = post_message-IsConsistent body
  run_action-IsConsistent join body = join_topic-IsConsistent body
  run_action-IsConsistent leave body = leave_topic-IsConsistent body
  run_action-IsConsistent archive body =
      broadcast-IsConsistent env _ _
        (put_topic-IsConsistent id _ b h (λ s' m. h.joined id t s' there m))
  run_action-IsConsistent unarchive body =
      broadcast-IsConsistent env _ _
        (put_topic-IsConsistent id _ b h (λ s' m. h.joined id t s' there m))
