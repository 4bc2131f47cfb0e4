-- ===== src/Broker/Posts.antt =====
-- What the handlers of mcp_server/src/broker.ts outside the topic actions do to the topics.
use mathlib.Core.Path.{subst}
use cccollab.Base.{
  String, ◌≡◌, refl, sym, ap, ◌∙◌, Bool, some, List, [], ◌∷◌, arith, eq_iff, Option-cases,
  Bool-cases, inl, inr,
}
use cccollab.Base.Nullable.{truthy}
use cccollab.Base.Assoc.{lookup, set, lookup-set}
use cccollab.Base.StrSet.{remove}
use cccollab.Runtime.{Runtime}
use cccollab.Broker.State.{Broker, Env, SessionInfo}
use cccollab.Broker.Members.{
  broadcast, join_channel, leave_channel, leave_all, remove_session_from_all_channels,
}
use cccollab.Broker.Channels.{
  Fields, field, is_subscribed, local_event, post_join, post_leave, post_broadcast,
  session_and_channel, broadcast_fields,
}
use cccollab.Broker.Topics.{create_topic, post_topic, find_named, fold_name, topic_fields}
use cccollab.Broker.Sessions.{post_session, delete_session}
use cccollab.Broker.Handlers.{After}
use cccollab.Broker.Membership.{leave_absent, topics-leave, sessions-drop_member}
use cccollab.Broker.Change.{
  Scope, creation, departure, leave_each, Change, same, leave_topics, create, Changes, left_scope,
  removed_scope,
}

-- A session that is registered is so after it has left a channel.
leave-registered :
    (s c : String) (b : Broker) (info : SessionInfo)
    → lookup s b.sessions ≡ some info
    → (info' : SessionInfo) × (lookup s (leave_channel s c b).0.sessions ≡ some info')
unfolding leave_channel
leave-registered s c b info e =
    let info' : SessionInfo = record info { channels = remove c info.channels } in
    (
      info',
      ground (
        arith,
        e,
        sessions-drop_member s c (record b { sessions = set s info' b.sessions }),
        lookup-set s info' b.sessions s,
        eq_iff s s,
      ),
    )

topics-leave_all :
    (s : String) (cs : List String) (b : Broker) (info : SessionInfo)
    → lookup s b.sessions ≡ some info
    → (leave_all s cs b).topics ≡ leave_each s cs b.topics
unfolding leave_all leave_each
topics-leave_all s [] b info e = refl
topics-leave_all s (c ∷ cs) b info e =
    let (info', e') = leave-registered s c b info e in
    topics-leave_all s cs (leave_channel s c b).0 info' e'
    ∙ ap (leave_each s cs) (topics-leave s c b info e)

module _ (rt : Runtime) (env : Env) (u : Bool) (scope : Scope) (b : Broker) where
  leave_all-Changes :
      (s : String) (cs : List String) (info : SessionInfo)
      → lookup s b.sessions ≡ some info
      → scope ≡ departure s cs
      → Changes rt env u scope b (leave_all s cs b)
  leave_all-Changes s cs info e p =
      subst (Change rt env u scope b.topics) (sym (topics-leave_all s cs b info e))
        (leave_topics s cs p)

  leave-Changes :
      (s c : String)
      → scope ≡ departure s (c ∷ [])
      → Changes rt env u scope b (leave_channel s c b).0
  unfolding leave_all
  leave-Changes s c p = elim (Option-cases (lookup s b.sessions)) [
    | inl absent ↦ rw (leave_absent s c b absent) same
    | inr (info, found) ↦ leave_all-Changes s (c ∷ []) info found p
  ]

  pub delete_session-Changes :
      (segment : String)
      → scope ≡ removed_scope rt segment b
      → After (Changes rt env u scope b) (delete_session rt segment b)
  unfolding delete_session remove_session_from_all_channels
  delete_session-Changes segment p = elim (Option-cases (rt.decode_uri segment)) [
    | inl bad ↦ rw (bad, delete_session) tt
    | inr (name, found) ↦ elim (Option-cases (lookup name b.sessions)) [
      | inl absent ↦ rw (found, delete_session, absent, remove_session_from_all_channels) same
      | inr (info, there) ↦
          rw (found, delete_session, there, remove_session_from_all_channels)
            (leave_all-Changes name info.channels info there (ground (arith, p, found, there)))
    ]
  ]

  pub local_event-Changes : (body : Fields) → Changes rt env u scope b (local_event env body b).0
  unfolding local_event broadcast
  local_event-Changes body = elim (Option-cases (truthy (field "type" body))) [
    | inl absent ↦ rw (absent, local_event) same
    | inr (type, found) ↦ rw (found, local_event) same
  ]

  pub post_join-Changes : (body : Fields) → Changes rt env u scope b (post_join rt env body b).0
  unfolding post_join join_channel
  post_join-Changes body = elim (Option-cases (session_and_channel rt body)) [
    | inl absent ↦ rw (absent, post_join) same
    | inr ((s, c), found) ↦ rw (found, post_join) same
  ]

  pub post_leave-Changes :
      (body : Fields)
      → scope ≡ left_scope rt body
      → Changes rt env u scope b (post_leave rt body b).0
  unfolding post_leave
  post_leave-Changes body p = elim (Option-cases (session_and_channel rt body)) [
    | inl absent ↦ rw (absent, post_leave) same
    | inr ((s, c), found) ↦ rw (found, post_leave) (leave-Changes s c (ground (arith, p, found)))
  ]

  pub post_broadcast-Changes :
      (body : Fields) → Changes rt env u scope b (post_broadcast rt env body b).0
  unfolding post_broadcast broadcast
  post_broadcast-Changes body = elim (Option-cases (broadcast_fields rt body)) [
    | inl absent ↦ rw (absent, post_broadcast) same
    | inr ((text, s, c), found) ↦ elim (Bool-cases (is_subscribed s c b)) [
      | inl member ↦ rw (found, member, post_broadcast) same
      | inr stranger ↦ rw (found, stranger, post_broadcast) same
    ]
  ]

  pub create_topic-Changes :
      (topic creator channel : String)
      → scope ≡ creation
      → Changes rt env u scope b (create_topic rt env topic creator channel b).0
  unfolding create_topic broadcast
  create_topic-Changes topic creator channel p =
      elim (Option-cases (find_named rt channel (fold_name rt topic) b.topics)) [
        | inl free ↦ rw (free, create_topic) (create topic creator channel p free)
        | inr (t, taken) ↦ rw (taken, create_topic) same
      ]

  pub post_topic-Changes :
      (body : Fields) → scope ≡ creation → Changes rt env u scope b (post_topic rt env body b).0
  unfolding post_topic
  post_topic-Changes body p = elim (Option-cases (topic_fields rt body)) [
    | inl absent ↦ rw (absent, post_topic) same
    | inr ((topic, s, c), found) ↦ elim (Bool-cases (is_subscribed s c b)) [
      | inl member ↦ rw (found, member, post_topic) (create_topic-Changes topic s c p)
      | inr stranger ↦ rw (found, stranger, post_topic) same
    ]
  ]

  pub post_session-Changes : (body : Fields) → Changes rt env u scope b (post_session env body b).0
  unfolding post_session
  post_session-Changes body = elim (Option-cases (truthy (field "name" body))) [
    | inl absent ↦ rw (absent, post_session) same
    | inr (name, found) ↦ rw (found, post_session) same
  ]
