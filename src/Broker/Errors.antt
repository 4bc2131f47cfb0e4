-- ===== src/Broker/Errors.antt =====
-- A request to mcp_server/src/broker.ts that is answered with an error has changed nothing.
use mathlib.Core.Path.{subst}
use cccollab.Base.{
  String, ◌≡◌, ◌≢◌, refl, Option, none, some, arith, Option-cases, Bool-cases, inl, inr, ◌⊎◌,
}
use cccollab.Base.Assoc.{lookup}
use cccollab.Runtime.{Runtime}
use cccollab.Broker.State.{Broker, Env, Request, Response, LocalTopic}
use cccollab.Broker.Channels.{
  Fields, field, with_body, json_body, is_subscribed, get_health, get_events, local_event,
  post_join, post_leave, post_broadcast,
}
use cccollab.Broker.Topics.{create_topic, post_topic, topic_fields, get_history}
use cccollab.Broker.Actions.{
  Action, messages, join, leave, archive, unarchive, run_action, post_action, post_message,
  join_topic, leave_topic, archive_topic, unarchive_topic, action_body,
}
use cccollab.Broker.Sessions.{post_session, delete_session}
use cccollab.Broker.Route.{Route, route}
use cccollab.Broker.Server.{serve, handle}
use cccollab.Broker.Reads.{
  get_channels-same, get_topics-same, get_topic-same, get_sessions-same, get_history-same,
}

-- Answered 200, or with the state as it was.
abbrev pub IsQuiet : Broker → Broker × Response → Type 0
IsQuiet b (c, res) = (res.status ≡ 200) ⊎ (c ≡ b)

module _ (rt : Runtime) (env : Env) (b : Broker) where
  local_event-IsQuiet : (body : Fields) → IsQuiet b (local_event env body b)
  unfolding local_event
  local_event-IsQuiet body = ground arith

  post_join-IsQuiet : (body : Fields) → IsQuiet b (post_join rt env body b)
  unfolding post_join
  post_join-IsQuiet body = ground arith

  post_leave-IsQuiet : (body : Fields) → IsQuiet b (post_leave rt body b)
  unfolding post_leave
  post_leave-IsQuiet body = ground arith

  post_broadcast-IsQuiet : (body : Fields) → IsQuiet b (post_broadcast rt env body b)
  unfolding post_broadcast
  post_broadcast-IsQuiet body = ground arith

  create_topic-IsQuiet :
      (topic creator channel : String) → IsQuiet b (create_topic rt env topic creator channel b)
  unfolding create_topic
  create_topic-IsQuiet topic creator channel = ground arith

  post_topic-IsQuiet : (body : Fields) → IsQuiet b (post_topic rt env body b)
  unfolding post_topic
  post_topic-IsQuiet body = elim (Option-cases (topic_fields rt body)) [
    | inl absent ↦ rw (absent, post_topic) (inr refl)
    | inr ((topic, s, c), found) ↦ elim (Bool-cases (is_subscribed s c b)) [
      | inl member ↦ rw (found, member, post_topic) (create_topic-IsQuiet topic s c)
      | inr stranger ↦ rw (found, stranger, post_topic) (inr refl)
    ]
  ]

  post_session-IsQuiet : (body : Fields) → IsQuiet b (post_session env body b)
  unfolding post_session
  post_session-IsQuiet body = ground arith

  run_action-IsQuiet :
      (id : String) (t : LocalTopic) (action : Action) (body : Fields)
      → IsQuiet b (run_action env id t action body b)
  unfolding run_action post_message join_topic leave_topic archive_topic unarchive_topic
  run_action-IsQuiet id t messages body = ground arith
  run_action-IsQuiet id t join body = ground arith
  run_action-IsQuiet id t leave body = ground arith
  run_action-IsQuiet id t archive body = inl refl
  run_action-IsQuiet id t unarchive body = inl refl

abbrev QuietIfAnswered : Broker → Option (Broker × Response) → Type 0
QuietIfAnswered b none = Unit
QuietIfAnswered b (some answer) = IsQuiet b answer

module _ (rt : Runtime) (env : Env) (req : Request) (b : Broker) where
  post_action-IsQuiet :
      (id : String) (action : Action) → IsQuiet b (post_action rt env id action req b)
  unfolding post_action
  post_action-IsQuiet id action = elim (Option-cases (lookup id b.topics)) [
    | inl absent ↦ rw (absent, post_action) (inr refl)
    | inr (t, there) ↦ elim (Option-cases (action_body rt req)) [
      | inl bad ↦ rw (there, bad, post_action) (inr refl)
      | inr (body, ok) ↦ rw (there, ok, post_action) (run_action-IsQuiet rt env b id t action body)
    ]
  ]

  with_body-IsQuiet :
      (handler : Fields → Broker × Response)
      → ((body : Fields) → IsQuiet b (handler body))
      → IsQuiet b (with_body rt req b handler)
  with_body-IsQuiet handler k = elim (Option-cases (json_body rt req)) [
    | inl bad ↦ rw (bad, with_body) (inr refl)
    | inr (body, ok) ↦ rw (ok, with_body) (k body)
  ]

  IsQuiet-read : (answer : Broker × Response) → answer.0 ≡ b → IsQuiet b answer
  IsQuiet-read answer e = inr e

  history_quiet : (id : String) (query : Fields) → QuietIfAnswered b (get_history rt id query b)
  history_quiet id query = go (get_history rt id query b) refl
    where
      go : (o : Option (Broker × Response)) → get_history rt id query b ≡ o → QuietIfAnswered b o
      go none e = tt
      go (some (b', res)) e = inr (get_history-same rt query b id b' res e)

  delete_quiet : (segment : String) → QuietIfAnswered b (delete_session rt segment b)
  unfolding delete_session
  delete_quiet segment = elim (Option-cases (rt.decode_uri segment)) [
    | inl bad ↦ rw (bad, delete_session) tt
    | inr (name, found) ↦ rw (found, delete_session) (inl refl)
  ]

  serve_quiet : (query : Fields) (r : Route) → QuietIfAnswered b (serve rt env req query r b)
  unfolding serve get_health get_events
  serve_quiet query Route.health = inl refl
  serve_quiet query Route.events = inl refl
  serve_quiet query Route.local_event =
      with_body-IsQuiet (λ body. local_event env body b) (local_event-IsQuiet rt env b)
  serve_quiet query Route.list_channels =
      inr (get_channels-same rt query b (field "sessionId" query))
  serve_quiet query Route.join_channel =
      with_body-IsQuiet (λ body. post_join rt env body b) (post_join-IsQuiet rt env b)
  serve_quiet query Route.leave_channel =
      with_body-IsQuiet (λ body. post_leave rt body b) (post_leave-IsQuiet rt env b)
  serve_quiet query Route.broadcast =
      with_body-IsQuiet (λ body. post_broadcast rt env body b) (post_broadcast-IsQuiet rt env b)
  serve_quiet query Route.create_topic =
      with_body-IsQuiet (λ body. post_topic rt env body b) (post_topic-IsQuiet rt env b)
  serve_quiet query Route.list_topics = inr (get_topics-same rt query b)
  serve_quiet query (Route.show_topic id) = inr (get_topic-same rt query b id)
  serve_quiet query (Route.topic_history id) = history_quiet id query
  serve_quiet query (Route.topic_action id action) = post_action-IsQuiet id action
  serve_quiet query Route.list_sessions = inr (get_sessions-same rt query b)
  serve_quiet query Route.register =
      with_body-IsQuiet (λ body. post_session env body b) (post_session-IsQuiet rt env b)
  serve_quiet query (Route.remove_session segment) = delete_quiet segment
  serve_quiet query Route.not_found = inr refl

-- A request that is answered with any status but 200 (400, 403, 404 or 409) leaves the broker
-- exactly as it was: its maps, its connections and what it has sent.
pub handle_error_same :
    (rt : Runtime) (env : Env) (req : Request) (b c : Broker) (res : Response)
    → handle rt env req b ≡ some (c, res)
    → res.status ≢ 200
    → c ≡ b
unfolding handle
handle_error_same rt env req b c res e bad = elim (Option-cases (rt.parse_url req.url)) [
  | inl none_ ↦ ground (arith, none_, e)
  | inr (url, p) ↦
      let q : serve rt env req url.query (route req.method url.pathname) b ≡ some (c, res) =
        ground (arith, p, e) in
      elim (subst (QuietIfAnswered b) q
        (serve_quiet rt env req b url.query (route req.method url.pathname))) [
          | inl ok ↦ absurd (bad ok)
          | inr same ↦ same
        ]
]
