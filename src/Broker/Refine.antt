-- ===== src/Broker/Refine.antt =====
-- Every request to mcp_server/src/broker.ts changes the topics as `Change` allows.
use cccollab.Base.{
  String, ◌≡◌, refl, Bool, true, false, Option, none, some, arith, Option-cases, Bool-cases, inl,
  inr,
}
use mathlib.Core.Path.{subst}
use cccollab.Base.Nullable.{truthy}
use cccollab.Base.Assoc.{lookup}
use cccollab.Runtime.{Runtime, Url}
use cccollab.Broker.State.{Broker, Env, Request, Response, LocalTopic}
use cccollab.Broker.Members.{broadcast}
use cccollab.Broker.Channels.{
  Fields, field, with_body, json_body, is_subscribed, get_health, get_events, local_event,
  post_join, post_leave, post_broadcast,
}
use cccollab.Broker.Topics.{post_topic, get_history}
use cccollab.Broker.Actions.{
  Action, messages, join, leave, archive, unarchive, run_action, post_action, post_message,
  join_topic, leave_topic, archive_topic, unarchive_topic, message_fields, action_body,
}
use cccollab.Broker.Sessions.{post_session}
use cccollab.Broker.Route.{Route, route}
use cccollab.Broker.Server.{serve, handle}
use cccollab.Broker.Handlers.{After}
use cccollab.Broker.Reads.{
  get_channels-same, get_topics-same, get_topic-same, get_sessions-same, get_history-same,
}
use cccollab.Broker.Change.{
  Scope, one_topic, creation, nowhere, left_scope, removed_scope, posted, joined, unjoined, closed,
  reopened, same, edit, Changes,
}
use cccollab.Broker.Posts.{
  delete_session-Changes, local_event-Changes, post_join-Changes, post_leave-Changes,
  post_broadcast-Changes, post_topic-Changes, post_session-Changes,
}

abbrev pub is_unarchive : Route → Bool
is_unarchive (Route.topic_action id unarchive) = true
is_unarchive _ = false

-- What a request to a route is about in a state: the topic of an action, the making of a topic, the
-- departure that a POST /channels/leave or a DELETE of a session asks for.
abbrev pub scope_of : Runtime → Request → Broker → Route → Scope
scope_of rt req b (Route.topic_action id action) = one_topic id action
scope_of rt req b Route.create_topic = creation
scope_of rt req b Route.leave_channel = elim (json_body rt req) [
  | none ↦ nowhere
  | some body ↦ left_scope rt body
]
scope_of rt req b (Route.remove_session segment) = removed_scope rt segment b
scope_of _ _ _ _ = nowhere

abbrev reopens_topic : Action → Bool
reopens_topic unarchive = true
reopens_topic _ = false

is_unarchive-action :
    (id : String) (action : Action)
    → is_unarchive (Route.topic_action id action) ≡ reopens_topic action
is_unarchive-action id messages = refl
is_unarchive-action id _ = refl

module _ (rt : Runtime) (env : Env) (id : String) (t : LocalTopic) (b : Broker)
    (there : lookup id b.topics ≡ some t) where
  post_message-Changes :
      (u : Bool) (body : Fields)
      → Changes rt env u (one_topic id messages) b (post_message env id t body b).0
  unfolding post_message broadcast
  post_message-Changes u body = elim (Option-cases (message_fields body)) [
    | inl absent ↦ rw (absent, post_message) same
    | inr ((text, s), found) ↦ elim (Bool-cases (is_subscribed s t.channel b)) [
      | inl member ↦ rw (found, member, post_message) (edit id there (posted text s) refl)
      | inr stranger ↦ rw (found, stranger, post_message) same
    ]
  ]

  join_topic-Changes :
      (u : Bool) (body : Fields) → Changes rt env u (one_topic id join) b (join_topic id t body b).0
  unfolding join_topic
  join_topic-Changes u body = elim (Option-cases (truthy (field "sessionId" body))) [
    | inl absent ↦ rw (absent, join_topic) same
    | inr (s, found) ↦ elim (Bool-cases (is_subscribed s t.channel b)) [
      | inl member ↦ rw (found, member, join_topic) (edit id there (joined s) refl)
      | inr stranger ↦ rw (found, stranger, join_topic) same
    ]
  ]

  leave_topic-Changes :
      (u : Bool) (body : Fields)
      → Changes rt env u (one_topic id leave) b (leave_topic id t body b).0
  unfolding leave_topic
  leave_topic-Changes u body = elim (Option-cases (truthy (field "sessionId" body))) [
    | inl absent ↦ rw (absent, leave_topic) same
    | inr (s, found) ↦ rw (found, leave_topic) (edit id there (unjoined s) refl)
  ]

  run_action-Changes :
      (action : Action) (body : Fields)
      → Changes rt env
          (reopens_topic action)
          (one_topic id action)
          b
          (run_action env id t action body b).0
  unfolding run_action archive_topic unarchive_topic broadcast
  run_action-Changes messages body = post_message-Changes false body
  run_action-Changes join body = join_topic-Changes false body
  run_action-Changes leave body = leave_topic-Changes false body
  run_action-Changes archive body = edit id there closed refl
  run_action-Changes unarchive body = edit id there (reopened refl) refl

module _ (rt : Runtime) (env : Env) (req : Request) (b : Broker) where
  post_action-Changes :
      (id : String) (action : Action)
      → Changes rt env
          (reopens_topic action)
          (one_topic id action)
          b
          (post_action rt env id action req b).0
  unfolding post_action
  post_action-Changes id action = elim (Option-cases (lookup id b.topics)) [
    | inl absent ↦ rw (absent, post_action) same
    | inr (t, there) ↦ elim (Option-cases (action_body rt req)) [
      | inl bad ↦ rw (there, bad, post_action) same
      | inr (body, ok) ↦
          rw (there, ok, post_action) (run_action-Changes rt env id t b there action body)
    ]
  ]

  with_body-Changes :
      (u : Bool) (scope : Scope) (handler : Fields → Broker × Response)
      → ((body : Fields) → json_body rt req ≡ some body → Changes rt env u scope b (handler body).0)
      → Changes rt env u scope b (with_body rt req b handler).0
  with_body-Changes u scope handler k = elim (Option-cases (json_body rt req)) [
    | inl bad ↦ rw (bad, with_body) same
    | inr (body, ok) ↦ rw (ok, with_body) (k body ok)
  ]

  unchanged : (u : Bool) (scope : Scope) (b' : Broker) → b' ≡ b → Changes rt env u scope b b'
  unchanged u scope b' e = rw e same

  get_history-Changes :
      (id : String) (query : Fields)
      → After (Changes rt env false nowhere b) (get_history rt id query b)
  get_history-Changes id query = go (get_history rt id query b) refl
    where
      go :
          (o : Option (Broker × Response))
          → get_history rt id query b ≡ o
          → After (Changes rt env false nowhere b) o
      go none e = tt
      go (some (b', res)) e = unchanged false nowhere b' (get_history-same rt query b id b' res e)

  serve-Changes :
      (query : Fields) (r : Route)
      → After (Changes rt env (is_unarchive r) (scope_of rt req b r) b) (serve rt env req query r b)
  unfolding serve get_health get_events
  serve-Changes query Route.health = same
  serve-Changes query Route.events = same
  serve-Changes query Route.local_event =
      with_body-Changes false nowhere (λ body. local_event env body b)
        (λ body ok. local_event-Changes rt env false nowhere b body)
  serve-Changes query Route.list_channels =
      unchanged false nowhere _ (get_channels-same rt query b (field "sessionId" query))
  serve-Changes query Route.join_channel =
      with_body-Changes false nowhere (λ body. post_join rt env body b)
        (λ body ok. post_join-Changes rt env false nowhere b body)
  serve-Changes query Route.leave_channel =
      with_body-Changes false (scope_of rt req b Route.leave_channel) (λ body. post_leave rt body b)
        (λ body ok.
          post_leave-Changes rt env false (scope_of rt req b Route.leave_channel) b body
            (ground (arith, ok)))
  serve-Changes query Route.broadcast =
      with_body-Changes false nowhere (λ body. post_broadcast rt env body b)
        (λ body ok. post_broadcast-Changes rt env false nowhere b body)
  serve-Changes query Route.create_topic =
      with_body-Changes false creation (λ body. post_topic rt env body b)
        (λ body ok. post_topic-Changes rt env false creation b body refl)
  serve-Changes query Route.list_topics = unchanged false nowhere _ (get_topics-same rt query b)
  serve-Changes query (Route.show_topic id) =
      unchanged false nowhere _ (get_topic-same rt query b id)
  serve-Changes query (Route.topic_history id) = get_history-Changes id query
  serve-Changes query (Route.topic_action id action) =
      rw (is_unarchive-action id action) (post_action-Changes id action)
  serve-Changes query Route.list_sessions = unchanged false nowhere _ (get_sessions-same rt query b)
  serve-Changes query Route.register =
      with_body-Changes false nowhere (λ body. post_session env body b)
        (λ body ok. post_session-Changes rt env false nowhere b body)
  serve-Changes query (Route.remove_session segment) =
      delete_session-Changes rt env false (removed_scope rt segment b) b segment refl
  serve-Changes query Route.not_found = same

pub handle-Changes :
    (rt : Runtime) (env : Env) (req : Request) (b c : Broker) (res : Response) (url : Url)
    → rt.parse_url req.url ≡ some url
    → handle rt env req b ≡ some (c, res)
    → Changes rt env
        (is_unarchive (route req.method url.pathname))
        (scope_of rt req b (route req.method url.pathname))
        b
        c
unfolding handle
handle-Changes rt env req b c res url p e =
    go (serve rt env req url.query (route req.method url.pathname) b) refl
      (serve-Changes rt env req b url.query (route req.method url.pathname))
  where
    allowed : Broker → Type 0
    allowed =
        Changes rt env (is_unarchive (route req.method url.pathname))
          (scope_of rt req b (route req.method url.pathname)) b

    go :
        (o : Option (Broker × Response))
        → serve rt env req url.query (route req.method url.pathname) b ≡ o
        → After allowed o
        → allowed c
    go none f h = ground (arith, p, e, f)
    go (some (c', res')) f h = let q : c' ≡ c = ground (arith, p, e, f) in subst allowed q h
