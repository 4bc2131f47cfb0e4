-- ===== src/Broker/Reach.antt =====
-- Every request to mcp_server/src/broker.ts keeps its maps consistent, so every state it comes to
-- is.
use mathlib.Core.Path.{subst}
use cccollab.Base.{ℕ, String, ◌≡◌, refl, Option, none, some, arith, Option-cases, inl, inr}
use cccollab.Base.Assoc.{lookup}
use cccollab.Base.StrSet.{has}
use cccollab.Runtime.{Runtime}
use cccollab.Broker.State.{Broker, Env, Request, Response, init}
use cccollab.Broker.Channels.{
  Fields, with_body, json_body, is_subscribed, get_health, get_events, local_event, post_join,
  post_leave, post_broadcast, field,
}
use cccollab.Broker.Topics.{post_topic, get_history}
use cccollab.Broker.Actions.{Action, post_action, action_body}
use cccollab.Broker.Sessions.{post_session}
use cccollab.Broker.Route.{Route, route}
use cccollab.Broker.Server.{
  serve, handle, disconnect, step, Input, request, closed, Reachable, start, next,
}
use cccollab.Broker.Membership.{is_listed_member}
use cccollab.Broker.Reads.{
  get_channels-same, get_topics-same, get_topic-same, get_sessions-same, get_history-same,
}
use cccollab.Broker.Invariant.{IsConsistent}
use cccollab.Broker.Handlers.{
  After, local_event-IsConsistent, post_join-IsConsistent, post_leave-IsConsistent,
  post_broadcast-IsConsistent, post_topic-IsConsistent, post_session-IsConsistent,
  delete_session-IsConsistent, run_action-IsConsistent,
}

module _ (rt : Runtime) (env : Env) (req : Request) (b : Broker) (h : IsConsistent b) where
  post_action-IsConsistent :
      (id : String) (action : Action) → IsConsistent (post_action rt env id action req b).0
  unfolding post_action
  post_action-IsConsistent id action = elim (Option-cases (lookup id b.topics)) [
    | inl absent ↦ rw (absent, post_action) h
    | inr (t, there) ↦ elim (Option-cases (action_body rt req)) [
      | inl bad ↦ rw (there, bad, post_action) h
      | inr (body, ok) ↦
          rw (there, ok, post_action) (run_action-IsConsistent env id t b h there action body)
    ]
  ]

  with_body-IsConsistent :
      (handler : Fields → Broker × Response)
      → ((body : Fields) → IsConsistent (handler body).0)
      → IsConsistent (with_body rt req b handler).0
  with_body-IsConsistent handler k = elim (Option-cases (json_body rt req)) [
    | inl bad ↦ rw (bad, with_body) h
    | inr (body, ok) ↦ rw (ok, with_body) (k body)
  ]

  get_history-IsConsistent :
      (id : String) (query : Fields) → After IsConsistent (get_history rt id query b)
  get_history-IsConsistent id query = go (get_history rt id query b) refl
    where
      go : (o : Option (Broker × Response)) → get_history rt id query b ≡ o → After IsConsistent o
      go none e = tt
      go (some (b', res)) e = rw (get_history-same rt query b id b' res e) h

  get_events-IsConsistent : IsConsistent (get_events env b).0
  unfolding get_events is_subscribed is_listed_member
  get_events-IsConsistent = record {
    symmetric = h.symmetric;
    no_empty = h.no_empty;
    joined = h.joined;
  }

  -- Whatever the route, the request leaves the maps consistent.
  serve-IsConsistent :
      (query : Fields) (r : Route) → After IsConsistent (serve rt env req query r b)
  unfolding serve get_health
  serve-IsConsistent query Route.health = h
  serve-IsConsistent query Route.events = get_events-IsConsistent
  serve-IsConsistent query Route.local_event =
      with_body-IsConsistent (λ body. local_event env body b) (local_event-IsConsistent rt env b h)
  serve-IsConsistent query Route.list_channels =
      rw (get_channels-same rt query b (field "sessionId" query)) h
  serve-IsConsistent query Route.join_channel =
      with_body-IsConsistent (λ body. post_join rt env body b) (post_join-IsConsistent rt env b h)
  serve-IsConsistent query Route.leave_channel =
      with_body-IsConsistent (λ body. post_leave rt body b) (post_leave-IsConsistent rt env b h)
  serve-IsConsistent query Route.broadcast =
      with_body-IsConsistent (λ body. post_broadcast rt env body b)
        (post_broadcast-IsConsistent rt env b h)
  serve-IsConsistent query Route.create_topic =
      with_body-IsConsistent (λ body. post_topic rt env body b) (post_topic-IsConsistent rt env b h)
  serve-IsConsistent query Route.list_topics = rw (get_topics-same rt query b) h
  serve-IsConsistent query (Route.show_topic id) = rw (get_topic-same rt query b id) h
  serve-IsConsistent query (Route.topic_history id) = get_history-IsConsistent id query
  serve-IsConsistent query (Route.topic_action id action) = post_action-IsConsistent id action
  serve-IsConsistent query Route.list_sessions = rw (get_sessions-same rt query b) h
  serve-IsConsistent query Route.register =
      with_body-IsConsistent (λ body. post_session env body b)
        (post_session-IsConsistent rt env b h)
  serve-IsConsistent query (Route.remove_session segment) =
      delete_session-IsConsistent rt b h segment
  serve-IsConsistent query Route.not_found = h

handle-IsConsistent :
    (rt : Runtime) (env : Env) (req : Request) (b : Broker)
    → IsConsistent b
    → After IsConsistent (handle rt env req b)
unfolding handle
handle-IsConsistent rt env req b h = elim (Option-cases (rt.parse_url req.url)) [
  | inl bad ↦ rw (bad, handle) tt
  | inr (url, ok) ↦
      rw (ok, handle) (serve-IsConsistent rt env req b h url.query (route req.method url.pathname))
]

disconnect-IsConsistent :
    (connection : ℕ) (b : Broker) → IsConsistent b → IsConsistent (disconnect connection b)
unfolding disconnect is_subscribed is_listed_member
disconnect-IsConsistent connection b h = record {
  symmetric = h.symmetric;
  no_empty = h.no_empty;
  joined = h.joined;
}

step_request-IsConsistent :
    (rt : Runtime) (env : Env) (req : Request) (b c : Broker) (o : Option (Broker × Response))
    → handle rt env req b ≡ o
    → After IsConsistent o
    → step rt (request env req) b ≡ some c
    → IsConsistent c
unfolding step
step_request-IsConsistent rt env req b c none f h e = ground (arith, f, e)
step_request-IsConsistent rt env req b c (some (b', res)) f h e =
    subst IsConsistent (ground (arith, f, e)) h

step-IsConsistent :
    (rt : Runtime) (i : Input) (b c : Broker)
    → IsConsistent b
    → step rt i b ≡ some c
    → IsConsistent c
unfolding step
step-IsConsistent rt (closed connection) b c h e =
    let same : disconnect connection b ≡ c = ground (arith, e) in
    subst IsConsistent same (disconnect-IsConsistent connection b h)
step-IsConsistent rt (request env req) b c h e =
    step_request-IsConsistent rt env req b c (handle rt env req b) refl
      (handle-IsConsistent rt env req b h) e

init-IsConsistent : IsConsistent init
unfolding is_subscribed is_listed_member lookup has
init-IsConsistent = record {
  symmetric = λ s c. refl;
  no_empty = λ c ms e. cc;
  joined = λ id t s e m. cc;
}

-- In every state that requests and closed connections lead to, a channel has a session as a member
-- exactly if the session has the channel, no channel is left without members, and whoever has
-- joined a topic is subscribed to its channel.
pub Reachable-IsConsistent : {rt : Runtime} {b : Broker} → Reachable rt b → IsConsistent b
Reachable-IsConsistent start = init-IsConsistent
Reachable-IsConsistent (next {b} {c} i r e) = step-IsConsistent _ i b c (Reachable-IsConsistent r) e
