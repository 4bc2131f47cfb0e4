-- ===== src/Broker/Server.antt =====
-- The request listener of mcp_server/src/broker.ts, and a run of requests.
use cccollab.Base.{ℕ, keep, eqb, not, ◌≡◌, Option, none, some, []}
use cccollab.Base.Nullable.{◌>>=◌}
use cccollab.Runtime.{Runtime}
use cccollab.Broker.State.{Broker, init, Env, Request, Response, respond, error}
use cccollab.Broker.Channels.{
  Fields, field, with_body, get_health, get_events, local_event, get_channels, post_join,
  post_leave, post_broadcast,
}
use cccollab.Broker.Topics.{post_topic, get_topics, get_topic, get_history}
use cccollab.Broker.Actions.{post_action}
use cccollab.Broker.Sessions.{get_sessions, post_session, delete_session}
use cccollab.Broker.Route.{Route, route}

-- The handler behind each route; `none` is an exception that nothing catches, which ends the
-- process.
unfoldable pub serve :
    Runtime → Env → Request → Fields → Route → Broker → Option (Broker × Response)
serve rt env req query Route.health b = some (get_health b)
serve rt env req query Route.events b = some (get_events env b)
serve rt env req query Route.local_event b =
    some (with_body rt req b (λ body. local_event env body b))
serve rt env req query Route.list_channels b = some (get_channels (field "sessionId" query) b)
serve rt env req query Route.join_channel b =
    some (with_body rt req b (λ body. post_join rt env body b))
serve rt env req query Route.leave_channel b =
    some (with_body rt req b (λ body. post_leave rt body b))
serve rt env req query Route.broadcast b =
    some (with_body rt req b (λ body. post_broadcast rt env body b))
serve rt env req query Route.create_topic b =
    some (with_body rt req b (λ body. post_topic rt env body b))
serve rt env req query Route.list_topics b = some (get_topics rt query b)
serve rt env req query (Route.show_topic id) b = some (get_topic id query b)
serve rt env req query (Route.topic_history id) b = get_history rt id query b
serve rt env req query (Route.topic_action id action) b = some (post_action rt env id action req b)
serve rt env req query Route.list_sessions b = some (get_sessions rt query b)
serve rt env req query Route.register b =
    some (with_body rt req b (λ body. post_session env body b))
serve rt env req query (Route.remove_session segment) b = delete_session rt segment b
serve rt env req query Route.not_found b = some (b, respond 404 (error "not found"))

-- One request: `parseUrl` first, whose TypeError nothing catches either.
unfoldable pub handle : Runtime → Env → Request → Broker → Option (Broker × Response)
unfolding route
handle rt env req b = do
  url ← rt.parse_url req.url
  serve rt env req url.query (route req.method url.pathname) b

-- `req.on('close')` of an SSE connection
unfoldable pub disconnect : ℕ → Broker → Broker
disconnect connection b = record b { clients = keep (λ c. not (eqb c connection)) b.clients }

-- `shutdown`, at a SIGTERM or SIGINT: the process exits after it.
unfoldable pub shutdown : Broker → Broker
shutdown b = record b { clients = [] }

pub data Input : Type 0 where
  request : Env → Request → Input
  closed : (connection : ℕ) → Input

unfoldable pub step : Runtime → Input → Broker → Option Broker
unfolding disconnect
step rt (request env req) b = elim (handle rt env req b) [ none ↦ none | some (b', res) ↦ some b' ]
step rt (closed connection) b = some (disconnect connection b)

-- The states that a broker comes to from its start, by requests and closed connections in any order.
pub data Reachable (rt : Runtime) : Broker → Type 0 where
  start : Reachable rt init
  next : {b c : Broker} (i : Input) → Reachable rt b → step rt i b ≡ some c → Reachable rt c
