-- ===== src/Broker/Tests.antt =====
-- Runs of the broker of mcp_server/src/broker.ts at concrete requests.
mod Examples
use cccollab.Base.{
  ℕ, String, Bool, true, false, ◌≡◌, refl, arith, Option, none, some, ◌↔◌, ◌⊎◌, ◌||◌, map, length,
  ltb, List, [], ◌∷◌, eqb, if◌then◌else◌, str_eq,
}
use cccollab.Base.Assoc.{lookup, set, delete, map_values}
use cccollab.Runtime.{Runtime, Url, nan, of_ms}
use cccollab.Broker.State.{
  Broker, init, Env, Request, LocalTopic, SessionInfo, active, archived, Response, respond,
  topic_created, message, error, done, topic_made, channel_joined, topic_shown, history,
}
use cccollab.Broker.Channels.{
  Fields, max_body_size, json_body, read_body, read_chunks, post_join, field, is_subscribed,
}
use cccollab.Broker.Topics.{
  topic_data, post_topic, create_topic, find_named, fold_name, get_history, get_topic,
  before_cursor, history_entry,
}
use cccollab.Base.Text.{trim, is_empty}
use cccollab.Base.StrSet.{has, add, remove}
use cccollab.Broker.Members.{
  broadcast, normalize_channel, join_channel, ensure_session, remove_session_from_all_channels,
  leave_all, leave_channel, drop_member, leave_topic_of,
}
use cccollab.Broker.Route.{route}
use cccollab.Broker.Server.{serve, handle, step, request, Reachable, start, next}
use cccollab.Broker.Invariant.{IsConsistent}
use cccollab.Broker.Reach.{Reachable-IsConsistent}
use cccollab.Broker.Change.{Changes}
use cccollab.Broker.Refine.{handle-Changes, is_unarchive}
use cccollab.Broker.Names.{HasUniqueNames, handle-HasUniqueNames}
use cccollab.Broker.Log.{Persists, handle-Persists}
use cccollab.Broker.Clock.{TimedReach, answered, get_history-IsWindow}
use cccollab.Broker.Sessions.{delete_session}
use cccollab.Broker.Actions.{post_message, unarchive_topic, new_message}
use cccollab.Broker.Membership.{is_listed_member}
use cccollab.Broker.Purge.{delete_session_purges}
use cccollab.Broker.Post.{get_topic-post_message}
use cccollab.Broker.Names.{unarchive_topic_not-HasUniqueNames}
use cccollab.Broker.Errors.{handle_error_same}
use cccollab.Broker.Crash.{IsBadDelete, handle-none_iff}
use cccollab.Broker.BodySize.{all_bytes, read_body_lem}
use cccollab.History.{HistoryPage, older_than, clamp_history_limit}
use cccollab.History.Paging.{IsWindow}

-- the bodies of the requests below, told apart by their first byte
abbrev pub body_of : List ℕ → Option Fields
body_of [] = none
body_of (c ∷ cs) =
    if eqb c 1
    then some (("sessionId", "ann") ∷ ("channel", "dev") ∷ [])
    else if eqb c 2
    then some (("topic", "plan") ∷ ("creator", "ann") ∷ ("channel", "dev") ∷ [])
    else if eqb c 3
    then some (("text", "hi") ∷ ("sender", "ann") ∷ [])
    else none

abbrev pub test_runtime : Runtime
test_runtime = record {
  lower = λ s. s;
  to_number = λ s. if str_eq s "2" then of_ms 2 else nan;
  decode_uri = λ s. if str_eq s "%zz" then none else some s;
  parse_url = λ s. if str_eq s "//" then none else some (record { pathname = s; query = [] });
  parse_json = body_of;
}

abbrev pub env_at : ℕ → Env
env_at now = record { now = now; uuid = "t1"; connection = 7; writable = λ c. true }

abbrev pub request_to : String → String → List ℕ → Request
request_to method url bytes = record {
  method = method;
  url = url;
  chunks = bytes ∷ [];
  failed = false;
}

abbrev pub ann : SessionInfo
ann = record { name = "ann"; objective = none; registered_at = 5; channels = "dev" ∷ [] }

abbrev pub joined_state : Broker
joined_state = record init { sessions = ("ann", ann) ∷ []; channels = ("dev", "ann" ∷ []) ∷ [] }

abbrev pub plan : LocalTopic
plan = record {
  id = "t1";
  topic = "plan";
  channel = "dev";
  creator = "ann";
  state = active;
  created_at = 6;
  messages = [];
  joined_sessions = [];
}

abbrev pub plan_state : Broker
plan_state = record joined_state { topics = ("t1", plan) ∷ [] }

abbrev pub join_request : Request
join_request = request_to "POST" "/channels/join" (1 ∷ [])

abbrev pub plan_request : Request
plan_request = request_to "POST" "/topics" (2 ∷ [])

pub join_run :
    handle test_runtime (env_at 5) join_request init
    ≡ some (joined_state, respond 200 (channel_joined "dev" 1))
unfolding handle serve json_body read_body read_chunks post_join field normalize_channel
    join_channel ensure_session lookup set add has trim is_empty route
join_run = refl

pub plan_run :
    handle test_runtime (env_at 6) plan_request joined_state
    ≡ some (plan_state, respond 200 (topic_made (topic_data plan)))
unfolding handle serve json_body read_body read_chunks post_topic create_topic find_named fold_name
    field normalize_channel is_subscribed broadcast lookup set has trim is_empty route
plan_run = refl

step_of_handle :
    (rt : Runtime) (env : Env) (req : Request) (b c : Broker) (res : Response)
    → handle rt env req b ≡ some (c, res)
    → step rt (request env req) b ≡ some c
unfolding step
step_of_handle rt env req b c res e = rw (e, step) refl

join_step : step test_runtime (request (env_at 5) join_request) init ≡ some joined_state
join_step =
    step_of_handle test_runtime (env_at 5) join_request init joined_state
      (respond 200 (channel_joined "dev" 1)) join_run

plan_step : step test_runtime (request (env_at 6) plan_request) joined_state ≡ some plan_state
plan_step =
    step_of_handle test_runtime (env_at 6) plan_request joined_state plan_state
      (respond 200 (topic_made (topic_data plan))) plan_run

pub plan-Reachable : Reachable test_runtime plan_state
plan-Reachable =
    next {b = joined_state} (request (env_at 6) plan_request)
      (next {b = init} (request (env_at 5) join_request) start join_step) plan_step

pub plan_timed : TimedReach test_runtime 6 plan_state
plan_timed =
    answered (env_at 6) plan_request (respond 200 (topic_made (topic_data plan)))
      (answered (env_at 5) join_request (respond 200 (channel_joined "dev" 1)) TimedReach.start
        (omega arith) join_run)
      (omega arith) plan_run
