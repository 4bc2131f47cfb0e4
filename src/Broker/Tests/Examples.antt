-- ===== src/Broker/Tests/Examples.antt =====
-- The theorems on mcp_server/src/broker.ts at concrete requests.
use cccollab.Base.{String, false, ◌≡◌, refl, arith, none, some, ◌↔◌, ◌⊎◌, map, [], ◌∷◌}
use cccollab.Base.Assoc.{lookup, set, delete, map_values}
use cccollab.Runtime.{Url}
use cccollab.Broker.State.{
  Broker, LocalTopic, archived, respond, message, error, done, topic_made, topic_shown, history,
}
use cccollab.Broker.Channels.{Fields, json_body, read_body, read_chunks, field, is_subscribed}
use cccollab.Broker.Topics.{topic_data, get_history, get_topic, before_cursor, history_entry}
use cccollab.Base.Text.{is_empty}
use cccollab.Base.StrSet.{has, remove}
use cccollab.Broker.Members.{
  remove_session_from_all_channels, leave_all, leave_channel, drop_member, leave_topic_of,
}
use cccollab.Broker.Route.{route}
use cccollab.Broker.Server.{serve, handle}
use cccollab.Broker.Invariant.{IsConsistent}
use cccollab.Broker.Reach.{Reachable-IsConsistent}
use cccollab.Broker.Names.{HasUniqueNames, handle-HasUniqueNames}
use cccollab.Broker.Log.{Persists, handle-Persists}
use cccollab.Broker.Clock.{get_history-IsWindow}
use cccollab.Broker.Sessions.{delete_session}
use cccollab.Broker.Actions.{post_message, unarchive_topic, new_message}
use cccollab.Broker.Membership.{is_listed_member}
use cccollab.Broker.Purge.{delete_session_purges}
use cccollab.Broker.Post.{get_topic-post_message}
use cccollab.Broker.Names.{unarchive_topic_not-HasUniqueNames}
use cccollab.Broker.Errors.{handle_error_same}
use cccollab.Broker.Crash.{IsBadDelete, handle-none_iff}
use cccollab.History.{HistoryPage, older_than, clamp_history_limit}
use cccollab.History.Paging.{IsWindow}
use cccollab.Broker.Tests.{
  test_runtime, env_at, request_to, joined_state, plan, plan_state, plan_request, plan_run,
  plan-Reachable, plan_timed,
}

-- `ann` is a member of `dev` and has it.
Reachable-IsConsistent_example : IsConsistent plan_state
Reachable-IsConsistent_example =
    Reachable-IsConsistent {rt = test_runtime} {b = plan_state} plan-Reachable

joined_unique : HasUniqueNames test_runtime joined_state.topics
joined_unique = λ id id' t t' e e' a a' c n. unfold lookup in cc

handle-HasUniqueNames_example : HasUniqueNames test_runtime plan_state.topics
unfolding route is_empty
handle-HasUniqueNames_example =
    handle-HasUniqueNames test_runtime (env_at 6) plan_request joined_state plan_state
      (respond 200 (topic_made (topic_data plan))) (record { pathname = "/topics"; query = [] })
      refl refl plan_run joined_unique

handle-Persists_example : Persists joined_state.topics plan_state.topics
unfolding lookup
handle-Persists_example =
    handle-Persists test_runtime (env_at 6) plan_request joined_state plan_state
      (respond 200 (topic_made (topic_data plan))) (record { pathname = "/topics"; query = [] })
      refl plan_run refl

get_history-IsWindow_example :
    (p : HistoryPage) × (get_history test_runtime "t1" [] plan_state
      ≡ some (plan_state, respond 200 (history p)))
    × IsWindow
        (older_than
          (before_cursor test_runtime (field "before" []))
          (map history_entry plan.messages))
        (clamp_history_limit test_runtime.to_number (field "limit" []))
        p
unfolding lookup
get_history-IsWindow_example =
    get_history-IsWindow {rt = test_runtime} {n = 6} {b = plan_state} "t1" plan [] plan_timed refl

abbrev listening_state : Broker
listening_state = record plan_state { clients = 7 ∷ [] }

abbrev hi_body : Fields
hi_body = ("text", "hi") ∷ ("sender", "ann") ∷ []

get_topic-post_message_example :
    ((post_message (env_at 9) "t1" plan hi_body listening_state).0.sent
      ≡ (7, message "dev" "t1" "ann" "hi" 9) ∷ [])
    × (get_topic "t1"
          (("sessionId", "ann") ∷ [])
          (post_message (env_at 9) "t1" plan hi_body listening_state).0
        ≡ (
          (post_message (env_at 9) "t1" plan hi_body listening_state).0,
          respond 200 (topic_shown (topic_data plan) (new_message (env_at 9) "hi" "ann" ∷ [])),
        ))
unfolding field is_subscribed lookup has is_empty
get_topic-post_message_example =
    get_topic-post_message (env_at 9) "t1" plan hi_body listening_state "hi" "ann" "ann"
      (("sessionId", "ann") ∷ []) (refl, refl) refl refl

bad_run :
    handle test_runtime (env_at 8) (request_to "POST" "/topics" (9 ∷ [])) plan_state
    ≡ some (plan_state, respond 400 (error "invalid JSON"))
unfolding handle serve json_body read_body read_chunks route is_empty
bad_run = refl

handle_error_same_example : plan_state ≡ plan_state
handle_error_same_example =
    handle_error_same test_runtime (env_at 8) (request_to "POST" "/topics" (9 ∷ [])) plan_state
      plan_state (respond 400 (error "invalid JSON")) bad_run (omega arith)

-- the name is taken while it was archived
abbrev doubled_state : Broker
doubled_state = record plan_state {
  topics = ("t1", record plan { state = archived }) ∷ ("t2", record plan { id = "t2" }) ∷ [];
}

unarchive_topic_not-HasUniqueNames_example :
    ¬ HasUniqueNames test_runtime
      (unarchive_topic (env_at 9) "t1" (record plan { state = archived }) [] doubled_state).0.topics
unfolding lookup
unarchive_topic_not-HasUniqueNames_example =
    unarchive_topic_not-HasUniqueNames test_runtime (env_at 9) "t1" "t2"
      (record plan { state = archived }) (record plan { id = "t2" }) [] doubled_state refl refl refl
      refl refl refl

handle-none_iff_example :
    (handle test_runtime (env_at 8) (request_to "DELETE" "/sessions/%zz" []) plan_state ≡ none) ↔ (
      (test_runtime.parse_url "/sessions/%zz" ≡ none)
      ⊎ ((url : Url) × (test_runtime.parse_url "/sessions/%zz" ≡ some url)
          × IsBadDelete test_runtime (route "DELETE" url.pathname)))
handle-none_iff_example =
    handle-none_iff test_runtime (env_at 8) (request_to "DELETE" "/sessions/%zz" []) plan_state

abbrev purged_state : Broker
purged_state = record plan_state { sessions = []; channels = [] }

purge_run : delete_session test_runtime "ann" plan_state ≡ some (purged_state, respond 200 done)
unfolding delete_session remove_session_from_all_channels leave_all leave_channel drop_member
    leave_topic_of lookup set delete map_values has remove
purge_run = refl

delete_session_purges_example :
    (lookup "ann" purged_state.sessions ≡ none)
    × ((ch : String) → is_listed_member "ann" ch purged_state ≡ false)
    × ((id : String) (t : LocalTopic)
        → lookup id purged_state.topics ≡ some t
        → has "ann" t.joined_sessions ≡ false)
delete_session_purges_example =
    delete_session_purges test_runtime "ann" "ann" plan_state purged_state (respond 200 done)
      (Reachable-IsConsistent plan-Reachable) refl purge_run
