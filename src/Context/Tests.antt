-- ===== src/Context/Tests.antt =====
-- Runs of `ActiveContext` (mcp_server/src/context.ts).
use cccollab.Base.{String, ◌≡◌, refl, false, none, some, List, [], ◌∷◌, arith}
use cccollab.Base.Text.{trim, is_empty}
use cccollab.Base.Assoc.{lookup, set, contains}
use cccollab.Runtime.{Runtime, nan}
use cccollab.Context.{
  ActiveContext, manual, channel_key, normalize_channel_name, is_in, empty_context, join_channel,
  join_topic, leave_channel, is_topic_joined, get_thread_ts, get_topic_channel,
}
use cccollab.Context.Key.{HasNoColon}
use cccollab.Context.Invariant.{IsWellFormed, Operation, join, enter, run, apply}
use cccollab.Context.Run.{run-IsWellFormed}
use cccollab.Context.Find.{found, includes, find_joined_topic}
use cccollab.Context.Stale.{leave_channel_keeps_thread}

abbrev test_runtime : Runtime
test_runtime = record {
  lower = λ s. s;
  to_number = λ s. nan;
  decode_uri = λ s. some s;
  parse_url = λ s. none;
  parse_json = λ s. none;
}

-- `ops` is active, and the session works on a topic of `dev`
abbrev two_channels : ActiveContext
two_channels = record {
  active_thread_ts = some "t1";
  active_topic_name = some "plan";
  active_channel = some (record { name = "ops"; location = "local" });
  subscribed =
      ("local::ops", record { name = "ops"; location = "local"; source = manual })
      ∷ ("local::dev", record { name = "dev"; location = "local"; source = manual })
      ∷ [];
  joined_topics = ("t1", record { topic_name = "plan"; channel = "dev"; location = "local" }) ∷ [];
}

abbrev operations : List Operation
operations =
    join "ops" manual "local" ∷ join "dev" manual "local" ∷ enter "t1" "plan" "dev" "local" ∷ []

operations-run : run test_runtime operations empty_context ≡ two_channels
unfolding apply join_channel join_topic normalize_channel_name channel_key contains lookup set trim
    is_empty
operations-run = refl

local_plain : HasNoColon "local"
local_plain = (omega arith, (omega arith, (omega arith, (omega arith, (omega arith, tt)))))

run-IsWellFormed_example : IsWellFormed (run test_runtime operations empty_context)
run-IsWellFormed_example =
    run-IsWellFormed test_runtime operations (local_plain, (local_plain, (local_plain, tt)))

abbrev dev : String
dev = "dev"

abbrev local : String
local = "local"

leave_channel_keeps_thread_example :
    (get_thread_ts (leave_channel test_runtime "dev" "local" two_channels).0 ≡ some "t1")
    × (is_topic_joined "t1" (leave_channel test_runtime "dev" "local" two_channels).0 ≡ false)
    × (get_topic_channel (leave_channel test_runtime "dev" "local" two_channels).0 ≡ none)
unfolding get_thread_ts lookup is_in normalize_channel_name trim is_empty
leave_channel_keeps_thread_example =
    leave_channel_keeps_thread test_runtime "dev" "local" "t1"
      (record { topic_name = "plan"; channel = "dev"; location = "local" }) two_channels (refl, tt)
      refl refl refl refl

find_joined_topic_run :
    find_joined_topic test_runtime "pla" two_channels
    ≡ some (found "t1" (record { topic_name = "plan"; channel = "dev"; location = "local" }))
unfolding find_joined_topic includes lookup
find_joined_topic_run = refl
