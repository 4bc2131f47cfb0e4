-- ===== src/Listener/Tests.antt =====
-- Runs of the SSE listener (mcp_server/src/broker-event-listener.ts).

use cccollab.Base.{◌≡◌, refl, none, some, [], ◌∷◌}
use cccollab.Base.Text.{trim, is_empty}
use cccollab.Base.Assoc.{lookup, contains}
use cccollab.Runtime.{Runtime, nan}
use cccollab.Context.{
  ActiveContext, manual, is_channel_subscribed, is_topic_joined, normalize_channel_name,
}
use cccollab.MessageBus.{ParsedMessage}
use cccollab.Listener.{
  LocalEvent, message, parsed, handle_local_event, on_event, on_topic_event, channel_subscribed,
  joined_topic, is_own, is_exact_self,
}
use cccollab.Listener.Heard.{IsForMe, author}
use cccollab.Listener.Pushed.{handle_local_event-IsForMe}

abbrev test_runtime : Runtime
test_runtime = record {
  lower = λ s. s;
  to_number = λ s. nan;
  decode_uri = λ s. some s;
  parse_url = λ s. none;
  parse_json = λ s. none;
}

abbrev pub in_plan : ActiveContext
in_plan = record {
  active_thread_ts = some "t1";
  active_topic_name = some "plan";
  active_channel = some (record { name = "dev"; location = "local" });
  subscribed = ("local::dev", record { name = "dev"; location = "local"; source = manual }) ∷ [];
  joined_topics = ("t1", record { topic_name = "plan"; channel = "dev"; location = "local" }) ∷ [];
}

abbrev bob_says : LocalEvent
bob_says = record {
  type = message;
  channel = some "dev";
  topic_id = some "t1";
  topic = none;
  sender = some "bob";
  text = some "hi";
  archived_by = none;
  unarchived_by = none;
  ts = some "now";
}

abbrev heard : ParsedMessage
heard = parsed "bob" "hi" "now" "dev" (some "t1")

bob_says_run : handle_local_event test_runtime "later" (some "ann") in_plan bob_says ≡ some heard
unfolding handle_local_event on_event on_topic_event channel_subscribed joined_topic is_own
    is_exact_self is_channel_subscribed is_topic_joined normalize_channel_name lookup contains trim
    is_empty
bob_says_run = refl

handle_local_event-IsForMe_example :
    IsForMe test_runtime (some "ann") in_plan (author bob_says) heard
handle_local_event-IsForMe_example =
    handle_local_event-IsForMe test_runtime "later" (some "ann") in_plan bob_says heard bob_says_run
