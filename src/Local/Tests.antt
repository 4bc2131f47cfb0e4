-- ===== src/Local/Tests.antt =====
-- A message sent through mcp_server/src/transport/local.ts and read back.
use Prim.Native.Char.{Char, code}
use mathlib.Core.List.{[], ◌∷◌}
use cccollab.Base.{
  List, ℕ, str_eq, none, String, Bool, ◌≡◌, ◌∙◌, refl, true, false, some, arith, eqb, if◌then◌else◌,
  Bool-cases, inl, inr,
}
use cccollab.Base.Text.{is_empty}
use cccollab.Base.Assoc.{lookup}
use cccollab.Base.StrSet.{has}
use cccollab.Runtime.{Runtime, nan}
use cccollab.Broker.State.{
  Response, Broker, Env, Request, LocalTopic, SessionInfo, active, respond, done,
}
use cccollab.Broker.Channels.{Fields, json_body, read_body, read_chunks, is_subscribed}
use cccollab.Broker.Topics.{topic_data}
use cccollab.Broker.Actions.{messages, action_body, new_message}
use cccollab.Broker.Route.{Route}
use cccollab.Broker.Server.{serve, handle}
use cccollab.Local.{Method, call_of, nothing, topic, joined, answer_of}
use cccollab.Local.Routes.{IsEncoding, has_slash, route_of}
use cccollab.Local.Sent.{Carries, handle-call_of, join_topic-send_topic_message}

-- as encodeURIComponent does with a slash
escaped : Bool → Char → String → String
escaped true c rest = String.◌∷◌ "%" (String.◌∷◌ "2" (String.◌∷◌ "F" rest))
escaped false c rest = String.◌∷◌ c rest

unfoldable pub escape : String → String
unfolding escaped
escape String.[] = ""
escape (String.◌∷◌ c s) = escaped (eqb (code c) b'/') c (escape s)

escaped_slash_free :
    (slash : Bool) (c : Char) (rest : String)
    → eqb (code c) b'/' ≡ slash
    → has_slash (escaped slash c rest) ≡ has_slash rest
unfolding escaped has_slash
escaped_slash_free true c rest h = refl
escaped_slash_free false c rest h = ground (arith, h)

escape_slash_free : (s : String) → has_slash (escape s) ≡ false
unfolding escape has_slash
escape_slash_free String.[] = refl
escape_slash_free (String.◌∷◌ c s) =
    escaped_slash_free (eqb (code c) b'/') c (escape s) refl ∙ escape_slash_free s

escape_keeps_empty : (s : String) → is_empty (escape s) ≡ is_empty s
unfolding escape is_empty
escape_keeps_empty String.[] = refl
escape_keeps_empty (String.◌∷◌ c s) = elim (Bool-cases (eqb (code c) b'/')) [
  | inl e ↦ rw e
  | inr e ↦ rw e
]

pub escape-IsEncoding : IsEncoding escape
escape-IsEncoding = record { slash_free = escape_slash_free; keeps_empty = escape_keeps_empty }

abbrev ann : SessionInfo
ann = record { name = "ann"; objective = none; registered_at = 5; channels = "dev" ∷ [] }

abbrev pub plan : LocalTopic
plan = record {
  id = "t1";
  topic = "plan";
  channel = "dev";
  creator = "ann";
  state = active;
  created_at = 6;
  messages = [];
  joined_sessions = [];
}

abbrev pub broker : Broker
broker = record {
  topics = ("t1", plan) ∷ [];
  sessions = ("ann", ann) ∷ [];
  channels = ("dev", "ann" ∷ []) ∷ [];
  clients = [];
  sent = [];
}

abbrev sent_body : Fields
sent_body = ("sender", "ann") ∷ ("text", "hi") ∷ []

abbrev is_join : List ℕ → Bool
is_join [] = false
is_join (n ∷ ns) = eqb n 2

-- a runtime that knows three URLs and two bodies
abbrev pub three_urls : Runtime
three_urls = record {
  lower = λ s. s;
  to_number = λ s. nan;
  decode_uri = λ s. some s;
  parse_url = λ s. some (
      if str_eq s "send"
      then record { pathname = "/topics/t1/messages"; query = [] }
      else if str_eq s "join"
      then record { pathname = "/topics/t1/join"; query = [] }
      else record { pathname = "/topics/t1"; query = ("sessionId", "ann") ∷ [] });
  parse_json = λ bytes. some (if is_join bytes then ("sessionId", "ann") ∷ [] else sent_body);
}

abbrev pub env_at : ℕ → Env
env_at now = record { now = now; uuid = "t2"; connection = 7; writable = λ c. true }

abbrev pub send_request : Request
send_request = record { method = "POST"; url = "send"; chunks = (1 ∷ []) ∷ []; failed = false }

abbrev get_request : Request
get_request = record { method = "GET"; url = "get"; chunks = []; failed = false }

abbrev join_request : Request
join_request = record { method = "POST"; url = "join"; chunks = (2 ∷ []) ∷ []; failed = false }

pub send-Carries :
    Carries three_urls escape (Method.send_topic_message "ann" "t1" "hi") send_request
unfolding call_of escape json_body action_body read_body read_chunks
send-Carries = record { method = refl; url = λ d. refl; json = λ f e. e; action = λ f e. e }

get-Carries : Carries three_urls escape (Method.get_topic_by_id "ann" "t1") get_request
unfolding call_of escape
get-Carries = record { method = refl; url = λ d. refl; json = λ f e. cc; action = λ f e. cc }

join-Carries : Carries three_urls escape (Method.join_topic "ann" "t1") join_request
unfolding call_of escape json_body action_body read_body read_chunks
join-Carries = record { method = refl; url = λ d. refl; json = λ f e. e; action = λ f e. e }

handle-call_of_example :
    handle three_urls (env_at 9) send_request broker
    ≡ serve three_urls (env_at 9) send_request [] (Route.topic_action "t1" messages) broker
unfolding call_of route_of escape
handle-call_of_example =
    handle-call_of three_urls escape (env_at 9) (Method.send_topic_message "ann" "t1" "hi")
      send_request broker escape-IsEncoding send-Carries (λ e. cc) refl

join_topic-send_topic_message_example :
    (b' : Broker) × (b'' : Broker) × (shown : Response) × (history : Response) × (handle three_urls
        (env_at 9)
        send_request
        broker
      ≡ some (b', respond 200 done))
    × (answer_of (Method.send_topic_message "ann" "t1" "hi") (respond 200 done) ≡ nothing)
    × (handle three_urls (env_at 10) get_request b' ≡ some (b', shown))
    × (answer_of (Method.get_topic_by_id "ann" "t1") shown ≡ topic (topic_data plan))
    × (handle three_urls (env_at 10) join_request b' ≡ some (b'', history))
    × (answer_of (Method.join_topic "ann" "t1") history
        ≡ joined "dev" (new_message (env_at 9) "hi" "ann" ∷ []))
unfolding escape is_empty lookup is_subscribed has
join_topic-send_topic_message_example =
    join_topic-send_topic_message three_urls escape (env_at 9) (env_at 10) "ann" "t1" "hi" plan
      send_request get_request join_request broker escape-IsEncoding refl refl refl refl refl refl
      refl send-Carries get-Carries join-Carries
