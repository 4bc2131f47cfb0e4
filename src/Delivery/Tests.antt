-- ===== src/Delivery/Tests.antt =====
-- A stream of two events, cut into three chunks of bytes.

use Prim.Native.Char.{code}
use Prim.Native.String
use cccollab.Base.{
  List, ℕ, String, ◌≡◌, ◌≢◌, arith, eq_iff, refl, sym, true, none, some, [], ◌∷◌, ◌++◌, eqb, str_eq,
  All, if◌then◌else◌,
}
use mathlib.Core.Path.{subst}
use cccollab.Base.Text.{trim, is_empty}
use cccollab.Base.Assoc.{lookup, contains, set}
use cccollab.Base.StrSet.{has}
use cccollab.Context.{is_channel_subscribed, is_topic_joined, normalize_channel_name}
use cccollab.Broker.State.{Broker, Event, broadcast_sent, message, respond, done}
use cccollab.Broker.Channels.{is_subscribed, field, read_body, read_chunks}
use cccollab.Broker.Members.{broadcast}
use cccollab.Broker.Route.{route}
use cccollab.Broker.Actions.{post_action, run_action, action_body, post_message}
use cccollab.Broker.Server.{handle, serve}
use cccollab.Listener
use cccollab.Listener.{
  LocalEvent, on_data, parsed, handle_local_event, channel_subscribed, split_lines,
}
use cccollab.Listener.Stream.{join_texts}
use cccollab.Listener.Tests.{in_plan}
use cccollab.Local.Tests.{
  escape, escape-IsEncoding, plan, broker, three_urls, env_at, send_request, send-Carries,
}
use cccollab.Delivery.{Wire, stream, events_in, event_seen, events_seen, no_fields}
use cccollab.Delivery.Stream.{has_newline, Passes, IsUtf8, chunks_of, events_in-stream}
use cccollab.Delivery.Pushed.{received, state_after, sent_message-pushed}

abbrev time_text : ℕ → String
time_text n = if eqb n 9 then "9" else "8"

abbrev bob_broadcasts : LocalEvent
bob_broadcasts = record (no_fields Listener.broadcast) {
  channel = some "dev";
  sender = some "bob";
  text = some "yo";
  ts = some "8";
}

abbrev ann_says : LocalEvent
ann_says = record (no_fields Listener.message) {
  channel = some "dev";
  topic_id = some "t1";
  sender = some "ann";
  text = some "hi";
  ts = some "9";
}

-- a wire that knows two events by their first letters
letter : Event → String
letter (broadcast_sent channel sender text ts) = "b"
letter (message channel id sender text ts) = "m"
letter _ = "?"

-- bytes of the ASCII characters that the stream below has
codes : String → List ℕ
codes String.[] = []
codes (String.◌∷◌ c s) = code c ∷ codes s

letter_at : ℕ → String
letter_at n =
    if eqb n 100
    then "d"
    else if eqb n 97
    then "a"
    else if eqb n 116
    then "t"
    else if eqb n 58
    then ":"
    else if eqb n 32
    then " "
    else if eqb n 98
    then "b"
    else if eqb n 109
    then "m"
    else "\n"

text_of : List ℕ → String
unfolding letter_at
text_of [] = ""
text_of (n ∷ ns) = String.◌++◌ (letter_at n) (text_of ns)

abbrev two_events : Wire
two_events = record {
  iso = time_text;
  stringify = letter;
  parse = λ s.
      if str_eq s "b" then some bob_broadcasts else if str_eq s "m" then some ann_says else none;
  posted = λ fields. none;
  utf8 = codes;
  decode = text_of;
}

abbrev yo : Event
yo = broadcast_sent "dev" "bob" "yo" 8

abbrev hi : Event
hi = message "dev" "t1" "ann" "hi" 9

yo-Passes : Passes two_events yo
unfolding letter has_newline event_seen
yo-Passes = record { one_line = refl; reads = refl }

hi-Passes : Passes two_events hi
unfolding letter has_newline event_seen
hi-Passes = record { one_line = refl; reads = refl }

abbrev pieces : List String
pieces = "da" ∷ "ta: b\n\ndata: m" ∷ "\n\n" ∷ []

pieces_pass : All (IsUtf8 two_events) pieces
unfolding codes text_of
pieces_pass = (refl, (refl, (refl, tt)))

events_in-stream_example :
    (events_in two_events (on_data text_of "" (chunks_of two_events pieces)).0
      ≡ events_seen two_events (yo ∷ hi ∷ []))
    × ((on_data text_of "" (chunks_of two_events pieces)).1 ≡ "")
unfolding letter stream
events_in-stream_example =
    events_in-stream two_events (yo ∷ hi ∷ []) pieces (yo-Passes, (hi-Passes, tt)) pieces_pass refl

abbrev parts_before : List String
parts_before = "data: b\n\n" ∷ []

abbrev parts_after : List String
parts_after = "data: b\n\ndata: " ∷ "m\n\n" ∷ []

before_pass : All (IsUtf8 two_events) parts_before
unfolding codes text_of
before_pass = (refl, tt)

after_pass : All (IsUtf8 two_events) parts_after
unfolding codes text_of
after_pass = (refl, (refl, tt))

abbrev connected : Broker
connected = record broker { clients = 3 ∷ []; sent = (3, yo) ∷ [] }

ann_step :
    received 3 (state_after (handle three_urls (env_at 9) send_request connected) connected).sent
    ≡ yo ∷ hi ∷ []
unfolding handle serve route post_action run_action action_body read_body read_chunks post_message
    field is_subscribed broadcast lookup set has is_empty
ann_step = refl

ann_stream :
    join_texts parts_after
    ≡ stream two_events (
        received 3
          (state_after (handle three_urls (env_at 9) send_request connected) connected).sent)
unfolding letter stream
ann_stream = rw ann_step refl

bob_hears : channel_subscribed three_urls in_plan (normalize_channel_name three_urls "dev") ≡ true
unfolding channel_subscribed is_channel_subscribed normalize_channel_name contains lookup trim
    is_empty
bob_hears = refl

abbrev bob : String
bob = "bob"

abbrev ann : String
ann = "ann"

bob_is_not_ann : some bob ≢ some ann
bob_is_not_ann = λ q. ground (arith, q, eq_iff bob ann)

sent_message-pushed_example :
    (handle three_urls (env_at 9) send_request connected
      ≡ some (
        state_after (handle three_urls (env_at 9) send_request connected) connected,
        respond 200 done,
      ))
    × (events_in two_events (on_data text_of "" (chunks_of two_events parts_after)).0
        ≡ events_in two_events (on_data text_of "" (chunks_of two_events parts_before)).0
          ++ ann_says ∷ [])
    × (handle_local_event three_urls "10" (some "bob") in_plan ann_says
        ≡ some (parsed "ann" "hi" "9" (normalize_channel_name three_urls "dev") (some "t1")))
    × (handle_local_event three_urls "10" (some "ann") in_plan ann_says ≡ none)
unfolding letter stream escape is_empty lookup is_subscribed has is_topic_joined contains
sent_message-pushed_example =
    sent_message-pushed three_urls escape two_events (env_at 9) "ann" "t1" "hi" plan send_request
      connected 3 parts_before parts_after "10" (some "bob") in_plan in_plan escape-IsEncoding
      (subst (All (Passes two_events)) (sym ann_step) (yo-Passes, (hi-Passes, tt))) before_pass
      after_pass refl refl refl refl refl refl refl send-Carries refl refl ann_stream bob_hears refl
      bob_is_not_ann
