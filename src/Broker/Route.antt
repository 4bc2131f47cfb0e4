-- ===== src/Broker/Route.antt =====
-- The dispatch on method and path in mcp_server/src/broker.ts, and its four route patterns.
use Prim.Native.Char.{Char, code}
use Prim.Native.String.{[], ◌∷◌}
use mathlib.Core.List.{List}
use cccollab.Base.{String, not, ◌&&◌, Option, none, some, if◌then◌else◌, eqb, str_eq}
use cccollab.Base.Text.{is_empty}
use cccollab.Broker.Actions.{Action, messages, join, leave, archive, unarchive}

pub data Route : Type 0 where
  health events local_event list_channels join_channel leave_channel broadcast : Route
  create_topic list_topics list_sessions register not_found : Route
  show_topic topic_history : (id : String) → Route
  topic_action : (id : String) → Action → Route
  remove_session : (segment : String) → Route

-- The segments between slashes. The head is the segment that is being read.
abbrev grow_head : Char → List String → List String
grow_head c List.[] = List.◌∷◌ (c ∷ []) List.[]
grow_head c (List.◌∷◌ s ss) = List.◌∷◌ (c ∷ s) ss

unfoldable pub segments : String → List String
segments [] = List.◌∷◌ "" List.[]
segments (c ∷ s) =
    let rest = segments s in if eqb (code c) b'/' then List.◌∷◌ "" rest else grow_head c rest

-- /^\/<word>\/([^/]+)$/
segment_after : String → List String → Option String
segment_after word (List.◌∷◌ a (List.◌∷◌ b (List.◌∷◌ id List.[]))) =
    if is_empty a && str_eq b word && not (is_empty id) then some id else none
segment_after word _ = none

-- /^\/topics\/([^/]+)\/([^/]*)$/, the last segment still to be read
topic_segment : List String → Option (String × String)
topic_segment (List.◌∷◌ a (List.◌∷◌ b (List.◌∷◌ id (List.◌∷◌ word List.[])))) =
    if is_empty a && str_eq b "topics" && not (is_empty id) then some (id, word) else none
topic_segment _ = none

unfoldable pub action_of : String → Option Action
action_of word =
    if str_eq word "messages"
    then some messages
    else if str_eq word "join"
    then some join
    else if str_eq word "leave"
    then some leave
    else if str_eq word "archive"
    then some archive
    else if str_eq word "unarchive"
    then some unarchive
    else none

-- TOPIC_ID_ROUTE and TOPIC_MESSAGES_ROUTE, tried on a GET
get_topic_route : List String → Option Route
unfolding segment_after topic_segment
get_topic_route path = elim (segment_after "topics" path) [
  | some id ↦ some (show_topic id)
  | none ↦ elim (topic_segment path) [
    | none ↦ none
    | some (id, word) ↦ if str_eq word "messages" then some (topic_history id) else none
  ]
]

-- TOPIC_ACTION_ROUTE, tried on a POST
post_topic_route : List String → Option Route
unfolding topic_segment action_of
post_topic_route path = elim (topic_segment path) [
  | none ↦ none
  | some (id, word) ↦ elim (action_of word) [ none ↦ none | some a ↦ some (topic_action id a) ]
]

-- SESSION_NAME_ROUTE, tried on a DELETE
delete_route : List String → Option Route
unfolding segment_after
delete_route path = elim (segment_after "sessions" path) [
  | none ↦ none
  | some segment ↦ some (remove_session segment)
]

abbrev known : Option Route → Route
known none = not_found
known (some r) = r

-- the routes by method, each in the source's order
get_route : String → Route
unfolding get_topic_route segments
get_route pathname =
    if str_eq pathname "/health"
    then health
    else if str_eq pathname "/events"
    then events
    else if str_eq pathname "/channels"
    then list_channels
    else if str_eq pathname "/topics"
    then list_topics
    else if str_eq pathname "/sessions"
    then list_sessions
    else known (get_topic_route (segments pathname))

post_route : String → Route
unfolding post_topic_route segments
post_route pathname =
    if str_eq pathname "/local-event"
    then local_event
    else if str_eq pathname "/channels/join"
    then join_channel
    else if str_eq pathname "/channels/leave"
    then leave_channel
    else if str_eq pathname "/broadcast"
    then broadcast
    else if str_eq pathname "/topics"
    then create_topic
    else if str_eq pathname "/sessions"
    then register
    else known (post_topic_route (segments pathname))

-- The tests of a request are all of one method and one path, so the tests of one method can be
-- taken together.
unfoldable pub route : String → String → Route
unfolding get_route post_route delete_route
route method pathname =
    if str_eq method "GET"
    then get_route pathname
    else if str_eq method "POST"
    then post_route pathname
    else if str_eq method "DELETE"
    then known (delete_route (segments pathname))
    else not_found
