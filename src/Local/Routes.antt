-- ===== src/Local/Routes.antt =====
-- Every request of mcp_server/src/transport/local.ts comes to its handler of mcp_server/src/broker.ts.
use Prim.Native.Char.{code}
use Prim.Native.String
use Prim.Native.String.{[], ◌∷◌}
use text.Mathlib.TextLemmas.{nil-append, cons-append}
use cccollab.Base.{
  String, ◌≡◌, ◌≢◌, refl, sym, ◌∙◌, ap, Bool, false, ◌||◌, Option, none, some, List, arith, eq_iff,
  str_eq, eqb, Bool-cases, inl, inr,
}
use cccollab.Base.Text.{is_empty}
use cccollab.Broker.Actions.{Action, messages, join, leave, archive, unarchive}
use cccollab.Broker.Route.{Route, segments, action_of, route}
use cccollab.Local.{Method, topic_path, call_of}

unfoldable pub has_slash : String → Bool
has_slash [] = false
has_slash (c ∷ s) = eqb (code c) b'/' || has_slash s

-- The handler that is meant for a method. The broker takes a topic's id as it stands in the path.
unfoldable pub route_of : (String → String) → Method → Route
route_of encode (Method.introduce s o) = Route.register
route_of encode (Method.join_channel s c) = Route.join_channel
route_of encode (Method.leave_channel s c) = Route.leave_channel
route_of encode (Method.list_channels s) = Route.list_channels
route_of encode (Method.broadcast s c t) = Route.broadcast
route_of encode (Method.create_topic s c t) = Route.create_topic
route_of encode (Method.list_topics s c all) = Route.list_topics
route_of encode (Method.get_topic_by_id s id) = Route.show_topic (encode id)
route_of encode (Method.join_topic s id) = Route.topic_action (encode id) join
route_of encode (Method.leave_topic s id) = Route.topic_action (encode id) leave
route_of encode (Method.archive_topic s id) = Route.topic_action (encode id) archive
route_of encode (Method.unarchive_topic s id) = Route.topic_action (encode id) unarchive
route_of encode (Method.send_topic_message s id t) = Route.topic_action (encode id) messages
route_of encode (Method.list_sessions c) = Route.list_sessions
route_of encode (Method.read_topic_messages id limit before) = Route.topic_history (encode id)
route_of encode (Method.deregister_session s) = Route.remove_session (encode s)

-- the text that a method puts into a path
abbrev pub path_text : Method → Option String
path_text (Method.get_topic_by_id s id) = some id
path_text (Method.join_topic s id) = some id
path_text (Method.leave_topic s id) = some id
path_text (Method.archive_topic s id) = some id
path_text (Method.unarchive_topic s id) = some id
path_text (Method.send_topic_message s id t) = some id
path_text (Method.read_topic_messages id limit before) = some id
path_text (Method.deregister_session s) = some s
path_text _ = none

-- A segment that the URL parser takes out of a path, with the one before it for "..".
abbrev pub is_dot : String → Bool
is_dot s = str_eq s "." || str_eq s ".."

-- the method's text comes into the path as such a segment
abbrev pub has_dot : (String → String) → Method → Bool
has_dot encode m = elim (path_text m) [ none ↦ false | some s ↦ is_dot (encode s) ]

segments-append :
    (s t : String)
    → has_slash s ≡ false
    → segments (String.◌++◌ s (String.◌++◌ "/" t)) ≡ List.◌∷◌ s (segments t)
unfolding segments has_slash
segments-append [] t h = rw (nil-append, cons-append, nil-append)
segments-append (c ∷ s) t h =
    rw cons-append (rw (segments-append s t (ground (arith, h)), segments) (ground (arith, h)))

segments_last : (s : String) → has_slash s ≡ false → segments s ≡ List.◌∷◌ s List.[]
unfolding segments has_slash
segments_last [] h = refl
segments_last (c ∷ s) h = ground (arith, h, segments_last s (ground (arith, h)))

segments_topics :
    (t : String)
    → segments (String.◌++◌ "/topics/" t) ≡ List.◌∷◌ "" (List.◌∷◌ "topics" (segments t))
unfolding segments
segments_topics t =
    rw (cons-append, cons-append, cons-append, cons-append, cons-append, cons-append, cons-append)
      (rw (cons-append, nil-append) refl)

segments_topic :
    (e word : String)
    → has_slash e ≡ false
    → has_slash word ≡ false
    → segments (topic_path e word)
      ≡ List.◌∷◌ "" (List.◌∷◌ "topics" (List.◌∷◌ e (List.◌∷◌ word List.[])))
segments_topic e word h k = rw (segments_topics, segments-append e word h, segments_last word k)

segments_sessions :
    (t : String)
    → segments (String.◌++◌ "/sessions/" t) ≡ List.◌∷◌ "" (List.◌∷◌ "sessions" (segments t))
unfolding segments
segments_sessions t =
    rw (cons-append, cons-append, cons-append, cons-append, cons-append, cons-append, cons-append)
      (rw (cons-append, cons-append, cons-append, nil-append) refl)

-- What the broker's route patterns need of encodeURIComponent.
pub record IsEncoding (encode : String → String) : Type 0 where
  pub slash_free : (s : String) → has_slash (encode s) ≡ false
  pub keeps_empty : (s : String) → is_empty (encode s) ≡ is_empty s

-- Texts with other segments are different.
ne_of_segments :
    (p q : String) {ss : List String} → segments p ≡ ss → segments q ≢ ss → str_eq p q ≡ false
ne_of_segments p q h n = elim (Bool-cases (str_eq p q)) [
  | inl same ↦ absurd (n (sym (ap segments ((eq_iff p q).0 same)) ∙ h))
  | inr other ↦ other
]

module _ (e : String) (k : is_empty e ≡ false) (p : String) where
  route_action :
      (word : String) (a : Action)
      → segments p ≡ List.◌∷◌ "" (List.◌∷◌ "topics" (List.◌∷◌ e (List.◌∷◌ word List.[])))
      → action_of word ≡ some a
      → route "POST" p ≡ Route.topic_action e a
  unfolding route is_empty
  route_action word a h q =
      simp
        (
          h,
          ne_of_segments p "/local-event" h (unfold segments in cc),
          ne_of_segments p "/channels/join" h (unfold segments in cc),
          ne_of_segments p "/channels/leave" h (unfold segments in cc),
          ne_of_segments p "/broadcast" h (unfold segments in cc),
          ne_of_segments p "/topics" h (unfold segments in cc),
          ne_of_segments p "/sessions" h (unfold segments in cc),
        )
        (ground (arith, k, q))

  route_topic :
      segments p ≡ List.◌∷◌ "" (List.◌∷◌ "topics" (List.◌∷◌ e List.[]))
      → route "GET" p ≡ Route.show_topic e
  unfolding route is_empty
  route_topic h =
      simp
        (
          h,
          ne_of_segments p "/health" h (unfold segments in cc),
          ne_of_segments p "/events" h (unfold segments in cc),
          ne_of_segments p "/channels" h (unfold segments in cc),
          ne_of_segments p "/topics" h (unfold segments in cc),
          ne_of_segments p "/sessions" h (unfold segments in cc),
        )
        (ground (arith, k))

  route_history :
      segments p ≡ List.◌∷◌ "" (List.◌∷◌ "topics" (List.◌∷◌ e (List.◌∷◌ "messages" List.[])))
      → route "GET" p ≡ Route.topic_history e
  unfolding route is_empty
  route_history h =
      simp
        (
          h,
          ne_of_segments p "/health" h (unfold segments in cc),
          ne_of_segments p "/events" h (unfold segments in cc),
          ne_of_segments p "/channels" h (unfold segments in cc),
          ne_of_segments p "/topics" h (unfold segments in cc),
          ne_of_segments p "/sessions" h (unfold segments in cc),
        )
        (ground (arith, k))

  route_session :
      segments p ≡ List.◌∷◌ "" (List.◌∷◌ "sessions" (List.◌∷◌ e List.[]))
      → route "DELETE" p ≡ Route.remove_session e
  unfolding route is_empty
  route_session h = simp h (ground (arith, k))

module _ (encode : String → String) (laws : IsEncoding encode) where
  encoded_nonempty : (s : String) → some s ≢ some "" → is_empty (encode s) ≡ false
  unfolding is_empty
  encoded_nonempty [] n = absurd (n refl)
  encoded_nonempty (c ∷ s) n = laws.keeps_empty (c ∷ s)

  route-topic_path :
      (id word : String) (a : Action)
      → some id ≢ some ""
      → has_slash word ≡ false
      → action_of word ≡ some a
      → route "POST" (topic_path (encode id) word) ≡ Route.topic_action (encode id) a
  route-topic_path id word a n w q =
      route_action (encode id) (encoded_nonempty id n) (topic_path (encode id) word) word a
        (segments_topic (encode id) word (laws.slash_free id) w) q

  pub route-call_of :
      (m : Method)
      → path_text m ≢ some ""
      → route (call_of encode m).method (call_of encode m).path ≡ route_of encode m
  unfolding call_of route_of path_text route has_slash
  route-call_of (Method.get_topic_by_id s id) n =
      route_topic (encode id) (encoded_nonempty id n) (String.◌++◌ "/topics/" (encode id)) (
        segments_topics (encode id)
        ∙ ap (λ ss. List.◌∷◌ "" (List.◌∷◌ "topics" ss))
            (segments_last (encode id) (laws.slash_free id)))
  route-call_of (Method.join_topic s id) n = route-topic_path id "join" join n refl refl
  route-call_of (Method.leave_topic s id) n = route-topic_path id "leave" leave n refl refl
  route-call_of (Method.archive_topic s id) n = route-topic_path id "archive" archive n refl refl
  route-call_of (Method.unarchive_topic s id) n =
      route-topic_path id "unarchive" unarchive n refl refl
  route-call_of (Method.send_topic_message s id t) n =
      route-topic_path id "messages" messages n refl refl
  route-call_of (Method.read_topic_messages id limit before) n =
      route_history (encode id) (encoded_nonempty id n) (topic_path (encode id) "messages")
        (segments_topic (encode id) "messages" (laws.slash_free id) refl)
  route-call_of (Method.deregister_session s) n =
      route_session (encode s) (encoded_nonempty s n) (String.◌++◌ "/sessions/" (encode s)) (
        segments_sessions (encode s)
        ∙ ap (λ ss. List.◌∷◌ "" (List.◌∷◌ "sessions" ss))
            (segments_last (encode s) (laws.slash_free s)))
  route-call_of m n = refl
