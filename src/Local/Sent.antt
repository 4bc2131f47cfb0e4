-- ===== src/Local/Sent.antt =====
-- A call of mcp_server/src/transport/local.ts answered by mcp_server/src/broker.ts.
use cccollab.Base.{String, ◌≡◌, ◌≢◌, refl, ap, ◌∙◌, true, false, some, [], ◌∷◌, ◌++◌, arith}
use mathlib.Core.Option.{some-injective}
use cccollab.Base.Text.{is_empty}
use cccollab.Base.Nullable.{truthy}
use cccollab.Base.Assoc.{lookup}
use cccollab.Base.StrSet.{add}
use cccollab.Runtime.{Runtime}
use cccollab.Broker.State.{
  Broker, Env, Request, Response, LocalTopic, respond, done, topic_joined, topic_shown,
}
use cccollab.Broker.Channels.{Fields, json_body, field, is_subscribed}
use cccollab.Broker.Topics.{topic_data}
use cccollab.Broker.Actions.{
  put_topic, join_topic, messages, action_body, post_action, run_action, post_message,
  message_fields, new_message,
}
use cccollab.Broker.Server.{serve, handle}
use cccollab.Broker.Post.{IsPostable, get_topic-post_message, posted_topic}
use cccollab.Local.{Method, call_of, nothing, topic, joined, answer_of}
use cccollab.Local.Routes.{is_dot, has_dot, IsEncoding, route_of, path_text, route-call_of}

-- The request that `fetch` makes of a method, as the broker's runtime reads it. The URL is read as it
-- was built where the parser finds no segment "." or ".." in it.
pub record Carries (rt : Runtime) (encode : String → String) (m : Method) (req : Request)
    : Type 0 where
  pub method : req.method ≡ (call_of encode m).method
  pub url :
      has_dot encode m ≡ false
      → rt.parse_url req.url
        ≡ some (record { pathname = (call_of encode m).path; query = (call_of encode m).query })
  pub json :
      (fields : Fields) → (call_of encode m).body ≡ some fields → json_body rt req ≡ some fields
  pub action :
      (fields : Fields) → (call_of encode m).body ≡ some fields → action_body rt req ≡ some fields

-- The broker answers every request of the transport by the handler that is meant for the method,
-- with its query, where the id or name in the path is not empty and is not encoded as "." or "..".
pub handle-call_of :
    (rt : Runtime) (encode : String → String) (env : Env) (m : Method) (req : Request) (b : Broker)
    → IsEncoding encode
    → Carries rt encode m req
    → path_text m ≢ some ""
    → has_dot encode m ≡ false
    → handle rt env req b ≡ serve rt env req (call_of encode m).query (route_of encode m) b
unfolding handle
handle-call_of rt encode env m req b laws sent n d =
    rw (sent.url d, sent.method, route-call_of encode laws m n)

posted :
    (rt : Runtime) (encode : String → String) (env : Env) (session id text : String)
    (t : LocalTopic) (req : Request) (b : Broker)
    → Carries rt encode (Method.send_topic_message session id text) req
    → lookup id b.topics ≡ some t
    → post_action rt env id messages req b
      ≡ post_message env id t (("sender", session) ∷ ("text", text) ∷ []) b
unfolding call_of post_action run_action
posted rt encode env session id text t req b sent there =
    rw (there, post_action) (rw (sent.action _ refl) refl)

pub fields_of :
    (session text : String)
    → is_empty session ≡ false
    → is_empty text ≡ false
    → message_fields (("sender", session) ∷ ("text", text) ∷ []) ≡ some (text, session)
unfolding field lookup
fields_of session text s t = ground (arith, s, t)

ne_nothing : (id : String) → is_empty id ≡ false → some id ≢ some ""
unfolding is_empty
ne_nothing id i e = cc (ap is_empty (some-injective id "" e), i)

asked_by :
    (session : String)
    → is_empty session ≡ false
    → truthy (field "sessionId" (("sessionId", session) ∷ [])) ≡ some session
unfolding field lookup
asked_by session s = rw s

accepted :
    (env : Env) (id : String) (t : LocalTopic) (body : Fields) (b : Broker) (text sender : String)
    → message_fields body ≡ some (text, sender)
    → is_subscribed sender t.channel b ≡ true
    → (post_message env id t body b).1 ≡ respond 200 done
unfolding post_message
accepted env id t body b text sender f m = rw (f, m, post_message)

plain :
    (encode : String → String) (id : String)
    → encode id ≡ id
    → is_dot id ≡ false
    → is_dot (encode id) ≡ false
plain encode id same d = rw same d

-- the broker's step for such a message
pub handle-send_topic_message :
    (rt : Runtime) (encode : String → String) (env : Env) (session id text : String)
    (t : LocalTopic) (req : Request) (b : Broker)
    → IsEncoding encode
    → encode id ≡ id
    → is_empty id ≡ false
    → is_dot id ≡ false
    → is_empty session ≡ false
    → is_empty text ≡ false
    → lookup id b.topics ≡ some t
    → is_subscribed session t.channel b ≡ true
    → Carries rt encode (Method.send_topic_message session id text) req
    → handle rt env req b
      ≡ some (
        (post_message env id t (("sender", session) ∷ ("text", text) ∷ []) b).0,
        respond 200 done,
      )
unfolding route_of path_text serve call_of
handle-send_topic_message rt encode env session id text t req b laws same i d s x there member
      sent =
    let body : Fields = ("sender", session) ∷ ("text", text) ∷ [] in
    handle-call_of rt encode env (Method.send_topic_message session id text) req b laws sent
      (ne_nothing id i) (plain encode id same d)
    ∙ ap some (
        rw same (posted rt encode env session id text t req b sent there)
        ∙ ap (λ (r : Response). ((post_message env id t body b).0, r))
            (accepted env id t body b text session (fields_of session text s x) member))

joined_by :
    (session id : String) (t : LocalTopic) (b : Broker)
    → is_empty session ≡ false
    → is_subscribed session t.channel b ≡ true
    → join_topic id t (("sessionId", session) ∷ []) b ≡ (
      put_topic id (record t { joined_sessions = add session t.joined_sessions }) b,
      respond 200 (topic_joined t.channel t.messages),
    )
unfolding join_topic
joined_by session id t b s member = rw (asked_by session s, member, join_topic) refl

-- the broker's steps for what is asked behind it
joined_step :
    (rt : Runtime) (encode : String → String) (later : Env) (session id : String) (t : LocalTopic)
    (req : Request) (b : Broker)
    → IsEncoding encode
    → encode id ≡ id
    → is_empty id ≡ false
    → is_dot id ≡ false
    → is_empty session ≡ false
    → lookup id b.topics ≡ some t
    → is_subscribed session t.channel b ≡ true
    → Carries rt encode (Method.join_topic session id) req
    → handle rt later req b
      ≡ some (
        put_topic id (record t { joined_sessions = add session t.joined_sessions }) b,
        respond 200 (topic_joined t.channel t.messages),
      )
unfolding route_of serve call_of post_action run_action join_topic
joined_step rt encode later session id t req b laws same i d s there member sent =
    handle-call_of rt encode later (Method.join_topic session id) req b laws sent (ne_nothing id i)
      (plain encode id same d)
    ∙ ap some (
        rw same
          (rw (there, post_action) (rw (sent.action _ refl) (joined_by session id t b s member))))

-- A message with a text that a session sends through the transport to a topic of a channel that it
-- is subscribed to, the id being one that the encoding leaves as it is, and not "." or "..": the
-- broker accepts it and the call returns; the same session then gets the topic by its id, and when it
-- joins the topic it gets the message as the last of the history, behind those that were there.
pub join_topic-send_topic_message :
    (rt : Runtime) (encode : String → String) (env later : Env) (session id text : String)
    (t : LocalTopic) (req get join : Request) (b : Broker)
    → IsEncoding encode
    → encode id ≡ id
    → is_empty id ≡ false
    → is_dot id ≡ false
    → is_empty session ≡ false
    → is_empty text ≡ false
    → lookup id b.topics ≡ some t
    → is_subscribed session t.channel b ≡ true
    → Carries rt encode (Method.send_topic_message session id text) req
    → Carries rt encode (Method.get_topic_by_id session id) get
    → Carries rt encode (Method.join_topic session id) join
    → (b' : Broker) × (b'' : Broker) × (shown : Response) × (history : Response) × (handle rt env
          req b
        ≡ some (b', respond 200 done))
      × (answer_of (Method.send_topic_message session id text) (respond 200 done) ≡ nothing)
      × (handle rt later get b' ≡ some (b', shown))
      × (answer_of (Method.get_topic_by_id session id) shown ≡ topic (topic_data t))
      × (handle rt later join b' ≡ some (b'', history))
      × (answer_of (Method.join_topic session id) history
          ≡ joined t.channel (t.messages ++ new_message env text session ∷ []))
unfolding route_of serve answer_of call_of
join_topic-send_topic_message rt encode env later session id text t req get join b laws same i d s x
      there member sent asked joins =
    let body : Fields = ("sender", session) ∷ ("text", text) ∷ [] in
    let n : some id ≢ some "" = ne_nothing id i in
    let post : IsPostable b t body text session = (fields_of session text s x, member) in
    let t' : LocalTopic = record t { messages = t.messages ++ new_message env text session ∷ [] } in
    let b' = (post_message env id t body b).0 in
    let read =
      get_topic-post_message env id t body b text session session (("sessionId", session) ∷ []) post
        (asked_by session s) member in
    let kept = posted_topic env id t body b text session post in
    (
      b',
      put_topic id (record t' { joined_sessions = add session t.joined_sessions }) b',
      respond 200 (topic_shown (topic_data t) t'.messages),
      respond 200 (topic_joined t.channel t'.messages),
      handle-send_topic_message rt encode env session id text t req b laws same i d s x there member
          sent,
      refl,
      handle-call_of rt encode later (Method.get_topic_by_id session id) get b' laws asked n
            (plain encode id same d)
          ∙ ap some (rw same read.1),
      refl,
      joined_step rt encode later session id t' join b' laws same i d s (kept.0)
          (kept.1 session t.channel ∙ member) joins,
      refl,
    )
