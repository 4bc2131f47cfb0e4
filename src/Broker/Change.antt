-- ===== src/Broker/Change.antt =====
-- A specification of what one request to mcp_server/src/broker.ts may do to the topics, and the
-- proof that every request does no more.
use cccollab.Base.{String, ◌≡◌, Bool, true, none, some, List, [], ◌∷◌, ◌++◌}
use cccollab.Base.Assoc.{Assoc, lookup, set, map_values}
use cccollab.Base.StrSet.{add, remove}
use cccollab.Runtime.{Runtime}
use cccollab.Broker.State.{Broker, Env, LocalTopic, active, archived}
use cccollab.Broker.Members.{leave_topic_of}
use cccollab.Broker.Channels.{Fields, session_and_channel}
use cccollab.Broker.Topics.{find_named, fold_name, new_topic}
use cccollab.Broker.Actions.{Action, messages, join, leave, archive, unarchive, new_message}

-- The change of one topic that an action stands for: a new last message, a session joining or
-- leaving it, and the two changes of state. `reopens` says whether an unarchive is allowed.
pub data Edit (env : Env) (reopens : Bool) (t : LocalTopic) : Action → LocalTopic → Type 0 where
  posted :
      (text sender : String)
      → Edit env reopens t messages
          (record t { messages = t.messages ++ new_message env text sender ∷ [] })
  joined :
      (s : String)
      → Edit env reopens t join (record t { joined_sessions = add s t.joined_sessions })
  unjoined :
      (s : String)
      → Edit env reopens t leave (record t { joined_sessions = remove s t.joined_sessions })
  closed : Edit env reopens t archive (record t { state = archived })
  reopened : reopens ≡ true → Edit env reopens t unarchive (record t { state = active })

-- What a request may touch: one topic by an action, the making of one, the topics of the channels
-- that a session leaves, or nothing.
pub data Scope : Type 0 where
  one_topic : (id : String) (action : Action) → Scope
  creation : Scope
  departure : (session_name : String) (channels : List String) → Scope
  nowhere : Scope

-- The topics with the session taken out of those of the channels.
unfoldable pub leave_each : String → List String → Assoc LocalTopic → Assoc LocalTopic
leave_each session_name [] m = m
leave_each session_name (ch ∷ chs) m =
    leave_each session_name chs (map_values (leave_topic_of session_name ch) m)

pub leave_each-keeps {ℓ} :
    (P : Assoc LocalTopic → Type ℓ) (s : String) (cs : List String)
    → ((c : String) (m : Assoc LocalTopic) → P m → P (map_values (leave_topic_of s c) m))
    → (m : Assoc LocalTopic) → P m
    → P (leave_each s cs m)
unfolding leave_each
leave_each-keeps P s [] k m h = h
leave_each-keeps P s (c ∷ cs) k m h =
    leave_each-keeps P s cs k (map_values (leave_topic_of s c) m) (k c m h)

-- A body of POST /channels/leave names the session and the channel that it leaves.
abbrev pub left_scope : Runtime → Fields → Scope
left_scope rt body = elim (session_and_channel rt body) [
  | none ↦ nowhere
  | some (session_id, channel) ↦ departure session_id (channel ∷ [])
]

-- DELETE /sessions/<segment> names the session, which leaves all its channels.
abbrev pub removed_scope : Runtime → String → Broker → Scope
removed_scope rt segment b = elim (rt.decode_uri segment) [
  | none ↦ nowhere
  | some name ↦ elim (lookup name b.sessions) [
    | none ↦ nowhere
    | some info ↦ departure name info.channels
  ]
]

pub data Change (rt : Runtime) (env : Env) (reopens : Bool) (scope : Scope) (m : Assoc LocalTopic)
    : Assoc LocalTopic → Type 0 where
  same : Change rt env reopens scope m m
  edit :
      (id : String) {action : Action} {t t' : LocalTopic}
      → lookup id m ≡ some t
      → Edit env reopens t action t'
      → scope ≡ one_topic id action
      → Change rt env reopens scope m (set id t' m)
  leave_topics :
      (s : String) (cs : List String)
      → scope ≡ departure s cs
      → Change rt env reopens scope m (leave_each s cs m)
  create :
      (topic creator channel : String)
      → scope ≡ creation
      → find_named rt channel (fold_name rt topic) m ≡ none
      → Change rt env reopens scope m (set env.uuid (new_topic env topic creator channel) m)

-- The topics of the second state come from those of the first by a change.
abbrev pub Changes : Runtime → Env → Bool → Scope → Broker → Broker → Type 0
Changes rt env reopens scope b c = Change rt env reopens scope b.topics c.topics
