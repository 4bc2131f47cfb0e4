-- ===== src/Remote/Calls.antt =====
-- The methods of mcp_server/src/transport/remote.ts up to their awaits. Between a request and its
-- answer anything may happen to the transport, so a continuation takes the state that it finds.
pub mod Channels
pub mod Topics
pub mod Sessions
pub mod Start
use cccollab.Base.{ℕ, String, Bool, true, false, Option, none, some, List, [], ◌∷◌}
use cccollab.Base.Assoc.{Assoc}
use cccollab.Transport.{
  TransportChannel, TransportSession, TransportTopic, TransportTopicMessage, TransportHistoryPage,
}
use cccollab.Remote.Backend.{
  Ref, Args, Arg, Answer, Organization, Thrown, Reply, resolved, rejected, text,
}
use cccollab.Remote.State.{Remote, register_failure}

-- What a method resolves with.
pub data Value : Type 0 where
  nothing : Value
  subscriber_count : ℕ → Value
  channels : List TransportChannel → Value
  organizations : List Organization → Value
  organization_name : Option String → Value
  topic : TransportTopic → Value
  topics : List TransportTopic → Value
  found_topic : Option TransportTopic → Value
  history : List TransportTopicMessage → Value
  sessions : List TransportSession → Value
  page : TransportHistoryPage → Value

-- What it throws: one of its own two errors, `TopicNameConflictError`, or what the client threw.
pub data Failure : Type 0 where
  disabled not_ready : Failure
  name_conflict : (message : String) → Failure
  rethrown : Thrown → Failure

pub data Outcome : Type 0 where
  returned : Value → Outcome
  threw : Failure → Outcome

-- A method has ended, or it waits for the answer to a request; the time is that of the answer.
pub data Next : Type 0 where
  finished : Remote → Outcome → Next
  waits : Remote → (ref : Ref) → Args → (Remote → ℕ → Reply (Answer ref) → Next) → Next

-- the state that a method leaves behind where it ends or awaits
abbrev pub state_of : Next → Remote
state_of (finished r o) = r
state_of (waits r ref args k) = r

-- `try { await client.mutation(…) } catch`, with what the two go on to
unfoldable pub settle :
    {A : Type 0}
    → (ℕ → Thrown → Remote → Next)
    → (ℕ → A → Remote → Next)
    → Remote
    → ℕ
    → Reply A
    → Next
settle fail done r now (resolved a) = done now a r
settle fail done r now (rejected e) = fail now e r

-- the `catch` of a method that returns a value for "nothing"
unfoldable pub fall_back : Value → ℕ → Thrown → Remote → Next
fall_back v now e r = finished (register_failure e now r) (returned v)

-- the guard `!this.enabled || this.sessionId === null`
unfoldable pub with_session : Outcome → (String → Next) → Remote → Next
with_session otherwise go r = elim r.enabled [
  | false ↦ finished r otherwise
  | true ↦ elim r.session_id [ none ↦ finished r otherwise | some id ↦ go id ]
]

-- the guard `!this.enabled`
unfoldable pub when_enabled : Outcome → Next → Remote → Next
when_enabled otherwise go r = elim r.enabled [ false ↦ finished r otherwise | true ↦ go ]

-- a method that makes one mutation for the session and reads nothing of its answer
unfoldable pub mutate : Ref → (String → Args) → Remote → Next
unfolding settle fall_back with_session
mutate ref args r =
    with_session (returned nothing)
      (λ id.
        waits r ref (args id)
          (settle (fall_back nothing) (λ now a r'. finished r' (returned nothing))))
      r

abbrev pub session_args : String → Args → Args
session_args id rest = ("sessionId", text id) ∷ rest
