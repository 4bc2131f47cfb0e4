-- ===== src/Remote/Outcomes.antt =====
-- How the methods of mcp_server/src/transport/remote.ts end: what they may throw, and what a transport
-- that is not enabled does.
use cccollab.Base.{ℕ, String, Bool, true, false, ◌≡◌, ◌⊎◌, inl, inr, Bool-cases, ap, none, some}
use cccollab.Remote.Backend.{Answer, Reply}
use cccollab.Remote.State.{Remote}
use cccollab.Remote.Calls.{
  Next, finished, waits, Outcome, Failure, with_session, when_enabled, mutate,
}
use cccollab.Remote.Calls.Channels
use cccollab.Remote.Calls.Topics
use cccollab.Remote.Calls.Sessions
use cccollab.Remote.Calls.Start.{Method, begin}
use cccollab.Remote.Within.{EndsBy}
use cccollab.Remote.Within.Methods.{begin-Within}
use cccollab.Remote.Proceeds.{Continues, MayEnd}
use cccollab.Remote.Proceeds.Methods.{Allowed, begin-Proceeds}

-- However a method ends, after whatever answers and in whatever state it finds then.
abbrev pub EndsIn : (Failure → Type 0) → Next → Type 0
EndsIn A (finished r o) = MayEnd A o
EndsIn A (waits r ref args k) =
    (s : Remote) (now : ℕ) (reply : Reply (Answer ref)) → EndsIn A (k s now reply)

Continues-EndsIn : (A : Failure → Type 0) (n : Next) → Continues A n → EndsIn A n
Continues-EndsIn A (finished r o) h = h
Continues-EndsIn A (waits r ref args k) h =
    λ s now reply. Continues-EndsIn A (k s now reply) (h s now reply).1

abbrev EndsAtOnce : Remote → Next → Type 0
EndsAtOnce r n = (o : Outcome) × (n ≡ finished r o)

session_off :
    (o : Outcome) (go : String → Next) (r : Remote)
    → r.enabled ≡ false
    → EndsAtOnce r (with_session o go r)
unfolding with_session
session_off o go r off = (o, ap choose off)
  where
    choose : Bool → Next
    choose b = elim b [
      | false ↦ finished r o
      | true ↦ elim r.session_id [ none ↦ finished r o | some id ↦ go id ]
    ]

enabled_off :
    (o : Outcome) (go : Next) (r : Remote) → r.enabled ≡ false → EndsAtOnce r (when_enabled o go r)
unfolding when_enabled
enabled_off o go r off = (o, ap choose off)
  where
    choose : Bool → Next
    choose b = elim b [ false ↦ finished r o | true ↦ go ]

begin_off :
    (lower : String → String) (m : Method) (r : Remote)
    → r.enabled ≡ false
    → EndsAtOnce r (begin lower m r)
unfolding begin Sessions.introduce Sessions.send_heartbeat Sessions.get_bound_organization_name
    Sessions.deregister_session Sessions.list_sessions Channels.list_channels
    Channels.list_organizations Channels.join_channel Channels.leave_channel Channels.broadcast
    Channels.read_channel_messages Channels.read_topic_messages Topics.create_topic
    Topics.list_topics Topics.get_topic_by_id Topics.join_topic Topics.leave_topic
    Topics.archive_topic Topics.unarchive_topic Topics.send_topic_message
begin_off lower (Method.introduce n o g) r off = enabled_off _ _ r off
begin_off lower Method.heartbeat r off = session_off _ _ r off
begin_off lower Method.bound_organization_name r off = enabled_off _ _ r off
begin_off lower Method.deregister_session r off = session_off _ _ r off
begin_off lower Method.list_channels r off = enabled_off _ _ r off
begin_off lower Method.list_organizations r off = enabled_off _ _ r off
begin_off lower (Method.join_channel n) r off = session_off _ _ r off
begin_off lower (Method.leave_channel n) r off = unfold mutate in session_off _ _ r off
begin_off lower (Method.broadcast n t) r off = unfold mutate in session_off _ _ r off
begin_off lower (Method.create_topic s c n) r off = session_off _ _ r off
begin_off lower (Method.list_topics c a) r off = enabled_off _ _ r off
begin_off lower (Method.get_topic_by_id id) r off = enabled_off _ _ r off
begin_off lower (Method.join_topic id) r off = session_off _ _ r off
begin_off lower (Method.leave_topic id) r off = unfold mutate in session_off _ _ r off
begin_off lower (Method.archive_topic id) r off = unfold mutate in session_off _ _ r off
begin_off lower (Method.unarchive_topic id) r off = session_off _ _ r off
begin_off lower (Method.send_topic_message id t) r off = unfold mutate in session_off _ _ r off
begin_off lower (Method.list_sessions c) r off = enabled_off _ _ r off
begin_off lower (Method.read_channel_messages n l b) r off = enabled_off _ _ r off
begin_off lower (Method.read_topic_messages id l b) r off = enabled_off _ _ r off

-- No answer or error of the client is thrown on by a method, except by `introduce`, which rethrows
-- everything and throws where the transport is disabled, by `createTopic`, which rethrows, throws
-- without a session and turns a name conflict into its own error, and by `unarchiveTopic`, which
-- throws that error only. Whatever is answered, a method ends after two answers at most; that of a
-- disabled transport ends at once: it changes nothing and sends nothing.
pub begin-EndsIn :
    (lower : String → String) (m : Method) (r : Remote)
    → EndsIn (Allowed m) (begin lower m r)
      × EndsBy (begin lower m r) 2
      × ((r.enabled ≡ true) ⊎ ((o : Outcome) × (begin lower m r ≡ finished r o)))
begin-EndsIn lower m r = (
  Continues-EndsIn (Allowed m) (begin lower m r) (begin-Proceeds lower m r).continues,
  (begin-Within lower m r).ends,
  elim (Bool-cases r.enabled) [ inl on ↦ inl on | inr off ↦ inr (begin_off lower m r off) ],
)
