-- ===== src/Broker/Purge.antt =====
-- What DELETE /sessions/:name of mcp_server/src/broker.ts leaves of the session.
use cccollab.Base.{String, ◌≡◌, ◌∙◌, false, none, some, arith, Bool-cases, inl, inr, eq_iff}
use mathlib.Core.Path.{subst}
use cccollab.Base.Assoc.{lookup, lookup-delete}
use cccollab.Base.StrSet.{has}
use cccollab.Runtime.{Runtime}
use cccollab.Broker.State.{Broker, Response, LocalTopic}
use cccollab.Broker.Members.{remove_session_from_all_channels}
use cccollab.Broker.Channels.{is_subscribed}
use cccollab.Broker.Sessions.{delete_session}
use cccollab.Broker.Membership.{is_listed_member}
use cccollab.Broker.Invariant.{IsConsistent}
use cccollab.Broker.Handlers.{After, delete_session-IsConsistent}

delete_session-lookup :
    (rt : Runtime) (segment name : String) (b c : Broker) (res : Response)
    → rt.decode_uri segment ≡ some name
    → delete_session rt segment b ≡ some (c, res)
    → lookup name c.sessions ≡ none
unfolding delete_session
delete_session-lookup rt segment name b c res d e =
    let gone = remove_session_from_all_channels name b in
    ground (arith, d, e, lookup-delete name gone.sessions name, eq_iff name name)

absent-is_subscribed :
    (name ch : String) (b : Broker)
    → lookup name b.sessions ≡ none
    → is_subscribed name ch b ≡ false
unfolding is_subscribed
absent-is_subscribed name ch b e = rw (e, is_subscribed)

-- After a DELETE of a session from a consistent state the session is not registered, no channel
-- lists it as a member, and no topic has it among the joined.
pub delete_session_purges :
    (rt : Runtime) (segment name : String) (b c : Broker) (res : Response)
    → IsConsistent b
    → rt.decode_uri segment ≡ some name
    → delete_session rt segment b ≡ some (c, res)
    → (lookup name c.sessions ≡ none)
      × ((ch : String) → is_listed_member name ch c ≡ false)
      × ((id : String) (t : LocalTopic)
          → lookup id c.topics ≡ some t
          → has name t.joined_sessions ≡ false)
delete_session_purges rt segment name b c res h d e =
    let absent = delete_session-lookup rt segment name b c res d e in
    let k : IsConsistent c =
      subst (After IsConsistent) e (delete_session-IsConsistent rt b h segment) in
    (
      absent,
      λ ch. k.symmetric name ch ∙ absent-is_subscribed name ch c absent,
      λ id t there. elim (Bool-cases (has name t.joined_sessions)) [
        | inl in_it ↦
            cc (k.joined id t name there in_it, absent-is_subscribed name t.channel c absent)
        | inr out ↦ out
      ],
    )
