-- ===== src/Broker/Preserve.antt =====
-- What else the handlers of mcp_server/src/broker.ts do to the maps keeps them consistent.
use cccollab.Base.{
  ℕ, String, ◌≡◌, refl, sym, ◌∙◌, true, false, not, ◌&&◌, Option, List, [], ◌∷◌, arith, eq_iff,
  Option-cases, inl, inr,
}
use cccollab.Base.Assoc.{lookup, set, delete, lookup-set, lookup-delete}
use cccollab.Base.StrSet.{has, has-ne-nil}
use cccollab.Broker.State.{Broker, Env, Event, SessionInfo, LocalTopic}
use cccollab.Broker.Members.{broadcast, leave_channel, leave_all, remove_session_from_all_channels}
use cccollab.Broker.Channels.{is_subscribed}
use cccollab.Broker.Actions.{put_topic}
use cccollab.Broker.Sessions.{registered}
use cccollab.Broker.Membership.{is_listed_member, is_subscribed-leave}
use cccollab.Broker.Invariant.{IsConsistent, leave-IsConsistent}

pub broadcast-IsConsistent :
    (env : Env) (event : Event) (b : Broker) → IsConsistent b → IsConsistent (broadcast env event b)
unfolding broadcast is_subscribed is_listed_member
broadcast-IsConsistent env event b h = record {
  symmetric = h.symmetric;
  no_empty = h.no_empty;
  joined = h.joined;
}

pub put_topic-IsConsistent :
    (id : String) (t : LocalTopic) (b : Broker)
    → IsConsistent b
    → ((s : String) → has s t.joined_sessions ≡ true → is_subscribed s t.channel b ≡ true)
    → IsConsistent (put_topic id t b)
unfolding is_subscribed is_listed_member
put_topic-IsConsistent id t b h k = record {
  symmetric = h.symmetric;
  no_empty = h.no_empty;
  joined =
      λ id' t' s e m. ground (arith, lookup-set id t b.topics id', h.joined id' t' s, k s, e, m);
}

set_session-same :
    (name : String) (info : SessionInfo) (b : Broker) (s c : String)
    → has c info.channels ≡ is_subscribed name c b
    → is_subscribed s c (record b { sessions = set name info b.sessions }) ≡ is_subscribed s c b
unfolding is_subscribed
set_session-same name info b s c k =
    ground (arith, lookup-set name info b.sessions s, eq_iff name s, k)

-- A session entry that changes no session's channels.
pub set_session-IsConsistent :
    (name : String) (info : SessionInfo) (b : Broker)
    → IsConsistent b
    → ((c : String) → has c info.channels ≡ is_subscribed name c b)
    → IsConsistent (record b { sessions = set name info b.sessions })
unfolding is_listed_member
set_session-IsConsistent name info b h k = record {
  symmetric = λ s c. h.symmetric s c ∙ sym (set_session-same name info b s c (k c));
  no_empty = h.no_empty;
  joined =
      λ id t s e m. set_session-same name info b s t.channel (k t.channel) ∙ h.joined id t s e m;
}

delete_entry-same :
    (name : String) (b : Broker) (s c : String)
    → is_subscribed name c b ≡ false
    → is_subscribed s c (record b { sessions = delete name b.sessions }) ≡ is_subscribed s c b
unfolding is_subscribed
delete_entry-same name b s c k = ground (arith, lookup-delete name b.sessions s, eq_iff name s, k)

pub delete_entry-IsConsistent :
    (name : String) (b : Broker)
    → IsConsistent b
    → ((c : String) → is_subscribed name c b ≡ false)
    → IsConsistent (record b { sessions = delete name b.sessions })
unfolding is_listed_member
delete_entry-IsConsistent name b h k = record {
  symmetric = λ s c. h.symmetric s c ∙ sym (delete_entry-same name b s c (k c));
  no_empty = h.no_empty;
  joined = λ id t s e m. delete_entry-same name b s t.channel (k t.channel) ∙ h.joined id t s e m;
}

leave_all-IsConsistent :
    (s : String) (cs : List String) (b : Broker) → IsConsistent b → IsConsistent (leave_all s cs b)
unfolding leave_all
leave_all-IsConsistent s [] b h = h
leave_all-IsConsistent s (c ∷ cs) b h =
    leave_all-IsConsistent s cs (leave_channel s c b).0 (leave-IsConsistent s c b h)

pub is_subscribed-leave_all :
    (s : String) (cs : List String) (b : Broker) (c : String)
    → is_subscribed s c (leave_all s cs b) ≡ (not (has c cs) && is_subscribed s c b)
unfolding leave_all has
is_subscribed-leave_all s [] b c = refl
is_subscribed-leave_all s (c' ∷ cs) b c = ground (
  arith,
  is_subscribed-leave_all s cs (leave_channel s c' b).0 c,
  is_subscribed-leave s c' b s c,
  eq_iff s s,
)

pub remove_all-IsConsistent :
    (name : String) (b : Broker)
    → IsConsistent b
    → IsConsistent (remove_session_from_all_channels name b)
unfolding remove_session_from_all_channels
remove_all-IsConsistent name b h = elim (Option-cases (lookup name b.sessions)) [
  | inl absent ↦ rw (absent, remove_session_from_all_channels) h
  | inr (info, found) ↦
      rw (found, remove_session_from_all_channels) (leave_all-IsConsistent name info.channels b h)
]

-- After it the session has no channel left.
pub remove_all-gone :
    (name : String) (b : Broker) (c : String)
    → is_subscribed name c (remove_session_from_all_channels name b) ≡ false
unfolding remove_session_from_all_channels is_subscribed
remove_all-gone name b c = elim (Option-cases (lookup name b.sessions)) [
  | inl absent ↦ ground (arith, absent)
  | inr (info, found) ↦ ground (arith, found, is_subscribed-leave_all name info.channels b c)
]

pub registered-channels :
    (now : ℕ) (name : String) (objective : Option String) (b : Broker) (c : String)
    → has c (registered now name objective (lookup name b.sessions)).channels
      ≡ is_subscribed name c b
unfolding registered is_subscribed
registered-channels now name objective b c = ground (arith, has-ne-nil c)
