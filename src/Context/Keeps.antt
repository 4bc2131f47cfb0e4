-- ===== src/Context/Keeps.antt =====
-- Every operation of `ActiveContext` (mcp_server/src/context.ts) keeps it well formed.
use mathlib.Core.Path.{subst}
use cccollab.Base.{String, ◌≡◌, Option, none, some, arith, Bool-cases, Option-cases, inl, inr}
use cccollab.Base.Nullable.{truthy}
use cccollab.Base.Assoc.{delete, contains, lookup-delete, lookup-set_cases}
use cccollab.Runtime.{Runtime}
use cccollab.Context.{
  ActiveContext, JoinedTopic, ChannelRef, channel_key, normalize_channel_name, forget_thread,
  set_active_channel, join_topic, leave_topic, clear_topic, is_thread,
}
use cccollab.Context.Key.{HasNoColon}
use cccollab.Context.Topics.{set-HasUniqueKeys, delete-HasUniqueKeys}
use cccollab.Context.Invariant.{IsSubscribed, IsWellFormed, kept}

-- The invariant does not read the active topic.
thread-IsWellFormed :
    (c : ActiveContext) (ts name : Option String)
    → IsWellFormed c
    → IsWellFormed (record c { active_thread_ts = ts; active_topic_name = name })
thread-IsWellFormed c ts name h = record {
  keyed = h.keyed;
  active = h.active;
  idle = h.idle;
  unique = h.unique;
  topics = h.topics;
}

pub forget_thread-IsWellFormed :
    (c : ActiveContext) → IsWellFormed c → IsWellFormed (forget_thread c)
unfolding forget_thread
forget_thread-IsWellFormed c h = elim (Option-cases (truthy c.active_thread_ts)) [
  | inl none_ ↦ rw (none_, forget_thread) h
  | inr (ts, there) ↦ elim (Bool-cases (contains ts c.joined_topics)) [
    | inl joined_ ↦ rw (there, forget_thread) (rw joined_ h)
    | inr gone ↦ rw (there, forget_thread) (rw gone (thread-IsWellFormed c none none h))
  ]
]

pub set_active-IsWellFormed :
    (rt : Runtime) (name location : String) (c : ActiveContext)
    → HasNoColon location
    → IsWellFormed c
    → IsWellFormed (kept c (set_active_channel rt name location c))
unfolding set_active_channel
set_active-IsWellFormed rt name location c hl h =
    let channel = normalize_channel_name rt name in
    elim (Bool-cases (contains (channel_key channel location) c.subscribed)) [
      | inl there ↦
          rw (there, set_active_channel)
            (record {
              keyed = h.keyed;
              active = λ r e.
                  subst (λ (r : ChannelRef). IsSubscribed c.subscribed r.name r.location)
                    (some_eq (record { name = channel; location = location }) r e) (hl, there);
              idle = λ e. absurd (ground (arith, e));
              unique = h.unique;
              topics = h.topics;
            })
      | inr missing ↦ rw (missing, set_active_channel) h
    ]
  where
    some_eq : (r r' : ChannelRef) → some r ≡ some r' → r ≡ r'
    some_eq r r' e = cc

pub join_topic-IsWellFormed :
    (rt : Runtime) (thread_ts topic_name name location : String) (c : ActiveContext)
    → HasNoColon location
    → IsWellFormed c
    → IsWellFormed (kept c (join_topic rt thread_ts topic_name name location c))
unfolding join_topic
join_topic-IsWellFormed rt thread_ts topic_name name location c hl h =
    let channel = normalize_channel_name rt name in
    let t : JoinedTopic = record {
      topic_name = topic_name;
      channel = channel;
      location = location;
    } in
    elim (Bool-cases (contains (channel_key channel location) c.subscribed)) [
      | inl there ↦
          rw (there, join_topic)
            (record {
              keyed = h.keyed;
              active = h.active;
              idle = h.idle;
              unique = set-HasUniqueKeys thread_ts t c.joined_topics h.unique;
              topics = λ ts u e. elim (lookup-set_cases thread_ts t c.joined_topics ts u e) [
                | inl (here, q) ↦
                    subst (λ (u : JoinedTopic). IsSubscribed c.subscribed u.channel u.location) q
                      (hl, there)
                | inr old ↦ h.topics ts u old
              ];
            })
      | inr missing ↦ rw (missing, join_topic) h
    ]

without_topic-IsWellFormed :
    (ts : String) (c : ActiveContext)
    → IsWellFormed c
    → IsWellFormed (record c { joined_topics = delete ts c.joined_topics })
without_topic-IsWellFormed ts c h = record {
  keyed = h.keyed;
  active = h.active;
  idle = h.idle;
  unique = delete-HasUniqueKeys ts c.joined_topics h.unique;
  topics = λ s t e. h.topics s t (ground (arith, lookup-delete ts c.joined_topics s, e));
}

pub leave_topic-IsWellFormed :
    (ts : String) (c : ActiveContext) → IsWellFormed c → IsWellFormed (leave_topic ts c)
unfolding leave_topic
leave_topic-IsWellFormed ts c h =
    let left = record c { joined_topics = delete ts c.joined_topics } in
    let k : IsWellFormed left = without_topic-IsWellFormed ts c h in
    elim (Bool-cases (is_thread ts c.active_thread_ts)) [
      | inl here ↦ rw (here, leave_topic) (thread-IsWellFormed left none none k)
      | inr other ↦ rw (other, leave_topic) k
    ]

pub clear_topic-IsWellFormed : (c : ActiveContext) → IsWellFormed c → IsWellFormed (clear_topic c)
unfolding clear_topic
clear_topic-IsWellFormed c h = elim (Option-cases (truthy c.active_thread_ts)) [
  | inl none_ ↦ rw (none_, clear_topic) (thread-IsWellFormed c none none h)
  | inr (ts, there) ↦
      rw (there, clear_topic)
        (thread-IsWellFormed (record c { joined_topics = delete ts c.joined_topics }) none none
          (without_topic-IsWellFormed ts c h))
]
