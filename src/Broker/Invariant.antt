-- ===== src/Broker/Invariant.antt =====
-- The two sides of membership agree, no channel is empty, and only subscribers have joined a topic:
-- each function of mcp_server/src/broker.ts keeps this.
use mathlib.Core.Option
use cccollab.Base.{
  ℕ, String, ◌≡◌, ◌≢◌, refl, ap, sym, ◌∙◌, true, false, some, List, [], ◌∷◌, arith, eq_iff,
  Option-cases, inl, inr,
}
use cccollab.Base.Assoc.{lookup, set, lookup-set, lookup-delete, lookup-map_values}
use cccollab.Base.StrSet.{has, add, remove, has-remove}
use cccollab.Broker.State.{Broker, SessionInfo, LocalTopic}
use cccollab.Broker.Members.{members_of, join_channel, leave_channel, drop_member, leave_topic_of}
use cccollab.Broker.Channels.{is_subscribed}
use cccollab.Broker.Membership.{
  is_listed_member, is_pair, is_subscribed-join, is_listed_member-join, is_subscribed-leave,
  is_listed_member-leave, leave_absent, topics-leave,
}

-- A channel has a session as a member exactly if the session has the channel.
abbrev pub IsSymmetric : Broker → Type 0
IsSymmetric b = (s c : String) → is_listed_member s c b ≡ is_subscribed s c b

abbrev pub HasNoEmpty : Broker → Type 0
HasNoEmpty b = (c : String) (ms : List String) → lookup c b.channels ≡ some ms → ms ≢ []

-- Who has joined a topic is subscribed to its channel.
abbrev pub JoinedSubscribe : Broker → Type 0
JoinedSubscribe b =
    (id : String) (t : LocalTopic) (s : String)
    → lookup id b.topics ≡ some t
    → has s t.joined_sessions ≡ true
    → is_subscribed s t.channel b ≡ true

pub record IsConsistent (b : Broker) : Type 0 where
  pub symmetric : IsSymmetric b
  pub no_empty : HasNoEmpty b
  pub joined : JoinedSubscribe b

add-ne-nil : (k : String) (xs : List String) → add k xs ≢ []
unfolding add has
add-ne-nil k [] = ground arith
add-ne-nil k (x ∷ xs) = ground arith

join-HasNoEmpty :
    (now : ℕ) (s c : String) (b : Broker) → HasNoEmpty b → HasNoEmpty (join_channel now s c b).0
unfolding join_channel
join-HasNoEmpty now s c b h c' ms e = ground (
  arith,
  lookup-set c (add s (members_of c b)) b.channels c',
  h c' ms,
  add-ne-nil s (members_of c b),
  e,
)

pub join-IsConsistent :
    (now : ℕ) (s c : String) (b : Broker) → IsConsistent b → IsConsistent (join_channel now s c b).0
join-IsConsistent now s c b h = record {
  symmetric = λ s' c'. ground (
    arith,
    is_listed_member-join now s c b s' c',
    is_subscribed-join now s c b s' c',
    h.symmetric s' c',
  );
  no_empty = join-HasNoEmpty now s c b h.no_empty;
  joined = λ id t s' e m. ground (
    arith,
    is_subscribed-join now s c b s' t.channel,
    h.joined id t s' (unfold join_channel in e) m,
  );
}

drop_member_left :
    (s c : String) (b : Broker) (members rest : List String)
    → HasNoEmpty b
    → lookup c b.channels ≡ some members
    → remove s members ≡ rest
    → HasNoEmpty (drop_member s c b)
unfolding drop_member
drop_member_left s c b members [] h found left c' ms e =
    ground (arith, found, left, h c' ms, e, lookup-delete c b.channels c')
drop_member_left s c b members (m ∷ rest) h found left c' ms e =
    ground (arith, found, left, h c' ms, e, lookup-set c (m ∷ rest) b.channels c')

drop_member-HasNoEmpty : (s c : String) (b : Broker) → HasNoEmpty b → HasNoEmpty (drop_member s c b)
unfolding drop_member
drop_member-HasNoEmpty s c b h = elim (Option-cases (lookup c b.channels)) [
  | inl absent ↦ λ c' ms e. ground (arith, absent, h c' ms, e)
  | inr (members, found) ↦ drop_member_left s c b members (remove s members) h found refl
]

leave-HasNoEmpty : (s c : String) (b : Broker) → HasNoEmpty b → HasNoEmpty (leave_channel s c b).0
unfolding leave_channel
leave-HasNoEmpty s c b h c' ms e = elim (Option-cases (lookup s b.sessions)) [
  | inl absent ↦ ground (arith, absent, h c' ms, e)
  | inr (info, found) ↦
      let info' : SessionInfo = record info { channels = remove c info.channels } in
      ground (
        arith,
        found,
        drop_member-HasNoEmpty s c (record b { sessions = set s info' b.sessions }) h c' ms,
        e,
      )
]

left_topic :
    (s c : String) (t0 t : LocalTopic) (s' : String)
    → leave_topic_of s c t0 ≡ t
    → has s' t.joined_sessions ≡ true
    → (has s' t0.joined_sessions ≡ true)
      × (t0.channel ≡ t.channel)
      × (is_pair s c s' t.channel ≡ false)
unfolding leave_topic_of
left_topic s c t0 t s' e m =
    ground
      (arith, has-remove s t0.joined_sessions s', eq_iff t0.channel c, eq_iff c t0.channel, e, m)

leave-JoinedSubscribe :
    (s c : String) (b : Broker) → JoinedSubscribe b → JoinedSubscribe (leave_channel s c b).0
leave-JoinedSubscribe s c b h id t s' e m = elim (Option-cases (lookup s b.sessions)) [
  | inl absent ↦
      let same = ap (λ r. r.0) (leave_absent s c b absent) in rw same (h id t s' (rw same at e) m)
  | inr (info, found) ↦
      let e' : Option.map (leave_topic_of s c) (lookup id b.topics) ≡ some t =
        sym (lookup-map_values (leave_topic_of s c) b.topics id)
        ∙ sym (ap (lookup id) (topics-leave s c b info found))
        ∙ e in
      elim (Option-cases (lookup id b.topics)) [
        | inl missing ↦ ground (arith, missing, e')
        | inr (t0, there) ↦ after t0 there (ground (arith, there, e'))
      ]
]
  where
    after :
        (t0 : LocalTopic)
        → lookup id b.topics ≡ some t0
        → leave_topic_of s c t0 ≡ t
        → is_subscribed s' t.channel (leave_channel s c b).0 ≡ true
    after t0 found left =
        let (m0, ch, other) = left_topic s c t0 t s' left m in
        ground (arith, is_subscribed-leave s c b s' t.channel, h id t0 s' found m0, other, ch)

pub leave-IsConsistent :
    (s c : String) (b : Broker) → IsConsistent b → IsConsistent (leave_channel s c b).0
leave-IsConsistent s c b h = record {
  symmetric = λ s' c'. ground (
    arith,
    is_listed_member-leave s c b s' c' (h.symmetric s c),
    is_subscribed-leave s c b s' c',
    h.symmetric s' c',
  );
  no_empty = leave-HasNoEmpty s c b h.no_empty;
  joined = leave-JoinedSubscribe s c b h.joined;
}
