-- ===== src/Broker/Membership.antt =====
-- What joining and leaving a channel do to the two sides of membership: the channels that a session
-- has, and the members that a channel has.
use cccollab.Base.{
  ℕ, String, ◌≡◌, refl, Bool, false, not, ◌&&◌, ◌||◌, none, some, List, [], ◌∷◌, arith, eq_iff,
  str_eq, Option-cases, inl, inr,
}
use cccollab.Base.Assoc.{lookup, set, map_values, lookup-set, lookup-delete}
use cccollab.Base.StrSet.{has, add, remove, has-add, has-remove, has-ne-nil}
use cccollab.Broker.State.{Broker, SessionInfo}
use cccollab.Broker.Members.{
  ensure_session, members_of, join_channel, leave_channel, drop_member, leave_topic_of,
}
use cccollab.Broker.Channels.{is_subscribed}

unfoldable pub is_listed_member : String → String → Broker → Bool
is_listed_member name channel b = has name (members_of channel b)

-- the pair of a session and a channel that an operation is about
abbrev pub is_pair : String → String → String → String → Bool
is_pair s c s' c' = str_eq s s' && str_eq c c'

module _ (now : ℕ) (s c : String) (b : Broker) (s' c' : String) where
  pub is_subscribed-join :
      is_subscribed s' c' (join_channel now s c b).0 ≡ (is_pair s c s' c' || is_subscribed s' c' b)
  unfolding is_subscribed join_channel
  is_subscribed-join =
      let info = ensure_session now s b in
      ground (
        arith,
        lookup-set s (record info { channels = add c info.channels }) b.sessions s',
        has-add c info.channels c',
        eq_iff s s',
        has-ne-nil c',
      )

  pub is_listed_member-join :
      is_listed_member s' c' (join_channel now s c b).0
      ≡ (is_pair s c s' c' || is_listed_member s' c' b)
  unfolding is_listed_member join_channel
  is_listed_member-join = ground (
    arith,
    lookup-set c (add s (members_of c b)) b.channels c',
    has-add s (members_of c b) s',
    eq_iff c c',
  )

pub sessions-drop_member : (s c : String) (b : Broker) → (drop_member s c b).sessions ≡ b.sessions
unfolding drop_member
sessions-drop_member s c b = ground arith

pub topics-drop_member : (s c : String) (b : Broker) → (drop_member s c b).topics ≡ b.topics
unfolding drop_member
topics-drop_member s c b = ground arith

drop_member_found :
    (s c : String) (b : Broker) (members rest : List String) (s' c' : String)
    → lookup c b.channels ≡ some members
    → remove s members ≡ rest
    → is_listed_member s' c' (drop_member s c b)
      ≡ (not (is_pair s c s' c') && is_listed_member s' c' b)
unfolding is_listed_member drop_member
drop_member_found s c b members [] s' c' e f = ground (
  arith,
  e,
  f,
  has-remove s members s',
  lookup-delete c b.channels c',
  eq_iff c c',
  has-ne-nil s',
)
drop_member_found s c b members (m ∷ ms) s' c' e f =
    ground (arith, e, f, has-remove s members s', lookup-set c (m ∷ ms) b.channels c', eq_iff c c')

pub is_listed_member-drop_member :
    (s c : String) (b : Broker) (s' c' : String)
    → is_listed_member s' c' (drop_member s c b)
      ≡ (not (is_pair s c s' c') && is_listed_member s' c' b)
is_listed_member-drop_member s c b s' c' = elim (Option-cases (lookup c b.channels)) [
  | inl e ↦ unfold is_listed_member drop_member in ground (arith, e, eq_iff c c', has-ne-nil s')
  | inr (members, e) ↦ drop_member_found s c b members (remove s members) s' c' e refl
]

module _ (s c : String) (b : Broker) (s' c' : String) where
  pub is_subscribed-leave :
      is_subscribed s' c' (leave_channel s c b).0
      ≡ (not (is_pair s c s' c') && is_subscribed s' c' b)
  unfolding is_subscribed leave_channel
  is_subscribed-leave = elim (Option-cases (lookup s b.sessions)) [
    | inl e ↦ ground (arith, e, eq_iff s s')
    | inr (info, e) ↦
        let info' : SessionInfo = record info { channels = remove c info.channels } in
        ground (
          arith,
          e,
          sessions-drop_member s c (record b { sessions = set s info' b.sessions }),
          lookup-set s info' b.sessions s',
          has-remove c info.channels c',
          eq_iff s s',
        )
  ]

  -- A session that is not there leaves no channel, and has no channel to leave.
  pub is_listed_member-leave :
      (is_listed_member s c b ≡ is_subscribed s c b)
      → is_listed_member s' c' (leave_channel s c b).0
        ≡ (not (is_pair s c s' c') && is_listed_member s' c' b)
  unfolding is_subscribed is_listed_member leave_channel
  is_listed_member-leave sym_sc = elim (Option-cases (lookup s b.sessions)) [
    | inl e ↦ ground (arith, e, sym_sc, eq_iff s s', eq_iff c c')
    | inr (info, e) ↦
        let info' : SessionInfo = record info { channels = remove c info.channels } in
        ground (
          arith,
          e,
          is_listed_member-drop_member s c (record b { sessions = set s info' b.sessions }) s' c',
        )
  ]

module _ (s c : String) (b : Broker) where
  pub leave_absent : lookup s b.sessions ≡ none → leave_channel s c b ≡ (b, false)
  unfolding leave_channel
  leave_absent e = rw (e, leave_channel)

  pub topics-leave :
      (info : SessionInfo)
      → lookup s b.sessions ≡ some info
      → (leave_channel s c b).0.topics ≡ map_values (leave_topic_of s c) b.topics
  unfolding leave_channel
  topics-leave info e =
      let info' : SessionInfo = record info { channels = remove c info.channels } in
      ground (arith, e, topics-drop_member s c (record b { sessions = set s info' b.sessions }))
