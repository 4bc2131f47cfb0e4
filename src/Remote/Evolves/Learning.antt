-- ===== src/Remote/Evolves/Learning.antt =====
-- What the calls of mcp_server/src/transport/remote.ts remember, the transport keeps.
use cccollab.Base.{
  ℕ, ◌≤◌, String, Bool, Option, none, some, List, [], ◌∷◌, eq_iff, arith, Option-cases, inl, inr,
}
use native.Mathlib.Nat.{le_refl}
use cccollab.Base.Assoc.{Assoc, lookup, set, lookup-set}
use cccollab.Base.StrSet.{add, has-add}
use cccollab.Remote.Backend.{ChannelJoined}
use cccollab.Remote.State.{Remote, cursor, advance}
use cccollab.Remote.Calls.Channels.{seed_cursor, keep_channel, keep_id}
use cccollab.Remote.Calls.Topics.{know, know_all}
use cccollab.Remote.Feeds.{prime_topic_cursor, prime_channel_cursor}
use cccollab.Remote.Evolves.{Evolves, Evolves-refl, Evolves-trans, learning-Evolves, advance_grows}

module _ (r : Remote) where
  pub know-Evolves : (id : String) → Evolves r (know id r)
  know-Evolves id =
      learning-Evolves r r.session_id r.heartbeat (add id r.known_topic_ids) r.channel_ids_by_name
        r.topic_max_ts r.channel_max_ts (λ k h. ground (arith, has-add id r.known_topic_ids k, h))
        (λ k h. h) (λ k. le_refl _) (λ k. le_refl _)

  pub keep_id-Evolves : (name id : String) → Evolves r (keep_id name id r)
  keep_id-Evolves name id =
      learning-Evolves r r.session_id r.heartbeat r.known_topic_ids
        (set name id r.channel_ids_by_name) r.topic_max_ts r.channel_max_ts (λ k h. h)
        (λ k h. ground (arith, lookup-set name id r.channel_ids_by_name k, eq_iff name k, h))
        (λ k. le_refl _) (λ k. le_refl _)

  pub topic_cursor-Evolves :
      (ts : Assoc ℕ)
      → ((k : String) → cursor k r.topic_max_ts ≤ cursor k ts)
      → Evolves r (record r { topic_max_ts = ts })
  topic_cursor-Evolves ts grows =
      learning-Evolves r r.session_id r.heartbeat r.known_topic_ids r.channel_ids_by_name ts
        r.channel_max_ts (λ k h. h) (λ k h. h) grows (λ k. le_refl _)

  pub channel_cursor-Evolves :
      (ts : Assoc ℕ)
      → ((k : String) → cursor k r.channel_max_ts ≤ cursor k ts)
      → Evolves r (record r { channel_max_ts = ts })
  channel_cursor-Evolves ts grows =
      learning-Evolves r r.session_id r.heartbeat r.known_topic_ids r.channel_ids_by_name
        r.topic_max_ts ts (λ k h. h) (λ k h. h) (λ k. le_refl _) grows

  pub session-Evolves :
      (id : Option String) (beats : Bool)
      → Evolves r (record r { session_id = id; heartbeat = beats })
  session-Evolves id beats =
      learning-Evolves r id beats r.known_topic_ids r.channel_ids_by_name r.topic_max_ts
        r.channel_max_ts (λ k h. h) (λ k h. h) (λ k. le_refl _) (λ k. le_refl _)

  pub prime_topic_cursor-Evolves : (id : String) (ts : ℕ) → Evolves r (prime_topic_cursor id ts r)
  unfolding prime_topic_cursor
  prime_topic_cursor-Evolves id ts =
      topic_cursor-Evolves (advance id ts r.topic_max_ts) (advance_grows id ts r.topic_max_ts)

  pub prime_channel_cursor-Evolves :
      (name : String) (ts : ℕ) → Evolves r (prime_channel_cursor name ts r)
  unfolding prime_channel_cursor
  prime_channel_cursor-Evolves name ts = elim (Option-cases (lookup name r.channel_ids_by_name)) [
    | inl absent ↦ rw (absent, prime_channel_cursor) (Evolves-refl r)
    | inr (id, there) ↦
        rw (there, prime_channel_cursor)
          (channel_cursor-Evolves (advance id ts r.channel_max_ts)
            (advance_grows id ts r.channel_max_ts))
  ]

pub know_all-Evolves : (ids : List String) (r : Remote) → Evolves r (know_all ids r)
unfolding know_all
know_all-Evolves [] r = Evolves-refl r
know_all-Evolves (id ∷ ids) r = Evolves-trans (know-Evolves r id) (know_all-Evolves ids (know id r))

seed_cursor-Evolves : (id : String) (ts : Option ℕ) (r : Remote) → Evolves r (seed_cursor id ts r)
unfolding seed_cursor
seed_cursor-Evolves id none r = Evolves-refl r
seed_cursor-Evolves id (some ts) r =
    channel_cursor-Evolves r (advance id ts r.channel_max_ts) (advance_grows id ts r.channel_max_ts)

pub keep_channel-Evolves :
    (name : String) (res : ChannelJoined) (r : Remote) → Evolves r (keep_channel name res r)
unfolding keep_channel
keep_channel-Evolves name res r = elim (Option-cases res.channel_id) [
  | inl absent ↦ rw (absent, keep_channel) (Evolves-refl r)
  | inr (id, there) ↦
      rw (there, keep_channel)
        (Evolves-trans (keep_id-Evolves r name id)
          (seed_cursor-Evolves id res.latest_ts (keep_id name id r)))
]
