-- ===== src/Remote/Proceeds/ChannelCalls.antt =====
-- The channel methods and the channel subscription of mcp_server/src/transport/remote.ts, for `Proceeds`.
use cccollab.Base.{
  ℕ, String, false, Option, none, some, [], arith, Option-cases, Bool-cases, inl, inr, not, ◌||◌,
}
use cccollab.Base.Assoc.{lookup}
use cccollab.Remote.Backend.{Ref}
use cccollab.Remote.State.{Remote, org_scoped_args, register_failure, unresolved}
use cccollab.Remote.Calls.{Next, Failure}
use cccollab.Remote.Calls.Channels
use cccollab.Remote.Calls.Channels.{with_match, find_channel, resolve_channel_id, keep_id}
use cccollab.Remote.Feeds.{
  begin_feed, subscribe_channel_messages, registered, track, fresh_subscription,
}
use cccollab.Remote.Evolves.{register_failure-Evolves}
use cccollab.Remote.Evolves.Learning.{keep_id-Evolves, keep_channel-Evolves}
use cccollab.Remote.Evolves.Feeding.{register-Evolves, track-Evolves}
use cccollab.Remote.Proceeds.{
  Proceeds, ends, ends_in, after, falls_back, with_session-Proceeds, asks,
}

module _ {A : Failure → Type 0} where
  pub join_channel-Proceeds :
      (name : String) (r : Remote) → Proceeds A r (Channels.join_channel name r)
  unfolding Channels.join_channel
  join_channel-Proceeds name r = with_session-Proceeds _ _ r tt (λ id.
      asks r _ _ _ _ (falls_back _) (λ now res s. ends_in s _ _ (keep_channel-Evolves name res s)))

  -- the end of a lookup, whatever needs the id
  with_match-Proceeds :
      (name : String) (id : Option String) (s : Remote) (go : Option String → Remote → Next)
      → ((found : Option String) (t : Remote) → Proceeds A t (go found t))
      → Proceeds A s (with_match name id s go)
  with_match-Proceeds name none s go h = h none s
  with_match-Proceeds name (some id) s go h =
      after s (keep_id name id s) _ (keep_id-Evolves s name id) (h (some id) (keep_id name id s))

  pub resolve_channel_id-Proceeds :
      (lower : String → String) (name : String) (r : Remote) (go : Option String → Remote → Next)
      → ((found : Option String) (t : Remote) → Proceeds A t (go found t))
      → Proceeds A r (resolve_channel_id lower name r go)
  unfolding resolve_channel_id
  resolve_channel_id-Proceeds lower name r go h =
      elim (Option-cases (lookup name r.channel_ids_by_name)) [
        | inr (id, there) ↦ rw (there, resolve_channel_id) (h (some id) r)
        | inl absent ↦
            rw (absent, resolve_channel_id)
              (asks r Ref.list_all (org_scoped_args r [])
                (λ now e t. go none (register_failure e now t))
                (λ now rows t. with_match name (find_channel lower name rows) t go)
                (λ now e t.
                  after t (register_failure e now t) _ (register_failure-Evolves e now t)
                    (h none (register_failure e now t)))
                (λ now rows t. with_match-Proceeds name (find_channel lower name rows) t go h))
      ]

  pub channel_page-Proceeds :
      (limit before : Option ℕ) (id : Option String) (r : Remote)
      → Proceeds A r (Channels.channel_page limit before id r)
  unfolding Channels.channel_page
  channel_page-Proceeds limit before none r = ends r _
  channel_page-Proceeds limit before (some id) r =
      asks r _ _ _ _ (falls_back _) (λ now a s. ends s _)

  registered-Proceeds :
      (handle : ℕ) (id : Option String) (r : Remote) → Proceeds A r (registered handle id r)
  registered-Proceeds handle none r = ends r _
  registered-Proceeds handle (some id) r = ends_in r _ _ (register-Evolves handle id r)

  begin_feed-Proceeds :
      (lower : String → String) (handle : ℕ) (name : String) (r : Remote)
      → Proceeds A r (begin_feed lower handle name r)
  unfolding begin_feed
  begin_feed-Proceeds lower handle name r =
      elim (Option-cases (lookup name r.channel_ids_by_name)) [
        | inr (id, there) ↦ rw (there, begin_feed) (ends_in r _ _ (register-Evolves handle id r))
        | inl absent ↦
            rw (absent, begin_feed)
              (asks r Ref.list_all _ _ _ (falls_back _) (λ now rows s.
                with_match-Proceeds name (find_channel lower name rows) s (registered handle)
                  (registered-Proceeds handle)))
      ]

  pub subscribe_channel_messages-Proceeds :
      (lower : String → String) (handle : ℕ) (name : String) (r : Remote)
      → Proceeds A r (subscribe_channel_messages lower handle name r)
  unfolding subscribe_channel_messages
  subscribe_channel_messages-Proceeds lower handle name r =
      let s = fresh_subscription handle name unresolved none [] false in
      elim (Bool-cases (not r.enabled || r.shutdown_started)) [
        | inl off ↦ rw (off, subscribe_channel_messages) (ends r _)
        | inr on ↦
            rw (on, subscribe_channel_messages)
              (after r (track s r) _ (track-Evolves s r (ground (arith, on)))
                (begin_feed-Proceeds lower handle name (track s r)))
      ]
