-- ===== src/Remote/Proceeds/TopicCalls.antt =====
-- The topic methods of mcp_server/src/transport/remote.ts, for `Proceeds`.
use cccollab.Base.{
  ℕ, String, Bool, true, false, Option, none, some, [], ◌∷◌, map, Bool-cases, inl, inr,
}
use cccollab.Transport.{is_broker_uuid}
use cccollab.Remote.Backend.{Ref, text, Thrown, TopicDoc, TopicListed}
use cccollab.Remote.Errors.{has_code}
use cccollab.Remote.State.{Remote, org_scoped_args, register_failure}
use cccollab.Remote.Calls.{
  finished, waits, returned, Failure, not_ready, name_conflict, rethrown, settle, found_topic,
}
use cccollab.Remote.Calls.Topics
use cccollab.Remote.Calls.Topics.{know, know_all}
use cccollab.Remote.Evolves.{register_failure-Evolves}
use cccollab.Remote.Evolves.Learning.{know-Evolves, know_all-Evolves}
use cccollab.Remote.Proceeds.{
  Proceeds, ends, throws, ends_in, after, falls_back, with_session-Proceeds, when_enabled-Proceeds,
  asks,
}

module _ {A : Failure → Type 0} where
  create_failed-Proceeds :
      (taken : (message : String) → A (name_conflict message))
      (other : (e : Thrown) → A (rethrown e)) (now : ℕ) (e : Thrown) (s : Remote)
      → Proceeds A s (Topics.create_failed now e s)
  unfolding Topics.create_failed
  create_failed-Proceeds taken other now e s =
      elim (Bool-cases (has_code "TOPIC_NAME_CONFLICT" e)) [
        | inl conflict ↦ rw (conflict, Topics.create_failed) (throws s _ (taken _))
        | inr real ↦
            rw (real, Topics.create_failed)
              (after s (register_failure e now s) _ (register_failure-Evolves e now s)
                (throws (register_failure e now s) _ (other e)))
      ]

  pub unarchive_failed-Proceeds :
      (taken : (message : String) → A (name_conflict message)) (now : ℕ) (e : Thrown) (s : Remote)
      → Proceeds A s (Topics.unarchive_failed now e s)
  unfolding Topics.unarchive_failed
  unarchive_failed-Proceeds taken now e s = elim (Bool-cases (has_code "TOPIC_NAME_CONFLICT" e)) [
    | inl conflict ↦ rw (conflict, Topics.unarchive_failed) (throws s _ (taken _))
    | inr real ↦
        rw (real, Topics.unarchive_failed) (ends_in s _ _ (register_failure-Evolves e now s))
  ]

  not_visible-Proceeds :
      (now : ℕ) (e : Thrown) (s : Remote) → Proceeds A s (Topics.not_visible now e s)
  unfolding Topics.not_visible
  not_visible-Proceeds now e s = elim (Bool-cases (has_code "NOT_SUBSCRIBED_TO_CHANNEL" e)) [
    | inl hidden ↦ rw (hidden, Topics.not_visible) (ends s _)
    | inr other ↦
        rw (other, Topics.not_visible)
          (elim (Bool-cases (has_code "TOPIC_NOT_FOUND" e)) [
            | inl missing ↦ rw missing (ends s _)
            | inr real ↦ rw real (ends_in s _ _ (register_failure-Evolves e now s))
          ])
  ]

  pub create_topic-Proceeds :
      A not_ready
      → ((message : String) → A (name_conflict message))
      → ((e : Thrown) → A (rethrown e))
      → (session channel name : String) (r : Remote)
      → Proceeds A r (Topics.create_topic session channel name r)
  unfolding Topics.create_topic
  create_topic-Proceeds unready taken other session channel name r =
      with_session-Proceeds _ _ r unready (λ id.
        asks r _ _ _ _ (create_failed-Proceeds taken other)
          (λ now res s. ends_in s _ _ (know-Evolves s res.topic_id)))

  pub listed_topics-Proceeds :
      (archived : Option Bool) (channel : Option String) (r : Remote)
      → Proceeds A r (Topics.listed_topics archived channel r)
  unfolding Topics.listed_topics
  listed_topics-Proceeds archived none r = ends r _
  listed_topics-Proceeds archived (some channel) r = asks r _ _ _ _ (falls_back _) (λ now rows s.
      ends_in s _ _ (know_all-Evolves (map (λ (t : TopicListed). t.topic_id) rows) s))

  name_channel-Proceeds :
      (now : ℕ) (doc : TopicDoc) (s : Remote) → Proceeds A s (Topics.name_channel now doc s)
  unfolding Topics.name_channel
  name_channel-Proceeds now doc s = after s (know doc.id s) _ (know-Evolves s doc.id) (
      asks (know doc.id s) Ref.list_all (org_scoped_args s []) _ _ not_visible-Proceeds
        (λ later rows t. ends t _))

  pub get_topic_by_id-Proceeds :
      (id : String) (r : Remote) → Proceeds A r (Topics.get_topic_by_id id r)
  unfolding Topics.get_topic_by_id
  get_topic_by_id-Proceeds id r = when_enabled-Proceeds _ _ r tt (go (is_broker_uuid id))
    where
      go :
          (b : Bool)
          → Proceeds A r (elim b [
            | true ↦ finished r (returned (found_topic none))
            | false ↦
                waits r Ref.get_by_id
                  (org_scoped_args r (("topicId", text id) ∷ []))
                  (settle Topics.not_visible Topics.name_channel)
          ])
      go true = ends r _
      go false = asks r _ _ _ _ not_visible-Proceeds name_channel-Proceeds

  pub read_joined-Proceeds :
      (id : String) (now : ℕ) (joined : String) (s : Remote)
      → Proceeds A s (Topics.read_joined id now joined s)
  unfolding Topics.read_joined
  read_joined-Proceeds id now joined s =
      after s (know joined s) _ (know-Evolves s joined)
        (asks (know joined s) Ref.messages_by_topic _ _ _ (falls_back _) (λ later rows t. ends t _))
