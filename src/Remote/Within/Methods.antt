-- ===== src/Remote/Within/Methods.antt =====
-- The requests of each method of mcp_server/src/transport/remote.ts, counted.
use cccollab.Base.{
  ℕ, suc, String, Bool, true, false, Option, none, some, [], ◌∷◌, ◌||◌, Bool-cases, Option-cases,
  inl, inr,
}
use cccollab.Base.Nullable.{truthy}
use cccollab.Base.Assoc.{lookup}
use cccollab.Transport.{is_broker_uuid}
use cccollab.Remote.Backend.{Ref, text, Thrown, TopicDoc}
use cccollab.Remote.Errors.{has_code, is_function_not_found_error, is_auth_error}
use cccollab.Remote.State.{Remote, org_scoped_args, register_failure}
use cccollab.Remote.Calls.{
  Next, finished, waits, returned, settle, found_topic, organization_name, session_args,
}
use cccollab.Remote.Calls.Channels
use cccollab.Remote.Calls.Channels.{with_match, find_channel, resolve_channel_id, keep_id}
use cccollab.Remote.Calls.Topics
use cccollab.Remote.Calls.Sessions
use cccollab.Remote.Calls.Start.{Method, begin}
use cccollab.Remote.Within.{
  Within, ended, asks, falls_back, with_session-Within, when_enabled-Within, mutate-Within,
}

module _ (k now : ℕ) (e : Thrown) (s : Remote) where
  create_failed-Within : Within (Topics.create_failed now e s) k
  unfolding Topics.create_failed
  create_failed-Within = elim (Bool-cases (has_code "TOPIC_NAME_CONFLICT" e)) [
    | inl conflict ↦ rw (conflict, Topics.create_failed) ended
    | inr real ↦ rw (real, Topics.create_failed) ended
  ]

  unarchive_failed-Within : Within (Topics.unarchive_failed now e s) k
  unfolding Topics.unarchive_failed
  unarchive_failed-Within = elim (Bool-cases (has_code "TOPIC_NAME_CONFLICT" e)) [
    | inl conflict ↦ rw (conflict, Topics.unarchive_failed) ended
    | inr real ↦ rw (real, Topics.unarchive_failed) ended
  ]

  not_visible-Within : Within (Topics.not_visible now e s) k
  unfolding Topics.not_visible
  not_visible-Within = elim (Bool-cases (has_code "NOT_SUBSCRIBED_TO_CHANNEL" e)) [
    | inl hidden ↦ rw (hidden, Topics.not_visible) ended
    | inr other ↦
        rw (other, Topics.not_visible)
          (elim (Bool-cases (has_code "TOPIC_NOT_FOUND" e)) [
            | inl missing ↦ rw missing ended
            | inr real ↦ rw real ended
          ])
  ]

  heartbeat_failed-Within : Within (Sessions.heartbeat_failed now e s) k
  unfolding Sessions.heartbeat_failed
  heartbeat_failed-Within = elim (Bool-cases (is_function_not_found_error e || is_auth_error e)) [
    | inl real ↦ rw (real, Sessions.heartbeat_failed) ended
    | inr transient ↦ rw (transient, Sessions.heartbeat_failed) ended
  ]

with_match-Within :
    (k : ℕ) (name : String) (id : Option String) (s : Remote) (go : Option String → Remote → Next)
    → ((found : Option String) (t : Remote) → Within (go found t) k)
    → Within (with_match name id s go) k
with_match-Within k name none s go h = h none s
with_match-Within k name (some id) s go h = h (some id) (keep_id name id s)

resolve_channel_id-Within :
    (lower : String → String) (name : String) (r : Remote) (go : Option String → Remote → Next)
    → ((k : ℕ) (found : Option String) (t : Remote) → Within (go found t) (suc k))
    → Within (resolve_channel_id lower name r go) 2
unfolding resolve_channel_id
resolve_channel_id-Within lower name r go h =
    elim (Option-cases (lookup name r.channel_ids_by_name)) [
      | inr (id, there) ↦ rw (there, resolve_channel_id) (h 1 (some id) r)
      | inl absent ↦
          rw (absent, resolve_channel_id)
            (asks 1 r Ref.list_all (org_scoped_args r [])
              (λ now e t. go none (register_failure e now t))
              (λ now rows t. with_match name (find_channel lower name rows) t go)
              (λ now e t. h 0 none (register_failure e now t))
              (λ now rows t. with_match-Within 1 name (find_channel lower name rows) t go (h 0)))
    ]

channel_page-Within :
    (limit before : Option ℕ) (k : ℕ) (id : Option String) (r : Remote)
    → Within (Channels.channel_page limit before id r) (suc k)
unfolding Channels.channel_page
channel_page-Within limit before k none r = ended
channel_page-Within limit before k (some id) r =
    asks k r _ _ _ _ (falls_back k _) (λ now a s. ended)

listed_topics-Within :
    (archived : Option Bool) (channel : Option String) (r : Remote)
    → Within (Topics.listed_topics archived channel r) 2
unfolding Topics.listed_topics
listed_topics-Within archived none r = ended
listed_topics-Within archived (some channel) r =
    asks 1 r _ _ _ _ (falls_back 1 _) (λ now rows s. ended)

name_channel-Within :
    (now : ℕ) (doc : TopicDoc) (s : Remote) → Within (Topics.name_channel now doc s) 1
unfolding Topics.name_channel
name_channel-Within now doc s =
    asks 0 (Topics.know doc.id s) Ref.list_all (org_scoped_args s []) _ _ (not_visible-Within 0)
      (λ later rows t. ended)

get_topic_by_id-Within : (id : String) (r : Remote) → Within (Topics.get_topic_by_id id r) 2
unfolding Topics.get_topic_by_id
get_topic_by_id-Within id r = when_enabled-Within 2 _ _ r (go (is_broker_uuid id))
  where
    go :
        (b : Bool)
        → Within
            (elim b [
              | true ↦ finished r (returned (found_topic none))
              | false ↦
                  waits r Ref.get_by_id
                    (org_scoped_args r (("topicId", text id) ∷ []))
                    (settle Topics.not_visible Topics.name_channel)
            ])
            2
    go true = ended
    go false = asks 1 r _ _ _ _ (not_visible-Within 1) name_channel-Within

read_joined-Within :
    (id : String) (now : ℕ) (joined : String) (s : Remote)
    → Within (Topics.read_joined id now joined s) 1
unfolding Topics.read_joined
read_joined-Within id now joined s =
    asks 0 (Topics.know joined s) Ref.messages_by_topic _ _ _ (falls_back 0 _)
      (λ later rows t. ended)

introduced-Within : (now : ℕ) (id : String) (s : Remote) → Within (Sessions.introduced now id s) 1
unfolding Sessions.introduced
introduced-Within now id s =
    asks 0 (record s { session_id = some id; heartbeat = true }) Ref.list_joined_for_user _ _ _
      (λ later e u. ended) (λ later ids u. ended)

bound_name-Within : (r : Remote) → Within (Sessions.get_bound_organization_name r) 2
unfolding Sessions.get_bound_organization_name
bound_name-Within r = when_enabled-Within 2 _ _ r (go (truthy r.session_id))
  where
    go :
        (session : Option String)
        → Within
            (elim session [
              | none ↦ finished r (returned (organization_name none))
              | some id ↦ waits r Ref.get_session_context (session_args id []) (
                  settle
                    (λ now e r'. finished r' (returned (organization_name none)))
                    (λ now name r'. finished r' (returned (organization_name (some name)))))
            ])
            2
    go none = ended
    go (some id) = asks 1 r Ref.get_session_context _ _ _ (λ now e s. ended) (λ now name s. ended)

-- Whatever is answered, every method ends after two answers at most.
pub begin-Within : (lower : String → String) (m : Method) (r : Remote) → Within (begin lower m r) 2
unfolding begin
begin-Within lower (Method.introduce n o g) r =
    unfold Sessions.introduce Sessions.introduce_failed in
    when_enabled-Within 2 _ _ r (asks 1 r Ref.introduce _ _ _ (λ now e s. ended) introduced-Within)
begin-Within lower Method.heartbeat r =
    unfold Sessions.send_heartbeat in
    with_session-Within 2 _ _ r
      (λ id. asks 1 r Ref.update_last_seen _ _ _ (heartbeat_failed-Within 1) (λ now a s. ended))
begin-Within lower Method.bound_organization_name r = bound_name-Within r
begin-Within lower Method.deregister_session r =
    unfold Sessions.deregister_session in
    with_session-Within 2 _ _ r
      (λ id. asks 1 r Ref.remove _ _ _ (λ now e s. ended) (λ now a s. ended))
begin-Within lower Method.list_channels r =
    unfold Channels.list_channels in
    when_enabled-Within 2 _ _ r (asks 1 r _ _ _ _ (falls_back 1 _) (λ now rows s. ended))
begin-Within lower Method.list_organizations r =
    unfold Channels.list_organizations in
    when_enabled-Within 2 _ _ r (asks 1 r _ _ _ _ (falls_back 1 _) (λ now rows s. ended))
begin-Within lower (Method.join_channel n) r =
    unfold Channels.join_channel in
    with_session-Within 2 _ _ r (λ id. asks 1 r _ _ _ _ (falls_back 1 _) (λ now res s. ended))
begin-Within lower (Method.leave_channel n) r =
    unfold Channels.leave_channel in mutate-Within 1 _ _ r
begin-Within lower (Method.broadcast n t) r = unfold Channels.broadcast in mutate-Within 1 _ _ r
begin-Within lower (Method.create_topic s c n) r =
    unfold Topics.create_topic in
    with_session-Within 2 _ _ r
      (λ id. asks 1 r _ _ _ _ (create_failed-Within 1) (λ now res t. ended))
begin-Within lower (Method.list_topics c a) r =
    unfold Topics.list_topics in when_enabled-Within 2 _ _ r (listed_topics-Within a (truthy c) r)
begin-Within lower (Method.get_topic_by_id id) r = get_topic_by_id-Within id r
begin-Within lower (Method.join_topic id) r =
    unfold Topics.join_topic in
    with_session-Within 2 _ _ r
      (λ s. asks 1 r Ref.join_topic _ _ _ (falls_back 1 _) (read_joined-Within id))
begin-Within lower (Method.leave_topic id) r = unfold Topics.leave_topic in mutate-Within 1 _ _ r
begin-Within lower (Method.archive_topic id) r =
    unfold Topics.archive_topic in mutate-Within 1 _ _ r
begin-Within lower (Method.unarchive_topic id) r =
    unfold Topics.unarchive_topic in
    with_session-Within 2 _ _ r
      (λ s. asks 1 r Ref.unarchive _ _ _ (unarchive_failed-Within 1) (λ now a t. ended))
begin-Within lower (Method.send_topic_message id t) r =
    unfold Topics.send_topic_message in mutate-Within 1 _ _ r
begin-Within lower (Method.list_sessions c) r =
    unfold Sessions.list_sessions in
    when_enabled-Within 2 _ _ r (asks 1 r _ _ _ _ (falls_back 1 _) (λ now rows s. ended))
begin-Within lower (Method.read_channel_messages n l b) r =
    unfold Channels.read_channel_messages in
    when_enabled-Within 2 _ _ r
      (resolve_channel_id-Within lower n r _ (λ k id s. channel_page-Within l b k id s))
begin-Within lower (Method.read_topic_messages id l b) r =
    unfold Channels.read_topic_messages in
    when_enabled-Within 2 _ _ r (asks 1 r _ _ _ _ (falls_back 1 _) (λ now raw s. ended))
