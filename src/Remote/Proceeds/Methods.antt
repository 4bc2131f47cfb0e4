-- ===== src/Remote/Proceeds/Methods.antt =====
-- The methods of mcp_server/src/transport/remote.ts one by one, for `Proceeds`.
use cccollab.Base.{String}
use cccollab.Base.Nullable.{truthy}
use cccollab.Remote.Backend.{Ref}
use cccollab.Remote.State.{Remote}
use cccollab.Remote.Calls.{Failure, disabled, not_ready, name_conflict, rethrown}
use cccollab.Remote.Calls.Channels
use cccollab.Remote.Calls.Channels.{with_match, find_channel, resolve_channel_id, keep_id}
use cccollab.Remote.Calls.Topics
use cccollab.Remote.Calls.Topics.{know, know_all}
use cccollab.Remote.Calls.Sessions
use cccollab.Remote.Calls.Start.{Method, begin}
use cccollab.Remote.Proceeds.{
  Proceeds, ends, falls_back, with_session-Proceeds, when_enabled-Proceeds, asks, mutate-Proceeds,
}
use cccollab.Remote.Proceeds.ChannelCalls.{
  join_channel-Proceeds, resolve_channel_id-Proceeds, channel_page-Proceeds,
}
use cccollab.Remote.Proceeds.TopicCalls.{
  unarchive_failed-Proceeds, create_topic-Proceeds, listed_topics-Proceeds,
  get_topic_by_id-Proceeds, read_joined-Proceeds,
}
use cccollab.Remote.Proceeds.SessionCalls.{
  heartbeat_failed-Proceeds, introduce-Proceeds, bound_name-Proceeds,
}

-- The errors that each method may throw.
abbrev pub Allowed : Method → Failure → Type 0
Allowed (Method.introduce n o g) disabled = Unit {0}
Allowed (Method.introduce n o g) (rethrown e) = Unit {0}
Allowed (Method.create_topic s c n) not_ready = Unit {0}
Allowed (Method.create_topic s c n) (name_conflict t) = Unit {0}
Allowed (Method.create_topic s c n) (rethrown e) = Unit {0}
Allowed (Method.unarchive_topic id) (name_conflict t) = Unit {0}
Allowed m f = ⊥

-- Every method proceeds.
pub begin-Proceeds :
    (lower : String → String) (m : Method) (r : Remote) → Proceeds (Allowed m) r (begin lower m r)
unfolding begin
begin-Proceeds lower (Method.introduce n o g) r = introduce-Proceeds tt (λ e. tt) n o g r
begin-Proceeds lower Method.heartbeat r =
    unfold Sessions.send_heartbeat in
    with_session-Proceeds _ _ r tt
      (λ id. asks r Ref.update_last_seen _ _ _ heartbeat_failed-Proceeds (λ now a s. ends s _))
begin-Proceeds lower Method.bound_organization_name r = bound_name-Proceeds r
begin-Proceeds lower Method.deregister_session r =
    unfold Sessions.deregister_session in
    with_session-Proceeds _ _ r tt
      (λ id. asks r Ref.remove _ _ _ (λ now e s. ends s _) (λ now a s. ends s _))
begin-Proceeds lower Method.list_channels r =
    unfold Channels.list_channels in
    when_enabled-Proceeds _ _ r tt (asks r _ _ _ _ (falls_back _) (λ now rows s. ends s _))
begin-Proceeds lower Method.list_organizations r =
    unfold Channels.list_organizations in
    when_enabled-Proceeds _ _ r tt (asks r _ _ _ _ (falls_back _) (λ now rows s. ends s _))
begin-Proceeds lower (Method.join_channel n) r = join_channel-Proceeds n r
begin-Proceeds lower (Method.leave_channel n) r =
    unfold Channels.leave_channel in mutate-Proceeds _ _ r
begin-Proceeds lower (Method.broadcast n t) r = unfold Channels.broadcast in mutate-Proceeds _ _ r
begin-Proceeds lower (Method.create_topic s c n) r =
    create_topic-Proceeds tt (λ t. tt) (λ e. tt) s c n r
begin-Proceeds lower (Method.list_topics c a) r =
    unfold Topics.list_topics in
    when_enabled-Proceeds _ _ r tt (listed_topics-Proceeds a (truthy c) r)
begin-Proceeds lower (Method.get_topic_by_id id) r = get_topic_by_id-Proceeds id r
begin-Proceeds lower (Method.join_topic id) r =
    unfold Topics.join_topic in
    with_session-Proceeds _ _ r tt
      (λ s. asks r Ref.join_topic _ _ _ (falls_back _) (read_joined-Proceeds id))
begin-Proceeds lower (Method.leave_topic id) r = unfold Topics.leave_topic in mutate-Proceeds _ _ r
begin-Proceeds lower (Method.archive_topic id) r =
    unfold Topics.archive_topic in mutate-Proceeds _ _ r
begin-Proceeds lower (Method.unarchive_topic id) r =
    unfold Topics.unarchive_topic in
    with_session-Proceeds _ _ r tt
      (λ s. asks r Ref.unarchive _ _ _ (unarchive_failed-Proceeds (λ t. tt)) (λ now a t. ends t _))
begin-Proceeds lower (Method.send_topic_message id t) r =
    unfold Topics.send_topic_message in mutate-Proceeds _ _ r
begin-Proceeds lower (Method.list_sessions c) r =
    unfold Sessions.list_sessions in
    when_enabled-Proceeds _ _ r tt (asks r _ _ _ _ (falls_back _) (λ now rows s. ends s _))
begin-Proceeds lower (Method.read_channel_messages n l b) r =
    unfold Channels.read_channel_messages in
    when_enabled-Proceeds _ _ r tt
      (resolve_channel_id-Proceeds lower n r _ (λ id s. channel_page-Proceeds l b id s))
begin-Proceeds lower (Method.read_topic_messages id l b) r =
    unfold Channels.read_topic_messages in
    when_enabled-Proceeds _ _ r tt (asks r _ _ _ _ (falls_back _) (λ now raw s. ends s _))
