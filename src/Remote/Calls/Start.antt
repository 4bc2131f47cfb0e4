-- ===== src/Remote/Calls/Start.antt =====
-- Every asynchronous method of mcp_server/src/transport/remote.ts with its arguments.
use cccollab.Base.{ℕ, String, Bool, Option, ◌||◌, not}
use cccollab.Base.StrSet.{has}
use cccollab.Transport.{is_broker_uuid}
use cccollab.Remote.State.{Remote}
use cccollab.Remote.Calls.{Next}
use cccollab.Remote.Calls.Channels
use cccollab.Remote.Calls.Topics
use cccollab.Remote.Calls.Sessions

pub data Method : Type 0 where
  introduce : (name : String) → (objective organization : Option String) → Method
  heartbeat bound_organization_name deregister_session list_channels list_organizations : Method
  join_channel leave_channel : (name : String) → Method
  broadcast : (name text : String) → Method
  create_topic : (session channel name : String) → Method
  list_topics : (channel : Option String) → (include_archived : Option Bool) → Method
  get_topic_by_id join_topic leave_topic archive_topic unarchive_topic : (id : String) → Method
  send_topic_message : (id text : String) → Method
  list_sessions : (channel : Option String) → Method
  read_channel_messages read_topic_messages : (name : String) → (limit before : Option ℕ) → Method

unfoldable pub begin : (String → String) → Method → Remote → Next
begin lower (introduce n o g) r = Sessions.introduce n o g r
begin lower heartbeat r = Sessions.send_heartbeat r
begin lower bound_organization_name r = Sessions.get_bound_organization_name r
begin lower deregister_session r = Sessions.deregister_session r
begin lower list_channels r = Channels.list_channels r
begin lower list_organizations r = Channels.list_organizations r
begin lower (join_channel n) r = Channels.join_channel n r
begin lower (leave_channel n) r = Channels.leave_channel n r
begin lower (broadcast n t) r = Channels.broadcast n t r
begin lower (create_topic s c n) r = Topics.create_topic s c n r
begin lower (list_topics c a) r = Topics.list_topics c a r
begin lower (get_topic_by_id id) r = Topics.get_topic_by_id id r
begin lower (join_topic id) r = Topics.join_topic id r
begin lower (leave_topic id) r = Topics.leave_topic id r
begin lower (archive_topic id) r = Topics.archive_topic id r
begin lower (unarchive_topic id) r = Topics.unarchive_topic id r
begin lower (send_topic_message id t) r = Topics.send_topic_message id t r
begin lower (list_sessions c) r = Sessions.list_sessions c r
begin lower (read_channel_messages n l b) r = Channels.read_channel_messages lower n l b r
begin lower (read_topic_messages id l b) r = Channels.read_topic_messages id l b r

-- `hasTopic`
unfoldable pub has_topic : String → Remote → Bool
has_topic id r = has id r.known_topic_ids || not (is_broker_uuid id)
