-- ===== src/Remote/Calls/Topics.antt =====
-- The topic methods of mcp_server/src/transport/remote.ts.
use cccollab.Base.{
  ℕ, String, Bool, false, true, Option, none, some, List, [], ◌∷◌, map, str_eq, if◌then◌else◌,
}
use cccollab.Base.StrSet.{add}
use cccollab.Base.Nullable.{truthy}
use cccollab.Transport.{TransportTopic, TransportTopicMessage, is_broker_uuid}
use cccollab.Remote.Backend.{
  Args, text, flag, ChannelDoc, TopicListed, TopicDoc, MessageRow, Thrown, Ref,
}
use cccollab.Remote.Errors.{has_code, convex_message}
use cccollab.Remote.State.{Remote, org_scoped_args, register_failure}
use cccollab.Remote.Calls.{
  Next, finished, waits, returned, threw, settle, fall_back, with_session, when_enabled, mutate,
  session_args, nothing, topic, topics, found_topic, history, not_ready, name_conflict, rethrown,
}

-- `this.knownTopicIds.add`
abbrev pub know : String → Remote → Remote
know id r = record r { known_topic_ids = add id r.known_topic_ids }

unfoldable pub know_all : List String → Remote → Remote
know_all [] r = r
know_all (id ∷ ids) r = know_all ids (know id r)

-- the `catch` of `createTopic`
unfoldable pub create_failed : ℕ → Thrown → Remote → Next
create_failed now e r =
    if has_code "TOPIC_NAME_CONFLICT" e
    then finished r (threw (name_conflict (convex_message e)))
    else finished (register_failure e now r) (threw (rethrown e))

-- `createdAt: new Date().toISOString()` is the time of the answer
unfoldable pub create_topic : String → String → String → Remote → Next
unfolding create_failed
create_topic session channel name r =
    with_session (threw not_ready)
      (λ id.
        waits r Ref.start (session_args id (("channel", text channel) ∷ ("topic", text name) ∷ []))
          (settle create_failed (λ now res r'. finished (know res.topic_id r') (
            returned (
              topic (record {
                id = res.topic_id;
                topic = res.name;
                channel = channel;
                creator = session;
                state = res.state;
                created_at = now;
                message_count = none;
                joined = none;
              }))))))
      r

abbrev to_topic : String → TopicListed → TransportTopic
to_topic channel t = record {
  id = t.topic_id;
  topic = t.name;
  channel = channel;
  creator = t.creator_session_id;
  state = t.state;
  created_at = t.created_at;
  message_count = t.message_count;
  joined = t.joined;
}

abbrev given_flag : String → Option Bool → Args
given_flag k none = []
given_flag k (some b) = (k, flag b) ∷ []

unfoldable pub listed_topics : Option Bool → Option String → Remote → Next
listed_topics archived none r = finished r (returned (topics []))
listed_topics archived (some channel) r =
    waits r Ref.topics_by_channel
      (org_scoped_args r (("channel", text channel) ∷ given_flag "includeArchived" archived))
      (settle (fall_back (topics [])) (λ now rows r'.
        finished (know_all (map (λ (t : TopicListed). t.topic_id) rows) r')
          (returned (topics (map (to_topic channel) rows)))))

unfoldable pub list_topics : Option String → Option Bool → Remote → Next
unfolding listed_topics
list_topics channel archived r =
    when_enabled (returned (topics [])) (listed_topics archived (truthy channel) r) r

-- `channels.find((c) => c.channelId === doc.channelId)?.name ?? ''`
unfoldable pub channel_name_of : String → List ChannelDoc → String
channel_name_of id [] = ""
channel_name_of id (c ∷ cs) = if str_eq c.channel_id id then c.name else channel_name_of id cs

-- the `catch` of `getTopicById`
unfoldable pub not_visible : ℕ → Thrown → Remote → Next
not_visible now e r =
    if has_code "NOT_SUBSCRIBED_TO_CHANNEL" e
    then finished r (returned (found_topic none))
    else if has_code "TOPIC_NOT_FOUND" e
    then finished r (returned (found_topic none))
    else finished (register_failure e now r) (returned (found_topic none))

abbrev shown_topic : TopicDoc → String → TransportTopic
shown_topic doc channel = record {
  id = doc.id;
  topic = doc.topic;
  channel = channel;
  creator = doc.creator_session_id;
  state = doc.state;
  created_at = doc.created_at;
  message_count = none;
  joined = none;
}

-- its second request, for the name of the topic's channel
unfoldable pub name_channel : ℕ → TopicDoc → Remote → Next
unfolding not_visible
name_channel now doc r = waits (know doc.id r) Ref.list_all (org_scoped_args r []) (
    settle not_visible (λ later rows r'.
      finished r'
        (returned (found_topic (some (shown_topic doc (channel_name_of doc.channel_id rows)))))))

unfoldable pub get_topic_by_id : String → Remote → Next
unfolding name_channel not_visible
get_topic_by_id id r =
    when_enabled (returned (found_topic none))
      (elim (is_broker_uuid id) [
        | true ↦ finished r (returned (found_topic none))
        | false ↦
            waits r Ref.get_by_id (org_scoped_args r (("topicId", text id) ∷ []))
              (settle not_visible name_channel)
      ])
      r

abbrev to_message : MessageRow → TransportTopicMessage
to_message m = record { sender = m.from_session_id; text = m.text; ts = m.ts }

-- `joinTopic` behind its mutation: the id is known, and the history is asked for
unfoldable pub read_joined : String → ℕ → String → Remote → Next
read_joined id now joined r =
    waits (know joined r) Ref.messages_by_topic (org_scoped_args r (("topicId", text id) ∷ [])) (
      settle (fall_back (history []))
        (λ later rows r'. finished r' (returned (history (map to_message rows)))))

unfoldable pub join_topic : String → Remote → Next
unfolding read_joined
join_topic id r =
    with_session (returned (history []))
      (λ session.
        waits r Ref.join_topic (session_args session (("topicId", text id) ∷ []))
          (settle (fall_back (history [])) (read_joined id)))
      r

unfoldable pub leave_topic : String → Remote → Next
leave_topic id r = mutate Ref.leave_topic (λ s. session_args s (("topicId", text id) ∷ [])) r

unfoldable pub archive_topic : String → Remote → Next
archive_topic id r = mutate Ref.archive (λ s. session_args s (("topicId", text id) ∷ [])) r

-- the `catch` of `unarchiveTopic`
unfoldable pub unarchive_failed : ℕ → Thrown → Remote → Next
unarchive_failed now e r =
    if has_code "TOPIC_NAME_CONFLICT" e
    then finished r (threw (name_conflict (convex_message e)))
    else finished (register_failure e now r) (returned nothing)

unfoldable pub unarchive_topic : String → Remote → Next
unfolding unarchive_failed
unarchive_topic id r =
    with_session (returned nothing)
      (λ s.
        waits r Ref.unarchive (session_args s (("topicId", text id) ∷ []))
          (settle unarchive_failed (λ now a r'. finished r' (returned nothing))))
      r

unfoldable pub send_topic_message : String → String → Remote → Next
send_topic_message id message r =
    mutate Ref.send_to_topic
      (λ s. session_args s (("topicId", text id) ∷ ("text", text message) ∷ [])) r
