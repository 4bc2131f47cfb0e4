-- ===== src/Remote/Calls/Channels.antt =====
-- The channel methods of mcp_server/src/transport/remote.ts, and the history of a channel or topic.
use cccollab.Base.{
  ℕ, String, false, Option, none, some, List, [], ◌∷◌, ◌++◌, map, str_eq, if◌then◌else◌,
}
use cccollab.Base.Assoc.{lookup, set}
use cccollab.Transport.{TransportChannel, TransportHistoryMessage, TransportHistoryPage}
use cccollab.Remote.Backend.{Args, text, number, ChannelJoined, ChannelDoc, HistoryRow, RawPage}
use cccollab.Remote.Backend.{Ref}
use cccollab.Remote.State.{Remote, org_scoped_args, advance, register_failure}
use cccollab.Remote.Calls.{
  Next, finished, waits, returned, settle, fall_back, with_session, when_enabled, mutate,
  session_args, subscriber_count, channels, organizations, page,
}

abbrev pub given_text : String → Option String → Args
given_text k none = []
given_text k (some v) = (k, text v) ∷ []

abbrev pub given_number : String → Option ℕ → Args
given_number k none = []
given_number k (some n) = (k, number n) ∷ []

abbrev pub keep_id : String → String → Remote → Remote
keep_id name id r = record r { channel_ids_by_name = set name id r.channel_ids_by_name }

unfoldable pub seed_cursor : String → Option ℕ → Remote → Remote
unfolding advance
seed_cursor id none r = r
seed_cursor id (some ts) r = record r { channel_max_ts = advance id ts r.channel_max_ts }

-- what `joinChannel` keeps of the answer
unfoldable pub keep_channel : String → ChannelJoined → Remote → Remote
unfolding seed_cursor
keep_channel name res r = elim res.channel_id [
  | none ↦ r
  | some id ↦ seed_cursor id res.latest_ts (keep_id name id r)
]

unfoldable pub join_channel : String → Remote → Next
join_channel name r =
    with_session (returned (subscriber_count 0))
      (λ id. waits r Ref.join_channel (session_args id (("channel", text name) ∷ [])) (
        settle (fall_back (subscriber_count 0))
          (λ now res r'. finished (keep_channel name res r') (returned (subscriber_count 0)))))
      r

unfoldable pub leave_channel : String → Remote → Next
leave_channel name r =
    mutate Ref.leave_channel (λ id. session_args id (("channel", text name) ∷ [])) r

abbrev to_channel : ChannelDoc → TransportChannel
to_channel c = record {
  name = c.name;
  subscriber_count = c.subscriber_count;
  session_count = c.present_session_count;
  message_count = c.message_count;
}

unfoldable pub list_channels : Remote → Next
list_channels r =
    when_enabled (returned (channels []))
      (waits r Ref.list_all (org_scoped_args r []) (
        settle (fall_back (channels []))
          (λ now rows r'. finished r' (returned (channels (map to_channel rows))))))
      r

unfoldable pub list_organizations : Remote → Next
list_organizations r =
    when_enabled (returned (organizations []))
      (waits r Ref.organizations_for_user [] (
        settle (fall_back (organizations []))
          (λ now rows r'. finished r' (returned (organizations rows)))))
      r

unfoldable pub broadcast : String → String → Remote → Next
broadcast name message r =
    mutate Ref.send_to_channel
      (λ id. session_args id (("channel", text name) ∷ ("text", text message) ∷ [])) r

-- `rows.find((r) => r.name.toLowerCase() === name.toLowerCase())`
unfoldable pub find_channel : (String → String) → String → List ChannelDoc → Option String
find_channel lower name [] = none
find_channel lower name (c ∷ cs) =
    if str_eq (lower c.name) (lower name) then some c.channel_id else find_channel lower name cs

-- The end of a `listAll` lookup: the id is kept, and what needs it goes on.
abbrev pub with_match : String → Option String → Remote → (Option String → Remote → Next) → Next
with_match name none r go = go none r
with_match name (some id) r go = go (some id) (keep_id name id r)

-- `resolveChannelId`, and what follows it
unfoldable pub resolve_channel_id :
    (String → String) → String → Remote → (Option String → Remote → Next) → Next
resolve_channel_id lower name r go = elim (lookup name r.channel_ids_by_name) [
  | some id ↦ go (some id) r
  | none ↦ waits r Ref.list_all (org_scoped_args r []) (
      settle (λ now e r'. go none (register_failure e now r'))
        (λ now rows r'. with_match name (find_channel lower name rows) r' go))
]

abbrev to_history_message : HistoryRow → TransportHistoryMessage
to_history_message m = record {
  sender = m.from_session_id;
  sender_session_name = m.sender_session_name;
  text = m.text;
  ts = m.ts;
}

abbrev first_ts : List HistoryRow → Option ℕ
first_ts [] = none
first_ts (m ∷ ms) = some m.ts

-- `toHistoryPage`
unfoldable pub to_history_page : RawPage → TransportHistoryPage
to_history_page raw = record {
  messages = map to_history_message raw.messages;
  has_more = raw.has_more;
  oldest_ts = first_ts raw.messages;
}

abbrev pub no_page : TransportHistoryPage
no_page = record { messages = []; has_more = false; oldest_ts = none }

abbrev paged : Option ℕ → Option ℕ → Args
paged limit before = given_number "limit" limit ++ given_number "before" before

unfoldable pub channel_page : Option ℕ → Option ℕ → Option String → Remote → Next
unfolding to_history_page
channel_page limit before none r = finished r (returned (page no_page))
channel_page limit before (some id) r =
    waits r Ref.read_channel_history
      (org_scoped_args r (("channelId", text id) ∷ paged limit before))
      (settle (fall_back (page no_page))
        (λ now raw r'. finished r' (returned (page (to_history_page raw)))))

unfoldable pub read_channel_messages :
    (String → String) → String → Option ℕ → Option ℕ → Remote → Next
unfolding channel_page resolve_channel_id
read_channel_messages lower name limit before r =
    when_enabled (returned (page no_page))
      (resolve_channel_id lower name r (channel_page limit before)) r

unfoldable pub read_topic_messages : String → Option ℕ → Option ℕ → Remote → Next
unfolding to_history_page
read_topic_messages id limit before r =
    when_enabled (returned (page no_page))
      (waits r Ref.read_topic_history
        (org_scoped_args r (("topicId", text id) ∷ paged limit before))
        (settle (fall_back (page no_page))
          (λ now raw r'. finished r' (returned (page (to_history_page raw))))))
      r
