-- ===== src/Context.antt =====
-- mcp_server/src/context.ts: `ActiveContext`, the channels and topics of one session. A method
-- that throws returns `none`.
pub mod Key
pub mod Topics
pub mod Invariant
pub mod Keeps
pub mod Run
pub mod Stale
pub mod Find
mod Tests
use Prim.Native.Char.{Char, code}
use Prim.Native.String
use Prim.Native.String.{[], ◌∷◌}
use mathlib.Core.List
use cccollab.Base.{
  ℕ, String, Bool, true, false, not, ◌&&◌, ◌||◌, Option, none, some, List, map, if◌then◌else◌, eqb,
  str_eq, keep,
}
use cccollab.Base.Text.{trim, is_empty}
use cccollab.Base.Nullable.{truthy, ◌>>=◌}
use cccollab.Base.Assoc.{Assoc, lookup, set, delete, contains, values, is_some}
use cccollab.Runtime.{Runtime}

pub data ChannelSource : Type 0 where
  manual fallback env cccollab_json : ChannelSource

pub record ChannelRef : Type 0 where
  pub name : String
  pub location : String

pub record SubscribedChannel : Type 0 where
  pub name : String
  pub location : String
  pub source : ChannelSource

pub record JoinedTopic : Type 0 where
  pub topic_name : String
  pub channel : String
  pub location : String

pub record ActiveContext : Type 0 where
  pub active_thread_ts : Option String
  pub active_topic_name : Option String
  pub active_channel : Option ChannelRef
  pub subscribed : Assoc SubscribedChannel
  pub joined_topics : Assoc JoinedTopic

abbrev pub empty_context : ActiveContext
empty_context = record {
  active_thread_ts = none;
  active_topic_name = none;
  active_channel = none;
  subscribed = List.[];
  joined_topics = List.[];
}

abbrev pub local_location : String
local_location = "local"

unfoldable pub normalize_channel_name : Runtime → String → String
normalize_channel_name rt raw = rt.lower (trim raw)

-- `${location}::${name}`
unfoldable pub channel_key : String → String → String
channel_key name location = String.◌++◌ location (String.◌++◌ "::" name)

-- `joinChannel`, with `becameActive`
unfoldable pub join_channel :
    Runtime → String → ChannelSource → String → ActiveContext → Option (ActiveContext × Bool)
join_channel rt name source location c =
    let channel = normalize_channel_name rt name in
    let key = channel_key channel location in
    let subscribed =
      if contains key c.subscribed
      then c.subscribed
      else set key (record { name = channel; location = location; source = source }) c.subscribed in
    if is_empty channel then none else elim c.active_channel [
      | none ↦ some (
        record c {
          subscribed = subscribed;
          active_channel = some (record { name = channel; location = location });
        },
        true,
      )
      | some r ↦ some (record c { subscribed = subscribed }, false)
    ]

unfoldable pub is_in : String → String → JoinedTopic → Bool
is_in channel location t = str_eq t.channel channel && str_eq t.location location

-- the loop that deletes a channel's joined topics
unfoldable pub drop_topics : String → String → Assoc JoinedTopic → Assoc JoinedTopic
unfolding is_in
drop_topics channel location List.[] = List.[]
drop_topics channel location (List.◌∷◌ (k, t) ts) =
    let rest = drop_topics channel location ts in
    if is_in channel location t then rest else List.◌∷◌ (k, t) rest

abbrev pub first_channel : Assoc SubscribedChannel → Option ChannelRef
first_channel List.[] = none
first_channel (List.◌∷◌ (k, s) ss) = some (record { name = s.name; location = s.location })

abbrev pub is_ref : String → String → Option ChannelRef → Bool
is_ref channel location none = false
is_ref channel location (some r) = str_eq r.name channel && str_eq r.location location

-- the reset of the active topic, once the active channel has been left
unfoldable pub forget_thread : ActiveContext → ActiveContext
forget_thread c = elim (truthy c.active_thread_ts) [
  | none ↦ c
  | some ts ↦
      if contains ts c.joined_topics
      then c
      else record c { active_thread_ts = none; active_topic_name = none }
]

-- `leaveChannel`, with `removed`
unfoldable pub leave_channel : Runtime → String → String → ActiveContext → ActiveContext × Bool
leave_channel rt name location c =
    let channel = normalize_channel_name rt name in
    let key = channel_key channel location in
    let left = record c {
      subscribed = delete key c.subscribed;
      joined_topics = drop_topics channel location c.joined_topics;
    } in
    (
      (if is_ref channel location c.active_channel
          then forget_thread (record left { active_channel = first_channel left.subscribed })
          else left),
      contains key c.subscribed,
    )

unfoldable pub set_active_channel : Runtime → String → String → ActiveContext → Option ActiveContext
set_active_channel rt name location c =
    let channel = normalize_channel_name rt name in
    if contains (channel_key channel location) c.subscribed
    then some (record c { active_channel = some (record { name = channel; location = location }) })
    else none

unfoldable pub join_topic :
    Runtime → String → String → String → String → ActiveContext → Option ActiveContext
join_topic rt thread_ts topic_name channel location c =
    let normalized = normalize_channel_name rt channel in
    if contains (channel_key normalized location) c.subscribed
    then some (record c {
      joined_topics =
          set thread_ts
            (record { topic_name = topic_name; channel = normalized; location = location })
            c.joined_topics;
      active_thread_ts = some thread_ts;
      active_topic_name = some topic_name;
    })
    else none

abbrev pub is_thread : String → Option String → Bool
is_thread ts none = false
is_thread ts (some s) = str_eq s ts

unfoldable pub leave_topic : String → ActiveContext → ActiveContext
leave_topic thread_ts c =
    let left = record c { joined_topics = delete thread_ts c.joined_topics } in
    if is_thread thread_ts c.active_thread_ts
    then record left { active_thread_ts = none; active_topic_name = none }
    else left

unfoldable pub clear_topic : ActiveContext → ActiveContext
clear_topic c = elim (truthy c.active_thread_ts) [
  | none ↦ record c { active_thread_ts = none; active_topic_name = none }
  | some ts ↦ record c {
    joined_topics = delete ts c.joined_topics;
    active_thread_ts = none;
    active_topic_name = none;
  }
]

unfoldable pub is_topic_joined : String → ActiveContext → Bool
is_topic_joined thread_ts c = contains thread_ts c.joined_topics

-- `none` is the error "No active topic"
unfoldable pub get_thread_ts : ActiveContext → Option String
get_thread_ts c = truthy c.active_thread_ts

abbrev pub any_named : String → Assoc SubscribedChannel → Option SubscribedChannel
any_named channel List.[] = none
any_named channel (List.◌∷◌ (k, s) ss) =
    if str_eq s.name channel then some s else any_named channel ss

-- `isChannelSubscribed`; without a location, at any
unfoldable pub is_channel_subscribed : Runtime → String → Option String → ActiveContext → Bool
is_channel_subscribed rt name location c =
    let channel = normalize_channel_name rt name in
    elim (truthy location) [
      | none ↦ is_some (any_named channel c.subscribed)
      | some l ↦ contains (channel_key channel l) c.subscribed
    ]

-- `getChannelLocation`: the local channel first
unfoldable pub get_channel_location : Runtime → String → ActiveContext → Option String
get_channel_location rt name c =
    let channel = normalize_channel_name rt name in
    if contains (channel_key channel local_location) c.subscribed
    then some local_location
    else (do s ← any_named channel c.subscribed; some s.location)

-- `getTopicChannel` and `getTopicLocation`
unfoldable pub get_topic_channel : ActiveContext → Option String
get_topic_channel c = do
  ts ← truthy c.active_thread_ts
  t ← lookup ts c.joined_topics
  some t.channel

unfoldable pub get_topic_location : ActiveContext → Option String
get_topic_location c = do
  ts ← truthy c.active_thread_ts
  t ← lookup ts c.joined_topics
  some t.location
