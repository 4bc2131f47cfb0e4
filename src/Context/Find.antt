-- ===== src/Context/Find.antt =====
-- `findJoinedTopic` and the readers of mcp_server/src/context.ts.
pub mod Joined
use Prim.Native.Char.{Char, code}
use Prim.Native.String.{[], ◌∷◌}
use mathlib.Core.List
use mathlib.Core.List.{List}
use cccollab.Base.{
  String, Bool, true, false, ◌&&◌, ◌||◌, Option, none, some, not, if◌then◌else◌, eqb, str_eq,
}
use cccollab.Base.Assoc.{Assoc, lookup, values, is_some}
use cccollab.Base.Nullable.{truthy, ◌>>=◌}
use cccollab.Runtime.{Runtime}
use cccollab.Context.{
  ActiveContext, JoinedTopic, SubscribedChannel, ChannelSource, normalize_channel_name, channel_key,
  any_named,
}

-- `text.startsWith(part)`
unfoldable pub starts_with : String → String → Bool
starts_with part [] = str_eq part []
starts_with [] (c ∷ s) = true
starts_with (d ∷ part) (c ∷ s) =
    let rest = starts_with part s in if eqb (code d) (code c) then rest else false

-- `text.includes(part)`
unfoldable pub includes : String → String → Bool
unfolding starts_with
includes part [] = starts_with part []
includes part (c ∷ s) = starts_with part (c ∷ s) || includes part s

pub record FoundTopic : Type 0 where
  pub thread_ts : String
  pub topic : JoinedTopic

abbrev pub found : String → JoinedTopic → FoundTopic
found ts t = record { thread_ts = ts; topic = t }

unfoldable pub is_exact : Runtime → String → JoinedTopic → Bool
is_exact rt q t = str_eq (rt.lower t.topic_name) q

unfoldable pub is_fuzzy : Runtime → String → JoinedTopic → Bool
is_fuzzy rt q t = not (is_exact rt q t) && includes q (rt.lower t.topic_name)

-- the topics that a test holds of, in the map's order
unfoldable pub matching : (JoinedTopic → Bool) → Assoc JoinedTopic → List FoundTopic
matching p List.[] = List.[]
matching p (List.◌∷◌ (ts, t) m) =
    let rest = matching p m in if p t then List.◌∷◌ (found ts t) rest else rest

-- `exact.length === 1`, or there is no exact one and `fuzzy.length === 1`
abbrev pub pick : List FoundTopic → List FoundTopic → Option FoundTopic
pick (List.◌∷◌ t List.[]) fuzzy = some t
pick List.[] (List.◌∷◌ t List.[]) = some t
pick _ _ = none

unfoldable pub find_joined_topic : Runtime → String → ActiveContext → Option FoundTopic
unfolding matching is_exact is_fuzzy
find_joined_topic rt query c = elim (lookup query c.joined_topics) [
  | some direct ↦ some (found query direct)
  | none ↦
      let q = rt.lower query in
      pick (matching (is_exact rt q) c.joined_topics) (matching (is_fuzzy rt q) c.joined_topics)
]

-- `getChannelSource`; without a location, of the first channel with the name
unfoldable pub get_channel_source :
    Runtime → String → Option String → ActiveContext → Option ChannelSource
get_channel_source rt name location c =
    let channel = normalize_channel_name rt name in
    elim (truthy location) [
      | none ↦ (do s ← any_named channel c.subscribed; some s.source)
      | some l ↦ (do s ← lookup (channel_key channel l) c.subscribed; some s.source)
    ]

-- `getJoinedTopicLocation`
unfoldable pub get_joined_topic_location : String → ActiveContext → Option String
get_joined_topic_location thread_ts c = do t ← lookup thread_ts c.joined_topics; some t.location

abbrev every_topic : JoinedTopic → Bool
every_topic t = true

-- `getJoinedTopics`
unfoldable pub get_joined_topics : ActiveContext → List FoundTopic
get_joined_topics c = matching every_topic c.joined_topics

-- `getSubscribedChannels`
unfoldable pub get_subscribed_channels : ActiveContext → List SubscribedChannel
get_subscribed_channels c = values c.subscribed

-- `hasTopic`
unfoldable pub has_topic : ActiveContext → Bool
has_topic c = is_some c.active_thread_ts
