-- ===== src/Config/Active.antt =====
-- mcp_server/src/config/active.ts.
pub mod Spec
pub mod Channels
pub mod Unique
use cccollab.Base.{
  ℕ, String, Bool, true, false, not, ◌&&◌, ◌||◌, Option, none, some, List, [], ◌∷◌, length,
  if◌then◌else◌, str_eq, ltb,
}
use cccollab.Base.Text.{trim, is_empty}
use cccollab.Base.Nullable.{or_else}
use cccollab.Base.Assoc.{Assoc, lookup, set}
use cccollab.Base.StrSet.{add}
use cccollab.Config.{
  CccollabConfig, LocationConfig, ChannelConfig, TopicConfig, local_location, or_empty, is_true,
  as_text, locations_of,
}

pub record ActiveChannel : Type 0 where
  pub location : String
  pub name : String

pub record ActiveTopic : Type 0 where
  pub location : String
  pub channel : String
  pub name : String

pub record ResolvedActive : Type 0 where
  pub active_location : Option String
  pub active_channel : Option ActiveChannel
  pub active_topic : Option ActiveTopic

-- the errors that are thrown, with the names that their messages give
pub data ConfigError : Type 0 where
  missing_url : (location : String) → ConfigError
  many_topics : (location channel : String) → (found : List String) → ConfigError
  many_channels : (location : String) → (found : List String) → ConfigError
  many_locations : (found : List String) → ConfigError

pub data Result {ℓ} (A : Type ℓ) : Type ℓ where
  ok : A → Result A
  failed : ConfigError → Result A

abbrev pub and_then {ℓ κ} : {A : Type ℓ} {B : Type κ} → Result A → (A → Result B) → Result B
and_then (ok a) f = f a
and_then (failed e) f = failed e

-- `typeof location.url !== 'string' || location.url.trim() === ''`
unfoldable pub has_url : LocationConfig → Bool
has_url l = not (is_empty (trim (or_else (as_text (lookup "url" l.fields)) "")))

-- the first location without its url
unfoldable pub missing : Assoc LocationConfig → Option String
missing [] = none
missing ((name, l) ∷ m) =
    if not (str_eq name local_location) && not (has_url l) then some name else missing m

-- `explicitlyActiveTopics`
unfoldable pub active_topics : Assoc TopicConfig → List String
active_topics [] = []
active_topics ((name, t) ∷ m) =
    let rest = active_topics m in if is_true t.active then name ∷ rest else rest

-- What pass 1 keeps: the active channels of the location at hand, and the last topic that it saw.
pub record Seen : Type 0 where
  pub channels : List String
  pub topic : Option ActiveTopic

abbrev pub topic_of : String → String → List String → Option ActiveTopic → Option ActiveTopic
topic_of location channel (t ∷ []) topic =
    some (record { location = location; channel = channel; name = t })
topic_of location channel _ topic = topic

abbrev pub is_cons {ℓ} : {A : Type ℓ} → List A → Bool
is_cons [] = false
is_cons (x ∷ xs) = true

-- one channel of the inner loop of pass 1
unfoldable pub see_channel : String → String → ChannelConfig → Seen → Result Seen
unfolding active_topics
see_channel location name ch seen =
    let topics = active_topics (or_empty ch.topics) in
    if ltb 1 (length topics)
    then failed (many_topics location name topics)
    else ok (record {
      channels =
          if is_true ch.active || is_cons topics then add name seen.channels else seen.channels;
      topic = topic_of location name topics seen.topic;
    })

unfoldable pub see_channels : String → Assoc ChannelConfig → Seen → Result Seen
unfolding see_channel
see_channels location [] seen = ok seen
see_channels location ((name, ch) ∷ m) seen =
    and_then (see_channel location name ch seen) (λ s. see_channels location m s)

-- `activeChannelsByLocation` and `activeTopic` after pass 1
pub record Scan : Type 0 where
  pub by_location : Assoc (List String)
  pub topic : Option ActiveTopic

abbrev pub put_channels : String → List String → Assoc (List String) → Assoc (List String)
put_channels location [] m = m
put_channels location (c ∷ cs) m = set location (c ∷ cs) m

-- one location of pass 1, with its check
unfoldable pub scan_location : String → LocationConfig → Scan → Result Scan
unfolding see_channels
scan_location name l scan =
    and_then
      (see_channels name (or_empty l.channels) (record { channels = []; topic = scan.topic }))
      (λ s.
        if ltb 1 (length s.channels)
        then failed (many_channels name s.channels)
        else ok (record {
          by_location = put_channels name s.channels scan.by_location;
          topic = s.topic;
        }))

unfoldable pub scan_locations : Assoc LocationConfig → Scan → Result Scan
unfolding scan_location
scan_locations [] scan = ok scan
scan_locations ((name, l) ∷ m) scan = and_then (scan_location name l scan) (λ s. scan_locations m s)

-- pass 2
unfoldable pub active_locations :
    Assoc (List String) → Assoc LocationConfig → List String → List String
active_locations by_location [] names = names
active_locations by_location ((name, l) ∷ m) names = active_locations by_location m (
    if is_true l.active || is_cons (or_else (lookup name by_location) [])
    then add name names
    else names)

abbrev pub topic_in : String → String → Option ActiveTopic → Option ActiveTopic
topic_in location channel none = none
topic_in location channel (some t) =
    if str_eq t.location location && str_eq t.channel channel then some t else none

abbrev pub only_location : String → ResolvedActive
only_location l = record { active_location = some l; active_channel = none; active_topic = none }

-- the channel and the topic of the active location
abbrev pub in_location : String → List String → Option ActiveTopic → ResolvedActive
in_location l (c ∷ []) topic = record {
  active_location = some l;
  active_channel = some (record { location = l; name = c });
  active_topic = topic_in l c topic;
}
in_location l _ topic = only_location l

abbrev pub nothing_active : ResolvedActive
nothing_active = record { active_location = none; active_channel = none; active_topic = none }

-- what is derived from the active locations
abbrev pub derive : List String → Scan → Result ResolvedActive
derive [] scan = ok nothing_active
derive (l ∷ []) scan = ok (in_location l (or_else (lookup l scan.by_location) []) scan.topic)
derive ls scan = failed (many_locations ls)

unfoldable pub resolve_active : CccollabConfig → Result ResolvedActive
unfolding missing scan_locations active_locations
resolve_active c =
    let m = locations_of c in
    elim (missing m) [
      | some name ↦ failed (missing_url name)
      | none ↦
          and_then (scan_locations m (record { by_location = []; topic = none }))
            (λ scan. derive (active_locations scan.by_location m []) scan)
    ]
