-- ===== src/Config/Active/Spec.antt =====
-- What is active in a configuration, as the comments of mcp_server/src/config/active.ts say it: an
-- active topic makes its channel active, and an active channel its location.
use cccollab.Base.{String, Bool, false, ◌&&◌, ◌||◌, [], ◌∷◌, str_eq}
use cccollab.Base.Assoc.{Assoc}
use cccollab.Config.{LocationConfig, ChannelConfig, TopicConfig, or_empty, is_true}

module _ {ℓ} {V : Type ℓ} where
  -- some entry of the map, or the one under a name, that a test holds of
  unfoldable pub any_entry : (V → Bool) → Assoc V → Bool
  any_entry p [] = false
  any_entry p ((k, v) ∷ m) = p v || any_entry p m

  unfoldable pub entry_at : (V → Bool) → String → Assoc V → Bool
  entry_at p n [] = false
  entry_at p n ((k, v) ∷ m) = (str_eq k n && p v) || entry_at p n m

abbrev pub is_active_topic : TopicConfig → Bool
is_active_topic t = is_true t.active

abbrev pub is_active_channel : ChannelConfig → Bool
is_active_channel ch = is_true ch.active || any_entry is_active_topic (or_empty ch.topics)

abbrev pub has_active_channel : LocationConfig → Bool
has_active_channel l = any_entry is_active_channel (or_empty l.channels)

abbrev pub is_active_location : LocationConfig → Bool
is_active_location l = is_true l.active || has_active_channel l

-- the location, the channel of a location, and the topic of a channel, by their names
abbrev pub location_is_active : String → Assoc LocationConfig → Bool
location_is_active n m = entry_at is_active_location n m

abbrev pub channel_is_active : String → String → Assoc LocationConfig → Bool
channel_is_active n ch m = entry_at (λ l. entry_at is_active_channel ch (or_empty l.channels)) n m

abbrev pub topic_is_active : String → String → String → Assoc LocationConfig → Bool
topic_is_active n ch t m =
    entry_at
      (λ l. entry_at (λ c. entry_at is_active_topic t (or_empty c.topics)) ch (or_empty l.channels))
      n m
