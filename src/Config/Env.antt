-- ===== src/Config/Env.antt =====
-- mcp_server/src/config/env.ts.
pub mod Override
use cccollab.Base.{
  String, Bool, true, false, not, ◌&&◌, Option, none, some, List, [], ◌∷◌, if◌then◌else◌, str_eq,
}
use cccollab.Base.Text.{trim, is_empty}
use cccollab.Base.Nullable.{or_else, or_option, ◌>>=◌}
use cccollab.Base.Assoc.{Assoc, lookup, set, map_values}
use cccollab.Config.{
  CccollabConfig, LocationConfig, ChannelConfig, TopicConfig, Value, text, local_location, or_empty,
  is_true,
}
use cccollab.Config.Defaults.{Environment, default_remote_location_name}

unfoldable pub string_or_undefined : Option String → Option String
string_or_undefined none = none
string_or_undefined (some s) = if is_empty (trim s) then none else some s

abbrev pub clear_topic_flag : TopicConfig → TopicConfig
clear_topic_flag t = record t { active = none }

abbrev pub map_some {ℓ} : {V : Type ℓ} → (V → V) → Option (Assoc V) → Option (Assoc V)
map_some f none = none
map_some f (some m) = some (map_values f m)

abbrev pub clear_channel : ChannelConfig → ChannelConfig
clear_channel ch = record { active = none; topics = map_some clear_topic_flag ch.topics }

-- `clearActiveCascade`
unfoldable pub clear_active_cascade : LocationConfig → LocationConfig
clear_active_cascade l = record l { active = none; channels = map_some clear_channel l.channels }

abbrev pub empty_location : LocationConfig
empty_location = record { fields = []; active = none; channels = none }

-- the block under CCCOLLAB_REMOTE_URL
unfoldable pub register_remote : String → Assoc LocationConfig → Assoc LocationConfig
unfolding clear_active_cascade
register_remote url m =
    let cleared = map_values clear_active_cascade m in
    let existing = or_else (lookup default_remote_location_name cleared) empty_location in
    set default_remote_location_name
      (record existing { fields = set "url" (text url) existing.fields; active = some true })
      cleared

-- the loop of `pickAuthTarget`
unfoldable pub first_active : Assoc LocationConfig → Option String
first_active [] = none
first_active ((name, l) ∷ m) =
    if not (str_eq name local_location) && is_true l.active then some name else first_active m

-- `pickAuthTarget`: the name of the location that it returns
unfoldable pub pick_auth_target : Option (Assoc LocationConfig) → Option String
unfolding first_active
pick_auth_target none = none
pick_auth_target (some m) = elim (lookup default_remote_location_name m) [
  | some l ↦ some default_remote_location_name
  | none ↦ first_active m
]

abbrev pub set_some : String → Option String → Assoc Value → Assoc Value
set_some k none fields = fields
set_some k (some v) fields = set k (text v) fields

unfoldable pub point_location : Option String → Option String → LocationConfig → LocationConfig
point_location issuer client_id l = record l {
  fields =
      set "authType" (text "clerk")
        (set_some "clerkClientId" client_id (set_some "clerkIssuer" issuer l.fields));
}

-- The assignments to the target, a location of the map.
unfoldable pub point_target :
    Option String → Option String → Option (Assoc LocationConfig) → Option (Assoc LocationConfig)
unfolding pick_auth_target point_location
point_target issuer client_id none = none
point_target issuer client_id (some m) = elim (pick_auth_target (some m)) [
  | none ↦ some m
  | some name ↦ elim (lookup name m) [
    | none ↦ some m
    | some l ↦ some (set name (point_location issuer client_id l) m)
  ]
]

abbrev pub remote_locations :
    Option String → Option (Assoc LocationConfig) → Option (Assoc LocationConfig)
remote_locations none m = m
remote_locations (some url) m = some (register_remote url (or_empty m))

abbrev pub pointed_locations :
    Option String → Option String → Option (Assoc LocationConfig) → Option (Assoc LocationConfig)
pointed_locations none none m = m
pointed_locations issuer client_id m = point_target issuer client_id m

abbrev pub trimmed : Option String → Option String
trimmed none = none
trimmed (some s) = some (trim s)

unfoldable pub apply_env_overrides : Environment → CccollabConfig → CccollabConfig
unfolding string_or_undefined register_remote point_target
apply_env_overrides env c =
    let read = λ (k : String). string_or_undefined (env k) in
    record {
      name = or_option (trimmed (read "CCCOLLAB_NAME")) c.name;
      objective = or_option (trimmed (read "CCCOLLAB_OBJECTIVE")) c.objective;
      locations =
          pointed_locations (read "CCCOLLAB_CLERK_ISSUER") (read "CCCOLLAB_CLERK_CLIENT_ID")
            (remote_locations (read "CCCOLLAB_REMOTE_URL") c.locations);
    }
