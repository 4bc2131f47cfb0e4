-- ===== src/Config/Defaults.antt =====
-- mcp_server/src/config/defaults.ts, with the constants of mcp_server/src/constants.ts.
pub mod Kept
use cccollab.Base.{
  String, Bool, true, false, not, ◌||◌, Option, none, some, List, [], ◌∷◌, if◌then◌else◌, str_eq,
}
use cccollab.Base.Text.{trim, is_empty}
use cccollab.Base.Nullable.{or_else}
use cccollab.Base.Assoc.{Assoc, lookup, set}
use cccollab.Config.{CccollabConfig, LocationConfig, Value, text, local_location, or_empty}

abbrev pub default_remote_location_name : String
default_remote_location_name = "remote"

abbrev pub default_remote_url : String
default_remote_url = "https://collab.kollaborativeai.com"

abbrev pub default_clerk_issuer : String
default_clerk_issuer = "https://clerk.kollaborativeai.com"

abbrev pub default_clerk_client_id : String
default_clerk_client_id = "fPDyXbk1afJeEE2S"

-- `process.env`
abbrev pub Environment : Type 0
Environment = String → Option String

-- `(env[OPT_OUT_ENV] ?? '').trim() !== ''`
unfoldable pub is_opted_out : Environment → Bool
is_opted_out env = not (is_empty (trim (or_else (env "CCCOLLAB_NO_DEFAULT_REMOTE") "")))

-- `k: existing[k] ?? value`
unfoldable pub fill : String → String → Assoc Value → Assoc Value
fill k value fields = set k (or_else (lookup k fields) (text value)) fields

unfoldable pub fill_pointer : LocationConfig → LocationConfig
unfolding fill
fill_pointer l = record l {
  fields = fill "authType" "clerk" (
      fill "clerkClientId" default_clerk_client_id
        (fill "clerkIssuer" default_clerk_issuer (fill "url" default_remote_url l.fields)));
}

abbrev pub baked_location : LocationConfig
baked_location = record {
  fields =
      ("url", text default_remote_url)
      ∷ ("authType", text "clerk")
      ∷ ("clerkIssuer", text default_clerk_issuer)
      ∷ ("clerkClientId", text default_clerk_client_id)
      ∷ [];
  active = none;
  channels = none;
}

-- `Object.keys(locations).some((name) => name !== LOCAL_LOCATION)`
unfoldable pub has_non_local : Assoc LocationConfig → Bool
has_non_local [] = false
has_non_local ((name, l) ∷ m) = not (str_eq name local_location) || has_non_local m

unfoldable pub default_locations : Assoc LocationConfig → Assoc LocationConfig
unfolding fill_pointer has_non_local
default_locations m = elim (lookup default_remote_location_name m) [
  | some existing ↦ set default_remote_location_name (fill_pointer existing) m
  | none ↦ if has_non_local m then m else set default_remote_location_name baked_location m
]

unfoldable pub apply_defaults : Environment → CccollabConfig → CccollabConfig
unfolding default_locations is_opted_out
apply_defaults env c =
    let m = or_empty c.locations in
    record c { locations = some (if is_opted_out env then m else default_locations m) }
