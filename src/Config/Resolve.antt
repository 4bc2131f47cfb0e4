-- ===== src/Config/Resolve.antt =====
-- mcp_server/src/config/resolve.ts. The two files, loaded and parsed (mcp_server/src/config/load.ts),
-- and the package `deepmerge` are arguments.
pub mod Credentials
use cccollab.Base.{
  String, Bool, Option, none, some, List, [], ◌∷◌, map, keep, if◌then◌else◌, str_eq,
}
use cccollab.Base.Assoc.{Assoc, lookup, set, contains}
use cccollab.Config.{
  CccollabConfig, LocationConfig, ChannelConfig, TopicConfig, Value, local_location, or_empty,
}
use cccollab.Base.StrSet.{has}
use cccollab.Config.Merge.{strip_project_credentials}
use cccollab.Config.Defaults.{Environment, apply_defaults}
use cccollab.Config.Env.{apply_env_overrides, empty_location}
use cccollab.Config.Active.{ResolvedActive, Result, ok, failed, and_then, resolve_active}

pub record ResolvedChannel : Type 0 where
  pub name : String
  pub topics : List String

-- the fields that a `ResolvedLocation` carries over
abbrev pub carried_fields : List String
carried_fields =
    "url" ∷ "authType" ∷ "accessToken" ∷ "refreshToken" ∷ "idToken" ∷ "accessTokenExpiresAt"
    ∷ "clerkIssuer" ∷ "clerkClientId" ∷ "clerkRedirectPort" ∷ "userEmail" ∷ "userId" ∷ "updatedAt"
    ∷ []

-- Its fields stay one map: a field that is missing is `undefined`.
pub record ResolvedLocation : Type 0 where
  pub name : String
  pub is_local : Bool
  pub fields : Assoc Value
  pub channels : List ResolvedChannel

pub record ResolvedConfig : Type 0 where
  pub config : CccollabConfig
  pub active : ResolvedActive
  pub project_file_path : Option String
  pub locations : List ResolvedLocation

abbrev pub keys {ℓ} : {V : Type ℓ} → Assoc V → List String
keys m = map (λ e. e.0) m

abbrev pub resolved_channel : String × ChannelConfig → ResolvedChannel
resolved_channel e = record { name = e.0; topics = keys (or_empty e.1.topics) }

abbrev pub resolved_location : String × LocationConfig → ResolvedLocation
resolved_location e = record {
  name = e.0;
  is_local = str_eq e.0 local_location;
  fields = keep (λ f. has f.0 carried_fields) e.1.fields;
  channels = map resolved_channel (or_empty e.1.channels);
}

-- `final`: the reserved location is always there
unfoldable pub with_local : CccollabConfig → CccollabConfig
with_local c =
    let m = or_empty c.locations in
    record c {
      locations =
          some (if contains local_location m then m else set local_location empty_location m);
    }

abbrev pub no_config : CccollabConfig
no_config = record { name = none; objective = none; locations = none }

-- `strippedProject`; without a project file the configuration is empty
unfoldable pub stripped_project : Option (CccollabConfig × String) → CccollabConfig
stripped_project none = no_config
stripped_project (some (project, path)) = (strip_project_credentials project).0

abbrev pub path_of : Option (CccollabConfig × String) → Option String
path_of none = none
path_of (some (project, path)) = some path

-- the configuration that `resolveActive` is asked about
unfoldable pub final_config :
    (CccollabConfig → CccollabConfig → CccollabConfig)
    → Environment
    → CccollabConfig
    → Option (CccollabConfig × String)
    → CccollabConfig
unfolding with_local stripped_project
final_config merge env user project =
    with_local
      (apply_env_overrides env (apply_defaults env (merge user (stripped_project project))))

unfoldable pub resolve_config :
    (CccollabConfig → CccollabConfig → CccollabConfig)
    → Environment
    → CccollabConfig
    → Option (CccollabConfig × String)
    → Result ResolvedConfig
unfolding final_config
resolve_config merge env user project =
    let final = final_config merge env user project in
    and_then (resolve_active final) (λ active. ok (record {
      config = final;
      active = active;
      project_file_path = path_of project;
      locations = map resolved_location (or_empty final.locations);
    }))
