-- ===== src/Config/Tests.antt =====
-- Runs of the configuration of mcp_server/src/config, with a merge by keys in the place of the package
-- `deepmerge`.
use cccollab.Base.{
  String, ◌≡◌, ◌≢◌, ◌↔◌, refl, true, Option, none, some, [], ◌∷◌, arith, eq_iff, str_eq,
  if◌then◌else◌,
}
use cccollab.Base.Nullable.{or_option, or_else}
use cccollab.Base.Assoc.{Assoc, lookup, set, lookup-set}
use cccollab.Base.StrSet.{has, add}
use cccollab.Base.Text.{trim, is_empty}
use cccollab.Config.{
  number, CccollabConfig, LocationConfig, Value, text, auth_fields, or_empty, locations_of,
  field_of,
}
use cccollab.Config.Merge.{IsDeepMerge}
use cccollab.Config.Defaults.{Environment}
use cccollab.Runtime.{of_ms}
use cccollab.Config.Save.{
  LocationAuth, stored, read_existing, write_location_auth, load_persisted_location_auth,
}
use cccollab.Config.Save.Kept.{IsKept, read_back, nothing_persisted, load-write_location_auth}
use cccollab.Config.Env.{empty_location}
use cccollab.Config.Active.{ok, only_location, has_url, resolve_active}
use cccollab.Config.Active.Spec.{location_is_active}
use cccollab.Config.Active.Unique.{resolve_active-location}
use cccollab.Config.Resolve.{final_config}
use cccollab.Config.Resolve.Credentials.{final_config-credentials}

abbrev merge_fields : Assoc Value → Assoc Value → Assoc Value
merge_fields [] u = u
merge_fields ((k, v) ∷ p) u = set k v (merge_fields p u)

abbrev fields_at : Option LocationConfig → Assoc Value
fields_at none = []
fields_at (some l) = l.fields

abbrev merge_locations : Assoc LocationConfig → Assoc LocationConfig → Assoc LocationConfig
merge_locations [] u = u
merge_locations ((n, l) ∷ p) u =
    set n (record l { fields = merge_fields l.fields (fields_at (lookup n u)) })
      (merge_locations p u)

abbrev merge_configs : CccollabConfig → CccollabConfig → CccollabConfig
merge_configs u p = record {
  name = or_option p.name u.name;
  objective = or_option p.objective u.objective;
  locations = some (merge_locations (or_empty p.locations) (or_empty u.locations));
}

lookup-merge_fields :
    (p u : Assoc Value) (k : String)
    → lookup k (merge_fields p u) ≡ or_option (lookup k p) (lookup k u)
unfolding lookup
lookup-merge_fields [] u k = refl
lookup-merge_fields ((j, v) ∷ p) u k =
    ground (arith, lookup-set j v (merge_fields p u) k, lookup-merge_fields p u k)

field_of-fields_at :
    (n k : String) (u : Assoc LocationConfig) → lookup k (fields_at (lookup n u)) ≡ field_of n k u
unfolding field_of
field_of-fields_at n k u = opened (lookup n u)
  where
    opened :
        (o : Option LocationConfig)
        → lookup k (fields_at o) ≡ elim o [ none ↦ none | some l ↦ lookup k l.fields ]
    opened none = unfold lookup in refl
    opened (some l) = refl

field_of-merge_locations :
    (p u : Assoc LocationConfig) (n k : String)
    → field_of n k (merge_locations p u) ≡ or_option (field_of n k p) (field_of n k u)
unfolding field_of lookup
field_of-merge_locations [] u n k = refl
field_of-merge_locations ((j, l) ∷ p) u n k = ground (
  arith,
  lookup-set j (record l { fields = merge_fields l.fields (fields_at (lookup j u)) })
      (merge_locations p u) n,
  lookup-merge_fields l.fields (fields_at (lookup j u)) k,
  field_of-fields_at j k u,
  field_of-merge_locations p u n k,
  eq_iff j n,
)

merge_configs-IsDeepMerge : IsDeepMerge merge_configs
unfolding locations_of
merge_configs-IsDeepMerge = record {
  name = λ u p. refl;
  objective = λ u p. refl;
  fields = λ u p n k h. field_of-merge_locations (or_empty p.locations) (or_empty u.locations) n k;
}

-- a project file that names another address and a token for the user's location
abbrev user : CccollabConfig
user = record {
  name = some "ann";
  objective = none;
  locations = some (
      (
        "work",
        record {
          fields = ("url", text "https://work") ∷ ("accessToken", text "mine") ∷ [];
          active = some true;
          channels = none;
        },
      )
      ∷ []);
}

abbrev project : CccollabConfig
project = record user {
  locations = some (
      (
        "work",
        record {
          fields = ("url", text "https://other") ∷ ("accessToken", text "theirs") ∷ [];
          active = none;
          channels = none;
        },
      )
      ∷ []);
}

abbrev env : Environment
env k = if str_eq k "CCCOLLAB_REMOTE_URL" then some "https://env" else none

abbrev token : String
token = "accessToken"

token-has : has token auth_fields ≡ true
unfolding has
token-has = refl

final_config-credentials_example :
    field_of "work" token
      (locations_of (final_config merge_configs env user (some (project, "/p/.cccollab"))))
    ≡ field_of "work" token (locations_of user)
final_config-credentials_example =
    final_config-credentials merge_configs env user (some (project, "/p/.cccollab")) "work" token
      merge_configs-IsDeepMerge token-has

user_active : resolve_active user ≡ ok (only_location "work")
unfolding resolve_active locations_of has_url is_empty trim lookup add
user_active = refl

resolve_active-location_example :
    ((only_location "work").active_location ≡ some "work")
    ↔ (location_is_active "work" (locations_of user) ≡ true)
resolve_active-location_example =
    resolve_active-location user (only_location "work") "work" user_active

abbrev work_auth : LocationAuth
work_auth = record {
  url = none;
  access_token = "a";
  refresh_token = "r";
  id_token = "i";
  access_token_expires_at = of_ms 1000;
  clerk_issuer = none;
  clerk_client_id = none;
  user_email = some "ann@work";
  user_id = none;
  updated_at = none;
}

user_read : read_existing (stored user) ≡ some user
unfolding read_existing
user_read = refl

load-write_location_auth_example :
    (n : CccollabConfig) × (l : LocationConfig) × (write_location_auth 900 "work" work_auth
        (stored user)
      ≡ some (stored n))
    × (load_persisted_location_auth (stored n) "work"
        ≡ some (
            read_back work_auth
              (or_else (load_persisted_location_auth (stored user) "work") nothing_persisted)))
    × (lookup "work" (locations_of n) ≡ some l)
    × IsKept (or_else (lookup "work" (locations_of user)) empty_location) l
    × (lookup "updatedAt" l.fields ≡ some (number (or_else work_auth.updated_at (of_ms 900))))
    × ((j : String) → j ≢ "work" → lookup j (locations_of n) ≡ lookup j (locations_of user))
    × (n.name ≡ user.name)
    × (n.objective ≡ user.objective)
load-write_location_auth_example =
    load-write_location_auth 900 "work" work_auth (stored user) user user_read
