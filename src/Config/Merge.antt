-- ===== src/Config/Merge.antt =====
-- mcp_server/src/config/merge.ts. The package `deepmerge` is a parameter, with what its documentation
-- says of two configurations.
pub mod Strip
use cccollab.Base.{
  ℕ, ◌+◌, String, ◌≡◌, Bool, true, false, ◌||◌, Option, none, some, List, [], ◌∷◌, if◌then◌else◌,
}
use cccollab.Base.Nullable.{or_option}
use cccollab.Base.Assoc.{Assoc, lookup, delete, contains, is_some}
use cccollab.Config.{
  CccollabConfig, LocationConfig, Value, other, auth_fields, locations_of, field_of,
}

-- One location without its credentials, and whether it had any.
unfoldable pub strip_fields : List String → Assoc Value → Assoc Value × Bool
strip_fields [] fields = (fields, false)
strip_fields (k ∷ ks) fields =
    let rest = strip_fields ks (if contains k fields then delete k fields else fields) in
    (rest.0, contains k fields || rest.1)

unfoldable pub strip_location : LocationConfig → LocationConfig × Bool
unfolding strip_fields
strip_location l =
    let stripped = strip_fields auth_fields l.fields in
    (record l { fields = stripped.0 }, stripped.1)

-- the loop over the locations, with `warnings`
unfoldable pub strip_locations : Assoc LocationConfig → Assoc LocationConfig × ℕ
unfolding strip_location
strip_locations [] = ([], 0)
strip_locations ((name, l) ∷ m) =
    let stripped = strip_location l in
    let rest = strip_locations m in
    ((name, stripped.0) ∷ rest.0, (if stripped.1 then 1 else 0) + rest.1)

unfoldable pub strip_project_credentials : CccollabConfig → CccollabConfig × ℕ
unfolding strip_locations
strip_project_credentials c = elim c.locations [
  | none ↦ (c, 0)
  | some m ↦ (record c { locations = some (strip_locations m).0 }, (strip_locations m).1)
]

-- no object, which would be merged in its turn; a project's file, whose schema is strict, has none
abbrev pub IsScalar : Option Value → Type 0
IsScalar (some (other json)) = ⊥
IsScalar _ = Unit

-- What `deepmerge(user, project)` promises: a scalar of the second wins, and maps are united by key,
-- so a location's fields are merged one by one.
pub record IsDeepMerge (merge : CccollabConfig → CccollabConfig → CccollabConfig) : Type 0 where
  pub name : (u p : CccollabConfig) → (merge u p).name ≡ or_option p.name u.name
  pub objective : (u p : CccollabConfig) → (merge u p).objective ≡ or_option p.objective u.objective
  pub fields :
      (u p : CccollabConfig) (location k : String)
      → IsScalar (field_of location k (locations_of p))
      → field_of location k (locations_of (merge u p))
        ≡ or_option (field_of location k (locations_of p)) (field_of location k (locations_of u))
