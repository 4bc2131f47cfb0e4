-- ===== src/Config/Merge/Strip.antt =====
-- What `stripProjectCredentials` of mcp_server/src/config/merge.ts leaves.
use cccollab.Base.{
  String, ◌≡◌, refl, Option, none, some, List, [], ◌∷◌, arith, eq_iff, str_eq, if◌then◌else◌,
}
use cccollab.Base.Assoc.{Assoc, lookup, delete, contains, lookup-delete}
use cccollab.Base.StrSet.{has}
use cccollab.Config.{
  CccollabConfig, LocationConfig, Value, auth_fields, or_empty, locations_of, field_of,
}
use cccollab.Config.Merge.{strip_fields, strip_location, strip_locations, strip_project_credentials}

lookup-delete_present :
    (j : String) (m : Assoc Value) (k : String)
    → lookup k (if contains j m then delete j m else m) ≡ (if str_eq j k then none else lookup k m)
unfolding contains
lookup-delete_present j m k = ground (arith, lookup-delete j m k, eq_iff j k)

pub lookup-strip_fields :
    (ks : List String) (fields : Assoc Value) (k : String)
    → lookup k (strip_fields ks fields).0 ≡ (if has k ks then none else lookup k fields)
unfolding strip_fields has
lookup-strip_fields [] fields k = refl
lookup-strip_fields (j ∷ ks) fields k = ground (
  arith,
  lookup-strip_fields ks (if contains j fields then delete j fields else fields) k,
  lookup-delete_present j fields k,
  eq_iff j k,
  eq_iff k j,
)

field_of-strip_locations :
    (m : Assoc LocationConfig) (n k : String)
    → field_of n k (strip_locations m).0 ≡ (if has k auth_fields then none else field_of n k m)
unfolding strip_locations strip_location lookup field_of
field_of-strip_locations [] n k = ground arith
field_of-strip_locations ((j, l) ∷ m) n k =
    ground (arith, field_of-strip_locations m n k, lookup-strip_fields auth_fields l.fields k)

stripped_parts :
    (name objective : Option String) (o : Option (Assoc LocationConfig)) (n k : String)
    → field_of n k (
        locations_of
          (strip_project_credentials
            (record { name = name; objective = objective; locations = o })).0)
      ≡ (if has k auth_fields then none else field_of n k (or_empty o))
unfolding strip_project_credentials locations_of
stripped_parts name objective none n k = unfold field_of lookup in ground arith
stripped_parts name objective (some m) n k = field_of-strip_locations m n k

-- A project's configuration without its credentials: each other field of each location is what it
-- was.
pub field_of-strip :
    (c : CccollabConfig) (n k : String)
    → field_of n k (locations_of (strip_project_credentials c).0)
      ≡ (if has k auth_fields then none else field_of n k (locations_of c))
unfolding locations_of
field_of-strip c n k = stripped_parts c.name c.objective c.locations n k
