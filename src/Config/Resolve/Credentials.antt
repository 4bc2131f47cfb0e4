-- ===== src/Config/Resolve/Credentials.antt =====
-- No project file and no environment gives a location its credentials (mcp_server/src/config).
use mathlib.Core.Path.{subst}
use cccollab.Base.{
  String, ◌≡◌, refl, sym, ◌∙◌, ap, true, false, Option, none, some, [], arith, eq_iff, str_eq,
  Bool-cases, Option-cases, inl, inr,
}
use cccollab.Base.Nullable.{or_option, or_else}
use cccollab.Base.Assoc.{Assoc, lookup, set, contains, map_values, lookup-set, lookup-map_values}
use cccollab.Base.StrSet.{has}
use cccollab.Config.{
  CccollabConfig, LocationConfig, Value, text, local_location, auth_fields, or_empty, locations_of,
  field_of,
}
use cccollab.Config.Merge.{IsScalar, IsDeepMerge}
use cccollab.Config.Merge.Strip.{field_of-strip}
use cccollab.Config.Defaults.{
  Environment, default_remote_location_name, default_remote_url, default_clerk_issuer,
  default_clerk_client_id, fill, fill_pointer, baked_location, has_non_local, default_locations,
  is_opted_out, apply_defaults,
}
use cccollab.Config.Env.{
  register_remote, clear_active_cascade, empty_location, pick_auth_target, set_some, point_location,
  point_target, remote_locations, pointed_locations, apply_env_overrides,
}
use cccollab.Config.Resolve.{stripped_project, with_local, final_config}

-- the name of a field that is no credential
abbrev IsPlain : String → Type 0
IsPlain j = has j auth_fields ≡ false

-- Writing a location with the same field changes that field of no location.
field_of-set :
    (n k : String) (l : LocationConfig) (m : Assoc LocationConfig) (j : String)
    → lookup k l.fields ≡ field_of n k m
    → field_of j k (set n l m) ≡ field_of j k m
unfolding field_of
field_of-set n k l m j e = ground (arith, lookup-set n l m j, eq_iff n j, e)

plain_differs : (j k : String) → has k auth_fields ≡ true → IsPlain j → str_eq j k ≡ false
plain_differs j k h p = elim (Bool-cases (str_eq j k)) [
  | inl same ↦ absurd (ground (arith, eq_iff j k, same, h, p))
  | inr differ ↦ differ
]

lookup-fill :
    (j v k : String) (fields : Assoc Value)
    → str_eq j k ≡ false
    → lookup k (fill j v fields) ≡ lookup k fields
unfolding fill
lookup-fill j v k fields d =
    ground (arith, lookup-set j (or_else (lookup j fields) (text v)) fields k, d)

lookup-set_other :
    (j : String) (v : Value) (k : String) (fields : Assoc Value)
    → str_eq j k ≡ false
    → lookup k (set j v fields) ≡ lookup k fields
lookup-set_other j v k fields d = ground (arith, lookup-set j v fields k, d)

lookup-set_some :
    (j : String) (o : Option String) (k : String) (fields : Assoc Value)
    → str_eq j k ≡ false
    → lookup k (set_some j o fields) ≡ lookup k fields
lookup-set_some j none k fields d = refl
lookup-set_some j (some v) k fields d = lookup-set_other j (text v) k fields d

url_IsPlain : IsPlain "url"
unfolding has
url_IsPlain = refl

auth_type_IsPlain : IsPlain "authType"
unfolding has
auth_type_IsPlain = refl

issuer_IsPlain : IsPlain "clerkIssuer"
unfolding has
issuer_IsPlain = refl

client_IsPlain : IsPlain "clerkClientId"
unfolding has
client_IsPlain = refl

module _ (k : String) (h : has k auth_fields ≡ true) where
  filled : (l : LocationConfig) → lookup k (fill_pointer l).fields ≡ lookup k l.fields
  unfolding fill_pointer
  filled l =
      lookup-fill "authType" "clerk" k _ (plain_differs "authType" k h auth_type_IsPlain)
      ∙ lookup-fill "clerkClientId" default_clerk_client_id k _
          (plain_differs "clerkClientId" k h client_IsPlain)
      ∙ lookup-fill "clerkIssuer" default_clerk_issuer k _
          (plain_differs "clerkIssuer" k h issuer_IsPlain)
      ∙ lookup-fill "url" default_remote_url k l.fields (plain_differs "url" k h url_IsPlain)

  baked : lookup k baked_location.fields ≡ none
  unfolding lookup
  baked =
      rw
        (
          plain_differs "url" k h url_IsPlain,
          plain_differs "authType" k h auth_type_IsPlain,
          plain_differs "clerkIssuer" k h issuer_IsPlain,
          plain_differs "clerkClientId" k h client_IsPlain,
        )
        refl

  pointed :
      (issuer client_id : Option String) (l : LocationConfig)
      → lookup k (point_location issuer client_id l).fields ≡ lookup k l.fields
  unfolding point_location
  pointed issuer client_id l =
      lookup-set_other "authType" (text "clerk") k _
        (plain_differs "authType" k h auth_type_IsPlain)
      ∙ lookup-set_some "clerkClientId" client_id k _
          (plain_differs "clerkClientId" k h client_IsPlain)
      ∙ lookup-set_some "clerkIssuer" issuer k l.fields
          (plain_differs "clerkIssuer" k h issuer_IsPlain)

  field_of-defaults :
      (m : Assoc LocationConfig) (n : String) → field_of n k (default_locations m) ≡ field_of n k m
  unfolding default_locations field_of
  field_of-defaults m n = elim (Option-cases (lookup default_remote_location_name m)) [
    | inr (l, there) ↦
        rw (there, default_locations)
          (field_of-set default_remote_location_name k (fill_pointer l) m n
            (filled l ∙ ground (arith, there)))
    | inl none_ ↦ elim (Bool-cases (has_non_local m)) [
      | inl other ↦ rw (none_, default_locations) (rw other refl)
      | inr alone ↦
          rw (none_, default_locations)
            (rw alone (
              field_of-set default_remote_location_name k baked_location m n
                (baked ∙ ground (arith, none_))))
    ]
  ]

  field_of-cleared :
      (m : Assoc LocationConfig) (n : String)
      → field_of n k (map_values clear_active_cascade m) ≡ field_of n k m
  unfolding field_of clear_active_cascade
  field_of-cleared m n = ground (arith, lookup-map_values clear_active_cascade m n)

  field_of-registered :
      (url : String) (m : Assoc LocationConfig) (n : String)
      → field_of n k (register_remote url m) ≡ field_of n k m
  unfolding register_remote field_of
  field_of-registered url m n =
      let cleared = map_values clear_active_cascade m in
      let existing = or_else (lookup default_remote_location_name cleared) empty_location in
      field_of-set default_remote_location_name k
        (record existing { fields = set "url" (text url) existing.fields; active = some true })
        cleared n
        (lookup-set_other "url" (text url) k existing.fields (plain_differs "url" k h url_IsPlain)
          ∙ existing_field (lookup default_remote_location_name cleared))
      ∙ field_of-cleared m n
    where
      existing_field :
          (o : Option LocationConfig)
          → lookup k (or_else o empty_location).fields
            ≡ elim o [ none ↦ none | some l ↦ lookup k l.fields ]
      existing_field none = unfold lookup in refl
      existing_field (some l) = refl

  field_of-pointed :
      (issuer client_id : Option String) (o : Option (Assoc LocationConfig)) (n : String)
      → field_of n k (or_empty (point_target issuer client_id o)) ≡ field_of n k (or_empty o)
  unfolding point_target field_of
  field_of-pointed issuer client_id none n = refl
  field_of-pointed issuer client_id (some m) n = elim (Option-cases (pick_auth_target (some m))) [
    | inl none_ ↦ rw (none_, point_target) refl
    | inr (name, target) ↦ elim (Option-cases (lookup name m)) [
      | inl gone ↦ rw (target, point_target) (rw gone refl)
      | inr (l, there) ↦
          rw (target, point_target)
            (rw there (
              field_of-set name k (point_location issuer client_id l) m n
                (pointed issuer client_id l ∙ ground (arith, there))))
    ]
  ]

  field_of-pointed_locations :
      (issuer client_id : Option String) (o : Option (Assoc LocationConfig)) (n : String)
      → field_of n k (or_empty (pointed_locations issuer client_id o)) ≡ field_of n k (or_empty o)
  field_of-pointed_locations none none o n = refl
  field_of-pointed_locations (some i) c o n = field_of-pointed (some i) c o n
  field_of-pointed_locations none (some c) o n = field_of-pointed none (some c) o n

  field_of-remote :
      (url : Option String) (o : Option (Assoc LocationConfig)) (n : String)
      → field_of n k (or_empty (remote_locations url o)) ≡ field_of n k (or_empty o)
  field_of-remote none o n = refl
  field_of-remote (some url) o n = field_of-registered url (or_empty o) n

  field_of-env :
      (env : Environment) (c : CccollabConfig) (n : String)
      → field_of n k (locations_of (apply_env_overrides env c)) ≡ field_of n k (locations_of c)
  unfolding apply_env_overrides locations_of
  field_of-env env c n =
      field_of-pointed_locations _ _ (remote_locations _ c.locations) n
      ∙ field_of-remote _ c.locations n

  field_of-apply_defaults :
      (env : Environment) (c : CccollabConfig) (n : String)
      → field_of n k (locations_of (apply_defaults env c)) ≡ field_of n k (locations_of c)
  unfolding apply_defaults locations_of
  field_of-apply_defaults env c n = elim (Bool-cases (is_opted_out env)) [
    | inl out ↦ rw (out, apply_defaults) refl
    | inr kept ↦ rw (kept, apply_defaults) (field_of-defaults (or_empty c.locations) n)
  ]

  field_of-local :
      (c : CccollabConfig) (n : String)
      → field_of n k (locations_of (with_local c)) ≡ field_of n k (locations_of c)
  unfolding with_local locations_of
  field_of-local c n = elim (Bool-cases (contains local_location (or_empty c.locations))) [
    | inl there ↦ rw (there, with_local) refl
    | inr missing ↦
        rw (missing, with_local)
          (field_of-set local_location k empty_location (or_empty c.locations) n
            (absent_field (or_empty c.locations) missing))
  ]
    where
      absent_field :
          (m : Assoc LocationConfig)
          → contains local_location m ≡ false
          → lookup k [] ≡ field_of local_location k m
      absent_field m e = unfold lookup in unfold contains in unfold field_of in ground (arith, e)

  field_of-project :
      (project : Option (CccollabConfig × String)) (n : String)
      → field_of n k (locations_of (stripped_project project)) ≡ none
  unfolding stripped_project
  field_of-project none n = unfold locations_of in unfold field_of in unfold lookup in refl
  field_of-project (some (project, path)) n = field_of-strip project n k ∙ ground (arith, h)

-- Whatever a project file and the environment say, each credential of each location of the final
-- configuration is the one of the user's file, or missing where that has none.
pub final_config-credentials :
    (merge : CccollabConfig → CccollabConfig → CccollabConfig) (env : Environment)
    (user : CccollabConfig) (project : Option (CccollabConfig × String)) (location k : String)
    → IsDeepMerge merge
    → has k auth_fields ≡ true
    → field_of location k (locations_of (final_config merge env user project))
      ≡ field_of location k (locations_of user)
unfolding final_config
final_config-credentials merge env user project location k d h =
    let p = stripped_project project in
    let merged = merge user p in
    field_of-local k h (apply_env_overrides env (apply_defaults env merged)) location
    ∙ field_of-env k h env (apply_defaults env merged) location
    ∙ field_of-apply_defaults k h env merged location
    ∙ d.fields user p location k (subst IsScalar (sym (field_of-project k h project location)) tt)
    ∙ ap (λ (o : Option Value). or_option o (field_of location k (locations_of user)))
        (field_of-project k h project location)
