-- ===== src/Config/Save/Kept.antt =====
-- Writing a location's credentials and reading them back (mcp_server/src/config/save.ts).
use cccollab.Base.{
  List, ◌∷◌, All, false, ℕ, String, ◌≡◌, ◌≢◌, refl, sym, ◌∙◌, ap, Option, none, some, [],
  if◌then◌else◌, arith, eq_iff, str_eq, Option-cases, inl, inr,
}
use cccollab.Base.Nullable.{or_else, or_option}
use cccollab.Base.Assoc.{Assoc, lookup, lookup-set}
use cccollab.Config.{
  number, CccollabConfig, LocationConfig, Value, text, as_text, or_empty, locations_of,
}
use cccollab.Runtime.{of_ms}
use cccollab.Config.Env.{empty_location, set_some}
use cccollab.Config.Save.{
  LocationAuth, Stored, stored, read_existing, auth_fields_of, put_auth, write_location_auth,
  PersistedAuth, persisted_auth, load_persisted_location_auth,
}

-- What is read back after a write over what was there.
abbrev pub read_back : LocationAuth → PersistedAuth → PersistedAuth
read_back auth prior = record {
  url = or_option auth.url prior.url;
  auth_type = some "clerk";
  access_token = some auth.access_token;
  refresh_token = some auth.refresh_token;
  id_token = some auth.id_token;
  access_token_expires_at = some auth.access_token_expires_at;
  clerk_issuer = or_option auth.clerk_issuer prior.clerk_issuer;
  clerk_client_id = or_option auth.clerk_client_id prior.clerk_client_id;
  user_email = or_option auth.user_email prior.user_email;
  user_id = or_option auth.user_id prior.user_id;
}

abbrev pub nothing_persisted : PersistedAuth
nothing_persisted = record {
  url = none;
  auth_type = none;
  access_token = none;
  refresh_token = none;
  id_token = none;
  access_token_expires_at = none;
  clerk_issuer = none;
  clerk_client_id = none;
  user_email = none;
  user_id = none;
}

abbrev some_text : Option String → Option Value
some_text none = none
some_text (some s) = some (text s)

lookup-set_some :
    (k : String) (o : Option String) (fields : Assoc Value) (j : String)
    → lookup j (set_some k o fields)
      ≡ (if str_eq k j then or_option (some_text o) (lookup j fields) else lookup j fields)
lookup-set_some k none fields j = ground arith
lookup-set_some k (some v) fields j = lookup-set k (text v) fields j

as_text-or_option :
    (o : Option String) (v : Option Value)
    → as_text (or_option (some_text o) v) ≡ or_option o (as_text v)
as_text-or_option none v = refl
as_text-or_option (some s) v = refl

persisted-auth_fields_of :
    (now : ℕ) (auth : LocationAuth) (f : Assoc Value)
    → persisted_auth (auth_fields_of now auth f) ≡ read_back auth (persisted_auth f)
unfolding auth_fields_of persisted_auth
persisted-auth_fields_of now auth f = simp (lookup-set, lookup-set_some, as_text-or_option)

load-of_stored :
    (c : CccollabConfig) (location : String) (l : LocationConfig)
    → lookup location (or_empty c.locations) ≡ some l
    → load_persisted_location_auth (stored c) location ≡ some (persisted_auth l.fields)
unfolding load_persisted_location_auth read_existing
load-of_stored c location l e = rw (e, load_persisted_location_auth) refl

-- What was known of a location, from the configuration that the file has.
loaded :
    (file : Stored) (c : CccollabConfig) (location : String)
    → read_existing file ≡ some c
    → or_else (load_persisted_location_auth file location) nothing_persisted
      ≡ persisted_auth (or_else (lookup location (or_empty c.locations)) empty_location).fields
unfolding load_persisted_location_auth
loaded file c location e = elim (Option-cases (lookup location (or_empty c.locations))) [
  | inl gone ↦ rw (e, load_persisted_location_auth) (rw gone nothing)
  | inr (l, there) ↦ rw (e, load_persisted_location_auth) (rw there refl)
]
  where
    nothing : nothing_persisted ≡ persisted_auth []
    nothing = unfold persisted_auth in unfold lookup in refl

-- the fields that a write may set
abbrev pub written_fields : List String
written_fields =
    "url" ∷ "authType" ∷ "accessToken" ∷ "refreshToken" ∷ "idToken" ∷ "accessTokenExpiresAt"
    ∷ "clerkIssuer" ∷ "clerkClientId" ∷ "userEmail" ∷ "userId" ∷ "updatedAt" ∷ []

lookup-auth_fields_of :
    (now : ℕ) (auth : LocationAuth) (f : Assoc Value) (k : String)
    → All (λ w. str_eq w k ≡ false) written_fields
    → lookup k (auth_fields_of now auth f) ≡ lookup k f
unfolding auth_fields_of
lookup-auth_fields_of now auth f k (a, (b, (c, (d, (e, (g, (h, (i, (j, (l, (m, _))))))))))) =
    simp (lookup-set, lookup-set_some, a, b, c, d, e, g, h, i, j, l, m)

-- What a write leaves of a location.
pub record IsKept (l l' : LocationConfig) : Type 0 where
  pub active : l'.active ≡ l.active
  pub channels : l'.channels ≡ l.channels
  pub fields :
      (k : String)
      → All (λ w. str_eq w k ≡ false) written_fields
      → lookup k l'.fields ≡ lookup k l.fields

-- Where the user's file is missing or a configuration, the write makes it one with the same name and
-- objective, in which the location's credentials are the written ones and what was not given is as it
-- was, the location's `active`, its channels and every other field too, and every other location
-- stands as before.
pub load-write_location_auth :
    (now : ℕ) (location : String) (auth : LocationAuth) (file : Stored) (c : CccollabConfig)
    → read_existing file ≡ some c
    → (n : CccollabConfig) × (l : LocationConfig) × (write_location_auth now location auth file
        ≡ some (stored n))
      × (load_persisted_location_auth (stored n) location
          ≡ some (
              read_back auth
                (or_else (load_persisted_location_auth file location) nothing_persisted)))
      × (lookup location (locations_of n) ≡ some l)
      × IsKept (or_else (lookup location (locations_of c)) empty_location) l
      × (lookup "updatedAt" l.fields ≡ some (number (or_else auth.updated_at (of_ms now))))
      × ((j : String) → j ≢ location → lookup j (locations_of n) ≡ lookup j (locations_of c))
      × (n.name ≡ c.name)
      × (n.objective ≡ c.objective)
unfolding write_location_auth put_auth locations_of auth_fields_of
load-write_location_auth now location auth file c e =
    let m = or_empty c.locations in
    let prior = or_else (lookup location m) empty_location in
    let l : LocationConfig = record prior { fields = auth_fields_of now auth prior.fields } in
    let n = put_auth now location auth c in
    let here : lookup location (or_empty n.locations) ≡ some l =
      ground (arith, lookup-set location l m location, eq_iff location location) in
    (
      n,
      l,
      rw (e, write_location_auth) refl,
      load-of_stored n location l here
          ∙ ap (λ (a : PersistedAuth). some a)
              (persisted-auth_fields_of now auth prior.fields
                ∙ ap (read_back auth) (sym (loaded file c location e))),
      here,
      record {
        active = refl;
        channels = refl;
        fields = lookup-auth_fields_of now auth prior.fields;
      },
      simp (lookup-set),
      λ j ne. ground (arith, lookup-set location l m j, eq_iff location j, ne),
      refl,
      refl,
    )
