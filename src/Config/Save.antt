-- ===== src/Config/Save.antt =====
-- The credentials of one location in the user's file (mcp_server/src/config/save.ts): what
-- writeLocationAuthInLock makes of the file and what loadPersistedLocationAuth reads of it.
pub mod Kept
use cccollab.Base.{ℕ, String, Option, none, some, List, [], ◌∷◌}
use cccollab.Base.Nullable.{or_else}
use cccollab.Base.Assoc.{Assoc, lookup, set}
use cccollab.Runtime.{Number, of_ms}
use cccollab.Config.{CccollabConfig, LocationConfig, Value, text, number, as_text, or_empty}
use cccollab.Config.Env.{empty_location, set_some}
use cccollab.Config.Resolve.{no_config}

-- `ClerkLocationAuth`
pub record LocationAuth : Type 0 where
  pub url : Option String
  pub access_token : String
  pub refresh_token : String
  pub id_token : String
  pub access_token_expires_at : Number
  pub clerk_issuer : Option String
  pub clerk_client_id : Option String
  pub user_email : Option String
  pub user_id : Option String
  pub updated_at : Option Number

-- The user's file: missing, not to be parsed or refused by the schema, or a configuration.
pub data Stored : Type 0 where
  absent corrupt : Stored
  stored : CccollabConfig → Stored

-- `readExisting`; `none` where it throws
unfoldable pub read_existing : Stored → Option CccollabConfig
read_existing absent = some no_config
read_existing corrupt = none
read_existing (stored c) = some c

unfoldable pub auth_fields_of : ℕ → LocationAuth → Assoc Value → Assoc Value
auth_fields_of now auth prior = set "updatedAt" (number (or_else auth.updated_at (of_ms now))) (
    set_some "userId" auth.user_id (
      set_some "userEmail" auth.user_email (
        set_some "clerkClientId" auth.clerk_client_id (
          set_some "clerkIssuer" auth.clerk_issuer (
            set "accessTokenExpiresAt" (number auth.access_token_expires_at) (
              set "idToken" (text auth.id_token) (
                set "refreshToken" (text auth.refresh_token) (
                  set "accessToken" (text auth.access_token)
                    (set "authType" (text "clerk") (set_some "url" auth.url prior))))))))))

unfoldable pub put_auth : ℕ → String → LocationAuth → CccollabConfig → CccollabConfig
unfolding auth_fields_of
put_auth now location auth c =
    let m = or_empty c.locations in
    let prior = or_else (lookup location m) empty_location in
    record c {
      locations =
          some (set location (record prior { fields = auth_fields_of now auth prior.fields }) m);
    }

-- The file after the rename; `none` where the write throws and leaves the file as it was. The
-- temporary file is written whole before.
unfoldable pub write_location_auth : ℕ → String → LocationAuth → Stored → Option Stored
unfolding read_existing put_auth
write_location_auth now location auth file = elim (read_existing file) [
  | none ↦ none
  | some c ↦ some (stored (put_auth now location auth c))
]

-- `typeof value === 'number'`
abbrev pub as_number : Option Value → Option Number
as_number (some (number n)) = some n
as_number _ = none

pub record PersistedAuth : Type 0 where
  pub url : Option String
  pub auth_type : Option String
  pub access_token : Option String
  pub refresh_token : Option String
  pub id_token : Option String
  pub access_token_expires_at : Option Number
  pub clerk_issuer : Option String
  pub clerk_client_id : Option String
  pub user_email : Option String
  pub user_id : Option String

unfoldable pub persisted_auth : Assoc Value → PersistedAuth
persisted_auth fields = record {
  url = as_text (lookup "url" fields);
  auth_type = as_text (lookup "authType" fields);
  access_token = as_text (lookup "accessToken" fields);
  refresh_token = as_text (lookup "refreshToken" fields);
  id_token = as_text (lookup "idToken" fields);
  access_token_expires_at = as_number (lookup "accessTokenExpiresAt" fields);
  clerk_issuer = as_text (lookup "clerkIssuer" fields);
  clerk_client_id = as_text (lookup "clerkClientId" fields);
  user_email = as_text (lookup "userEmail" fields);
  user_id = as_text (lookup "userId" fields);
}

unfoldable pub load_persisted_location_auth : Stored → String → Option PersistedAuth
unfolding read_existing persisted_auth
load_persisted_location_auth file location = elim (read_existing file) [
  | none ↦ none
  | some c ↦ elim (lookup location (or_empty c.locations)) [
    | none ↦ none
    | some l ↦ some (persisted_auth l.fields)
  ]
]
