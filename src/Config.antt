-- ===== src/Config.antt =====
-- The configuration of mcp_server/src/config/schema.ts, and the values that its functions return.
pub mod Merge
pub mod Defaults
pub mod Env
pub mod Active
pub mod Resolve
pub mod Save
mod Tests
use cccollab.Base.{ℕ, String, Bool, true, false, Option, none, some, List, [], ◌∷◌}
use cccollab.Base.Assoc.{Assoc, lookup}
use cccollab.Runtime.{Number}

-- A field's value: a text, a number, or any other JSON text.
pub data Value : Type 0 where
  text : String → Value
  number : Number → Value
  other : String → Value

pub record TopicConfig : Type 0 where
  pub active : Option Bool

pub record ChannelConfig : Type 0 where
  pub active : Option Bool
  pub topics : Option (Assoc TopicConfig)

-- A location: `active`, `channels`, and every other field by its name, also those that only a newer
-- version knows.
pub record LocationConfig : Type 0 where
  pub fields : Assoc Value
  pub active : Option Bool
  pub channels : Option (Assoc ChannelConfig)

pub record CccollabConfig : Type 0 where
  pub name : Option String
  pub objective : Option String
  pub locations : Option (Assoc LocationConfig)

abbrev pub local_location : String
local_location = "local"

-- `AUTH_FIELDS`
abbrev pub auth_fields : List String
auth_fields =
    "accessToken" ∷ "refreshToken" ∷ "idToken" ∷ "userEmail" ∷ "userId" ∷ "updatedAt"
    ∷ "accessTokenExpiresAt" ∷ []

-- `o ?? {}`
abbrev pub or_empty {ℓ} : {V : Type ℓ} → Option (Assoc V) → Assoc V
or_empty none = []
or_empty (some m) = m

-- `typeof value === 'string'`
abbrev pub as_text : Option Value → Option String
as_text (some (text s)) = some s
as_text _ = none

-- `active === true`
abbrev pub is_true : Option Bool → Bool
is_true (some true) = true
is_true _ = false

unfoldable pub locations_of : CccollabConfig → Assoc LocationConfig
locations_of c = or_empty c.locations

-- A field of a location by both names.
unfoldable pub field_of : String → String → Assoc LocationConfig → Option Value
field_of location k m = elim (lookup location m) [ none ↦ none | some l ↦ lookup k l.fields ]
