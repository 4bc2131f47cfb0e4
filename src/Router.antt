-- ===== src/Router.antt =====
-- mcp_server/src/transport/router.ts: the transports by location name. A method that throws says so
-- in its result.
pub mod Routing
mod Tests
use cccollab.Base.{
  ℕ, String, Bool, true, false, not, ◌&&◌, ◌||◌, Option, none, some, List, [], ◌∷◌, map,
  if◌then◌else◌, str_eq, keep,
}
use cccollab.Base.Assoc.{Assoc, lookup, set, delete, contains, values}
use cccollab.Context.{local_location}

-- What the router reads of a `Transport`: which one it is, its name, whether it is enabled, and
-- which topics it claims.
pub record Transport : Type 0 where
  pub handle : ℕ
  pub source : String
  pub enabled : Bool
  pub has_topic : String → Bool

abbrev pub Router : Type 0
Router = Assoc Transport

-- the constructor's loop; `none` is the error of a name that comes twice
unfoldable pub build : Router → List Transport → Option Router
build router [] = some router
build router (t ∷ ts) =
    let rest = build (set t.source t router) ts in if contains t.source router then none else rest

-- `register`: the router and the prior transport, `none` where there is one and it is not replaced
unfoldable pub register : Transport → Bool → Router → Option (Router × Option Transport)
register t replace router = elim (lookup t.source router) [
  | none ↦ some (set t.source t router, none)
  | some prior ↦ if replace then some (set t.source t router, some prior) else none
]

unfoldable pub unregister : String → Router → Router × Option Transport
unregister name router = (delete name router, lookup name router)

-- `enabled`
unfoldable pub enabled_transports : Router → List Transport
enabled_transports router = keep (λ t. t.enabled) (values router)

abbrev pub names : Router → List String
names router = map (λ e. e.0) router

abbrev pub is_remote : Transport → Bool
is_remote t = not (str_eq t.source local_location)

-- `hasRemote` and `hasRemoteConfigured`: the loops over the map's values
unfoldable pub has_remote : Router → Bool
has_remote [] = false
has_remote ((k, t) ∷ m) = (is_remote t && t.enabled) || has_remote m

unfoldable pub has_remote_configured : Router → Bool
has_remote_configured [] = false
has_remote_configured ((k, t) ∷ m) = is_remote t || has_remote_configured m

pub data Routed : Type 0 where
  to : Transport → Routed
  not_configured : (known : List String) → Routed
  local_disabled : Routed
  degraded : Routed

unfoldable pub get : String → Router → Routed
get location router = elim (lookup location router) [
  | none ↦ not_configured (names router)
  | some t ↦
      if t.enabled
      then to t
      else if str_eq t.source local_location
      then local_disabled
      else degraded
]

abbrev pub first : List Transport → Option Transport
first [] = none
first (t ∷ ts) = some t

-- `getByTopicId`; `none` is the error that no transport owns it
unfoldable pub get_by_topic_id : String → Router → Option Transport
unfolding enabled_transports
get_by_topic_id topic_id router =
    first (keep (λ t. t.has_topic topic_id) (enabled_transports router))
