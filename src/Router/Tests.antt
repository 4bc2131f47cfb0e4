-- ===== src/Router/Tests.antt =====
-- Runs of the router (mcp_server/src/transport/router.ts).
use cccollab.Base.{◌≡◌, refl, true, false, some, [], ◌∷◌, str_eq}
use cccollab.Base.Assoc.{lookup, set}
use cccollab.Router.{Transport, Router, register, to, degraded, get}

abbrev here : Transport
here = record { handle = 1; source = "local"; enabled = true; has_topic = λ id. str_eq id "t1" }

abbrev acme : Transport
acme = record { handle = 2; source = "acme"; enabled = false; has_topic = λ id. false }

abbrev acme_again : Transport
acme_again = record acme { handle = 3; enabled = true }

abbrev two_transports : Router
two_transports = ("local", here) ∷ ("acme", acme) ∷ []

abbrev swapped : Router
swapped = ("local", here) ∷ ("acme", acme_again) ∷ []

register_replaces : register acme_again true two_transports ≡ some (swapped, some acme)
unfolding register set lookup
register_replaces = refl

get_disabled : get "acme" two_transports ≡ degraded
unfolding get lookup
get_disabled = refl

get-swapped : get "acme" swapped ≡ to acme_again
unfolding get lookup
get-swapped = refl
