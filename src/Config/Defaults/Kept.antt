-- ===== src/Config/Defaults/Kept.antt =====
-- What `applyDefaults` of mcp_server/src/config/defaults.ts leaves as it is.
use cccollab.Base.{◌≡◌}
use cccollab.Base.Assoc.{Assoc}
use cccollab.Config.{LocationConfig}

-- The flag and the channels of a location stay, whatever fields are filled in.
abbrev pub HasSameFlags : LocationConfig → LocationConfig → Type 0
HasSameFlags l l' = (l'.active ≡ l.active) × (l'.channels ≡ l.channels)
