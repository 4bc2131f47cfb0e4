-- ===== src/Config/Env/Override.antt =====
-- CCCOLLAB_REMOTE_URL makes its location the active one (mcp_server/src/config/env.ts).
use cccollab.Base.Assoc.{Assoc}
