-- ===== src/Broker.antt =====
-- mcp_server/src/broker.ts: the local broker. `State` has its maps, replies and events; `Members`,
-- `Channels`, `Topics`, `Actions` and `Sessions` have its functions and handlers, `Route` and
-- `Server` the dispatch; the others are proofs about them.
mod Tests
pub mod State
pub mod Members
pub mod Channels
pub mod Topics
pub mod Actions
pub mod Sessions
pub mod Route
pub mod Server
pub mod Membership
pub mod Invariant
pub mod Reach
pub mod Preserve
pub mod Reads
pub mod Handlers
pub mod Change
pub mod Posts
pub mod Refine
pub mod Names
pub mod Log
pub mod Clock
pub mod Errors
pub mod Crash
pub mod Purge
pub mod Post
pub mod BodySize
