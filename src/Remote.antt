-- ===== src/Remote.antt =====
-- mcp_server/src/transport/remote.ts: the transport to a Convex deployment. The Convex client is
-- outside code: what it answers or throws is an argument of the continuation of each call.
pub mod Backend
pub mod Errors
pub mod State
pub mod Calls
pub mod Feeds
pub mod Evolves
pub mod Proceeds
pub mod Run
pub mod Breaker
pub mod Delivered
pub mod Within
pub mod Outcomes
pub mod Restarted
mod Tests
