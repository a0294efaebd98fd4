-- ===== src/Node.antt =====
-- apps/aetherlink-node/src/main.rs: the control node.
pub mod State
pub mod Sessions
pub mod World
pub mod Control
pub mod Requests
pub mod Responses
pub mod Ticks
pub mod Discovery
pub mod Files
pub mod Startup
pub mod Moves
pub mod Loop
pub mod Keepalive
pub mod Schedule
pub mod Operations
