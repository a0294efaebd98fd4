-- ===== src/Tests.antt =====
-- Concrete runs: the parts' theorems at inputs where their hypotheses hold.
mod Parties
mod Connections
mod Sessions
mod Store
mod Ipc
mod Crates
mod Nodes
mod Control
mod Loop
mod Files
mod Startup
mod Daemon
