-- ===== src/Tunnel.antt =====
-- internal/tunnel: the coordinator over the lease store and the forward manager, its contract and
-- its control API.
pub mod Contract
pub mod Coordinator
pub mod Daemon
pub mod Start
pub mod Control
