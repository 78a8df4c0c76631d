-- ===== src/Config.antt =====
-- What the two daemons take from their environment.
pub mod Environment
pub mod Tunnel
pub mod Egress
