-- ===== src/Egress.antt =====
-- The egress proxy: which destinations it lets a request reach.
pub mod Policy
pub mod Dialer
pub mod Headers
pub mod Client
pub mod Server
