-- ===== src/Sshd.antt =====
-- internal/tunnel/sshd: the SSH intake of the tunnel daemon.
pub mod Limiter
pub mod Forward
pub mod Manager
pub mod Visitor
pub mod Server
pub mod HostKey
