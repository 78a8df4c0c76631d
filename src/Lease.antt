-- ===== src/Lease.antt =====
-- internal/tunnel/lease: the port allocator, the lease and the lease store.
pub mod Error
pub mod Allocator
pub mod Model
pub mod Platform
pub mod Store
