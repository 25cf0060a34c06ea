-- ===== src/HostLocal.antt =====
-- The host-local IPAM plugin, plugins/ipam/host-local.
pub mod Range
pub mod RangeSet
pub mod Store
pub mod Allocator
pub mod Config
pub mod Command
pub mod Samples
