-- ===== src/Dhcp.antt =====
-- The DHCP IPAM plugin, plugins/ipam/dhcp: the daemon that acquires leases and keeps them.
pub mod Options
pub mod Backoff
pub mod Lease
pub mod Daemon
pub mod Samples
