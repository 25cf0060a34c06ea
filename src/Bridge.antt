-- ===== src/Bridge.antt =====
-- plugins/main/bridge/bridge.go: a bridge on the host, to which containers are connected.
pub mod Vlans
pub mod Config
pub mod Gateways
pub mod Addresses
pub mod Ports
pub mod Check
pub mod Setup
pub mod Samples
