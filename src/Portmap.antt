-- ===== src/Portmap.antt =====
-- The port mapping plugin, plugins/meta/portmap, with the helpers of pkg/utils that it calls.
pub mod Names
pub mod Chain
pub mod Utils
pub mod Rules
pub mod Mapper
pub mod Config
pub mod Samples
