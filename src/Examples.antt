-- ===== src/Examples.antt =====
-- Runs of the operations on concrete inputs.
pub mod Addresses
pub mod Pools
pub mod Disks
pub mod Configs
pub mod Maps
pub mod Leases
pub mod Statics
pub mod Tunings
pub mod Vrfs
pub mod Bridges
pub mod BridgeChecks
pub mod Ptps
pub mod Firewalls
pub mod Bandwidths
