-- ===== src/Dhcp.antt =====
-- plugins/ipam/dhcp: leases from a DHCP server, kept by a daemon.
pub mod Options
pub mod Lease
pub mod Maintain
pub mod Daemon
