-- ===== src/HostLocal.antt =====
-- plugins/ipam/host-local: the address allocator, its store on disk, its configuration and its
-- commands.
pub mod Types
pub mod Range
pub mod RangeSet
pub mod Store
pub mod Iter
pub mod Allocator
pub mod Disk
pub mod Config
pub mod Commands
pub mod Dns
