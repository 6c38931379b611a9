-- ===== src/Lib.antt =====
-- The CNI plugins: address management (host-local, dhcp and static), port mapping, tuning of
-- an interface, VRFs, the firewall, bandwidth limits, routing by source, and bridges and
-- point-to-point links, with what they use of pkg.
--
-- A container runtime runs a plugin with a command (ADD, DEL, CHECK) and a configuration. The
-- plugin host-local allocates an address of each configured range set to a container and keeps
-- the reservations as files; dhcp has a daemon that leases an address for a container from a server
-- and keeps a goroutine for each lease; portmap writes iptables rules that forward host ports to a
-- container.
--
-- Parts, and where they are modelled (paths from the repository's root):
--   Prelude       shared names: native numbers and their Boolean tests, lists, text, results; Int is
--                 ℤ, Effects has actions on a state that may fail
--   Net           Go's net package: To4, To16, Equal, Mask, Size, Contains on byte slices
--   Cidr          pkg/ip/cidr.go: NextIP (next_ip), PrevIP, Cmp, Network. Cidr.Bytes has the laws
--                 of big-endian numbers, Cidr.Next those of the successor.
--   HostLocal     plugins/ipam/host-local
--     Types       the structs of backend/allocator/config.go, and the errors
--     Range       backend/allocator/range.go
--     RangeSet    backend/allocator/range_set.go
--     Store       backend/store.go: the interface as a record of operations on a state, with the
--                 laws that the allocator uses
--     Iter        RangeIter, GetIter and Next of backend/allocator/allocator.go. The children lead
--                 from single moves to the order of a whole iteration.
--     Allocator   Get and Release of the same file, over any store
--     Disk        backend/disk/backend.go: an implementation of Store on a directory
--     Config      LoadIPAMConfig of backend/allocator/config.go, and ToIP of pkg/ip/ip.go
--     Dns         parseResolvConf of dns.go
--     Commands    cmdAdd, cmdDel and cmdCheck of main.go
--   Dhcp          plugins/ipam/dhcp
--     Options     options.go; Options.Routes has an encoder of classless routes
--     Lease       lease.go up to its loop, and client.go. Lease.Times is about the times of a lease,
--                 Lease.Retry about backoffRetry.
--     Maintain    the loop `maintain` of lease.go as a step relation; its children are about when the
--                 loop ends, about the leases that it reaches, and about bare answers
--     Daemon      Allocate and Release of daemon.go, and the goroutines that they leave
--   Static        plugins/ipam/static/main.go; Static.Chosen is about the sources of the addresses,
--                 Static.Valid about an accepted configuration, Static.Check about CHECK after ADD
--   Tuning        plugins/meta/tuning/tuning.go: parseConf and the data. Tuning.Commands has the commands,
--                 Tuning.Sysctls the files that are written; Tuning.Laws, Tuning.Backups and
--                 Tuning.Restore are about the backup and its restoration.
--   Vrf           plugins/meta/vrf: vrf.go and the commands of main.go; Vrf.Tables is about the free
--                 routing table
--   Firewall      plugins/meta/firewall: iptables.go, and firewall.go with this backend; Firewall.Laws
--                 has what is asked of go-iptables, Firewall.Check is about CHECK after ADD
--   Bandwidth     plugins/meta/bandwidth: main.go and ifb_creator.go; Bandwidth.Check is about the rates
--                 that are accepted and CHECK without any
--   Links         pkg/ip/link_linux.go (Links.Veth), pkg/ipam/ipam_linux.go and pkg/ip/route_linux.go
--                 (Links.Configure), pkg/ip/utils_linux.go (Links.Expected), over a record of
--                 netlink's operations
--   Bridge        plugins/main/bridge/bridge.go: the configuration and calcGateways; Bridge.Gateways
--                 and Bridge.Routes are about what it makes (Gateways.Wanted describes it). Addresses
--                 is ensureAddr, with Addresses.Overlap about the addresses that it leaves; Setup makes
--                 the bridge and its ports, with Bridge.Frame about what that keeps; Layer3 is what ADD
--                 does with the result of an IPAM plugin; Commands is cmdAdd and cmdDel, with
--                 Commands.Release about a failed ADD; Check is cmdCheck, with Check.Connected about
--                 the interfaces that it has found (Shown and Known have its lemmas)
--   Ptp           plugins/main/ptp/ptp.go: ADD; Ptp.Commands has DEL and CHECK, Ptp.Release is about the
--                 address of a failed ADD
--   Sbr           plugins/meta/sbr/main.go; Sbr.Tables is about the free routing table
--   IpText        pkg/ip/ip.go; IpText.RoundTrip is about reading the text of an IP
--   Masquerade    pkg/ip/ipmasq_linux.go and ipforward_linux.go
--   Sysctl        pkg/utils/sysctl/sysctl_linux.go
--   ChainNames    pkg/utils/utils.go
--   Iptables      pkg/utils/iptables.go
--   Portmap       plugins/meta/portmap: Ports is utils.go, Parse is parseConfig of main.go, Rules has
--                 the chains that portmap.go generates, Chain is chain.go, Forward has the
--                 operations and the commands
--   Examples      runs on concrete inputs
--
-- A method that changes its receiver is a function from the old value to a result with the new
-- one; an operation on a store or on iptables takes the state and returns a result and the state,
-- which stays changed after an error. A Go error is a constructor of Error, one for each message; an
-- index out of range is `index_panic`.
--
-- Fuel: Next calls itself for each gateway it skips, and the loop of Get has no bound. Both get
-- `pool_size + 2` rounds, where `pool_size` counts the addresses of the range set. An iteration of a
-- pool visits each address once and then gives up, so these rounds are enough; the theorem on Get
-- has no case for fuel that has run out. backoffRetry doubles its delay from 4 seconds up to a
-- limit; 33 rounds are enough for limits up to 2^62 nanoseconds. The numbers of bytes and digits bound
-- the other loops, the routing tables of vrf are tried up to 2^32 - 2, and those of sbr as often as
-- there are rules and routes.
--
-- Parameters:
--   - the text form of addresses with the fact that it is injective (Format), and the parsing of CIDR
--     notation (Static, IpText)
--   - which system calls fail (`fails`, any function), and the files of /proc/sys (Kernel, SysFiles,
--     Files)
--   - the order in which Go iterates over a map: `shuffle`, or the order of a list
--   - JSON decoding, CNI_ARGS and version comparison (Config, Static, Portmap.Parse, Tuning)
--   - SHA-512 in hexadecimal, and what bandwidth computes in floating point
--   - the handle of go-iptables (Handle, append_unique), and what portmap asks of the host (Host)
--   - the DHCP client library, netlink, the clock and the stop channel of a lease (Wire)
--   - netlink, as tuning (Kernel), vrf and bandwidth (Netlink, in each) use it, and as pkg/ip and
--     bridge do (Netlink of Links); what bridge and ptp call beside it (Calls): IPAM plugins, network
--     namespaces, timers, ARP and the printing of a result;
--     rules, lists of routes and the lock, for sbr (Rules)
--
-- Not modelled: the file lock (a call of the model has it), opening files and sockets, printing of
-- results, Range.String, the jitter of delays, and the other plugins, which are mostly netlink
-- calls.
pub mod Prelude
pub mod Net
pub mod Cidr
pub mod HostLocal
pub mod ChainNames
pub mod Iptables
pub mod Portmap
pub mod Dhcp
pub mod Static
pub mod Tuning
pub mod Vrf
pub mod Firewall
pub mod Bandwidth
pub mod Links
pub mod Bridge
pub mod Ptp
pub mod Sbr
pub mod Masquerade
pub mod Sysctl
pub mod IpText
pub mod Examples
