-- ===== src/Lib.antt =====
-- Verification of the IPAM plugins host-local, static and dhcp, of the port mapping, bandwidth,
-- source-based routing, tuning and bridge plugins, and of the packages below them.
--
-- The program connects containers to networks, by plugins that a runtime calls in a chain. The IPAM
-- plugins hand out addresses; the meta plugins work on the result of the plugins before them.
--
-- The plugin host-local reads ranges of addresses from its configuration and brings them into
-- canonical form (plugins/ipam/host-local/backend/allocator/range.go, range_set.go); an allocator
-- goes over a set of ranges in turn, from behind the last address that it gave (allocator.go), and asks
-- a store to reserve each address until one is free (backend/store.go); the store keeps
-- one file per address in a directory (backend/disk/backend.go). All of it counts with pkg/ip/cidr.go.
--
-- Common: shared names, lists, tests, results and texts; a text is the bytes of a Go string.
-- Net: `net.IP` and `net.IPNet` of Go's standard library, as lists of bytes; the empty list is nil.
--   An address in standard form (Net/Regular) has four bytes, or sixteen that lie above the block of
--   IPv4-mapped addresses.
-- Cidr: pkg/ip/cidr.go. next_ip is NextIP, prev_ip is PrevIP, cmp is Cmp, int_to_ip is intToIP; the
--   result none is a panic. Cidr/Next has the behaviour in standard form, Cidr/Edges the exceptions.
-- HostLocal/Range: range.go. canonicalize is Canonicalize, in four blocks; contains is Contains,
--   overlaps is Overlaps, last_ip is lastIP. Canonical and Order say what is accepted, Defaults what
--   is filled in, Interval what a canonical range is as an interval of numbers.
-- HostLocal/RangeSet: range_set.go. range_for is RangeFor, canonicalize_set is Canonicalize.
-- HostLocal/Store: the interface of store.go and the contract of it that the allocator relies on.
--   Store/Disk is backend/disk/backend.go: a directory as a list of files.
-- HostLocal/Allocator: allocator.go. get is Get, get_iter is GetIter, next is Next (advance, arrive,
--   begin and visit are its parts), search_from is the loop of Get. Position gives each address of a
--   set its rank, Iteration moves a cursor by one rank, Sweep and Start follow Next over its own
--   recursive calls, Resume covers GetIter, Search the loop, Get and Requested all of Get.
-- HostLocal/Config: backend/allocator/config.go, behind the JSON decoding. load_ipam_config is
--   LoadIPAMConfig; `types.LoadArgs` and the comparison of versions are parameters.
-- HostLocal/Command: main.go. cmd_add is cmdAdd, cmd_check is cmdCheck, cmd_del is cmdDel, behind the
--   loading of the configuration. The Go map of requested addresses is a list in some order.
-- HostLocal/Samples: concrete ranges, directories and calls.
-- Static: plugins/ipam/static/main.go, where addresses are given and not handed out. load_static is
--   LoadIPAMConfig behind the JSON decoding, check_addresses the comparison of cmdCheck;
--   `types.LoadArgs`, `net.ParseCIDR` and `net.ParseIP` are parameters.
-- Dhcp/Options: plugins/ipam/dhcp/options.go, and prepareOptions of lease.go. `OptionCodeList.Add` of
--   the DHCP library is a parameter.
-- Dhcp/Lease: lease.go. commit, ip_net, gateway_of and routes are commit, IPNet, Gateway and Routes;
--   maintain is the loop of maintain, pass one turn of it, in_phase its switch, select its select. What
--   a turn meets (the link, the clock, the reply of the server behind all retries, the channel that is
--   ready, and whether a release and the bringing down of the interface succeed) is a Round; check is
--   Check, over the turns that come; an acknowledgement is the record Ack of the options that the
--   code reads.
--   Lease/Times is on the times of a lease, Maintenance on the loop under way, Ended on its end;
--   Dhcp/Backoff has the delays of backoffRetry and of checkLinkExistsWithBackoff.
-- Dhcp/Daemon: daemon.go. allocate and release are Allocate and Release, over the map of leases, each
--   with the state of its maintenance.
-- Portmap/Names: pkg/utils/utils.go; the hash is a parameter. Portmap/Chain: pkg/utils/iptables.go and
--   plugins/meta/portmap/chain.go; setup, check and teardown are the methods of chain. The library of
--   iptables is the record Ipt of the operations that are called, and the theorem on setup has its
--   documented behaviour as the hypothesis IsWorking (Chain/Working); the samples have a small iptables
--   of lists.
-- Portmap/Utils, Portmap/Rules and Portmap/Mapper: utils.go and portmap_iptables.go. fill_dnat_rules is
--   fillDnatRules; forward_ports, check_ports and unforward_ports are the mapper over iptables. A step is
--   settled (Chain/Settled) when it succeeds and, as long as nothing is removed, need not be made again.
-- Portmap/Config: main.go. parse_config is parseConfig behind the JSON decoding and the parsing of the
--   previous result, and the commands are over a mapper that is a record of operations.
-- Bandwidth: plugins/meta/bandwidth/main.go and ifb_creator.go, over the record Netlink of requests.
--   cmd_add is cmdAdd, cmd_del is cmdDel, create_tbf is createTBF; the sizes that buffer and
--   limit compute in floating point are parameters.
-- Sbr: plugins/meta/sbr/main.go, over the record Netlink of the requests that are made. do_routes is
--   doRoutes, tidy_rules is tidyRules, get_next_table_id is getNextTableID.
-- Tuning: plugins/meta/tuning/tuning.go. Tuning/Config is parseConf and the validation, with
--   `types.LoadArgs` and `regexp.MatchString` as parameters; Tuning/Sysctl is getSysctlFilename. cmd_add,
--   cmd_del and cmd_check are the commands in the namespace of the container, create_backup and
--   restore_backup the functions of those names, over the record Host of requests; Tuning/Faithful says
--   as hypotheses what the requests do, and that parsing inverts the printing of hardware addresses of
--   6, 8 or 20 bytes.
-- Bridge: plugins/main/bridge/bridge.go. Bridge/Vlans is collectVlanTrunk, Bridge/Config is loadNetConf
--   behind the JSON decoding, Bridge/Gateways is calcGateways and calcGatewayIP, and Bridge/Addresses is
--   ensureAddr and deleteAddr over the record Netlink of requests, whose documented behaviour is the
--   hypothesis IsFaithful of Addresses/Harmony. `net.IPNet.String` is a parameter. Bridge/Ports is
--   removeDefaultVlan and the part of setupVeth on the VLANs of the port; Bridge/Setup is the rest of
--   setupVeth, bridgeByName, ensureBridge and setupBridge, over the record Requests. Bridge/Check
--   is the part of cmdCheck on the interfaces of the previous result, over what each namespace looks up.
--
-- A call of the allocator holds the lock of the store, and is one step. Next and the loop of Get run
-- on fuel; a set of ranges has finitely many addresses and more fuel than that is enough, which is
-- proved. The numbers of addresses are not bounded in advance, as in the source, which uses big.Int.
-- `net.IP.String` and `net.ParseIP` are a parameter of the store on disk, with their properties as
-- hypotheses; a schedule of faults says where the creation of a file fails. The maintenance of a lease
-- runs over the rounds that come, and retries over the attempts that come, so both need no fuel. The
-- search for a routing table runs on fuel above the number of rules and routes, which is enough.
--
-- Not modelled: the locking of files, the texts of messages, JSON, resolv.conf, Windows paths, and
-- faults of reading and of removing a file that is there; the sockets and the RPC server of the DHCP
-- daemon; the mapper of nftables, stale connections of conntrack and sysctl; the check of
-- bandwidth limits; ensureVlanInterface, cmdAdd and cmdDel of the bridge; the other plugins,
-- and the packages on netlink and namespaces, which are calls of the operating system for the most
-- part.
pub mod Common
pub mod Net
pub mod Bandwidth
pub mod Cidr
pub mod HostLocal
pub mod Static
pub mod Dhcp
pub mod Portmap
pub mod Sbr
pub mod Bridge
pub mod Tuning
