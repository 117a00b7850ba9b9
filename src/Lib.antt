-- ===== src/Lib.antt =====
-- WG-Manager: the control program of a WireGuard and OpenVPN server (package main in the root of
-- the repository). It keeps its users in one table, counts their traffic from the counters of the
-- kernel and of OpenVPN, blocks those who are disabled, expired or over quota, hands out tunnel
-- addresses, and can widen the address pools while users keep their addresses.
--
-- How the parts of the program interact. The table of users (main.go) is the only lasting state.
-- The enforcement pass (enforce.go) reads the counters, adds what they have grown by to the rows,
-- writes the blocked column and brings the block set of the firewall in line with it. A recharge
-- (reset.go, and the command line in main.go) writes the accounts and the baseline that the next
-- pass starts from. Adding a user takes the lowest free address of a pool (subnet.go), and the
-- expansion of a pool (subnet.go) rewrites the pools and copies firewall rules.
--
-- The files:
--   Base: shared names: Boolean tests, lists, Go strings and numbers, int64, maps.
--   Store: the peers table: the row (Peer), getPeer and allPeers, and the INSERT, UPDATE and
--     DELETE statements. Store/Laws: what keeps the table valid. Store/Map: the table as a map
--     from usernames to users.
--   Enforce: the parsers and tests of enforce.go (wgTransfer, usedTotal, effectiveBlocked,
--     parseIpsetSave, staleIPs). Enforce/Tick: enforceTick with its loop and its sweep; its child
--     Rows is about the table, BlockSet about the block set. Enforce/Firewall: ipset and iptables
--     as an interface with laws. Enforce/Usage: billing over sequences of traffic, restarts and
--     passes.
--   Recharge: readResetCounters and rechargePeer (reset.go), the recharge of the command line
--     (main.go). Recharge/Baseline: the pass after a recharge.
--   Net: IPv4 addresses and networks: nextIP (main.go), hostAllocatable, broadcastAddr,
--     nextFreeHost (subnet.go), and package net as far as they use it. Children: Bytes, Hosts,
--     Overlap, Print, Parsed, Ipv6 (which texts are IPv6 networks).
--   Subnet: widenCIDR, networkOf, prefixAll (subnet.go). Subnet/Routes: parseIPRoutes.
--     Subnet/Conflicts: poolDevs, subnetConflicts. Subnet/Plan: buildExpandPlan. Subnet/Rules:
--     splitRule, widenRuleArgs and the loop of widenFirewall. Subnet/Expand: expandWireGuard,
--     expandOpenVPN and widenFirewall on the host; its children Swap and Clients are about the
--     live swap and the CCD files. Subnet/Command: expandSubnet; its child Untouched is about a
--     run that nobody agreed to.
--   Settings: Config, its defaults, normBase, the flags and the KEY=value files (main.go,
--     migration.go, ovpn_pki.go). Children: Params, Flags.
--   WgConf: the WireGuard file: its head, the rendered peer section, the guard of renderConf.
--     WgConf/Import: cmdImport; its child Rendered reads a rendered section back. WgConf/Rewrite:
--     rewriteWGHead and rewriteOvpnServerLine (subnet.go); its child Lines is about both.
--   Users: the world of the handlers (table, CCD files, configuration). Users/Ovpn: attaching
--     and detaching OpenVPN. Users/Panel: the handlers of api.go. Users/Ghosts: the command
--     ghosts; its child Gone is about what it removes. Users/Fresh: what a new user gets.
--     Users/Removed: what a removal leaves. Users/Listing: what the panel shows. Users/Cli: the
--     commands of the command line (main.go, ovpn_pki.go). Users/Lifecycle: any sequence of
--     handlers, commands, imports and passes (Reach), and what each of them keeps (Handlers,
--     Accounts, Fields, Imported, Sound).
--   Migration: the export and import of users (migration.go). Migration/Bundle: the names of an
--     archive and its settings. Migration/Archive: what is written to an archive and read from it.
--     Migration/Ports: the port in a restored WireGuard file. Migration/Restore: the import of an
--     archive; its children Entries, Written and Moved are about a bundle that is moved.
--     Migration/Commands: the commands around both. Migration/Transfer: an import of an export.
--   OvpnStatus: the status file of OpenVPN; its child Newest is about which file is read, and
--     Management is the socket.
--   Orphans: CCD files without a user; Orphans/Purge: what the command removes.
--   Release: version numbers and assets; Release/Order: their order. Release/Cache: the cached
--     question to GitHub and the answer of the handler (version.go); its child Spaced is about how
--     often GitHub answers.
--   Profiles: the server file of OpenVPN and the profiles of the clients (ovpn_pki.go, main.go);
--     its child Moved is about the server file of another subnet.
--   Service: the units that are restarted, the uninstall and the update (main.go); its child
--     Chosen is about what an uninstall removes.
--   Setup: cmdInit, cmdOvpnInit and the commands that change single settings (main.go,
--     ovpn_pki.go).
--   ServerAddress: serverPublicIP (serverip.go); its child Public is about the detected address.
--   Login: the token, the guard of the API and the password. Login/Routes: the routes of the panel
--     (api.go). Login/Access: who gets in.
--   Tests: runs at concrete data, and the theorems at concrete data.
--
-- How it is modelled. Go's int64 is an integer that every addition and subtraction wraps at 64
-- bits (Base/Int). A string is the list of its characters. A map is an association list with one
-- entry for each key. An error or a panic of `die` is a value (Option, or Result with a
-- message). Programs that the source runs and packages that it calls are parameters: the clock
-- (Clock), the firewall (Firewall, Iptables), JSON (Codec), the programs that an expansion runs
-- (Tools), what attaching OpenVPN needs (Attaching) and float64 (Floats). The loop of nextFreeHost runs on as many rounds as the network
-- has addresses, which is the bound that the source counts to; every other loop is structural
-- recursion.
--
-- What is not modelled: the HTTP server, prompts and menus, the terminal listings, certificates,
-- the formats JSON and zip, the SQL text of the schema, and the modes of directories. IPv6
-- addresses: the program refuses them where it widens a pool and skips them among routes; where
-- the head of a WireGuard file ends with an IPv6 network, the source goes on with that one, and the
-- functions of the model that take addresses from it stop with an error of their own.
pub mod Base
pub mod Store
pub mod Enforce
pub mod Recharge
pub mod Net
pub mod Subnet
pub mod Settings
pub mod WgConf
pub mod Users
pub mod Migration
pub mod OvpnStatus
pub mod Orphans
pub mod Release
pub mod Login
pub mod ServerAddress
pub mod Profiles
pub mod Service
pub mod Setup
pub mod Tests
