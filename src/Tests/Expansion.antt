-- ===== src/Tests/Expansion.antt =====
-- The expansion of the pools, and what the program asks of the outside, at concrete data.
use wg_manager.Base.{
  ℕ, ◌+◌, ◌≡◌, true, false, Option, none, some, List, [], ◌∷◌, ◌++◌, refl, arith, inr,
}
use wg_manager.Base.{
  Text, lit, text_eq, text_beq, pos, Lacks, lookup, lookup_or, split, cons_head, fields,
  fields_from, is_space, trim,
}
use wg_manager.Base.{cut, parse_uint, scan, to_dec, digits, join, trim_left, trim_right, elem}
use wg_manager.Net.{
  IpNet, ip_string, parse_ip, parse_octets, parse_octet, parse_ones, parse_cidr, mask_to,
  net_contains,
}
use wg_manager.Store.{Table, get_peer, clashes}
use wg_manager.Store.Laws.{IsValid}
use wg_manager.Settings.{Config}
use wg_manager.Recharge.{ok}
use wg_manager.WgConf.Rewrite.{rewrite_ovpn_server_line, replace_server, is_server, server_line}
use wg_manager.Profiles.{ovpn_server_conf, lines_text, server_conf_head, server_conf_tail}
use wg_manager.Profiles.Moved.{rewrite_ovpn_server_line-ovpn_server_conf}
use wg_manager.Base.{has_prefix, trim}
use wg_manager.ServerAddress.{
  is_loopback, is_link_local, is_private, server_public_ip, from_params, first_value, address_value,
}
use wg_manager.ServerAddress.Public.{IsPublic, IsFirst, server_public_ip-detected}
use wg_manager.Release.Cache.{LatestRelease, ttl, release, failed}
use wg_manager.Release.Cache.Spaced.{Call, successes, AreSpaced, successes-AreSpaced}
use wg_manager.Subnet.{widen_cidr}
use wg_manager.Subnet.Expand.{Host, Tools, Outcome, swap_addrs, expand_openvpn}
use wg_manager.Subnet.Expand.Swap.{IsServed, between, swap_addrs-IsServed}
use wg_manager.Subnet.Expand.Clients.{widened_ccd, expand_openvpn-ccd}
use wg_manager.Subnet.Command.{Request, expand_subnet, is_flag}
use wg_manager.Subnet.Command.Untouched.{expand_subnet-unconfirmed}
use wg_manager.Users.Ovpn.{ovpn_mask}
use wg_manager.Tests.Commands.{user, no_config, before}
use wg_manager.Tests.Rules.{table}
use mathlib.Core.List.{Memᴰ}

-- 10.0.0.1, an IPv6 address, and 8.8.8.8
abbrev interfaces : List (Option ℕ)
interfaces = some 167772161 ∷ none ∷ some 134744072 ∷ []

eights-IsPublic : IsPublic 134744072
unfolding is_loopback is_link_local is_private
eights-IsPublic = record { not_loopback = refl; not_link_local = refl; not_private = refl }

no_endpoint : parse_ip [] ≡ none
unfolding parse_ip parse_octets parse_octet split parse_uint scan
no_endpoint = refl

-- A file of parameters that is empty.
abbrev with_params : Config
with_params = record no_config { params = b'p' ∷ [] }

no_value : from_params (some []) with_params ≡ []
unfolding from_params first_value address_value lit split has_prefix trim
no_value = refl

server_public_ip-detected_example :
    (b : ℕ) × IsFirst interfaces b
    × IsPublic b
    × (server_public_ip (λ s. false) (some []) (some interfaces) with_params ≡ ip_string b)
server_public_ip-detected_example =
    server_public_ip-detected (λ s. false) (some []) interfaces with_params 134744072 no_value
      no_endpoint refl (Memᴰ.tail (Memᴰ.tail (Memᴰ.head refl))) eights-IsPublic

abbrev some_release : LatestRelease
some_release = record { tag = []; name = []; published_at = []; html_url = []; body = [] }

-- A release, a failure once it is stale, and a release again.
abbrev calls : List Call
calls =
    record { now = 5; reply = release some_release }
    ∷ record { now = 5 + ttl; reply = failed [] }
    ∷ record { now = 6 + ttl; reply = release some_release }
    ∷ []

successes-AreSpaced_example :
    AreSpaced none
      (successes calls (record { fetched = none; payload = some_release; fetch_err = none }))
successes-AreSpaced_example =
    successes-AreSpaced calls 0 some_release (omega arith, (omega arith, (omega arith, tt)))

abbrev ovpn_config : Config
unfolding lit
ovpn_config = record no_config {
  ovpn_subnet = lit "10.8.0.0/24";
  ovpn_port = lit "1194";
  ovpn_proto = lit "udp";
}

abbrev old_pool : IpNet
old_pool = record { ip = 168296448; ones = 24 }

abbrev new_pool : IpNet
new_pool = record { ip = 168296448; ones = 16 }

abbrev generated : Text
generated =
    lines_text (server_conf_head ovpn_config)
      (server_line old_pool ++ (b'\n' ∷ lines_text (server_conf_tail ovpn_config) []))

generated_conf : ovpn_server_conf ovpn_config ≡ ok generated
unfolding ovpn_server_conf parse_cidr parse_ip parse_octets parse_octet parse_ones parse_uint scan
    cut split cons_head lit
generated_conf = refl

wide_parsed : parse_cidr (lit "10.8.0.0/16") ≡ some (168296448, new_pool)
unfolding parse_cidr parse_ip parse_octets parse_octet parse_ones parse_uint scan cut split
    cons_head lit
wide_parsed = refl

port_line : Lacks b'\n' ovpn_config.ovpn_port
unfolding lit
port_line = ground arith

proto_line : Lacks b'\n' ovpn_config.ovpn_proto
unfolding lit
proto_line = ground arith

rewrite_ovpn_server_line-ovpn_server_conf_example :
    (out : Text) × (rewrite_ovpn_server_line generated (lit "10.8.0.0/16") ≡ (out, true))
    × (ovpn_server_conf (record ovpn_config { ovpn_subnet = lit "10.8.0.0/16" }) ≡ ok out)
rewrite_ovpn_server_line-ovpn_server_conf_example =
    rewrite_ovpn_server_line-ovpn_server_conf ovpn_config generated (lit "10.8.0.0/16") 168296448
      new_pool port_line proto_line generated_conf wide_parsed

-- Programs that carry out what they are asked for.
abbrev tools : Tools
tools = record {
  accepts = λ a. true;
  removes = λ a. true;
  ipt = table;
  list_rules = λ name rows. none;
  has_iptables = false;
  routes = none;
  link_addrs = none;
  has_routing_unit = true;
  ovpn_unit = b'o' ∷ [];
  panel_active = false;
}

abbrev old_addr : Text
unfolding lit
old_addr = lit "10.8.0.1/24"

abbrev new_addr : Text
unfolding lit
new_addr = lit "10.8.0.1/16"

-- The user `a` has an OpenVPN identity and a file, and `b` has neither.
abbrev identified : Table
identified = record {
  rows =
      record (user 1 (b'a' ∷ []) (b'K' ∷ []) (b'7' ∷ [])) {
        ovpn_cn = b'a' ∷ [];
        ovpn_ip = b'9' ∷ [];
        ovpn_enabled = true;
      }
      ∷ user 2 (b'b' ∷ []) [] []
      ∷ [];
  next_id = 3;
}

identified-IsValid : IsValid identified
unfolding clashes text_beq
identified-IsValid = record { distinct = ground arith; below = ground arith }

abbrev ovpn_file : Text
unfolding lit
ovpn_file = lit "dev tun\nserver 10.8.0.0 255.255.255.0"

abbrev host : Host
host = record {
  world = record before { table = identified; ccd = (b'a' ∷ [], b'x' ∷ []) ∷ [] };
  has_conf = true;
  server_conf = some ovpn_file;
  unit_conf = none;
  config = no_config;
  backups = [];
  is_up = true;
  addrs = old_addr ∷ [];
  filter = [];
  nat = [];
  mangle = [];
  restarts = [];
}

old_trimmed : trim is_space old_addr ≡ old_addr
unfolding old_addr lit trim trim_left trim_right is_space
old_trimmed = refl

old_parsed : parse_cidr old_addr ≡ some (168296449, record { ip = mask_to 24 168296449; ones = 24 })
unfolding old_addr parse_cidr parse_ip parse_octets parse_octet parse_ones parse_uint scan cut split
    cons_head lit
old_parsed = refl

new_wider : widen_cidr old_addr (pos 16) true ≡ ok (new_addr, true)
unfolding old_addr new_addr widen_cidr parse_cidr parse_ip parse_octets parse_octet parse_ones
    parse_uint scan cut split cons_head trim trim_left trim_right is_space lit ip_string to_dec
    digits
new_wider = refl

old_held : elem old_addr (old_addr ∷ []) ≡ true
unfolding old_addr text_beq
old_held = refl

-- 10.8.0.7
served : IsServed host.addrs 168296455
unfolding net_contains
served = record {
  addr = old_addr;
  held = old_held;
  ip = 168296449;
  net = record { ip = mask_to 24 168296449; ones = 24 };
  parsed = old_parsed;
  inside = refl;
}

swap_addrs-IsServed_example :
    IsServed (between tools new_addr host.addrs) 168296455
    × IsServed (swap_addrs tools old_addr new_addr host).0.addrs 168296455
swap_addrs-IsServed_example =
    swap_addrs-IsServed old_addr new_addr 16 168296449 24 (omega arith) (omega arith) old_trimmed
      old_parsed new_wider tools host 168296455 served

abbrev wide : Text
unfolding lit
wide = lit "10.8.0.0/16"

abbrev expansion : Outcome (Unit {0})
expansion = expand_openvpn tools no_config (lit "10.8.0.0/24") wide host

expansion_done : expansion ≡ (expansion.0, ok tt)
unfolding wide ovpn_file lit expand_openvpn rewrite_ovpn_server_line replace_server server_line
    is_server fields fields_from cons_head is_space split cut parse_cidr parse_ip parse_octets
    parse_octet parse_ones parse_uint scan ip_string to_dec digits join text_beq ovpn_mask
expansion_done = refl

wide_mask : ovpn_mask wide ≡ ok (lit "255.255.0.0")
unfolding wide lit ovpn_mask cut parse_cidr parse_ip parse_octets parse_octet cons_head split
    parse_ones parse_uint scan ip_string to_dec digits join
wide_mask = refl

expand_openvpn-ccd_example :
    (lookup (b'a' ∷ []) expansion.0.world.ccd
      ≡ widened_ccd
          (lit "255.255.0.0")
          (get_peer host.world.table (b'a' ∷ []))
          (lookup (b'a' ∷ []) host.world.ccd))
    × (expansion.0.world.table ≡ host.world.table)
    × (expansion.0.config.ovpn_subnet ≡ wide)
expand_openvpn-ccd_example =
    expand_openvpn-ccd tools no_config (lit "10.8.0.0/24") wide (lit "255.255.0.0") (b'a' ∷ []) host
      expansion.0 identified-IsValid expansion_done wide_mask

abbrev bare : Request
bare = record { flags = []; identity = ([], []); answer = some false }

no_flag : (name : Text) → is_flag name [] ≡ false
unfolding is_flag lookup_or lookup lit text_beq
no_flag name = refl

expand_subnet-unconfirmed_example : (expand_subnet tools bare host).0 ≡ host
expand_subnet-unconfirmed_example =
    expand_subnet-unconfirmed tools bare host (inr (no_flag _, no_flag _, (λ e. cc)))
