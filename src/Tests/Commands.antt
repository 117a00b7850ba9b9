-- ===== src/Tests/Commands.antt =====
-- Users, files and releases at concrete data.
use wg_manager.Base.{drop, split, cons_head}
use wg_manager.Base.{
  ℕ, ◌+◌, ◌≤◌, ◌<◌, ◌≡◌, true, false, none, some, [], ◌∷◌, ◌++◌, map, keep, refl, arith, not,
}
use wg_manager.Base.{
  Text, lit, text_eq, nat_eq, text_beq, ◌==◌, ltb, length, pos, All, is_space, elem, drop, join,
  split, cons_head,
}
use wg_manager.Base.{trim, trim_left, trim_right, has_prefix, cut, parse_uint, scan, to_dec, digits}
use wg_manager.Store.{Peer, Table, get_peer, find_user, insert_peer, clashes}
use wg_manager.Store.Laws.{IsValid}
use wg_manager.Settings.{Config, ovpn_defaults}
use wg_manager.Enforce.{Clock}
use wg_manager.Net.{
  IpNet, network, block, host_allocatable, ip_string, parse_cidr, parse_ip, parse_octets,
  parse_octet, parse_ones,
}
use wg_manager.Net.{
  next_free_host, scan_hosts, net_contains, broadcast_addr, octets, increment, of_octets,
  or_inverse, next_ip,
}
use wg_manager.Net.Hosts.{IsNet}
use wg_manager.Subnet.{network_of}
use wg_manager.Recharge.{Floats, Result, ok, err}
use wg_manager.WgConf.{
  next_free_ip, interface_head, wg_head, head_lines, head_address, address_line, is_head_end,
  peer_marker, to_lower, after_first, before_first, render_peer_section,
}
use wg_manager.WgConf.Import.{sections, no_section}
use wg_manager.WgConf.Import.Rendered.{IsPlain, has_key, section_of, sections-render_peer_section}
use wg_manager.WgConf.Rewrite.{rewrite_wg_head, rewrite_line}
use wg_manager.WgConf.Rewrite.Lines.{rewrite_wg_head-lines}
use wg_manager.Users.{World, new_row}
use wg_manager.Users.Ovpn.{ovpn_attach_new_user, ovpn_attach, attach_plan, ovpn_next_free_ip}
use wg_manager.Users.Panel.{Server, create_ovpn, with_profile}
use wg_manager.Users.Fresh.{next_free_ip-fresh, create_ovpn_failed}
use wg_manager.Users.Ghosts.{is_ghost, ghosts_command}
use wg_manager.Users.Ghosts.Gone.{rows-ghosts_command}
use wg_manager.Migration.{import_migration, migration_from_db}
use wg_manager.Migration.Transfer.{import_migration-export, no_users, renumber}

abbrev pub user : ℕ → Text → Text → Text → Peer
user i name key ip = record {
  id = i;
  username = name;
  public_key = key;
  private_key = [];
  psk = [];
  address = ip;
  quota_bytes = pos 100;
  used_bytes = pos 40;
  last_rx = pos 10;
  last_tx = pos 20;
  expires_at = [];
  enabled = true;
  blocked = false;
  ovpn_cn = [];
  ovpn_ip = [];
  ovpn_enabled = false;
  used_ovpn_bytes = pos 0;
  last_ovpn_bytes = pos 0;
  ovpn_cert = [];
  ovpn_key = [];
}

-- One user with a key, and one without any identity.
abbrev pub two : Table
two = record {
  rows = user 1 (b'a' ∷ []) (b'K' ∷ []) (b'7' ∷ []) ∷ user 2 (b'b' ∷ []) [] [] ∷ [];
  next_id = 3;
}

pub two-IsValid : IsValid two
unfolding clashes text_beq
two-IsValid = record { distinct = ground arith; below = ground arith }

rows-ghosts_command_example : (ghosts_command true two).rows ≡ keep (λ p. not (is_ghost p)) two.rows
rows-ghosts_command_example = rows-ghosts_command two

import_migration-export_example :
    import_migration (migration_from_db two) (no_users 1)
    ≡ (record { rows = renumber 1 two.rows; next_id = 1 + length two.rows }, true)
import_migration-export_example = import_migration-export two 1 two-IsValid (refl, (refl, tt))

IsPlain-user_a : IsPlain (user 1 (b'a' ∷ []) (b'K' ∷ []) (b'7' ∷ []))
unfolding is_space
IsPlain-user_a = record {
  name_word = ground arith;
  key_word = ground arith;
  psk_word = tt;
  ip_word = ground arith;
  no_comma = ground arith;
}

IsPlain-two : All (λ p. has_key p ≡ true → IsPlain p) two.rows
IsPlain-two = ((λ q. IsPlain-user_a), ((λ q. cc), tt))

sections-render_peer_section_example :
    sections (split b'\n' (render_peer_section two)) no_section
    ≡ no_section ∷ map section_of (keep has_key two.rows)
sections-render_peer_section_example = sections-render_peer_section two IsPlain-two

abbrev conf : Text
unfolding lit
conf = lit "[Interface]\nAddress = 10.8.0.1/24\n[Peer]\nAllowedIPs = 10.8.0.2/32"

rewrite_wg_head-lines_example :
    rewrite_wg_head conf (lit "10.8.0.1/24") (lit "10.8.0.1/16")
    ≡ join (b'\n' ∷ []) (
        map
          (rewrite_line
            (lit "10.8.0.1/24")
            (lit "10.8.0.1/16")
            (network_of (lit "10.8.0.1/24"))
            (network_of (lit "10.8.0.1/16")))
          (head_lines (split b'\n' conf))
        ++ drop (length (head_lines (split b'\n' conf))) (split b'\n' conf))
rewrite_wg_head-lines_example = rewrite_wg_head-lines conf (lit "10.8.0.1/24") (lit "10.8.0.1/16")

-- 10.8.0.0/24
abbrev pool : IpNet
pool = record { ip = 168296448; ones = 24 }

pool-IsNet : IsNet pool
pool-IsNet = record { ip_lt = omega arith; ones_le = omega arith }

head_read : interface_head conf ≡ ok (lit "[Interface]\nAddress = 10.8.0.1/24", 168296449, pool)
unfolding conf lit interface_head wg_head head_lines head_address address_line is_head_end
    peer_marker to_lower after_first before_first cut trim trim_left trim_right is_space has_prefix
    split cons_head join text_beq parse_cidr parse_ip parse_octets parse_octet parse_ones parse_uint
    scan
head_read = refl

next_ip_read : next_free_ip two conf ≡ ok (lit "10.8.0.2")
unfolding next_free_ip conf lit interface_head wg_head head_lines head_address address_line
    is_head_end peer_marker to_lower after_first before_first cut trim trim_left trim_right is_space
    has_prefix split cons_head join text_beq parse_cidr parse_ip parse_octets parse_octet parse_ones
    parse_uint scan next_free_host scan_hosts host_allocatable net_contains broadcast_addr octets
    increment of_octets or_inverse next_ip ip_string to_dec digits
next_ip_read = refl

next_free_ip-fresh_example :
    (a : ℕ) × (lit "10.8.0.2" ≡ ip_string a)
    × (network pool ≤ a)
    × (a < network pool + block pool)
    × (host_allocatable a pool ≡ true)
    × ((lit "10.8.0.2" == ip_string 168296449) ≡ false)
    × (elem (lit "10.8.0.2") (map (λ p. p.address) two.rows) ≡ false)
next_free_ip-fresh_example =
    next_free_ip-fresh two conf (lit "[Interface]\nAddress = 10.8.0.1/24") (lit "10.8.0.2")
      168296449 pool head_read pool-IsNet next_ip_read

abbrev pub no_config : Config
no_config = record {
  interface = [];
  wg_conf = [];
  params = [];
  db = [];
  clients_dir = [];
  api_listen = [];
  api_token = [];
  base_path = [];
  tls_cert = [];
  tls_key = [];
  interval_s = pos 180;
  ip_set = [];
  admin_user = [];
  admin_pass_hash = [];
  ovpn_mgmt = [];
  ovpn_status = [];
  ovpn_dir = [];
  ovpn_subnet = b'x' ∷ [];
  ovpn_port = [];
  ovpn_proto = [];
  ovpn_endpoint = [];
  ovpn_dns = [];
  ovpn_user = [];
  ovpn_group = [];
  ovpn_mss_fix = [];
  ovpn_tun_mtu = [];
}

abbrev pub server : Server
server = record {
  cfg = no_config;
  file_cfg = no_config;
  has_ca = true;
  identity = ([], []);
  private_key = [];
  public_key = [];
  psk = [];
  attaching = record { issue = λ name. ok ([], []); write_failure = none; takes_update = true };
  has_profile = true;
  has_params = true;
}

abbrev pub one_day : Clock
one_day = record {
  Time = ℕ;
  parse = λ s. some (length s);
  format = λ t. [];
  after = λ t u. ltb u t;
  add_days = λ t n. t;
}

abbrev pub counting : Floats
counting = record {
  Float = ℕ;
  is_negative = λ v. false;
  is_nan = λ v. false;
  is_inf = λ v. false;
  reaches_max = λ v. false;
  to_bytes = λ v. pos v;
  is_positive = λ v. ltb 0 v;
  to_int = λ v. pos v;
  real_sum = λ a b. a;
  parse = λ s. (0, true);
}

abbrev pub before : World
before = record { table = two; ccd = []; conf = []; live = [] }

abbrev attempt : World × Result Text
attempt = create_ovpn counting one_day 5 server (λ w. w) (b'c' ∷ []) (pos 0) [] before

-- The subnet of the settings is no network, so that there is no address to give.
attempt_fails : attempt ≡ (attempt.0, err (lit "ovpn: bad subnet"))
unfolding create_ovpn with_profile ovpn_attach_new_user ovpn_attach attach_plan ovpn_next_free_ip
    ovpn_defaults insert_peer clashes new_row get_peer find_user text_beq parse_cidr cut
attempt_fails = refl

create_ovpn_failed_example : attempt.0.table.rows ≡ two.rows
create_ovpn_failed_example =
    create_ovpn_failed counting one_day 5 server (λ w. w) (b'c' ∷ []) [] (lit "ovpn: bad subnet")
      (pos 0) before attempt.0 two-IsValid.below refl attempt_fails

abbrev ovpn_server : Server
ovpn_server = record server { cfg = record no_config { ovpn_dir = b'/' ∷ [] } }

abbrev with_files : World
with_files = record before { ccd = (b'a' ∷ [], b'x' ∷ []) ∷ [] }
