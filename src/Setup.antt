-- ===== src/Setup.antt =====
-- The first set-up (main.go, ovpn_pki.go): `cmdInit`, `cmdOvpnInit`, the identity that OpenVPN runs
-- under, and the commands that change single settings.
use wg_manager.Base.{
  Bool, true, false, ◌||◌, Option, none, some, List, [], ◌∷◌, ◌++◌, Text, lit, text_eq, ◌==◌,
}
use wg_manager.Base.{
  if◌then◌else◌, is_empty, any, has_prefix, split, trim, is_space, pos, Dict, lookup, lookup_or,
}
use wg_manager.Net.{parse_cidr}
use wg_manager.Net.Overlap.{nets_overlap}
use wg_manager.Recharge.{Result, ok, err}
use wg_manager.Settings.{Config, ovpn_defaults, norm_base}
use wg_manager.Settings.Flags.{parse_flags}
use wg_manager.WgConf.{wg_head, ipv4, ipv6}
use wg_manager.Profiles.{ovpn_server_conf}

-- `groupExists`, from the text of `/etc/group`
unfoldable pub group_exists : Option Text → Text → Bool
group_exists none name = false
group_exists (some text) name = any (λ l. has_prefix l (name ++ lit ":")) (split b'\n' text)

-- `ovpnRuntimeIdentity`: whether there is a user `openvpn`, the name of its group if it can be read,
-- and the text of `/etc/group`.
unfoldable pub ovpn_runtime_identity : Bool → Option Text → Option Text → Text × Text
unfolding group_exists
ovpn_runtime_identity has_user group groups =
    if has_user
    then elim group [
      | none ↦ (lit "openvpn", lit "openvpn")
      | some out ↦
          let g = trim is_space out in
          if is_empty g then (lit "openvpn", lit "openvpn") else (lit "openvpn", g)
    ]
    else if group_exists groups (lit "nogroup")
    then (lit "nobody", lit "nogroup")
    else (lit "nobody", lit "nobody")

-- What is random, and the hash of the first password.
pub record Secrets : Type 0 where
  pub token : Text
  pub pass_hash : Text
  pub path : Text

-- The settings of `cmdInit`.
unfoldable pub init_config : Secrets → Dict Text → Config
unfolding norm_base lookup lookup_or
init_config x flags =
    let ovpn_only = lookup_or [] (lit "ovpn-only") flags == lit "true" in
    record {
      interface = if ovpn_only then [] else lit "wg0";
      wg_conf = if ovpn_only then [] else lit "/etc/wireguard/wg0.conf";
      params = if ovpn_only then [] else lit "/etc/wireguard/params";
      db = lit "/var/lib/wgmgr/wgmgr.db";
      clients_dir = lit "/etc/wireguard/clients";
      api_listen = lit ":8443";
      api_token = x.token;
      base_path = elim (lookup (lit "base-path") flags) [
        | none ↦ lit "/" ++ x.path
        | some v ↦ norm_base v
      ];
      tls_cert = lit "/etc/wgmgr/cert.pem";
      tls_key = lit "/etc/wgmgr/key.pem";
      interval_s = pos 180;
      ip_set = lit "wgmgr_blocked";
      admin_user = lit "admin";
      admin_pass_hash = x.pass_hash;
      ovpn_mgmt = [];
      ovpn_status = [];
      ovpn_dir = [];
      ovpn_subnet = [];
      ovpn_port = [];
      ovpn_proto = [];
      ovpn_endpoint = [];
      ovpn_dns = [];
      ovpn_user = [];
      ovpn_group = [];
      ovpn_mss_fix = [];
      ovpn_tun_mtu = [];
    }

-- The check of `cmdInit` on the files of WireGuard, which comes after the settings are written.
unfoldable pub check_files : Option Text → Option Text → Result (Unit {0})
unfolding wg_head
check_files none conf = err (lit "cannot read params")
check_files (some params) none = err (lit "cannot read conf")
check_files (some params) (some conf) = elim (wg_head conf) [ err e ↦ err e | ok x ↦ ok tt ]

-- `cmdInit`: the saved settings that are left, and how it ends. `params` and `conf` are the texts of
-- the files of WireGuard, if they are there.
unfoldable pub cmd_init :
    Secrets
    → Option Text
    → Option Text
    → List Text
    → Option Config
    → Option Config × Result (Unit {0})
unfolding parse_flags init_config check_files lookup_or
cmd_init x params conf args saved =
    let flags = (parse_flags args).flags in
    let cfg = init_config x flags in
    let written : Option Config × Result (Unit {0}) =
      (some cfg, if is_empty cfg.wg_conf then ok tt else check_files params conf) in
    elim saved [
      | none ↦ written
      | some old ↦
          if lookup_or [] (lit "force") flags == lit "true"
          then written
          else (some old, err (lit "config already exists"))
    ]

-- `set-login`
unfoldable pub set_login : (Text → Text) → List Text → Config → Result Config
set_login hash [] cfg = err (lit "usage: wgmgr set-login <username> <password>")
set_login hash (user ∷ []) cfg = err (lit "usage: wgmgr set-login <username> <password>")
set_login hash (user ∷ pass ∷ args) cfg =
    ok (record cfg { admin_user = user; admin_pass_hash = hash pass })

-- `set-base-path`
unfoldable pub set_base_path : List Text → Config → Result Config
unfolding norm_base
set_base_path [] cfg = err (lit "usage: wgmgr set-base-path <path|/>")
set_base_path (path ∷ args) cfg = ok (record cfg { base_path = norm_base path })

-- `regenAPIToken`, on the settings in memory and those of the file
unfoldable pub regen_api_token : Text → Config × Config → Config × Config
regen_api_token token (cfg, file) =
    (record cfg { api_token = token }, record file { api_token = token })

-- The flags of `cmdOvpnInit` that set a field.
unfoldable pub ovpn_flags : Dict Text → Config → Config
unfolding lookup_or
ovpn_flags flags cfg = record cfg {
  ovpn_dir = lookup_or cfg.ovpn_dir (lit "dir") flags;
  ovpn_subnet = lookup_or cfg.ovpn_subnet (lit "subnet") flags;
  ovpn_port = lookup_or cfg.ovpn_port (lit "port") flags;
  ovpn_proto = lookup_or cfg.ovpn_proto (lit "proto") flags;
  ovpn_dns = lookup_or cfg.ovpn_dns (lit "dns") flags;
  ovpn_mgmt = lookup_or cfg.ovpn_mgmt (lit "mgmt") flags;
  ovpn_user = lookup_or cfg.ovpn_user (lit "user") flags;
  ovpn_group = lookup_or cfg.ovpn_group (lit "group") flags;
  ovpn_mss_fix = lookup_or cfg.ovpn_mss_fix (lit "mssfix") flags;
  ovpn_tun_mtu = lookup_or cfg.ovpn_tun_mtu (lit "tun-mtu") flags;
}

-- The check against the WireGuard pool, where the subnet is being chosen; `conf` is the text of the
-- WireGuard file, if there is one.
unfoldable pub check_pools : Bool → Option Text → Config → Result (Unit {0})
unfolding wg_head nets_overlap
check_pools false conf cfg = ok tt
check_pools true none cfg = ok tt
check_pools true (some conf) cfg = if is_empty cfg.wg_conf then ok tt else elim (wg_head conf) [
  | err e ↦ err e
  | ok (head, found) ↦ elim found [
    | ipv6 ↦ ok tt
    | ipv4 (server, wn) ↦ elim (parse_cidr cfg.ovpn_subnet) [
      | none ↦ ok tt
      | some (ip, on) ↦
          if nets_overlap wn on
          then err (lit "openvpn subnet overlaps the WireGuard pool")
          else ok tt
    ]
  ]
]

-- The endpoint: the flag, or the present one, or the address that is detected.
unfoldable pub with_endpoint : (Config → Text) → Dict Text → Config → Result Config
unfolding lookup
with_endpoint detect flags cfg =
    let cfg1 : Config = elim (lookup (lit "endpoint") flags) [
      | none ↦ cfg
      | some v ↦ record cfg { ovpn_endpoint = v }
    ] in
    let cfg2 : Config =
      if is_empty cfg1.ovpn_endpoint then record cfg1 { ovpn_endpoint = detect cfg1 } else cfg1 in
    if is_empty cfg2.ovpn_endpoint then err (lit "openvpn endpoint required") else ok cfg2

-- The settings of `cmdOvpnInit`.
unfoldable pub ovpn_init_config :
    Text × Text → (Config → Text) → Option Text → Dict Text → Config → Result Config
unfolding ovpn_flags ovpn_defaults check_pools with_endpoint lookup
ovpn_init_config identity detect conf flags cfg =
    let has_subnet : Bool = elim (lookup (lit "subnet") flags) [ none ↦ false | some v ↦ true ] in
    let choosing = is_empty cfg.ovpn_subnet || has_subnet in
    let cfg1 = ovpn_defaults identity (ovpn_flags flags cfg) in
    elim (check_pools choosing conf cfg1) [ err e ↦ err e | ok u ↦ with_endpoint detect flags cfg1 ]

-- The files of the OpenVPN directory and the saved settings; the authority is outside.
pub record OvpnSite : Type 0 where
  pub config : Config
  pub server_pair : Option (Text × Text)
  pub tls_crypt : Option Text
  pub server_conf : Option Text
  pub restarts : List Text

-- `cmdOvpnInit` behind the settings: the pair and the key are made once, and the server file is
-- written each time. `unit` is what `activeOpenvpnUnit` finds.
unfoldable pub write_ovpn :
    Text × Text → Text → Text → Config → OvpnSite → OvpnSite × Result (Unit {0})
unfolding ovpn_server_conf
write_ovpn pair key unit cfg s =
    let s1 : OvpnSite = record s {
      server_pair = elim s.server_pair [ none ↦ some pair | some old ↦ some old ];
      tls_crypt = elim s.tls_crypt [ none ↦ some key | some old ↦ some old ];
    } in
    elim (ovpn_server_conf cfg) [
      | err e ↦ (s1, err e)
      | ok conf ↦ (
        record s1 {
          server_conf = some conf;
          config = cfg;
          restarts = if is_empty unit then s1.restarts else unit ∷ s1.restarts;
        },
        ok tt,
      )
    ]

-- `cmdOvpnInit`
unfoldable pub cmd_ovpn_init :
    Text × Text
    → (Config → Text)
    → Option Text
    → Text × Text
    → Text
    → Text
    → List Text
    → OvpnSite
    → OvpnSite × Result (Unit {0})
unfolding parse_flags ovpn_init_config write_ovpn
cmd_ovpn_init identity detect conf pair key unit args s =
    elim (ovpn_init_config identity detect conf (parse_flags args).flags s.config) [
      | err e ↦ (s, err e)
      | ok cfg ↦ write_ovpn pair key unit cfg s
    ]
