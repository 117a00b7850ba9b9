-- ===== src/Settings.antt =====
-- The settings (Config in main.go), their defaults, the flags of the command line, and the texts of
-- keys and values (parseParams, setParamValue).
pub mod Params
pub mod Flags
use wg_manager.Base.{
  Bool, true, false, not, ◌&&◌, List, [], ◌∷◌, Text, lit, nat_eq, ◌==◌, if◌then◌else◌,
}
use wg_manager.Base.{is_empty, trim, is_space, ℤ}

-- `Config`
pub record Config : Type 0 where
  pub interface : Text
  pub wg_conf : Text
  pub params : Text
  pub db : Text
  pub clients_dir : Text
  pub api_listen : Text
  pub api_token : Text
  pub base_path : Text
  pub tls_cert : Text
  pub tls_key : Text
  pub interval_s : ℤ
  pub ip_set : Text
  pub admin_user : Text
  pub admin_pass_hash : Text
  pub ovpn_mgmt : Text
  pub ovpn_status : Text
  pub ovpn_dir : Text
  pub ovpn_subnet : Text
  pub ovpn_port : Text
  pub ovpn_proto : Text
  pub ovpn_endpoint : Text
  pub ovpn_dns : Text
  pub ovpn_user : Text
  pub ovpn_group : Text
  pub ovpn_mss_fix : Text
  pub ovpn_tun_mtu : Text

-- `if field == "" { field = value }`
abbrev pub or_default : Text → Text → Text
or_default s d = if is_empty s then d else s

-- `ovpnDefaults`; `identity` is what `ovpnRuntimeIdentity` finds.
unfoldable pub ovpn_defaults : Text × Text → Config → Config
unfolding lit
ovpn_defaults (user, group) cfg = record cfg {
  ovpn_dir = or_default cfg.ovpn_dir (lit "/etc/openvpn");
  ovpn_subnet = or_default cfg.ovpn_subnet (lit "10.8.0.0/16");
  ovpn_port = or_default cfg.ovpn_port (lit "1194");
  ovpn_proto = or_default cfg.ovpn_proto (lit "udp");
  ovpn_dns = or_default cfg.ovpn_dns (lit "1.1.1.1");
  ovpn_mgmt = or_default cfg.ovpn_mgmt (lit "unix:/run/wgmgr/ovpn.sock");
  ovpn_user = or_default cfg.ovpn_user user;
  ovpn_group = or_default cfg.ovpn_group group;
  ovpn_mss_fix = or_default cfg.ovpn_mss_fix (lit "1360");
}

-- `normBase`
unfoldable pub norm_base : Text → Text
norm_base s = let t = trim (λ c. c == b'/') (trim is_space s) in if is_empty t then [] else b'/' ∷ t
