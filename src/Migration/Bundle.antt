-- ===== src/Migration/Bundle.antt =====
-- What a bundle may hold, and the settings that it brings (migration.go).
use wg_manager.Base.{Bool, Option, none, some, List, [], ◌∷◌, Text, lit, text_eq}
use wg_manager.Base.{if◌then◌else◌, is_empty, elem, any, has_prefix, Dict, lookup_or}
use wg_manager.Settings.{Config, or_default, ovpn_defaults}

unfoldable pub known_names : List Text
unfolding lit
known_names =
    lit "manifest.json"
    ∷ lit "users.json"
    ∷ lit "wireguard/params"
    ∷ lit "wireguard/wg0.conf"
    ∷ lit "openvpn/ca.crt"
    ∷ lit "openvpn/ca.key"
    ∷ lit "openvpn/server.crt"
    ∷ lit "openvpn/server.key"
    ∷ lit "openvpn/tc.key"
    ∷ lit "openvpn/server.conf"
    ∷ []

-- `knownMigrationBundleEntry`
unfoldable pub known_entry : Text → Bool
unfolding known_names
known_entry name = elem name known_names

-- `migrationOpenVPNSettings`, and the interface of `migrationWireGuardSettings`
pub record Manifest : Type 0 where
  pub interface : Text
  pub subnet : Text
  pub port : Text
  pub proto : Text
  pub endpoint : Text
  pub dns : Text
  pub mgmt : Text
  pub mss_fix : Text
  pub tun_mtu : Text

-- `migrationDestination`
pub record Destination : Type 0 where
  pub wg_endpoint : Text
  pub wg_port : Text
  pub ovpn_endpoint : Text
  pub ovpn_port : Text
  pub ovpn_proto : Text

-- `currentMigrationDestination`; `params` are the parameters, if the file is there.
unfoldable pub current_destination : Config → Option (Dict Text) → Destination
current_destination cfg params =
    let endpoint : Text = elim params [
      | none ↦ []
      | some pm ↦ lookup_or [] (lit "SERVER_PUB_IP") pm
    ] in
    record {
      wg_endpoint = endpoint;
      wg_port = elim params [ none ↦ [] | some pm ↦ lookup_or [] (lit "SERVER_PORT") pm ];
      ovpn_endpoint = or_default cfg.ovpn_endpoint endpoint;
      ovpn_port = cfg.ovpn_port;
      ovpn_proto = cfg.ovpn_proto;
    }

-- The value of the manifest, if it has one.
abbrev pub override : Text → Text → Text
override new old = if is_empty new then old else new

-- The value of the destination, or the present one, or that of the manifest.
abbrev pub prefer : Text → Text → Text → Text
prefer dest old new = if is_empty dest then (if is_empty old then new else old) else dest

unfoldable pub apply_wireguard : Manifest → Config → Config
apply_wireguard m cfg = record cfg {
  interface = or_default cfg.interface (or_default m.interface (lit "wg0"));
  wg_conf = or_default cfg.wg_conf (lit "/etc/wireguard/wg0.conf");
  params = or_default cfg.params (lit "/etc/wireguard/params");
}

unfoldable pub apply_openvpn : Text × Text → Manifest → Destination → Config → Config
unfolding ovpn_defaults
apply_openvpn identity m d cfg = ovpn_defaults identity (record cfg {
  ovpn_dir = or_default cfg.ovpn_dir (lit "/etc/openvpn");
  ovpn_subnet = override m.subnet cfg.ovpn_subnet;
  ovpn_port = prefer d.ovpn_port cfg.ovpn_port m.port;
  ovpn_proto = prefer d.ovpn_proto cfg.ovpn_proto m.proto;
  ovpn_dns = override m.dns cfg.ovpn_dns;
  ovpn_mgmt = override m.mgmt cfg.ovpn_mgmt;
  ovpn_mss_fix = override m.mss_fix cfg.ovpn_mss_fix;
  ovpn_tun_mtu = override m.tun_mtu cfg.ovpn_tun_mtu;
  ovpn_endpoint = prefer d.ovpn_endpoint cfg.ovpn_endpoint m.endpoint;
})

-- `applyBundleConfig`, for the names of the entries
unfoldable pub apply_bundle_config :
    Text × Text → Manifest → List Text → Destination → Config → Config
unfolding apply_wireguard apply_openvpn
apply_bundle_config identity m entries d cfg =
    let wg = any (λ e. has_prefix e (lit "wireguard/")) entries in
    let ov = any (λ e. has_prefix e (lit "openvpn/")) entries in
    let cfg' = if wg then apply_wireguard m cfg else cfg in
    if ov then apply_openvpn identity m d cfg' else cfg'
