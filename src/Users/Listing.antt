-- ===== src/Users/Listing.antt =====
-- What the panel shows of the users (api.go): `peerJSON`, `wgHandshakes`, `liveJSON`, `listPeers`,
-- `getConfig` and `ovpnConfigH`; and `livePeers` (main.go).
use wg_manager.Base.{Bool, not, ◌&&◌, ◌||◌, Option, none, some, List, [], ◌∷◌, Text, lit, nat_eq}
use wg_manager.Base.{
  if◌then◌else◌, is_empty, split, trim, is_space, fields, map, ℤ, pos, ltb_ℤ, add64, sub64,
  parse_int,
}
use wg_manager.Base.{Dict, insert, lookup_or}
use wg_manager.Store.{Peer, Table, all_peers}
use wg_manager.Settings.{Config, ovpn_defaults}
use wg_manager.Recharge.{Result, ok, err}
use wg_manager.Profiles.{client_config, ovpn_config_for_peer}
use wg_manager.Users.{World, must_peer}

-- `peerJSON`; the same numbers in GB are left out.
pub record PeerView : Type 0 where
  pub username : Text
  pub address : Text
  pub public_key : Text
  pub used_bytes : ℤ
  pub used_ovpn_bytes : ℤ
  pub used_total_bytes : ℤ
  pub quota_bytes : ℤ
  pub expires_at : Text
  pub enabled : Bool
  pub blocked : Bool
  pub has_ovpn : Bool
  pub ovpn_enabled : Bool
  pub ovpn_ip : Text

unfoldable pub peer_view : Peer → PeerView
peer_view p = record {
  username = p.username;
  address = p.address;
  public_key = p.public_key;
  used_bytes = p.used_bytes;
  used_ovpn_bytes = p.used_ovpn_bytes;
  used_total_bytes = add64 p.used_bytes p.used_ovpn_bytes;
  quota_bytes = p.quota_bytes;
  expires_at = p.expires_at;
  enabled = p.enabled;
  blocked = p.blocked;
  has_ovpn = not (is_empty p.ovpn_cn);
  ovpn_enabled = p.ovpn_enabled;
  ovpn_ip = p.ovpn_ip;
}

-- One line of `wg show <iface> latest-handshakes`
abbrev pub handshake_line : List Text → Dict ℤ → Dict ℤ
handshake_line (key ∷ at ∷ []) m = insert key (parse_int at).0 m
handshake_line _ m = m

unfoldable pub handshake_lines : List Text → Dict ℤ → Dict ℤ
unfolding insert
handshake_lines [] m = m
handshake_lines (l ∷ ls) m = handshake_lines ls (handshake_line (fields l) m)

-- `wgHandshakes`; `none` is a failed command.
unfoldable pub wg_handshakes : Option Text → Dict ℤ
unfolding handshake_lines
wg_handshakes none = []
wg_handshakes (some out) = handshake_lines (split b'\n' (trim is_space out)) []

-- `liveJSON`
pub record LiveView : Type 0 where
  pub peer : PeerView
  pub last_handshake : ℤ
  pub is_online : Bool

unfoldable pub live_view : Dict ℤ → ℤ → Peer → LiveView
unfolding peer_view lookup_or
live_view hs now p =
    let ts = lookup_or (pos 0) p.public_key hs in
    record {
      peer = peer_view p;
      last_handshake = ts;
      is_online = ltb_ℤ (pos 0) ts && ltb_ℤ (sub64 now ts) (pos 180);
    }

-- `listPeers`
unfoldable pub list_peers : Option Text → ℤ → Table → List LiveView
unfolding wg_handshakes live_view
list_peers out now t = let hs = wg_handshakes out in map (live_view hs now) (all_peers t)

-- `showPeer`
unfoldable pub show_peer : Option Text → ℤ → Text → World → Result LiveView
unfolding must_peer wg_handshakes live_view
show_peer out now name w = elim (must_peer name w) [
  | err e ↦ err e
  | ok p ↦ ok (live_view (wg_handshakes out) now p)
]

-- `livePeers`; `none` is a failed command.
unfoldable pub live_peers : Option Text → List Text
live_peers none = []
live_peers (some out) = fields out

-- `getConfig`; `pm` is the file of parameters, `ca` and `tc` are the texts of `ca.crt` and `tc.key`.
unfoldable pub get_config :
    Dict Text → Text × Text → Text → Text → Config → Text → World → Result Text
unfolding must_peer client_config ovpn_config_for_peer ovpn_defaults
get_config pm identity ca tc cfg name w = elim (must_peer name w) [
  | err e ↦ err e
  | ok p ↦
      if not (is_empty p.private_key)
      then ok (client_config pm p)
      else if not (is_empty p.ovpn_cert)
      then ok (ovpn_config_for_peer ca tc (ovpn_defaults identity cfg) p)
      else err (lit "no stored config")
]

-- `ovpnConfigH`
unfoldable pub ovpn_config : Text × Text → Text → Text → Config → Text → World → Result Text
unfolding must_peer ovpn_config_for_peer ovpn_defaults
ovpn_config identity ca tc cfg name w = elim (must_peer name w) [
  | err e ↦ err e
  | ok p ↦
      if is_empty p.ovpn_cn || is_empty p.ovpn_cert
      then err (lit "user has no OpenVPN identity")
      else ok (ovpn_config_for_peer ca tc (ovpn_defaults identity cfg) p)
]
