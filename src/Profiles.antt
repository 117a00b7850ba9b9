-- ===== src/Profiles.antt =====
-- The configuration texts that the program writes for OpenVPN (ovpn_pki.go) and for the clients of
-- WireGuard (main.go).
pub mod Moved
use wg_manager.Base.{
  ℕ, ◌-◌, ◌^◌, Bool, true, false, not, Option, none, some, List, [], ◌∷◌, ◌++◌, Text, lit,
}
use wg_manager.Base.{
  if◌then◌else◌, is_empty, has_prefix, trim_prefix, trim_right, cut, nat_eq, ◌==◌, Dict, lookup_or,
}
use wg_manager.Store.{Peer}
use wg_manager.Net.{IpNet, parse_cidr, ip_string, mask_to}
use wg_manager.Settings.{Config}
use wg_manager.Recharge.{Result, ok, err}
use wg_manager.WgConf.Rewrite.{server_line}

-- Lines, each with its end, and a text behind them.
unfoldable pub lines_text : List Text → Text → Text
lines_text [] rest = rest
lines_text (l ∷ ls) rest = l ++ (b'\n' ∷ lines_text ls rest)

-- The `management` line of the server.
unfoldable pub mgmt_line : Text → Text
mgmt_line mgmt =
    if has_prefix mgmt (lit "unix:")
    then lit "management " ++ (trim_prefix mgmt (lit "unix:") ++ lit " unix")
    else elim (cut b':' mgmt) [
      | none ↦ []
      | some (h, p) ↦ lit "management " ++ (h ++ (lit " " ++ p))
    ]

-- The lines of `tuning`.
unfoldable pub tuning_lines : Config → List Text
tuning_lines cfg =
    (if is_empty cfg.ovpn_mss_fix then [] else (lit "mssfix " ++ cfg.ovpn_mss_fix) ∷ [])
    ++ (if is_empty cfg.ovpn_tun_mtu then [] else (lit "tun-mtu " ++ cfg.ovpn_tun_mtu) ∷ [])

-- The lines of `server.conf` before the `server` directive.
unfoldable pub server_conf_head : Config → List Text
server_conf_head cfg =
    lit "# Generated by wgmgr ovpn-init — do not edit by hand."
    ∷ (lit "port " ++ cfg.ovpn_port)
    ∷ (lit "proto " ++ cfg.ovpn_proto)
    ∷ lit "dev tun"
    ∷ lit "topology subnet"
    ∷ []

-- The lines behind it.
unfoldable pub server_conf_tail : Config → List Text
unfolding mgmt_line tuning_lines
server_conf_tail cfg =
    (lit "ca " ++ (cfg.ovpn_dir ++ lit "/ca.crt"))
    ∷ (lit "cert " ++ (cfg.ovpn_dir ++ lit "/server.crt"))
    ∷ (lit "key " ++ (cfg.ovpn_dir ++ lit "/server.key"))
    ∷ lit "dh none"
    ∷ (lit "tls-crypt " ++ (cfg.ovpn_dir ++ lit "/tc.key"))
    ∷ lit "cipher AES-256-GCM"
    ∷ lit "data-ciphers AES-256-GCM:AES-128-GCM"
    ∷ lit "auth SHA256"
    ∷ (lit "client-config-dir " ++ (cfg.ovpn_dir ++ lit "/ccd"))
    ∷ lit "ccd-exclusive"
    ∷ mgmt_line cfg.ovpn_mgmt
    ∷ lit "keepalive 10 120"
    ∷ lit "persist-key"
    ∷ lit "persist-tun"
    ∷ (tuning_lines cfg
        ++ ((lit "user " ++ cfg.ovpn_user)
            ∷ (lit "group " ++ cfg.ovpn_group)
            ∷ lit "push \"redirect-gateway def1 bypass-dhcp\""
            ∷ (lit "push \"dhcp-option DNS " ++ (cfg.ovpn_dns ++ lit "\""))
            ∷ lit "verb 3"
            ∷ lit "explicit-exit-notify 1"
            ∷ []))

-- `ovpnServerConf`
unfoldable pub ovpn_server_conf : Config → Result Text
unfolding server_conf_head server_conf_tail server_line
ovpn_server_conf cfg = elim (parse_cidr cfg.ovpn_subnet) [
  | none ↦ err (lit "ovpn: bad subnet")
  | some (ip, n) ↦ ok (
      lines_text (server_conf_head cfg)
        (server_line n ++ (b'\n' ∷ lines_text (server_conf_tail cfg) [])))
]

-- `nl`
unfoldable pub with_newline : Text → Text
with_newline s = trim_right (λ c. c == b'\n') s ++ lit "\n"

-- `ovpnClientConfig`
unfoldable pub ovpn_client_config : Config → Text → Text → Text → Text → Text
unfolding with_newline tuning_lines
ovpn_client_config cfg ca cert key tc =
    lines_text
      (lit "client"
        ∷ lit "dev tun"
        ∷ (lit "proto " ++ cfg.ovpn_proto)
        ∷ (lit "remote " ++ (cfg.ovpn_endpoint ++ (lit " " ++ cfg.ovpn_port)))
        ∷ lit "resolv-retry infinite"
        ∷ lit "nobind"
        ∷ lit "persist-key"
        ∷ lit "persist-tun"
        ∷ (tuning_lines cfg
            ++ ([]
                ∷ lit "remote-cert-tls server"
                ∷ lit "cipher AES-256-GCM"
                ∷ lit "auth SHA256"
                ∷ lit "verb 3"
                ∷ lit "<ca>"
                ∷ [])))
      (with_newline ca
        ++ lines_text (lit "</ca>" ∷ lit "<cert>" ∷ []) (
            with_newline cert
            ++ lines_text (lit "</cert>" ∷ lit "<key>" ∷ []) (
                with_newline key
                ++ lines_text (lit "</key>" ∷ lit "<tls-crypt>" ∷ [])
                    (with_newline tc ++ lines_text (lit "</tls-crypt>" ∷ []) []))))

-- `ovpnConfigForPeer`; `ca` and `tc` are the texts of `ca.crt` and `tc.key`.
unfoldable pub ovpn_config_for_peer : Text → Text → Config → Peer → Text
unfolding ovpn_client_config
ovpn_config_for_peer ca tc cfg p = ovpn_client_config cfg ca p.ovpn_cert p.ovpn_key tc

-- The name servers of `clientConfig`.
unfoldable pub client_dns : Dict Text → Text
unfolding lookup_or
client_dns pm =
    lookup_or [] (lit "CLIENT_DNS_1") pm
    ++ (if is_empty (lookup_or [] (lit "CLIENT_DNS_2") pm)
        then []
        else lit ", " ++ lookup_or [] (lit "CLIENT_DNS_2") pm)

unfoldable pub allowed_ips : Dict Text → Text
unfolding lookup_or
allowed_ips pm =
    if is_empty (lookup_or [] (lit "ALLOWED_IPS") pm)
    then lit "0.0.0.0/0,::/0"
    else lookup_or [] (lit "ALLOWED_IPS") pm

-- `clientConfig`, from the file of parameters
unfoldable pub client_config : Dict Text → Peer → Text
unfolding client_dns allowed_ips lookup_or
client_config pm p =
    lines_text
      (lit "[Interface]"
        ∷ (lit "PrivateKey = " ++ p.private_key)
        ∷ (lit "Address = " ++ (p.address ++ lit "/32"))
        ∷ (lit "DNS = " ++ client_dns pm)
        ∷ []
        ∷ lit "[Peer]"
        ∷ (lit "PublicKey = " ++ lookup_or [] (lit "SERVER_PUB_KEY") pm)
        ∷ ((if is_empty p.psk then [] else (lit "PresharedKey = " ++ p.psk) ∷ [])
            ++ ((lit "Endpoint = "
                  ++ (lookup_or [] (lit "SERVER_PUB_IP") pm
                      ++ (lit ":" ++ lookup_or [] (lit "SERVER_PORT") pm)))
                ∷ (lit "AllowedIPs = " ++ allowed_ips pm)
                ∷ lit "PersistentKeepalive = 25"
                ∷ [])))
      []
