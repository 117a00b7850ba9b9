-- ===== src/Subnet/Expand.antt =====
-- The command that widens the pools (subnet.go): `expandSubnet`, `expandWireGuard`, `expandOpenVPN` and
-- `widenFirewall`, on the files, addresses, rules and units that they change.
pub mod Swap
pub mod Clients
use wg_manager.Base.{
  ℕ, ℤ, pos, Bool, true, false, not, ◌&&◌, ◌||◌, Option, none, some, List, [], ◌∷◌, ◌++◌,
}
use wg_manager.Base.{
  Text, lit, text_eq, nat_eq, ◌==◌, if◌then◌else◌, is_empty, elem, keep, trim_right, trim_prefix,
  map, all,
}
use wg_manager.Base.{Dict, lookup, lookup_or, insert, parse_int}
use wg_manager.Store.{Peer, Table, all_peers}
use wg_manager.Net.{IpNet}
use wg_manager.Settings.{Config, ovpn_defaults}
use wg_manager.Recharge.{Result, ok, err}
use wg_manager.WgConf.{conf_head, interface_head, render_peer_section, live_known}
use wg_manager.WgConf.Rewrite.{rewrite_wg_head, rewrite_ovpn_server_line}
use wg_manager.Users.{World}
use wg_manager.Users.Ovpn.{ovpn_mask, ccd_text}
use wg_manager.Subnet.{network_of}
use wg_manager.Subnet.Routes.{NetEntry, parse_ip_routes}
use wg_manager.Subnet.Plan.{ExpandPlan, plan_is_empty, build_expand_plan}
use wg_manager.Subnet.Rules.{Row, Iptables, widen_table}

-- The host: the table and the files of the users, whether the WireGuard file is there, the files
-- `server.conf` in the OpenVPN directory and in its directory `server`, the saved settings, the
-- copies that `backupFile` made, the WireGuard interface (up or down, with its addresses), the rules
-- of the firewall, and the units that were restarted, the last one first.
pub record Host : Type 0 where
  pub world : World
  pub has_conf : Bool
  pub server_conf : Option Text
  pub unit_conf : Option Text
  pub config : Config
  pub backups : List Text
  pub is_up : Bool
  pub addrs : List Text
  pub filter : List Row
  pub nat : List Row
  pub mangle : List Row
  pub restarts : List Text

-- The programs that the command runs: whether `ip addr add` and `ip addr del` are carried out,
-- `iptables` with its listing of a table (`none` where it fails), the routes and addresses that `ip`
-- lists, and the units that are there.
pub record Tools : Type 0 where
  pub accepts : Text → Bool
  pub removes : Text → Bool
  pub ipt : Iptables
  pub list_rules : Text → List Row → Option Text
  pub has_iptables : Bool
  pub routes : Option Text
  pub link_addrs : Option Text
  pub has_routing_unit : Bool
  pub ovpn_unit : Text
  pub panel_active : Bool

abbrev pub Outcome : Type 0 → Type 0
Outcome A = Host × Result A

-- `hostNetEntries`
unfoldable pub host_net_entries : Tools → List NetEntry
unfolding parse_ip_routes
host_net_entries k =
    (elim k.routes [ none ↦ [] | some s ↦ parse_ip_routes s ])
    ++ (elim k.link_addrs [ none ↦ [] | some s ↦ parse_ip_routes s ])

-- One round of the loop of `widenFirewall`; a table that cannot be listed is left alone.
unfoldable pub widen_listed : Tools → Text → Text → Text → List Row → List Row
unfolding widen_table
widen_listed k name old new rows = elim (k.list_rules name rows) [
  | none ↦ rows
  | some out ↦ widen_table k.ipt name out old new rows
]

-- `widenFirewall`
unfoldable pub widen_firewall : Tools → Text → Text → Host → Host
unfolding widen_listed
widen_firewall k old new h = if not k.has_iptables then h else record h {
  filter = widen_listed k (lit "filter") old new h.filter;
  nat = widen_listed k (lit "nat") old new h.nat;
  mangle = widen_listed k (lit "mangle") old new h.mangle;
}

-- `ip -4 addr add`: an address that is there already (`File exists`) is fine.
unfoldable pub add_addr : Tools → Text → List Text → Option (List Text)
add_addr k a addrs =
    if elem a addrs then some addrs else if k.accepts a then some (addrs ++ (a ∷ [])) else none

-- `ip -4 addr del`: a failure is a warning.
unfoldable pub del_addr : Tools → Text → List Text → List Text
del_addr k a addrs = if k.removes a then keep (λ b. not (b == a)) addrs else addrs

-- The new WireGuard file of `expandWireGuard`; `livePeersInDB` is `live_known`.
unfoldable pub widened_conf : Text → Text → World → Text
unfolding rewrite_wg_head live_known conf_head render_peer_section
widened_conf old new w =
    let conf = rewrite_wg_head w.conf old new in
    if live_known w.live w.table
    then trim_right (λ c. c == b'\n') (conf_head conf) ++ render_peer_section w.table
    else conf

-- The live swap of the addresses of the interface.
unfoldable pub swap_addrs : Tools → Text → Text → Host → Outcome (Unit {0})
unfolding add_addr del_addr
swap_addrs k old new h = if not h.is_up then (h, ok tt) else elim (add_addr k new h.addrs) [
  | none ↦ (h, err (lit "ip addr add"))
  | some addrs ↦ (record h { addrs = del_addr k old addrs }, ok tt)
]

-- `expandWireGuard`; without the file the backup fails.
unfoldable pub expand_wireguard : Tools → Text → Text → Host → Outcome (Unit {0})
unfolding widened_conf swap_addrs widen_firewall
expand_wireguard k old new h =
    if not h.has_conf
    then (h, err (lit "backup"))
    else let written : Host = record h {
      backups = h.world.conf ∷ h.backups;
      world = record h.world { conf = widened_conf old new h.world };
    } in
      let (h', r) = swap_addrs k old new written in
      elim r [
        | err e ↦ (h', err e)
        | ok u ↦ (widen_firewall k (network_of old) (network_of new) h', ok tt)
      ]

-- `syncOpenVPNServerUnitConfig` (migration.go)
unfoldable pub sync_unit_conf : Config → Host → Host
unfolding lit
sync_unit_conf cfg h =
    if not (cfg.ovpn_dir == lit "/etc/openvpn")
    then h
    else elim h.server_conf [ none ↦ h | some text ↦ record h { unit_conf = some text } ]

-- The loop over the CCD files: only those that are there, of users with an identity.
unfoldable pub rewrite_ccds : Text → List Peer → Dict Text → Dict Text
unfolding ccd_text lookup insert
rewrite_ccds mask [] ccd = ccd
rewrite_ccds mask (p ∷ ps) ccd = rewrite_ccds mask ps (
    if is_empty p.ovpn_cn || is_empty p.ovpn_ip then ccd else elim (lookup p.username ccd) [
      | none ↦ ccd
      | some old ↦ insert p.username (ccd_text p.ovpn_ip mask) ccd
    ])

-- The restarts at the end of `expandOpenVPN`.
unfoldable pub restart_openvpn : Tools → List Text → List Text
restart_openvpn k done =
    let routed : List Text =
      if k.has_routing_unit then lit "wgmgr-openvpn-routing.service" ∷ done else done in
    if is_empty k.ovpn_unit then routed else k.ovpn_unit ∷ routed

-- `expandOpenVPN` up to the file of the unit: the copy and the new `server.conf`.
unfoldable pub write_openvpn : Config → Text → Text → Host → Host
unfolding sync_unit_conf
write_openvpn cfg text out h =
    sync_unit_conf cfg (record h { backups = text ∷ h.backups; server_conf = some out })

-- The rest of it: the CCD files, the settings, the rules and the units.
unfoldable pub finish_openvpn : Tools → Config → Text → Text → Host → Host
unfolding rewrite_ccds widen_firewall restart_openvpn
finish_openvpn k cfg old mask h =
    let h' : Host = widen_firewall k old cfg.ovpn_subnet (record h {
      world = record h.world { ccd = rewrite_ccds mask (all_peers h.world.table) h.world.ccd };
      config = cfg;
    }) in
    record h' { restarts = restart_openvpn k h'.restarts }

-- `expandOpenVPN`
unfoldable pub expand_openvpn : Tools → Config → Text → Text → Host → Outcome (Unit {0})
unfolding rewrite_ovpn_server_line write_openvpn finish_openvpn ovpn_mask
expand_openvpn k cfg old new h = elim h.server_conf [
  | none ↦ (h, err (lit "read server.conf"))
  | some text ↦
      let (out, found) = rewrite_ovpn_server_line text new in
      if not found
      then (h, err (lit "openvpn: no `server` line"))
      else let cfg' : Config = record cfg { ovpn_subnet = new } in
        let h1 : Host = write_openvpn cfg' text out h in
        elim (ovpn_mask new) [
          | err e ↦ (h1, err e)
          | ok mask ↦ (finish_openvpn k cfg' old mask h1, ok tt)
        ]
]
