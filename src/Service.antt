-- ===== src/Service.antt =====
-- The commands on the units and files of the host (main.go): `cmdRestart`, `cmdUninstall`,
-- `cmdMenuUninstall`, `cmdReinstall` and the update that the panel starts.
pub mod Chosen
use wg_manager.Base.{
  Bool, true, false, not, ◌&&◌, ◌||◌, Option, none, some, List, [], ◌∷◌, ◌++◌, Text, lit, text_eq,
  ◌==◌,
}
use wg_manager.Base.{if◌then◌else◌, is_empty, elem, contains, trim, is_space, Dict, lookup_or}
use wg_manager.Recharge.{Result, ok, err}
use wg_manager.Settings.{Config}
use wg_manager.Settings.Flags.{parse_flags}

-- `serviceState`, from the output of `systemctl is-active` and whether it failed.
unfoldable pub service_state : Text → Bool → Text
service_state out failed =
    let s = trim is_space out in if failed && is_empty s then lit "unknown" else s

-- The two names of the unit of OpenVPN.
unfoldable pub ovpn_units : List Text
ovpn_units = lit "openvpn-server@server.service" ∷ lit "openvpn@server.service" ∷ []

-- `existingOpenVPNUnit`; `state` is the state of a unit, `known` whether `systemctl cat` finds it.
unfoldable pub first_unit : (Text → Text) → (Text → Bool) → List Text → Text
first_unit state known [] = []
first_unit state known (u ∷ us) =
    let rest = first_unit state known us in
    if state u == lit "active" then u else if known u then u else rest

unfoldable pub existing_ovpn_unit : (Text → Text) → (Text → Bool) → Text
unfolding first_unit ovpn_units
existing_ovpn_unit state known = first_unit state known ovpn_units

-- `activeOpenvpnUnit`
unfoldable pub active_ovpn_unit : (Text → Text) → Text
unfolding first_unit
active_ovpn_unit state =
    first_unit state (λ u. false) (lit "openvpn-server@server" ∷ lit "openvpn@server" ∷ [])

-- The unit of the WireGuard interface, if there is one.
unfoldable pub wg_units : Config → List Text
wg_units cfg =
    if is_empty cfg.interface then [] else (lit "wg-quick@" ++ cfg.interface ++ lit ".service") ∷ []

abbrev pub found_units : Text → List Text
found_units unit = if is_empty unit then [] else unit ∷ []

-- `cmdRestart`: the units that are restarted, in order. `unit` is what `existingOpenVPNUnit` finds.
unfoldable pub restart_units : Text → Config → Text → Result (List Text)
unfolding wg_units lit
restart_units target cfg unit =
    if elem target (lit "wgmgr" ∷ lit "panel" ∷ lit "api" ∷ lit "service" ∷ [])
    then ok (lit "wgmgr.service" ∷ [])
    else if elem target (lit "routing" ∷ lit "openvpn-routing" ∷ [])
    then ok (lit "wgmgr-openvpn-routing.service" ∷ [])
    else if elem target (lit "wg" ∷ lit "wireguard" ∷ [])
    then ok (wg_units cfg)
    else if elem target (lit "ovpn" ∷ lit "openvpn" ∷ [])
    then ok (found_units unit)
    else if target == lit "vpn"
    then ok (wg_units cfg ++ (lit "wgmgr-openvpn-routing.service" ∷ found_units unit))
    else if target == lit "all"
    then ok (
        lit "wgmgr-openvpn-routing.service"
        ∷ (wg_units cfg ++ (found_units unit ++ (lit "wgmgr.service" ∷ []))))
    else err (lit "usage: wgmgr restart [all|wgmgr|vpn|wireguard|openvpn|routing]")

-- `cmdRestart`; `cfg` are the saved settings, or those of an interface `wg0`.
unfoldable pub cmd_restart : List Text → Config → Text → Result (List Text)
unfolding restart_units
cmd_restart [] cfg unit = restart_units (lit "all") cfg unit
cmd_restart (target ∷ args) cfg unit = restart_units target cfg unit

-- What `cmdUninstall` does to the host, one step after the other.
pub data Action : Type 0 where
  disable : Text → Action
  unlink_rule : Text → Text → Action
  destroy_set : Text → Action
  remove_path : Text → Action
  reload : Action

-- What is removed beside the panel.
pub record Purge : Type 0 where
  pub data_dirs : Bool
  pub openvpn : Bool
  pub wireguard : Bool

-- The flags.
unfoldable pub has_flag : Text → Dict Text → Bool
unfolding lookup_or
has_flag name flags = lookup_or [] name flags == lit "true"

unfoldable pub purge_of : Dict Text → Purge
unfolding has_flag
purge_of flags =
    let vpn = has_flag (lit "purge-vpn") flags in
    record {
      data_dirs = has_flag (lit "purge-data") flags;
      openvpn = vpn || has_flag (lit "purge-openvpn") flags || has_flag (lit "purge-ovpn") flags;
      wireguard = vpn || has_flag (lit "purge-wireguard") flags || has_flag (lit "purge-wg") flags;
    }

-- The paths of OpenVPN that are removed.
unfoldable pub ovpn_paths : List Text
unfolding lit
ovpn_paths =
    lit "/etc/systemd/system/wgmgr-openvpn-routing.service"
    ∷ lit "/etc/systemd/system/openvpn-server@server.service.d/10-wgmgr-routing.conf"
    ∷ lit "/etc/systemd/system/openvpn@server.service.d/10-wgmgr-routing.conf"
    ∷ lit "/usr/local/bin/wgmgr-openvpn-routing"
    ∷ lit "/etc/sysctl.d/99-wgmgr-openvpn.conf"
    ∷ lit "/etc/tmpfiles.d/wgmgr.conf"
    ∷ lit "/run/wgmgr"
    ∷ lit "/etc/openvpn/server"
    ∷ lit "/etc/openvpn/server.conf"
    ∷ []

unfoldable pub remove_all : List Text → List Action
remove_all [] = []
remove_all (p ∷ ps) = remove_path p ∷ remove_all ps

-- The units that are disabled.
unfoldable pub disabled_units : Purge → Config → List Action
disabled_units q cfg =
    disable (lit "wgmgr.service")
    ∷ ((if q.openvpn
          then disable (lit "wgmgr-openvpn-routing.service")
            ∷ disable (lit "openvpn-server@server.service")
            ∷ disable (lit "openvpn@server.service")
            ∷ []
          else [])
        ++ (if q.wireguard && not (is_empty cfg.interface)
            then disable (lit "wg-quick@" ++ cfg.interface ++ lit ".service") ∷ []
            else []))

-- The paths that are removed, but for the program itself.
unfoldable pub purged_paths : Purge → List Text
unfolding ovpn_paths lit
purged_paths q =
    lit "/etc/systemd/system/wgmgr.service"
    ∷ ((if q.data_dirs then lit "/etc/wgmgr" ∷ lit "/var/lib/wgmgr" ∷ [] else [])
        ++ ((if q.openvpn then ovpn_paths else [])
            ++ (if q.wireguard then lit "/etc/wireguard" ∷ [] else [])))

-- `cmdUninstall` behind the questions; `set` is the name of the block set.
unfoldable pub uninstall_actions : Purge → Text → Config → List Action
unfolding disabled_units remove_all purged_paths lit
uninstall_actions q set cfg =
    disabled_units q cfg
    ++ (unlink_rule set (lit "src")
        ∷ unlink_rule set (lit "dst")
        ∷ destroy_set set
        ∷ (remove_all (purged_paths q) ++ (reload ∷ remove_path (lit "/usr/local/bin/wgmgr") ∷ [])))

-- The answers at the terminal, `none` where nobody can be asked: the word that was typed, and what is
-- to be removed as well.
abbrev pub Answers : Type 0
Answers = Option (Text × Purge)

-- `cmdUninstall`; `cfg` are the saved settings, or those of an interface `wg0`.
unfoldable pub cmd_uninstall : List Text → Answers → Config → Result (List Action)
unfolding parse_flags has_flag purge_of uninstall_actions lit
cmd_uninstall args answers cfg =
    let flags = (parse_flags args).flags in
    let set : Text = if is_empty cfg.ip_set then lit "wgmgr_blocked" else cfg.ip_set in
    if has_flag (lit "yes") flags || has_flag (lit "force") flags
    then ok (uninstall_actions (purge_of flags) set cfg)
    else elim answers [
      | none ↦ err (lit "uninstall requires --yes when stdin is not interactive")
      | some (word, q) ↦ if word == lit "UNINSTALL" then ok (uninstall_actions q set cfg) else ok []
    ]

-- The arguments of a choice of `cmdMenuUninstall`; `none` is an unknown one.
unfoldable pub menu_args : Text → Option (List Text)
unfolding lit
menu_args choice =
    if choice == lit "1"
    then some (lit "--yes" ∷ [])
    else if choice == lit "2"
    then some (lit "--yes" ∷ lit "--purge-data" ∷ [])
    else if choice == lit "3"
    then some (lit "--yes" ∷ lit "--purge-openvpn" ∷ [])
    else if choice == lit "4"
    then some (lit "--yes" ∷ lit "--purge-wireguard" ∷ [])
    else if choice == lit "5"
    then some
        (lit "--yes" ∷ lit "--purge-data" ∷ lit "--purge-openvpn" ∷ lit "--purge-wireguard" ∷ [])
    else none

-- `cmdMenuUninstall`, from the choice and the word that is typed next.
unfoldable pub menu_uninstall : Text → Text → Config → Result (List Action)
unfolding menu_args cmd_uninstall
menu_uninstall choice word cfg =
    if choice == lit "0" || is_empty choice
    then ok []
    else if not (word == lit "UNINSTALL")
    then ok []
    else elim (menu_args choice) [ none ↦ ok [] | some args ↦ cmd_uninstall args none cfg ]

-- `cmdReinstall`: whether the installer is run. `answer` is `none` where nobody can be asked.
unfoldable pub cmd_reinstall : List Text → Option Bool → Result Bool
unfolding lit
cmd_reinstall args answer =
    let asked : Result Bool = elim answer [
      | none ↦ err (lit "reinstall requires --yes when stdin is not interactive")
      | some b ↦ ok b
    ] in
    elim args [ [] ↦ asked | first ∷ more ↦ if first == lit "--yes" then ok true else asked ]

-- `updateLaunch`: the program that is run, and its arguments.
unfoldable pub update_launch : Text → Bool → Text × List Text
unfolding lit
update_launch installer have_systemd_run =
    let script : Text = lit "(sleep 1; " ++ (installer ++ lit ") >/tmp/wgmgr-update.log 2>&1") in
    if have_systemd_run
    then (
      lit "systemd-run",
      lit "--unit=wgmgr-update"
          ∷ lit "--collect"
          ∷ lit "--quiet"
          ∷ lit "--description=WG-Manager update"
          ∷ lit "bash"
          ∷ lit "-c"
          ∷ script
          ∷ [],
    )
    else (lit "bash", lit "-c" ∷ (script ++ lit " &") ∷ [])

-- `startUpdateAsync`: the programs that are started, in order. `run` is what comes of the first one:
-- its output, and whether it failed.
unfoldable pub start_update : Text → Bool → Text × Bool → Result (List (Text × List Text))
unfolding update_launch contains
start_update installer have_systemd_run (out, failed) =
    if not have_systemd_run
    then ok (update_launch installer false ∷ [])
    else if not failed
    then ok (update_launch installer true ∷ [])
    else if contains out (lit "already")
    then err (lit "an update is already running")
    else ok (update_launch installer true ∷ update_launch installer false ∷ [])
