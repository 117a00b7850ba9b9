-- ===== src/Migration/Restore.antt =====
-- The import of a bundle (migration.go): `importMigration`, `importMigrationBundle`,
-- `restoreMigrationBundleFiles` and `applyMigrationState`.
pub mod Entries
pub mod Written
pub mod Moved
use wg_manager.Base.{ℕ, Bool, true, false, not, ◌&&◌, ◌||◌, Option, none, some, List, [], ◌∷◌, ◌++◌}
use wg_manager.Base.{Text, lit, text_eq, nat_eq, ◌==◌, if◌then◌else◌, is_empty, map, trim, is_space}
use wg_manager.Base.{Dict, lookup, insert}
use wg_manager.Store.{Peer, Table, all_peers}
use wg_manager.Recharge.{Result, ok, err}
use wg_manager.Settings.{Config, ovpn_defaults}
use wg_manager.Settings.Params.{set_param_value, parse_params_data}
use wg_manager.WgConf.{render_conf}
use wg_manager.Profiles.{ovpn_server_conf}
use wg_manager.Users.Ovpn.{ovpn_mask, ccd_text}
use wg_manager.Migration.{import_migration}
use wg_manager.Migration.Bundle.{Manifest, Destination, current_destination, apply_bundle_config}
use wg_manager.Migration.Archive.{
  Codec, File, Packed, private_mode, public_mode, ovpn_files, decode_migration,
  read_migration_bundle, decode_bundle_manifest, has_bundle_prefix,
}
use wg_manager.Migration.Ports.{set_wireguard_listen_port}

-- A server: the saved settings, the files that a bundle may hold, by the names that they have there,
-- the `server.conf` of the unit, the table, the CCD files, the keys of the running interface, and the
-- identity that OpenVPN runs under.
pub record Site : Type 0 where
  pub config : Config
  pub files : Dict File
  pub unit_conf : Option Text
  pub table : Table
  pub ccd : Dict Text
  pub live : List Text
  pub identity : Text × Text

-- What is left, and how it ends.
abbrev pub Restored : Type 0
Restored = Site × Result (Unit {0})

-- `restoreBundleFile`: without a path nothing is written, and a mode of 0 is replaced.
unfoldable pub restore_file : Bool → Text → File → ℕ → Dict File → Dict File
unfolding insert
restore_file is_set name e mode files =
    if not is_set
    then files
    else insert name
        (record {
          text = e.text;
          mode =
              if not (mode == 0) then mode else if not (e.mode == 0) then e.mode else private_mode;
        })
        files

-- The parameters with the address and the port of the destination.
unfoldable pub moved_params : Destination → Text → Text
unfolding set_param_value
moved_params d text =
    let with_ip : Text =
      if is_empty d.wg_endpoint
      then text
      else set_param_value text (lit "SERVER_PUB_IP") d.wg_endpoint in
    if is_empty d.wg_port then with_ip else set_param_value with_ip (lit "SERVER_PORT") d.wg_port

unfoldable pub restore_params : Config → Dict File → Destination → Dict File → Dict File
unfolding restore_file moved_params lookup
restore_params cfg entries d files = elim (lookup (lit "wireguard/params") entries) [
  | none ↦ files
  | some e ↦
      restore_file (not (is_empty cfg.params)) (lit "wireguard/params")
        (record e { text = moved_params d e.text }) e.mode files
]

unfoldable pub restore_wg_conf : Config → Dict File → Destination → Dict File → Dict File
unfolding restore_file set_wireguard_listen_port lookup
restore_wg_conf cfg entries d files = elim (lookup (lit "wireguard/wg0.conf") entries) [
  | none ↦ files
  | some e ↦
      restore_file (not (is_empty cfg.wg_conf)) (lit "wireguard/wg0.conf")
        (record e { text = set_wireguard_listen_port e.text d.wg_port }) private_mode files
]

-- The loop over the OpenVPN files; their names differ, so that the order is of no account.
unfoldable pub restore_listed : List (Text × ℕ) → Dict File → Dict File → Dict File
unfolding restore_file lookup
restore_listed [] entries files = files
restore_listed ((name, mode) ∷ more) entries files =
    restore_listed more entries
      (elim (lookup name entries) [ none ↦ files | some e ↦ restore_file true name e mode files ])

-- `restoreMigrationBundleFiles`
unfoldable pub restore_files : Config → Dict File → Destination → Dict File → Dict File
unfolding restore_params restore_wg_conf restore_listed ovpn_files
restore_files cfg entries d files =
    restore_listed ovpn_files entries
      (restore_wg_conf cfg entries d (restore_params cfg entries d files))

-- The loop of `applyMigrationState` over the users; the mask is read once for each file.
unfoldable pub write_ccds : Text → List Peer → Dict Text → Result (Dict Text)
unfolding ovpn_mask ccd_text insert
write_ccds subnet [] ccd = ok ccd
write_ccds subnet (p ∷ ps) ccd =
    if is_empty p.ovpn_cn || is_empty p.ovpn_ip
    then write_ccds subnet ps ccd
    else elim (ovpn_mask subnet) [
      | err e ↦ err e
      | ok mask ↦ write_ccds subnet ps (insert p.ovpn_cn (ccd_text p.ovpn_ip mask) ccd)
    ]

-- `syncOpenVPNServerUnitConfig`
unfoldable pub sync_unit : Config → Site → Site
unfolding lit lookup
sync_unit cfg s =
    if not (cfg.ovpn_dir == lit "/etc/openvpn")
    then s
    else elim (lookup (lit "openvpn/server.conf") s.files) [
      | none ↦ s
      | some f ↦ record s { unit_conf = some f.text }
    ]

-- `applyMigrationState` on the WireGuard file
unfoldable pub apply_wg : Config → Site → Restored
unfolding lookup insert render_conf
apply_wg cfg s =
    if is_empty cfg.wg_conf then (s, ok tt) else elim (lookup (lit "wireguard/wg0.conf") s.files) [
      | none ↦ (s, ok tt)
      | some f ↦ elim (render_conf true s.live s.table f.text) [
        | err e ↦ (s, err e)
        | ok conf ↦ (
          record s {
            files =
                insert (lit "wireguard/wg0.conf") record { text = conf; mode = private_mode }
                  s.files;
          },
          ok tt,
        )
      ]
    ]

-- `applyMigrationState` on OpenVPN
unfoldable pub apply_ovpn : Config → Site → Restored
unfolding write_ccds sync_unit ovpn_defaults
apply_ovpn cfg s =
    if is_empty cfg.ovpn_subnet && is_empty cfg.ovpn_dir
    then (s, ok tt)
    else let cfg' : Config = ovpn_defaults s.identity cfg in
      elim (write_ccds cfg'.ovpn_subnet (all_peers s.table) s.ccd) [
        | err e ↦ (s, err e)
        | ok ccd ↦ (sync_unit cfg' (record s { ccd = ccd }), ok tt)
      ]

-- `applyMigrationState`
unfoldable pub apply_migration_state : Config → Site → Restored
unfolding apply_wg apply_ovpn
apply_migration_state cfg s =
    let (s', r) = apply_wg cfg s in elim r [ err e ↦ (s', err e) | ok u ↦ apply_ovpn cfg s' ]

-- `importMigration` from its text
unfoldable pub import_users : Codec → Bool → Config → Text → Site → Restored
unfolding decode_migration import_migration apply_migration_state
import_users k apply cfg text s = elim (decode_migration k text) [
  | err e ↦ (s, err e)
  | ok ps ↦
      let (t, fine) = import_migration ps s.table in
      if not fine
      then (s, err (lit "import"))
      else if apply
      then apply_migration_state cfg (record s { table = t })
      else (record s { table = t }, ok tt)
]

-- The end of `importMigrationBundle`: the server file, the settings, and the state.
unfoldable pub finish_bundle : Config → List Text → Site → Restored
unfolding has_bundle_prefix ovpn_server_conf apply_migration_state insert
finish_bundle cfg names s =
    if has_bundle_prefix names (lit "openvpn/")
    then elim (ovpn_server_conf cfg) [
      | err e ↦ (s, err e)
      | ok conf ↦ apply_migration_state cfg (record s {
        files =
            insert (lit "openvpn/server.conf") record { text = conf; mode = public_mode } s.files;
        config = cfg;
      })
    ]
    else apply_migration_state cfg (record s { config = cfg })

-- The place that a bundle is moved to, with the override of the endpoint.
unfoldable pub destination : Text → Site → Destination
unfolding current_destination lookup parse_params_data
destination override s =
    let params : Option (Dict Text) =
      if is_empty s.config.params then none else elim (lookup (lit "wireguard/params") s.files) [
        | none ↦ none
        | some f ↦ some (parse_params_data f.text)
      ] in
    let d = current_destination s.config params in
    let o = trim is_space override in
    if is_empty o then d else record d { wg_endpoint = o; ovpn_endpoint = o }

-- `importMigrationBundle` behind the import of the users: the files and, if asked for, the rest.
unfoldable pub restore_bundle : Bool → Config → Dict File → Destination → Restored → Restored
unfolding restore_files finish_bundle
restore_bundle apply cfg entries d (s, err e) = (s, err e)
restore_bundle apply cfg entries d (s, ok u) =
    let s' : Site = record s { files = restore_files cfg entries d s.files } in
    if apply then finish_bundle cfg (map (λ e. e.0) entries) s' else (s', ok tt)

-- `importMigrationBundle` on the entries of an archive
unfoldable pub import_entries : Codec → Text → Bool → Dict File → Site → Restored
unfolding lookup decode_bundle_manifest destination apply_bundle_config import_users restore_bundle
import_entries k override apply entries s = elim (lookup (lit "users.json") entries) [
  | none ↦ (s, err (lit "bundle: missing users.json"))
  | some users ↦ elim (decode_bundle_manifest k entries) [
    | err e ↦ (s, err e)
    | ok m ↦
        let d = destination override s in
        let cfg = apply_bundle_config s.identity m (map (λ e. e.0) entries) d s.config in
        restore_bundle apply cfg entries d (import_users k false cfg users.text s)
  ]
]

-- `importMigrationBundle`: `archive` is what the data is as an archive, if it is one, and `data` is
-- its text otherwise.
unfoldable pub import_bundle : Codec → Text → Bool → Option (List Packed) → Text → Site → Restored
unfolding read_migration_bundle import_users import_entries
import_bundle k override apply none text s = import_users k apply s.config text s
import_bundle k override apply (some fs) text s = elim (read_migration_bundle fs) [
  | err e ↦ (s, err e)
  | ok entries ↦ import_entries k override apply entries s
]
