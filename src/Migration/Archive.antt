-- ===== src/Migration/Archive.antt =====
-- The archive of a migration (migration.go): `encodeMigration`, `encodeMigrationBundle`,
-- `readMigrationBundle` and the decoders. JSON and zip are outside.
use wg_manager.Base.{ℕ, Bool, true, not, ◌||◌, Option, none, some, List, [], ◌∷◌, ◌++◌}
use wg_manager.Base.{
  Text, lit, nat_eq, text_eq, ◌==◌, ltb, length, if◌then◌else◌, is_empty, any, has_prefix, map,
}
use wg_manager.Base.{Dict, lookup, lookup_or, insert}
use wg_manager.Store.{Table}
use wg_manager.Recharge.{Result, ok, err}
use wg_manager.Settings.{Config}
use wg_manager.Settings.Params.{parse_params_data}
use wg_manager.Migration.{MigrationPeer, migration_from_db}
use wg_manager.Migration.Bundle.{Manifest, known_entry}

-- What encoding/json makes of the users and of the manifest, and reads back with its version. The
-- texts beside the manifest are its date, the included names and the endpoint, which no import
-- reads.
pub record Codec : Type 0 where
  pub of_users : Text → List MigrationPeer → Text
  pub to_users : Text → Option (ℕ × List MigrationPeer)
  pub of_manifest : Text → List Text → Text → Manifest → Text
  pub to_manifest : Text → Option (ℕ × Manifest)

-- A file and its permissions; also `migrationBundleEntry`.
pub record File : Type 0 where
  pub text : Text
  pub mode : ℕ

-- What `addBundleFile` writes.
pub record Item : Type 0 where
  pub name : Text
  pub file : File

-- A file of an archive that is read: `content` is `none` where it cannot be opened or read.
pub record Packed : Type 0 where
  pub name : Text
  pub is_dir : Bool
  pub size : ℕ
  pub content : Option Text
  pub mode : ℕ

-- `migrationBundleMaxFile`
abbrev pub max_file : ℕ
max_file = 67108864

-- 0o600 and 0o644
abbrev pub private_mode : ℕ
private_mode = 384

abbrev pub public_mode : ℕ
public_mode = 420

-- The version of a file: 0 stands for 1, and nothing but 1 is read.
unfoldable pub is_supported : ℕ → Bool
is_supported v = v == 0 || v == 1

-- `decodeMigration`
unfoldable pub decode_migration : Codec → Text → Result (List MigrationPeer)
unfolding is_supported
decode_migration k text = elim (k.to_users text) [
  | none ↦ err (lit "bad migration JSON")
  | some (v, ps) ↦ if is_supported v then ok ps else err (lit "unsupported migration version")
]

-- One round of the loop of `readMigrationBundle`. A size is that of the content.
unfoldable pub read_packed : Packed → Dict File → Result (Dict File)
unfolding known_entry insert
read_packed f entries =
    if f.is_dir || not (known_entry f.name)
    then ok entries
    else if ltb max_file f.size
    then err (lit "bundle: file is too large")
    else elim f.content [
      | none ↦ err (lit "bundle: open")
      | some text ↦
          if ltb max_file (length text)
          then err (lit "bundle: file is too large")
          else ok (insert f.name record { text = text; mode = f.mode } entries)
    ]

unfoldable pub read_files : List Packed → Dict File → Result (Dict File)
unfolding read_packed
read_files [] entries = ok entries
read_files (f ∷ fs) entries = elim (read_packed f entries) [
  | err e ↦ err e
  | ok more ↦ read_files fs more
]

-- `readMigrationBundle`, for an archive
unfoldable pub read_migration_bundle : List Packed → Result (Dict File)
unfolding read_files
read_migration_bundle fs = elim (read_files fs []) [
  | err e ↦ err e
  | ok entries ↦
      if is_empty entries then err (lit "bundle: no supported files found") else ok entries
]

-- The manifest of an archive without one.
abbrev pub no_manifest : Manifest
no_manifest = record {
  interface = [];
  subnet = [];
  port = [];
  proto = [];
  endpoint = [];
  dns = [];
  mgmt = [];
  mss_fix = [];
  tun_mtu = [];
}

-- `decodeBundleManifest`
unfoldable pub decode_bundle_manifest : Codec → Dict File → Result Manifest
unfolding lookup is_supported
decode_bundle_manifest k entries = elim (lookup (lit "manifest.json") entries) [
  | none ↦ ok no_manifest
  | some f ↦ elim (k.to_manifest f.text) [
    | none ↦ err (lit "bundle: bad manifest")
    | some (v, m) ↦
        if is_supported v then ok m else err (lit "bundle: unsupported manifest version")
  ]
]

-- `hasBundlePrefix`, on the names
unfoldable pub has_bundle_prefix : List Text → Text → Bool
has_bundle_prefix names prefix = any (λ n. has_prefix n prefix) names

-- `addExistingBundleFile`: `is_set` tells whether there is a path, and the files of the server are
-- kept under the names of the bundle. A mode of 0 is replaced.
unfoldable pub add_existing : Bool → Text → ℕ → Dict File → List Item → List Item
unfolding lookup
add_existing is_set name fallback files items =
    if not is_set then items else elim (lookup name files) [
      | none ↦ items
      | some f ↦
          items
          ++ (record {
            name = name;
            file = record { text = f.text; mode = if f.mode == 0 then fallback else f.mode };
          }
              ∷ [])
    ]

-- The table of the OpenVPN files and their modes.
unfoldable pub ovpn_files : List (Text × ℕ)
unfolding lit
ovpn_files =
    (lit "openvpn/ca.crt", public_mode)
    ∷ (lit "openvpn/ca.key", private_mode)
    ∷ (lit "openvpn/server.crt", public_mode)
    ∷ (lit "openvpn/server.key", private_mode)
    ∷ (lit "openvpn/tc.key", private_mode)
    ∷ (lit "openvpn/server.conf", public_mode)
    ∷ []

unfoldable pub add_files : List (Text × ℕ) → Dict File → List Item → List Item
unfolding add_existing
add_files [] files items = items
add_files ((name, mode) ∷ more) files items =
    add_files more files (add_existing true name mode files items)

-- `openVPNConfiguredForMigration`
unfoldable pub ovpn_exported : Config → Bool
ovpn_exported cfg =
    not (is_empty cfg.ovpn_dir)
    || not (is_empty cfg.ovpn_subnet)
    || not (is_empty cfg.ovpn_port)
    || not (is_empty cfg.ovpn_proto)
    || not (is_empty cfg.ovpn_endpoint)
    || not (is_empty cfg.ovpn_mgmt)

-- `buildMigrationBundleManifest`, what an import reads of it
unfoldable pub manifest_of : Config → List Text → Manifest
unfolding has_bundle_prefix
manifest_of cfg includes =
    if has_bundle_prefix includes (lit "openvpn/")
    then record {
      interface = cfg.interface;
      subnet = cfg.ovpn_subnet;
      port = cfg.ovpn_port;
      proto = cfg.ovpn_proto;
      endpoint = cfg.ovpn_endpoint;
      dns = cfg.ovpn_dns;
      mgmt = cfg.ovpn_mgmt;
      mss_fix = cfg.ovpn_mss_fix;
      tun_mtu = cfg.ovpn_tun_mtu;
    }
    else record no_manifest { interface = cfg.interface }

-- The endpoint of the manifest, from the file of parameters.
unfoldable pub manifest_endpoint : Config → Dict File → Text
unfolding lookup lookup_or parse_params_data
manifest_endpoint cfg files =
    if is_empty cfg.params then [] else elim (lookup (lit "wireguard/params") files) [
      | none ↦ []
      | some f ↦ lookup_or [] (lit "SERVER_PUB_IP") (parse_params_data f.text)
    ]

-- `encodeMigration`, as the file of a bundle
unfoldable pub users_item : Codec → Text → Table → Item
unfolding migration_from_db
users_item k date t = record {
  name = lit "users.json";
  file = record { text = k.of_users date (migration_from_db t); mode = private_mode };
}

-- The users, the parameters and the WireGuard file.
unfoldable pub wg_items : Codec → Text → Config → Table → Dict File → List Item
unfolding add_existing users_item
wg_items k date cfg t files =
    add_existing (not (is_empty cfg.wg_conf)) (lit "wireguard/wg0.conf") private_mode files (
      add_existing (not (is_empty cfg.params)) (lit "wireguard/params") private_mode files
        (users_item k date t ∷ []))

-- The files of a bundle before its manifest.
unfoldable pub bundle_items : Codec → Text → Config → Table → Dict File → List Item
unfolding wg_items add_files ovpn_files ovpn_exported
bundle_items k date cfg t files =
    let wg = wg_items k date cfg t files in
    if ovpn_exported cfg then add_files ovpn_files files wg else wg

-- The manifest as the last file.
unfoldable pub manifest_item : Codec → Text → Config → Dict File → List Item → Item
unfolding manifest_of manifest_endpoint
manifest_item k date cfg files items =
    let includes : List Text = map (λ i. i.name) items in
    record {
      name = lit "manifest.json";
      file = record {
        text = k.of_manifest date includes (manifest_endpoint cfg files) (manifest_of cfg includes);
        mode = private_mode;
      };
    }

-- `encodeMigrationBundle`, as the files that it writes
unfoldable pub encode_bundle : Codec → Text → Config → Table → Dict File → List Item
unfolding bundle_items manifest_item
encode_bundle k date cfg t files =
    let items = bundle_items k date cfg t files in
    items ++ (manifest_item k date cfg files items ∷ [])
