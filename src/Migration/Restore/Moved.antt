-- ===== src/Migration/Restore/Moved.antt =====
-- A bundle that is moved to another server.
use wg_manager.Base.{
  ℕ, ◌+◌, Bool, true, false, not, none, some, List, [], ◌∷◌, ◌≡◌, refl, arith, ap, ◌∙◌, inl, inr,
}
use wg_manager.Base.{
  Text, lit, text_eq, text_beq, nat_eq, ◌==◌, ltb, length, is_empty, has_prefix, map, All,
}
use wg_manager.Base.{Dict, lookup, Bool-cases}
use wg_manager.Store.{Table}
use wg_manager.Store.Laws.{IsValid}
use wg_manager.Recharge.{ok}
use wg_manager.Settings.{Config}
use wg_manager.Migration.{MigrationPeer, migration_from_db, import_migration}
use wg_manager.Migration.Transfer.{import_migration-export, no_users, renumber}
use wg_manager.Migration.Bundle.{known_entry, Manifest, Destination, apply_bundle_config}
use wg_manager.Migration.Archive.{
  Codec, File, Item, max_file, private_mode, add_existing, ovpn_files, ovpn_exported, users_item,
  wg_items, bundle_items, manifest_item, encode_bundle, is_supported, decode_migration,
  decode_bundle_manifest, read_migration_bundle,
}
use wg_manager.Migration.Restore.{
  Site, Restored, restore_files, import_users, restore_bundle, destination, import_entries,
  import_bundle,
}
use wg_manager.Migration.Restore.Entries.{
  pack, item_of, inserted, lookup-inserted, IsAccepted, read_files-pack, item_of-append,
  item_of-add_existing-other, item_of-add_files-other, with_mode, encode_bundle-IsKnown,
  item_of-encode_bundle,
}
use wg_manager.Migration.Restore.Written.{
  is_ovpn, ovpn_files-is_ovpn, other_name, lookup-restore_files, finish_bundle-Keeps,
}

-- Every file of a bundle is small enough for an import.
abbrev pub AreSmall : List Item → Type 0
AreSmall items = All (λ i. ltb max_file (length i.file.text) ≡ false) items

accepted :
    (items : List Item)
    → All (λ i. known_entry i.name ≡ true) items
    → AreSmall items
    → All IsAccepted items
accepted [] h s = tt
accepted (i ∷ items) (h, hs) (s, ss) = ((h, s), accepted items hs ss)

found-not_empty :
    (name : Text) (f : File) (d : Dict File) → lookup name d ≡ some f → is_empty d ≡ false
unfolding lookup
found-not_empty name f [] h = cc
found-not_empty name f (x ∷ d) h = refl

-- A name that is neither the parameters nor the WireGuard file.
item_of-wg_items :
    (k : Codec) (date at : Text) (cfg : Config) (t : Table) (files : Dict File)
    → (lit "wireguard/params" == at) ≡ false
    → (lit "wireguard/wg0.conf" == at) ≡ false
    → item_of at (wg_items k date cfg t files) ≡ item_of at (users_item k date t ∷ [])
unfolding wg_items
item_of-wg_items k date at cfg t files p c =
    let inner =
      add_existing (not (is_empty cfg.params)) (lit "wireguard/params") private_mode files
        (users_item k date t ∷ []) in
    item_of-add_existing-other (lit "wireguard/wg0.conf") at (not (is_empty cfg.wg_conf))
      private_mode files inner c
    ∙ item_of-add_existing-other (lit "wireguard/params") at (not (is_empty cfg.params))
        private_mode files (users_item k date t ∷ []) p

module _ (k : Codec) (date : Text) (cfg : Config) (t : Table) (files : Dict File) where
  -- The entries that are read.
  abbrev pub entries_of : Dict File
  entries_of = inserted (encode_bundle k date cfg t files) []

  users_found :
      item_of (lit "users.json") (encode_bundle k date cfg t files)
      ≡ some (users_item k date t).file
  unfolding encode_bundle bundle_items manifest_item users_item lit text_beq
  users_found =
      item_of-append (lit "users.json") (bundle_items k date cfg t files) _
      ∙ elim (Bool-cases (ovpn_exported cfg)) [
        | inr e ↦ rw e (item_of-wg_items k date (lit "users.json") cfg t files refl refl)
        | inl e ↦ rw e (
            item_of-add_files-other (lit "users.json") ovpn_files files
              (wg_items k date cfg t files) (unfold ovpn_files lookup in refl)
            ∙ item_of-wg_items k date (lit "users.json") cfg t files refl refl)
      ]

  users_apart :
      (at : Text) → (lit "users.json" == at) ≡ false → item_of at (users_item k date t ∷ []) ≡ none
  unfolding users_item
  users_apart at e = rw e refl

  manifest_found :
      item_of (lit "manifest.json") (encode_bundle k date cfg t files)
      ≡ some (manifest_item k date cfg files (bundle_items k date cfg t files)).file
  unfolding encode_bundle manifest_item lit text_beq
  manifest_found = item_of-append (lit "manifest.json") (bundle_items k date cfg t files) _

  users_lookup : lookup (lit "users.json") entries_of ≡ some (users_item k date t).file
  users_lookup =
      lookup-inserted (lit "users.json") (encode_bundle k date cfg t files) [] ∙ rw users_found refl

  manifest_lookup :
      lookup (lit "manifest.json") entries_of
      ≡ some (manifest_item k date cfg files (bundle_items k date cfg t files)).file
  manifest_lookup =
      lookup-inserted (lit "manifest.json") (encode_bundle k date cfg t files) []
      ∙ rw manifest_found refl

  read_back :
      AreSmall (encode_bundle k date cfg t files)
      → read_migration_bundle (pack (encode_bundle k date cfg t files)) ≡ ok entries_of
  unfolding read_migration_bundle
  read_back small = rw (
    read_migration_bundle,
    read_files-pack (encode_bundle k date cfg t files) [] (
        accepted (encode_bundle k date cfg t files) (encode_bundle-IsKnown k date cfg t files)
          small),
    found-not_empty (lit "users.json") (users_item k date t).file entries_of users_lookup,
  )

  abbrev pub manifest_text : Text
  manifest_text = (manifest_item k date cfg files (bundle_items k date cfg t files)).file.text

  manifest_decoded :
      (m : Manifest)
      → k.to_manifest manifest_text ≡ some (1, m)
      → decode_bundle_manifest k entries_of ≡ ok m
  unfolding decode_bundle_manifest is_supported
  manifest_decoded m law = rw (decode_bundle_manifest, manifest_lookup, law)

  users_decoded :
      k.to_users (k.of_users date (migration_from_db t)) ≡ some (1, migration_from_db t)
      → decode_migration k (users_item k date t).file.text ≡ ok (migration_from_db t)
  unfolding decode_migration is_supported users_item
  users_decoded law = rw (decode_migration, law)

  ovpn_found :
      (at : Text) (mode : ℕ) (f : File)
      → ovpn_exported cfg ≡ true
      → lookup at ovpn_files ≡ some mode
      → lookup at files ≡ some f
      → lookup at entries_of ≡ some (with_mode mode f)
  ovpn_found at mode f x h q =
      let o = ovpn_files-is_ovpn at mode h in
      let other : (n : Text) → is_ovpn n ≡ false → (n == at) ≡ false = λ n e. other_name n at e o in
      lookup-inserted at (encode_bundle k date cfg t files) []
      ∙ rw
          (
            item_of-encode_bundle k date at mode cfg t files x h
                (item_of-wg_items k date at cfg t files
                    (other (lit "wireguard/params") (unfold lit has_prefix in refl))
                    (other (lit "wireguard/wg0.conf") (unfold lit has_prefix in refl))
                  ∙ users_apart at (other (lit "users.json") (unfold lit has_prefix in refl)))
                (other (lit "manifest.json") (unfold lit has_prefix in refl)),
            q,
          )
          refl

imported_users :
    (k : Codec) (cfg : Config) (text : Text) (s : Site) (ps : List MigrationPeer) (t : Table)
    → decode_migration k text ≡ ok ps
    → import_migration ps s.table ≡ (t, true)
    → import_users k false cfg text s ≡ (record s { table = t }, ok tt)
unfolding import_users
imported_users k cfg text s ps t p i = rw (import_users, p, i)

-- What the import does, once the users, the manifest and the table are known.
imported_entries :
    (k : Codec) (override : Text) (apply : Bool) (entries : Dict File) (s : Site) (users : File)
    (m : Manifest) (ps : List MigrationPeer) (t : Table)
    → lookup (lit "users.json") entries ≡ some users
    → decode_bundle_manifest k entries ≡ ok m
    → decode_migration k users.text ≡ ok ps
    → import_migration ps s.table ≡ (t, true)
    → import_entries k override apply entries s ≡ (
        let d = destination override s in
        let cfg = apply_bundle_config s.identity m (map (λ e. e.0) entries) d s.config in
        restore_bundle apply cfg entries d (record s { table = t }, ok tt))
unfolding import_entries
imported_entries k override apply entries s users m ps t u e p i =
    let d = destination override s in
    let cfg = apply_bundle_config s.identity m (map (λ e. e.0) entries) d s.config in
    rw (import_entries, u, e)
      (ap (restore_bundle apply cfg entries d) (imported_users k cfg users.text s ps t p i))

-- Behind the import of the users: the table stays, and the files of OpenVPN are those of the entries.
restored :
    (apply : Bool) (at : Text) (mode : ℕ) (f : File) (cfg : Config) (entries : Dict File)
    (d : Destination) (s : Site)
    → lookup at ovpn_files ≡ some mode
    → (mode == 0) ≡ false
    → (lit "openvpn/server.conf" == at) ≡ false
    → lookup at entries ≡ some f
    → (let out = restore_bundle apply cfg entries d (s, ok tt) in
        (out.0.table ≡ s.table)
        × (lookup at out.0.files ≡ some (record { text = f.text; mode = mode })))
unfolding restore_bundle
restored false at mode f cfg entries d s h z n q =
    (refl, lookup-restore_files at mode f cfg entries s.files d h z q)
restored true at mode f cfg entries d s h z n q =
    let s' : Site = record s { files = restore_files cfg entries d s.files } in
    let k =
      finish_bundle-Keeps at (ovpn_files-is_ovpn at mode h) cfg (map (λ e. e.0) entries) s' n in
    (k.table, k.file ∙ lookup-restore_files at mode f cfg entries s.files d h z q)

ovpn_files-positive :
    (at : Text) (mode : ℕ) → lookup at ovpn_files ≡ some mode → (mode == 0) ≡ false
unfolding ovpn_files lookup
ovpn_files-positive at mode h = ground (arith, h)

abbrev moved_table : ℕ → Table → Table
moved_table n t = record { rows = renumber n t.rows; next_id = n + length t.rows }

imported :
    (k : Codec) (override date : Text) (apply : Bool) (a b : Site) (n : ℕ) (m : Manifest)
    → IsValid a.table
    → All (λ p. is_empty p.username ≡ false) a.table.rows
    → AreSmall (encode_bundle k date a.config a.table a.files)
    → k.to_users (k.of_users date (migration_from_db a.table)) ≡ some (1, migration_from_db a.table)
    → b.table ≡ no_users n
    → decode_bundle_manifest k (entries_of k date a.config a.table a.files) ≡ ok m
    → (let entries = entries_of k date a.config a.table a.files in
        let d = destination override b in
        let cfg = apply_bundle_config b.identity m (map (λ e. e.0) entries) d b.config in
        import_bundle k override apply
          (some (pack (encode_bundle k date a.config a.table a.files)))
          []
          b
        ≡ restore_bundle apply cfg entries d (record b { table = moved_table n a.table }, ok tt))
unfolding import_bundle
imported k override date apply a b n m v named small users empty decoded =
    let entries = entries_of k date a.config a.table a.files in
    rw (import_bundle, read_back k date a.config a.table a.files small)
      (imported_entries k override apply entries b (users_item k date a.table).file m
        (migration_from_db a.table) (moved_table n a.table)
        (users_lookup k date a.config a.table a.files) decoded
        (users_decoded k date a.config a.table a.files users)
        (ap (import_migration (migration_from_db a.table)) empty
          ∙ import_migration-export a.table n v named))

-- A bundle of a valid server with named users and OpenVPN settings, whose files are small enough,
-- is imported by a server without users, and JSON reads back the users and a manifest of version 1.
-- Then the users arrive, in order, under new ids, and every file of OpenVPN but `server.conf`
-- arrives unchanged, even if the apply step stops with an error; without that step the import
-- succeeds.
pub import_bundle-encode_bundle :
    (k : Codec) (date override at : Text) (apply : Bool) (a b : Site) (n mode : ℕ) (f : File)
    (m : Manifest)
    → IsValid a.table
    → All (λ p. is_empty p.username ≡ false) a.table.rows
    → ovpn_exported a.config ≡ true
    → AreSmall (encode_bundle k date a.config a.table a.files)
    → k.to_users (k.of_users date (migration_from_db a.table)) ≡ some (1, migration_from_db a.table)
    → k.to_manifest (manifest_text k date a.config a.table a.files) ≡ some (1, m)
    → b.table ≡ no_users n
    → lookup at ovpn_files ≡ some mode
    → (lit "openvpn/server.conf" == at) ≡ false
    → lookup at a.files ≡ some f
    → (let archive = pack (encode_bundle k date a.config a.table a.files) in
        let out = import_bundle k override apply (some archive) [] b in
        (out.0.table ≡ record { rows = renumber n a.table.rows; next_id = n + length a.table.rows })
        × (lookup at out.0.files ≡ some (record { text = f.text; mode = mode }))
        × ((import_bundle k override false (some archive) [] b).1 ≡ ok tt))
unfolding import_bundle
import_bundle-encode_bundle k date override at apply a b n mode f m v named on small users manifest
      empty h other q =
    let entries = entries_of k date a.config a.table a.files in
    let decoded = manifest_decoded k date a.config a.table a.files m manifest in
    let cfg =
      apply_bundle_config b.identity m (map (λ e. e.0) entries) (destination override b) b.config in
    let s : Site = record b { table = moved_table n a.table } in
    let out : (yes : Bool)
        → import_bundle k override yes (some (pack (encode_bundle k date a.config a.table a.files)))
            [] b
          ≡ restore_bundle yes cfg entries (destination override b) (s, ok tt) =
      λ yes. imported k override date yes a b n m v named small users empty decoded in
    let (kept, file) =
      restored apply at mode (with_mode mode f) cfg entries (destination override b) s h
        (ovpn_files-positive at mode h) other
        (ovpn_found k date a.config a.table a.files at mode f on h q) in
    (
      ap (λ (x : Restored). x.0.table) (out apply) ∙ kept,
      ap (λ (x : Restored). lookup at x.0.files) (out apply) ∙ file,
      ap (λ (x : Restored). x.1) (out false),
    )
