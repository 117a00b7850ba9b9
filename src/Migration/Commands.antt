-- ===== src/Migration/Commands.antt =====
-- The commands of a migration (main.go, migration.go): where an export goes, and which file is imported.
use wg_manager.Base.{
  Bool, not, ◌||◌, Option, none, some, List, [], ◌∷◌, Text, lit, text_eq, ◌==◌, if◌then◌else◌,
  is_empty,
}
use wg_manager.Base.{Dict, lookup_or}
use wg_manager.Store.{Table}
use wg_manager.Recharge.{Result, ok, err}
use wg_manager.Settings.Flags.{parse_flags}
use wg_manager.Migration.{migration_from_db}
use wg_manager.Migration.Archive.{Codec, Item, Packed, encode_bundle}
use wg_manager.Migration.Restore.{Site, Restored, import_users, import_bundle}

-- Where an export goes: the standard output, or a file of mode 0600.
pub data Target : Type 0 where
  standard_output : Target
  written_file : Text → Target

-- The first argument, or `-`.
unfoldable pub first_path : List Text → Text
first_path [] = lit "-"
first_path (path ∷ args) = path

unfoldable pub target_of : Text → Target
target_of path = if is_empty path || path == lit "-" then standard_output else written_file path

-- `cmdExportUsers` with `writeMigrationFile` and `encodeMigration`
unfoldable pub cmd_export_users : Codec → Text → Table → List Text → Target × Text
unfolding first_path target_of migration_from_db
cmd_export_users k date t args =
    (target_of (first_path args), k.of_users date (migration_from_db t))

-- `cmdExportBundle` with `writeMigrationBundleFile`
unfoldable pub cmd_export_bundle : Codec → Text → Site → List Text → Target × List Item
unfolding first_path target_of encode_bundle
cmd_export_bundle k date s args =
    (target_of (first_path args), encode_bundle k date s.config s.table s.files)

-- `flags["no-apply"] != "true"`
unfoldable pub applies : Dict Text → Bool
unfolding lookup_or
applies flags = not (lookup_or [] (lit "no-apply") flags == lit "true")

-- The file that is imported; `read` reads a file.
unfoldable pub positional_file : (Text → Option Text) → List Text → Result Text
positional_file read [] = err (lit "usage")
positional_file read (path ∷ more) = elim (read path) [
  | none ↦ err (lit "read")
  | some text ↦ ok text
]

-- `cmdImportUsers`
unfoldable pub cmd_import_users : Codec → (Text → Option Text) → List Text → Site → Restored
unfolding parse_flags applies positional_file import_users
cmd_import_users k read args s =
    let a = parse_flags args in
    elim (positional_file read a.positional) [
      | err e ↦ (s, err e)
      | ok text ↦ import_users k (applies a.flags) s.config text s
    ]

-- `cmdImportBundle`; `unzip` is what zip makes of the text.
unfoldable pub cmd_import_bundle :
    Codec → (Text → Option (List Packed)) → (Text → Option Text) → List Text → Site → Restored
unfolding parse_flags applies positional_file import_bundle lookup_or
cmd_import_bundle k unzip read args s =
    let a = parse_flags args in
    elim (positional_file read a.positional) [
      | err e ↦ (s, err e)
      | ok text ↦
          import_bundle k (lookup_or [] (lit "endpoint") a.flags) (applies a.flags) (unzip text)
            text s
    ]
