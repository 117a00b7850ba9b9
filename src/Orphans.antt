-- ===== src/Orphans.antt =====
-- CCD files without a user (ovpn_orphans.go).
pub mod Purge
use wg_manager.Base.{
  ℕ, Bool, true, false, not, ◌&&◌, Option, none, some, List, [], ◌∷◌, Text, lit, text_eq, ◌==◌,
}
use wg_manager.Base.{if◌then◌else◌, is_empty, has_prefix, elem, keep, map, lookup_or, Dict, erase}
use wg_manager.Recharge.{Result, ok, err}
use wg_manager.Subnet.Plan.{text_leb}

-- An entry of the directory; its file information may be missing.
pub record CcdFile : Type 0 where
  pub name : Text
  pub is_dir : Bool
  pub modified : Option ℕ

-- `orphanEntry`
pub record OrphanEntry : Type 0 where
  pub username : Text
  pub modified : ℕ
  pub is_test : Bool
  pub connected : Bool

-- One turn of the loop of `listOrphanCCDs`.
unfoldable pub orphan_of : List Text → List Text → CcdFile → List OrphanEntry
orphan_of users live f =
    if f.is_dir then [] else if elem f.name users then [] else elim f.modified [
      | none ↦ []
      | some t ↦
          record {
            username = f.name;
            modified = t;
            is_test = has_prefix f.name (lit "bserver_TEST_");
            connected = elem f.name live;
          }
          ∷ []
    ]

-- `sort.Slice` by username; names in a directory are distinct.
unfoldable pub insert_entry : OrphanEntry → List OrphanEntry → List OrphanEntry
unfolding text_leb
insert_entry a [] = a ∷ []
insert_entry a (b ∷ bs) =
    let rest = insert_entry a bs in if text_leb a.username b.username then a ∷ b ∷ bs else b ∷ rest

-- `listOrphanCCDs`
unfoldable pub list_orphans : List Text → List Text → List CcdFile → List OrphanEntry
unfolding orphan_of insert_entry
list_orphans users live [] = []
list_orphans users live (f ∷ fs) =
    let rest = list_orphans users live fs in
    elim (orphan_of users live f) [ [] ↦ rest | e ∷ _ ↦ insert_entry e rest ]

-- The flags of `cmdOvpnOrphans`.
pub record Selection : Type 0 where
  pub purge_test : Bool
  pub purge : Bool
  pub force : Bool
  pub dry_run : Bool

-- The entries to delete.
unfoldable pub targets : Selection → List OrphanEntry → List OrphanEntry
targets s orphans =
    if s.purge_test
    then keep (λ o. o.is_test) orphans
    else if s.purge && s.force
    then orphans
    else if s.purge
    then keep (λ o. not o.connected) orphans
    else []

unfoldable pub remove_files : List OrphanEntry → Dict Text → Dict Text
unfolding erase
remove_files [] ccd = ccd
remove_files (o ∷ os) ccd = remove_files os (erase o.username ccd)

-- `cmdOvpnOrphans`: the CCD files that it leaves, where every removal succeeds.
unfoldable pub orphans_command :
    Selection → List Text → List Text → List CcdFile → Dict Text → Result (Dict Text)
unfolding list_orphans targets remove_files
orphans_command s users live files ccd =
    if s.purge_test && s.purge
    then err (lit "choose one of --purge-test or --purge, not both")
    else if not s.purge_test && not s.purge
    then ok ccd
    else if s.dry_run
    then ok ccd
    else ok (remove_files (targets s (list_orphans users live files)) ccd)
