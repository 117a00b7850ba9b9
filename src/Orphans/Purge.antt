-- ===== src/Orphans/Purge.antt =====
-- Which CCD files a purge never touches.
use wg_manager.Base.{
  Bool, true, false, not, ◌&&◌, none, List, [], ◌∷◌, ◌≡◌, refl, arith, ◌∙◌, Text, text_eq,
}
use wg_manager.Base.{
  text_beq_iff, ◌==◌, if◌then◌else◌, keep, elem, Dict, lookup, erase, lookup-erase, any,
  Option-cases, Bool-cases, inl, inr,
}
use wg_manager.Recharge.{ok}
use wg_manager.Orphans.{
  CcdFile, OrphanEntry, orphan_of, insert_entry, list_orphans, Selection, targets,
}
use wg_manager.Orphans.{remove_files, orphans_command}

-- Some entry has the name and passes the test.
abbrev has_entry : (OrphanEntry → Bool) → Text → List OrphanEntry → Bool
has_entry p name = any (λ o. p o && o.username == name)

lookup-remove_files :
    (name : Text) (os : List OrphanEntry) (ccd : Dict Text)
    → lookup name (remove_files os ccd)
      ≡ (if has_entry (λ o. true) name os then none else lookup name ccd)
unfolding remove_files
lookup-remove_files name [] ccd = refl
lookup-remove_files name (o ∷ os) ccd =
    ground
      (arith, lookup-remove_files name os (erase o.username ccd), lookup-erase o.username name ccd)

has_entry-keep :
    (p q : OrphanEntry → Bool) (name : Text) (os : List OrphanEntry)
    → has_entry p name (keep q os) ≡ has_entry (λ o. q o && p o) name os
has_entry-keep p q name [] = refl
has_entry-keep p q name (o ∷ os) = ground (arith, has_entry-keep p q name os)

has_entry-insert_entry :
    (p : OrphanEntry → Bool) (name : Text) (a : OrphanEntry) (os : List OrphanEntry)
    → has_entry p name (insert_entry a os) ≡ has_entry p name (a ∷ os)
unfolding insert_entry
has_entry-insert_entry p name a [] = refl
has_entry-insert_entry p name a (o ∷ os) = ground (arith, has_entry-insert_entry p name a os)

listed_step :
    (p : OrphanEntry → Bool) (name : Text) (os rest : List OrphanEntry)
    → has_entry p name os ≡ false
    → has_entry p name rest ≡ false
    → has_entry p name (elim os [ [] ↦ rest | e ∷ _ ↦ insert_entry e rest ]) ≡ false
listed_step p name [] rest h k = k
listed_step p name (e ∷ os) rest h k = has_entry-insert_entry p name e rest ∙ ground (arith, h, k)

-- No user of the table is an orphan.
user_orphan :
    (users live : List Text) (name : Text) (p : OrphanEntry → Bool) (f : CcdFile)
    → elem name users ≡ true
    → has_entry p name (orphan_of users live f) ≡ false
unfolding orphan_of
user_orphan users live name p f h = elim (Option-cases f.modified) [
  | inl e ↦ ground (arith, e)
  | inr (t, e) ↦ elim (Bool-cases (f.name == name)) [
    | inl q ↦ ground (arith, e, h, text_beq_iff f.name name)
    | inr q ↦ ground (arith, e, q)
  ]
]

no_user_listed :
    (users live : List Text) (name : Text) (fs : List CcdFile) (p : OrphanEntry → Bool)
    → elem name users ≡ true
    → has_entry p name (list_orphans users live fs) ≡ false
unfolding list_orphans
no_user_listed users live name [] p h = refl
no_user_listed users live name (f ∷ fs) p h =
    listed_step p name (orphan_of users live f) (list_orphans users live fs)
      (user_orphan users live name p f h) (no_user_listed users live name fs p h)

-- A name that is listed and connected is listed as connected.
live_orphan :
    (users live : List Text) (name : Text) (f : CcdFile)
    → elem name live ≡ true
    → has_entry (λ o. not o.connected) name (orphan_of users live f) ≡ false
unfolding orphan_of
live_orphan users live name f h = elim (Option-cases f.modified) [
  | inl e ↦ ground (arith, e)
  | inr (t, e) ↦ elim (Bool-cases (f.name == name)) [
    | inl q ↦ ground (arith, e, h, text_beq_iff f.name name)
    | inr q ↦ ground (arith, e, q)
  ]
]

no_live_idle :
    (users live : List Text) (name : Text) (fs : List CcdFile)
    → elem name live ≡ true
    → has_entry (λ o. not o.connected) name (list_orphans users live fs) ≡ false
unfolding list_orphans
no_live_idle users live name [] h = refl
no_live_idle users live name (f ∷ fs) h =
    listed_step (λ o. not o.connected) name (orphan_of users live f) (list_orphans users live fs)
      (live_orphan users live name f h) (no_live_idle users live name fs h)

no_target :
    (s : Selection) (users live : List Text) (name : Text) (fs : List CcdFile)
    → elem name users ≡ true
    → has_entry (λ o. true) name (targets s (list_orphans users live fs)) ≡ false
unfolding targets
no_target s users live name fs h = ground (
  arith,
  has_entry-keep (λ o. true) (λ o. o.is_test) name (list_orphans users live fs),
  has_entry-keep (λ o. true) (λ o. not o.connected) name (list_orphans users live fs),
  no_user_listed users live name fs (λ o. true) h,
  no_user_listed users live name fs (λ o. o.is_test && true) h,
  no_user_listed users live name fs (λ o. not o.connected && true) h,
)

remove_others :
    (name : Text) (os : List OrphanEntry) (ccd : Dict Text)
    → has_entry (λ o. true) name os ≡ false
    → lookup name (remove_files os ccd) ≡ lookup name ccd
remove_others name os ccd h = lookup-remove_files name os ccd ∙ rw h

-- Whatever the flags, the CCD file of a user that the table holds stays.
pub orphans_command-user :
    (s : Selection) (users live : List Text) (files : List CcdFile) (ccd after : Dict Text)
    (name : Text)
    → elem name users ≡ true
    → orphans_command s users live files ccd ≡ ok after
    → lookup name after ≡ lookup name ccd
unfolding orphans_command
orphans_command-user s users live files ccd after name h e = ground (
  arith,
  e,
  remove_others name (targets s (list_orphans users live files)) ccd
      (no_target s users live name files h),
)

idle_target :
    (s : Selection) (users live : List Text) (name : Text) (fs : List CcdFile)
    → s.purge_test ≡ false
    → s.force ≡ false
    → elem name live ≡ true
    → has_entry (λ o. true) name (targets s (list_orphans users live fs)) ≡ false
unfolding targets
idle_target s users live name fs t f h = ground (
  arith,
  t,
  f,
  has_entry-keep (λ o. true) (λ o. not o.connected) name (list_orphans users live fs),
  idle_same (list_orphans users live fs),
  no_live_idle users live name fs h,
)
  where
    idle_same :
        (os : List OrphanEntry)
        → has_entry (λ o. not o.connected && true) name os
          ≡ has_entry (λ o. not o.connected) name os
    idle_same [] = refl
    idle_same (o ∷ os) = ground (arith, idle_same os)

-- Without `--force` and `--purge-test`, the file of a client that is connected stays.
pub orphans_command-live :
    (s : Selection) (users live : List Text) (files : List CcdFile) (ccd after : Dict Text)
    (name : Text)
    → s.purge_test ≡ false
    → s.force ≡ false
    → elem name live ≡ true
    → orphans_command s users live files ccd ≡ ok after
    → lookup name after ≡ lookup name ccd
unfolding orphans_command
orphans_command-live s users live files ccd after name t f h e = ground (
  arith,
  e,
  remove_others name (targets s (list_orphans users live files)) ccd
      (idle_target s users live name files t f h),
)
