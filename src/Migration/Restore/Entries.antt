-- ===== src/Migration/Restore/Entries.antt =====
-- What an import reads from an archive that an export wrote.
use wg_manager.Base.{
  ℕ, Bool, true, false, not, ◌&&◌, Option, none, some, List, [], ◌∷◌, ◌++◌, ◌≡◌, refl, arith, ◌∙◌,
  inl, inr,
}
use wg_manager.Base.{
  Text, lit, text_eq, text_beq, text_beq_iff, nat_eq, ◌==◌, ltb, length, if◌then◌else◌, is_empty,
  All, All-append,
}
use wg_manager.Base.{Dict, lookup, insert, lookup-insert, Option-cases, Bool-cases, subst, some_inj}
use wg_manager.Store.{Table}
use wg_manager.Recharge.{ok}
use wg_manager.Settings.{Config}
use wg_manager.Migration.Bundle.{known_entry, known_names}
use wg_manager.Migration.Archive.{
  Codec, File, Item, Packed, max_file, private_mode, add_existing, add_files, ovpn_files,
  ovpn_exported, bundle_items, wg_items, users_item, manifest_item, encode_bundle, read_packed,
  read_files,
}

-- The files of an archive, as they are read from it.
abbrev pub pack : List Item → List Packed
pack [] = []
pack (i ∷ items) =
    record {
      name = i.name;
      is_dir = false;
      size = length i.file.text;
      content = some i.file.text;
      mode = i.file.mode;
    }
    ∷ pack items

-- The last file of a name.
abbrev pub item_of : Text → List Item → Option File
item_of name [] = none
item_of name (i ∷ items) = elim (item_of name items) [
  | some f ↦ some f
  | none ↦ if i.name == name then some i.file else none
]

abbrev pub inserted : List Item → Dict File → Dict File
inserted [] d = d
inserted (i ∷ items) d = inserted items (insert i.name i.file d)

pub lookup-inserted :
    (name : Text) (items : List Item) (d : Dict File)
    → lookup name (inserted items d)
      ≡ (elim (item_of name items) [ some f ↦ some f | none ↦ lookup name d ])
lookup-inserted name [] d = refl
lookup-inserted name (i ∷ items) d =
    ground (
      arith,
      lookup-inserted name items (insert i.name i.file d),
      lookup-insert i.name name i.file d,
    )

-- A file that an import accepts.
abbrev pub IsAccepted : Item → Type 0
IsAccepted i = (known_entry i.name ≡ true) × (ltb max_file (length i.file.text) ≡ false)

pub read_files-pack :
    (items : List Item) (d : Dict File)
    → All IsAccepted items
    → read_files (pack items) d ≡ ok (inserted items d)
unfolding read_files read_packed
read_files-pack [] d h = refl
read_files-pack (i ∷ items) d ((k, s), h) =
    rw (read_files, read_packed, k, s) (read_files-pack items (insert i.name i.file d) h)

pub item_of-append :
    (name : Text) (xs ys : List Item)
    → item_of name (xs ++ ys)
      ≡ (elim (item_of name ys) [ some f ↦ some f | none ↦ item_of name xs ])
item_of-append name [] ys = ground arith
item_of-append name (x ∷ xs) ys = ground (arith, item_of-append name xs ys)

-- A file, with a mode in place of 0.
abbrev pub with_mode : ℕ → File → File
with_mode fallback f = record { text = f.text; mode = if f.mode == 0 then fallback else f.mode }

item_of-add_existing :
    (name at : Text) (is_set : Bool) (fallback : ℕ) (files : Dict File) (items : List Item)
    → item_of at (add_existing is_set name fallback files items) ≡ (
        if is_set && name == at
        then elim (lookup name files) [
          | some f ↦ some (with_mode fallback f)
          | none ↦ item_of at items
        ]
        else item_of at items)
unfolding add_existing
item_of-add_existing name at is_set fallback files items = elim (Bool-cases is_set) [
  | inr e ↦ rw e
  | inl e ↦ elim (Option-cases (lookup name files)) [
    | inl q ↦ rw (e, q) (ground arith)
    | inr (f, q) ↦
        rw (e, q)
          (item_of-append at items (record { name = name; file = with_mode fallback f } ∷ [])
            ∙ ground arith)
  ]
]

pub item_of-add_existing-other :
    (name at : Text) (is_set : Bool) (fallback : ℕ) (files : Dict File) (items : List Item)
    → (name == at) ≡ false
    → item_of at (add_existing is_set name fallback files items) ≡ item_of at items
item_of-add_existing-other name at is_set fallback files items h =
    item_of-add_existing name at is_set fallback files items
    ∙ elim (Bool-cases is_set) [ inl e ↦ rw (e, h) refl | inr e ↦ rw e refl ]

-- No name stands twice in a table.
abbrev pub IsKeyed : List (Text × ℕ) → Type 0
IsKeyed [] = Unit
IsKeyed ((name, mode) ∷ more) = (lookup name more ≡ none) × IsKeyed more

pub ovpn_files-IsKeyed : IsKeyed ovpn_files
unfolding ovpn_files lookup lit text_beq
ovpn_files-IsKeyed = (refl, (refl, (refl, (refl, (refl, (refl, tt))))))

pub item_of-add_files-other :
    (at : Text) (l : List (Text × ℕ)) (files : Dict File) (items : List Item)
    → lookup at l ≡ none
    → item_of at (add_files l files items) ≡ item_of at items
unfolding add_files lookup
item_of-add_files-other at [] files items h = refl
item_of-add_files-other at ((name, mode) ∷ more) files items h = elim (Bool-cases (name == at)) [
  | inl e ↦ cc (rw e at h)
  | inr e ↦
      item_of-add_files-other at more files (add_existing true name mode files items) (rw e at h)
      ∙ item_of-add_existing name at true mode files items
      ∙ rw e
]

same_file :
    (name at : Text) (m mode : ℕ) (files : Dict File) (o : Option File)
    → name ≡ at
    → m ≡ mode
    → o ≡ none
    → (elim (lookup name files) [ some f ↦ some (with_mode m f) | none ↦ o ])
      ≡ (elim (lookup at files) [ some f ↦ some (with_mode mode f) | none ↦ none ])
same_file name at m mode files o p q n = ground (arith, p, q, n)

pub item_of-add_files :
    (at : Text) (mode : ℕ) (l : List (Text × ℕ)) (files : Dict File) (items : List Item)
    → IsKeyed l
    → lookup at l ≡ some mode
    → item_of at items ≡ none
    → item_of at (add_files l files items)
      ≡ (elim (lookup at files) [ some f ↦ some (with_mode mode f) | none ↦ none ])
unfolding add_files lookup
item_of-add_files at mode [] files items k h n = cc
item_of-add_files at mode ((name, m) ∷ more) files items (a, k) h n =
    elim (Bool-cases (name == at)) [
      | inl e ↦
          let p : name ≡ at = (text_beq_iff name at).0 e in
          let other =
            item_of-add_files-other at more files (add_existing true name m files items) in
          other (subst (λ (x : Text). lookup x more ≡ none) p a)
          ∙ item_of-add_existing name at true m files items
          ∙ rw e (same_file name at m mode files (item_of at items) p (some_inj (rw e at h)) n)
      | inr e ↦
          item_of-add_files at mode more files (add_existing true name m files items) k (rw e at h)
            (item_of-add_existing name at true m files items ∙ rw e n)
    ]

-- The names that a bundle has are those that an import knows.
add_existing-All :
    (P : Item → Type 0) (is_set : Bool) (name : Text) (fallback : ℕ) (files : Dict File)
    (items : List Item)
    → ((f : File) → P (record { name = name; file = f }))
    → All P items
    → All P (add_existing is_set name fallback files items)
unfolding add_existing
add_existing-All P is_set name fallback files items k h = elim (Bool-cases is_set) [
  | inr e ↦ rw e h
  | inl e ↦ elim (Option-cases (lookup name files)) [
    | inl q ↦ rw (e, q) h
    | inr (f, q) ↦ rw (e, q) (All-append P items _ h (k _, tt))
  ]
]

abbrev IsKnown : Item → Type 0
IsKnown i = known_entry i.name ≡ true

abbrev KnowsAll : List (Text × ℕ) → Type 0
KnowsAll l = All (λ x. known_entry x.0 ≡ true) l

add_files-All :
    (l : List (Text × ℕ)) (files : Dict File) (items : List Item)
    → KnowsAll l
    → All IsKnown items
    → All IsKnown (add_files l files items)
unfolding add_files
add_files-All [] files items k h = h
add_files-All ((name, mode) ∷ more) files items (k, ks) h =
    add_files-All more files (add_existing true name mode files items) ks
      (add_existing-All IsKnown true name mode files items (λ f. k) h)

ovpn_files-KnowsAll : KnowsAll ovpn_files
unfolding ovpn_files known_entry known_names lit text_beq
ovpn_files-KnowsAll = (refl, (refl, (refl, (refl, (refl, (refl, tt))))))

wg_items-IsKnown :
    (k : Codec) (date : Text) (cfg : Config) (t : Table) (files : Dict File)
    → All IsKnown (wg_items k date cfg t files)
unfolding wg_items users_item known_entry known_names lit text_beq
wg_items-IsKnown k date cfg t files =
    add_existing-All IsKnown (not (is_empty cfg.wg_conf)) (lit "wireguard/wg0.conf") private_mode
      files _ (λ f. refl)
      (add_existing-All IsKnown (not (is_empty cfg.params)) (lit "wireguard/params") private_mode
        files (users_item k date t ∷ []) (λ f. refl) (refl, tt))

bundle_items-IsKnown :
    (k : Codec) (date : Text) (cfg : Config) (t : Table) (files : Dict File)
    → All IsKnown (bundle_items k date cfg t files)
unfolding bundle_items
bundle_items-IsKnown k date cfg t files =
    let wg = wg_items-IsKnown k date cfg t files in
    elim (Bool-cases (ovpn_exported cfg)) [
      | inl e ↦
          rw e (add_files-All ovpn_files files (wg_items k date cfg t files) ovpn_files-KnowsAll wg)
      | inr e ↦ rw e wg
    ]

pub encode_bundle-IsKnown :
    (k : Codec) (date : Text) (cfg : Config) (t : Table) (files : Dict File)
    → All IsKnown (encode_bundle k date cfg t files)
unfolding encode_bundle manifest_item known_entry known_names lit text_beq
encode_bundle-IsKnown k date cfg t files =
    All-append IsKnown (bundle_items k date cfg t files) _ (bundle_items-IsKnown k date cfg t files)
      (refl, tt)

-- What is found under the name of an OpenVPN file.
pub item_of-encode_bundle :
    (k : Codec) (date at : Text) (mode : ℕ) (cfg : Config) (t : Table) (files : Dict File)
    → ovpn_exported cfg ≡ true
    → lookup at ovpn_files ≡ some mode
    → item_of at (wg_items k date cfg t files) ≡ none
    → (lit "manifest.json" == at) ≡ false
    → item_of at (encode_bundle k date cfg t files)
      ≡ (elim (lookup at files) [ some f ↦ some (with_mode mode f) | none ↦ none ])
unfolding encode_bundle bundle_items manifest_item
item_of-encode_bundle k date at mode cfg t files e h n m =
    item_of-append at (bundle_items k date cfg t files) _
    ∙ rw m (
        rw e (
          item_of-add_files at mode ovpn_files files (wg_items k date cfg t files)
            ovpn_files-IsKeyed h n))
