-- ===== src/Settings/Flags.antt =====
-- `parseFlags` (main.go)
use wg_manager.Base.{
  Bool, true, false, not, none, some, List, [], ◌∷◌, ◌++◌, Text, lit, if◌then◌else◌,
}
use wg_manager.Base.{has_prefix, after_prefix, cut, Dict, insert}

-- The positional arguments, in order, and the flags.
pub record Args : Type 0 where
  pub positional : List Text
  pub flags : Dict Text

-- The loop; the flag says that the argument is the value of the flag before it, which has been
-- taken already.
unfoldable pub flags_from : Bool → List Text → Args → Args
flags_from taken [] a = a
flags_from true (x ∷ xs) a = flags_from false xs a
flags_from false (x ∷ []) a =
    if not (has_prefix x (lit "--"))
    then record a { positional = a.positional ++ (x ∷ []) }
    else elim (cut b'=' (after_prefix x (lit "--"))) [
      | some (k, v) ↦ record a { flags = insert k v a.flags }
      | none ↦ record a { flags = insert (after_prefix x (lit "--")) (lit "true") a.flags }
    ]
flags_from false (x ∷ y ∷ xs) a =
    if not (has_prefix x (lit "--"))
    then flags_from false (y ∷ xs) (record a { positional = a.positional ++ (x ∷ []) })
    else elim (cut b'=' (after_prefix x (lit "--"))) [
      | some (k, v) ↦ flags_from false (y ∷ xs) (record a { flags = insert k v a.flags })
      | none ↦
          let key = after_prefix x (lit "--") in
          if has_prefix y (lit "--")
          then flags_from false (y ∷ xs) (record a { flags = insert key (lit "true") a.flags })
          else flags_from true (y ∷ xs) (record a { flags = insert key y a.flags })
    ]

-- `parseFlags`
unfoldable pub parse_flags : List Text → Args
unfolding flags_from
parse_flags args = flags_from false args (record { positional = []; flags = [] })
