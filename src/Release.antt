-- ===== src/Release.antt =====
-- Is a release newer (version.go)?
pub mod Order
pub mod Cache
use wg_manager.Base.{
  ℕ, Bool, true, false, not, ◌&&◌, ◌||◌, Option, none, some, List, [], ◌∷◌, Text, lit, text_eq,
  nat_eq,
}
use wg_manager.Base.{
  ◌==◌, if◌then◌else◌, is_empty, trim, is_space, has_prefix, trim_prefix, cut, parse_int, ℤ, pos,
}
use wg_manager.Base.{ltb_ℤ, leb_ℤ}

-- `p[:strings.IndexAny(p, "-+")]`, or all of it
unfoldable pub before_suffix : Text → Text
before_suffix [] = []
before_suffix (c ∷ s) =
    let rest = before_suffix s in if c == b'-' then [] else if c == b'+' then [] else c ∷ rest

-- `strings.SplitN(s, ".", 3)`
unfoldable pub split_three : Text → List Text
split_three s = elim (cut b'.' s) [
  | none ↦ s ∷ []
  | some (a, t) ↦ elim (cut b'.' t) [ none ↦ a ∷ t ∷ [] | some (b, u) ↦ a ∷ b ∷ u ∷ [] ]
]

-- One part: the number in front of a suffix.
unfoldable pub sem_part : Text → Option ℤ
unfolding before_suffix
sem_part p = let (n, fine) = parse_int (before_suffix p) in if fine then some n else none

pub record SemVer : Type 0 where
  pub major : ℤ
  pub minor : ℤ
  pub patch : ℤ

unfoldable pub sem_of : List Text → Option SemVer
unfolding sem_part
sem_of (a ∷ []) = elim (sem_part a) [
  | none ↦ none
  | some x ↦ some record { major = x; minor = pos 0; patch = pos 0 }
]
sem_of (a ∷ b ∷ []) = elim (sem_part a) [
  | none ↦ none
  | some x ↦ elim (sem_part b) [
    | none ↦ none
    | some y ↦ some record { major = x; minor = y; patch = pos 0 }
  ]
]
sem_of (a ∷ b ∷ c ∷ _) = elim (sem_part a) [
  | none ↦ none
  | some x ↦ elim (sem_part b) [
    | none ↦ none
    | some y ↦ elim (sem_part c) [
      | none ↦ none
      | some z ↦ some record { major = x; minor = y; patch = z }
    ]
  ]
]
sem_of [] = none

-- `semParts`
unfoldable pub sem_parts : Text → Option SemVer
unfolding sem_of split_three
sem_parts s = sem_of (split_three (trim_prefix (trim is_space s) (lit "v")))

unfoldable pub same : ℤ → ℤ → Bool
same a b = leb_ℤ a b && leb_ℤ b a

-- The loop over the three numbers.
unfoldable pub exceeds : SemVer → SemVer → Bool
unfolding same
exceeds a b =
    if not (same a.major b.major)
    then ltb_ℤ b.major a.major
    else if not (same a.minor b.minor)
    then ltb_ℤ b.minor a.minor
    else if not (same a.patch b.patch)
    then ltb_ℤ b.patch a.patch
    else false

-- `isNewer`
unfoldable pub is_newer : Text → Text → Bool
unfolding sem_parts exceeds
is_newer latest installed =
    if is_empty latest || is_empty installed || latest == installed
    then false
    else if installed == lit "dev" || has_prefix installed (lit "source-")
    then true
    else elim (sem_parts latest) [
      | none ↦ not (latest == installed)
      | some a ↦ elim (sem_parts installed) [
        | none ↦ not (latest == installed)
        | some b ↦ exceeds a b
      ]
    ]
