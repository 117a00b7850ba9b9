-- ===== src/Release/Order.antt =====
-- The comparison of releases is the order of version numbers.
use wg_manager.Base.{
  true, false, some, ◌≡◌, ◌⊎◌, ◌↔◌, arith, refl, ap, ◌∙◌, sym, subst, inl, inr, Text, [], ◌∷◌, ℤ,
  pos, negsuc, lit, text_eq,
}
use wg_manager.Base.{
  false, trim, trim_left, trim_right, trim_prefix, cut, parse_int, parse_uint, scan,
}
use wg_manager.Base.{◌==◌, has_prefix, is_empty, ltb_ℤ, Bool-cases, text_beq_iff, some_inj}
use wg_manager.Release.{
  SemVer, sem_parts, sem_of, sem_part, split_three, same, exceeds, is_newer, before_suffix,
}

-- The first number that differs is greater.
abbrev pub IsLater : SemVer → SemVer → Type 0
IsLater a b =
    (ltb_ℤ b.major a.major ≡ true)
    ⊎ ((a.major ≡ b.major)
        × ((ltb_ℤ b.minor a.minor ≡ true) ⊎ ((a.minor ≡ b.minor) × (ltb_ℤ b.patch a.patch ≡ true))))

same_iff : (a b : ℤ) → (same a b ≡ true) ↔ (a ≡ b)
unfolding same
same_iff (pos m) (pos n) = ground arith
same_iff (pos m) (negsuc n) = ground arith
same_iff (negsuc m) (pos n) = ground arith
same_iff (negsuc m) (negsuc n) = ground arith

irrefl : (a : ℤ) → ltb_ℤ a a ≡ false
irrefl (pos m) = ground arith
irrefl (negsuc m) = ground arith

exceeds_iff : (a b : SemVer) → (exceeds a b ≡ true) ↔ IsLater a b
unfolding exceeds
exceeds_iff a b = ground (
  arith,
  same_iff a.major b.major,
  same_iff a.minor b.minor,
  same_iff a.patch b.patch,
  irrefl a.major,
  irrefl a.minor,
  irrefl a.patch,
  irrefl b.major,
  irrefl b.minor,
  irrefl b.patch,
)

not_later_self : (a : SemVer) → IsLater a a → ⊥
not_later_self a h = ground (arith, h, irrefl a.major, irrefl a.minor, irrefl a.patch)

not_empty : (s : Text) (a : SemVer) → sem_parts s ≡ some a → is_empty s ≡ false
unfolding sem_parts sem_of sem_part split_three before_suffix trim trim_left trim_right trim_prefix
    has_prefix cut lit parse_int parse_uint scan
not_empty [] a h = cc
not_empty (c ∷ s) a h = refl

-- Of two texts that are version numbers, where the installed one is no build from the source: the
-- latest is newer exactly if it is later, by the first of the three numbers that differs.
pub is_newer_iff :
    (latest installed : Text) (a b : SemVer)
    → sem_parts latest ≡ some a
    → sem_parts installed ≡ some b
    → (installed == lit "dev") ≡ false
    → has_prefix installed (lit "source-") ≡ false
    → (is_newer latest installed ≡ true) ↔ IsLater a b
unfolding is_newer
is_newer_iff latest installed a b ea eb d s = elim (Bool-cases (latest == installed)) [
  | inl e ↦
      let k : a ≡ b = some_inj (sym ea ∙ ap sem_parts ((text_beq_iff latest installed).0 e) ∙ eb) in
      ground (arith, e, subst (λ (x : SemVer). IsLater a x → ⊥) k (not_later_self a))
  | inr e ↦
      rw (is_newer, not_empty latest a ea, not_empty installed b eb, e, d, s, ea, eb)
        (exceeds_iff a b)
]
