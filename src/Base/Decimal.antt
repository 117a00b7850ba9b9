-- ===== src/Base/Decimal.antt =====
-- Decimal numbers: `strconv.ParseInt(s, 10, 64)`, `strconv.Atoi` and `%d`.
use Prim.Native.Nat.{ℕ, zero, suc, ◌+◌, ◌-◌, ◌*◌, ◌/◌, ◌%◌, ◌^◌, ◌≤◌, ◌<◌}
use mathlib.Core.Path.{◌≡◌, refl}
use mathlib.Core.Logic.{◌≢◌}
use mathlib.Core.Bool.{Bool, true, false, ◌||◌}
use mathlib.Core.List.{[], ◌∷◌}
use native.Mathlib.Omega.{arith}
use wg_manager.Base.Tests.{◌==◌, nat_eq, ltb, if◌then◌else◌}
use wg_manager.Base.Strings.{Text}
use wg_manager.Base.Int.{ℤ, pos, max_int64, sub_ℕ}

-- How `ParseUint` ends: a value, `ErrSyntax` or `ErrRange`.
pub data Scan : Type 0 where
  number : ℕ → Scan
  syntax_error range_error : Scan

-- The loop of `ParseUint`, which stops at the first byte that is no digit or does not fit.
unfoldable pub scan : Text → ℕ → Scan
scan [] n = number n
scan (c ∷ s) n =
    let m = n * 10 + (c - b'0') in
    let rest = scan s m in
    if ltb c b'0' || ltb b'9' c
    then syntax_error
    else if ltb (2 ^ 64 - 1) m
    then range_error
    else rest

unfoldable pub parse_uint : Text → Scan
unfolding scan
parse_uint [] = syntax_error
parse_uint (c ∷ s) = scan (c ∷ s) 0

-- The pair of `ParseInt`: the value, and whether the error is nil. A value out of range is
-- returned as the nearest `int64`.
unfoldable pub of_magnitude : Bool → Scan → ℤ × Bool
of_magnitude minus syntax_error = (pos 0, false)
of_magnitude false range_error = (pos max_int64, false)
of_magnitude true range_error = (sub_ℕ 0 (2 ^ 63), false)
of_magnitude false (number n) = if ltb max_int64 n then (pos max_int64, false) else (pos n, true)
of_magnitude true (number n) =
    if ltb (2 ^ 63) n then (sub_ℕ 0 (2 ^ 63), false) else (sub_ℕ 0 n, true)

unfoldable pub parse_int : Text → ℤ × Bool
unfolding of_magnitude parse_uint
parse_int [] = (pos 0, false)
parse_int (c ∷ s) =
    if c == b'+'
    then of_magnitude false (parse_uint s)
    else if c == b'-'
    then of_magnitude true (parse_uint s)
    else of_magnitude false (parse_uint (c ∷ s))

-- `%d` of a number that is not negative, by as many rounds as the fuel allows
unfoldable pub digits : ℕ → ℕ → Text → Text
digits zero n out = out
digits (suc fuel) n out =
    let here = (b'0' + n % 10) ∷ out in
    let rest = digits fuel (n / 10) here in if ltb n 10 then here else rest

unfoldable pub to_dec : ℕ → Text
unfolding digits
to_dec n = digits (n + 1) n []

abbrev pub IsDigit : ℕ → Type 0
IsDigit c = (b'0' ≤ c) × (c ≤ b'9')

-- A number with more digits in front of it is read as before.
scan-digits :
    (fuel n : ℕ) (out : Text) → n < fuel → n < 2 ^ 64 → scan (digits fuel n out) 0 ≡ scan out n
unfolding scan digits
scan-digits zero n out h k = absurd (omega arith)
scan-digits (suc fuel) n out h k = ground (arith, scan-digits fuel (n / 10) ((b'0' + n % 10) ∷ out))

digits-ne-nil : (fuel n : ℕ) (out : Text) → out ≢ [] → digits fuel n out ≢ []
unfolding digits
digits-ne-nil zero n out h = h
digits-ne-nil (suc fuel) n out h =
    ground (arith, digits-ne-nil fuel (n / 10) ((b'0' + n % 10) ∷ out))

parse_uint-scan : (s : Text) → s ≢ [] → parse_uint s ≡ scan s 0
unfolding parse_uint
parse_uint-scan [] h = absurd (h refl)
parse_uint-scan (c ∷ s) h = refl
