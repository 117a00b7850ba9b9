-- ===== src/Net/Ipv6.antt =====
-- Whether `net.ParseCIDR` reads a text as an IPv6 network.
use wg_manager.Base.{
  ℕ, ◌+◌, Bool, false, not, ◌&&◌, ◌||◌, Option, none, some, List, [], ◌∷◌, nat_eq, ◌==◌, leb,
}
use wg_manager.Base.{Text, if◌then◌else◌, is_empty, all, length, split, cut, parse_uint}
use wg_manager.Base.{number, syntax_error, range_error}
use wg_manager.Net.{parse_ip}

abbrev pub is_hex : ℕ → Bool
is_hex c = leb b'0' c && leb c b'9' || leb b'a' c && leb c b'f' || leb b'A' c && leb c b'F'

-- One field: up to four hexadecimal digits.
unfoldable pub is_field : Text → Bool
is_field s = not (is_empty s) && leb (length s) 4 && all is_hex s

-- The number of fields; an IPv4 address at the end stands for two.
unfoldable pub count_fields : List Text → Option ℕ
unfolding is_field
count_fields [] = some 0
count_fields (s ∷ []) =
    if is_field s then some 1 else elim (parse_ip s) [ none ↦ none | some ip ↦ some 2 ]
count_fields (s ∷ t ∷ more) =
    let rest = count_fields (t ∷ more) in
    if is_field s then elim rest [ none ↦ none | some n ↦ some (n + 1) ] else none

-- The text before and behind the first `::`.
unfoldable pub cut_ellipsis : Text → Option (Text × Text)
cut_ellipsis [] = none
cut_ellipsis (c ∷ []) = none
cut_ellipsis (c ∷ d ∷ s) =
    let rest = cut_ellipsis (d ∷ s) in
    if c == b':' && d == b':'
    then some ([], s)
    else elim rest [ none ↦ none | some (a, b) ↦ some (c ∷ a, b) ]

abbrev fields_of : Text → List Text
fields_of s = if is_empty s then [] else split b':' s

-- Eight fields, or fewer around one `::`.
unfoldable pub is_ipv6 : Text → Bool
unfolding count_fields cut_ellipsis
is_ipv6 s = elim (cut_ellipsis s) [
  | none ↦ elim (count_fields (split b':' s)) [ none ↦ false | some n ↦ n == 8 ]
  | some (a, b) ↦ all is_field (fields_of a) && elim (count_fields (fields_of b)) [
    | none ↦ false
    | some n ↦ leb (length (fields_of a) + n) 7
  ]
]

unfoldable pub is_ipv6_cidr : Text → Bool
unfolding is_ipv6
is_ipv6_cidr s = elim (cut b'/' s) [
  | none ↦ false
  | some (addr, len) ↦
      is_ipv6 addr
      && elim (parse_uint len) [ number v ↦ leb v 128 | syntax_error ↦ false | range_error ↦ false ]
]
