-- ===== src/Migration/Ports.antt =====
-- The port in a restored WireGuard file: `setWireGuardListenPort` with its two regular expressions.
use wg_manager.Base.{ℕ, ◌-◌, Bool, true, false, not, ◌&&◌, ◌||◌, Option, none, some, [], ◌∷◌, ◌++◌}
use wg_manager.Base.{
  Text, lit, nat_eq, ◌==◌, leb, length, if◌then◌else◌, is_empty, has_prefix, after_prefix,
  trim_left, take,
}

-- `\s`, `[ \t]` and `[0-9]`
unfoldable pub is_re_space : ℕ → Bool
is_re_space c = c == b' ' || c == b'\t' || c == b'\n' || c == 12 || c == b'\r'

unfoldable pub is_blank : ℕ → Bool
is_blank c = c == b' ' || c == b'\t'

unfoldable pub is_re_digit : ℕ → Bool
is_re_digit c = leb b'0' c && leb c b'9'

-- What is left of a text behind `\s*` and a word.
unfoldable pub behind_word : Text → Text → Option Text
unfolding is_re_space
behind_word word s =
    let t = trim_left is_re_space s in
    if has_prefix t word then some (after_prefix t word) else none

-- The text behind the first group of a match of the first expression, at the start of a line.
unfoldable pub listen_port_group : Text → Option Text
unfolding behind_word lit
listen_port_group s = elim (behind_word (lit "ListenPort") s) [
  | none ↦ none
  | some t ↦ elim (behind_word (lit "=") t) [
    | none ↦ none
    | some u ↦ some (trim_left is_re_space u)
  ]
]

-- The same for the second expression, anywhere.
unfoldable pub dport_group : Text → Option Text
unfolding is_blank lit
dport_group s =
    if not (has_prefix s (lit "--dport"))
    then none
    else let t = after_prefix s (lit "--dport") in
      let u = trim_left is_blank t in if length u == length t then none else some u

-- The digits that the match ends with: the text of the group, and the length of the match.
unfoldable pub full_match : (Text → Option Text) → Text → Option (Text × ℕ)
unfolding is_re_digit
full_match group s = elim (group s) [
  | none ↦ none
  | some t ↦
      let u = trim_left is_re_digit t in
      if length u == length t
      then none
      else some (take (length s - length t) s, length s - length u)
]

-- `ReplaceAll`, from a position on: `skipped` characters of the last match are still to be passed
-- over, `fresh` tells whether a match may begin here because of what stands before.
unfoldable pub replace_ports : Bool → (Text → Option Text) → Text → ℕ → Bool → Text → Text
unfolding full_match
replace_ports anywhere group port skipped fresh [] = []
replace_ports anywhere group port skipped fresh (c ∷ s) =
    let found : Option (Text × ℕ) =
      if not (skipped == 0)
      then none
      else if anywhere || fresh
      then full_match group (c ∷ s)
      else none in
    let (out, ahead) : Text × ℕ = elim found [
      | some (kept, n) ↦ (kept ++ port, n)
      | none ↦ (if skipped == 0 then c ∷ [] else [], skipped)
    ] in
    out ++ replace_ports anywhere group port (ahead - 1) (c == b'\n') s

-- `setWireGuardListenPort`; a port has no `$`.
unfoldable pub set_wireguard_listen_port : Text → Text → Text
unfolding replace_ports listen_port_group dport_group
set_wireguard_listen_port text port =
    if is_empty port
    then text
    else replace_ports true dport_group port 0 true
        (replace_ports false listen_port_group port 0 true text)
