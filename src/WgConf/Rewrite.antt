-- ===== src/WgConf/Rewrite.antt =====
-- `rewriteWGHead` and `rewriteOvpnServerLine` (subnet.go)
pub mod Lines
use wg_manager.Base.{
  ℕ, ◌-◌, zero, suc, Bool, true, false, not, ◌&&◌, Option, none, some, List, [], ◌∷◌, ◌++◌,
}
use wg_manager.Base.{
  Text, lit, text_eq, ◌==◌, if◌then◌else◌, is_empty, trim, is_space, has_prefix, after_prefix,
}
use wg_manager.Base.{contains, split, join, fields, length, ◌^◌}
use wg_manager.Net.{IpNet, parse_cidr, ip_string, mask_to}
use wg_manager.Subnet.{network_of}
use wg_manager.WgConf.{is_head_end, to_lower}

-- `strings.Replace(s, old, new, 1)`
unfoldable pub replace_first : Text → Text → Text → Text
replace_first old new [] = if is_empty old then new else []
replace_first old new (c ∷ s) =
    let rest = replace_first old new s in
    if has_prefix (c ∷ s) old then new ++ after_prefix (c ∷ s) old else c ∷ rest

-- `strings.ReplaceAll(s, old, new)` for a text `old` that is not empty; `skip` characters belong to
-- an occurrence that has been replaced.
unfoldable pub replace_from : ℕ → Text → Text → Text → Text
replace_from skip old new [] = []
replace_from (suc skip) old new (c ∷ s) = replace_from skip old new s
replace_from zero old new (c ∷ s) =
    let rest = replace_from 0 old new s in
    let behind = replace_from (length old - 1) old new s in
    if has_prefix (c ∷ s) old then new ++ behind else c ∷ rest

-- The new form of a line of the head.
unfoldable pub rewrite_line : Text → Text → Text → Text → Text → Text
unfolding replace_first replace_from
rewrite_line old_addr new_addr old_net new_net l =
    if has_prefix (to_lower (trim is_space l)) (lit "address") && contains l old_addr
    then replace_first old_addr new_addr l
    else if not (is_empty old_net) && contains l old_net
    then replace_from 0 old_net new_net l
    else l

unfoldable pub rewrite_lines : (Text → Text) → List Text → List Text
rewrite_lines f [] = []
rewrite_lines f (l ∷ ls) =
    let rest = rewrite_lines f ls in if is_head_end (trim is_space l) then l ∷ ls else f l ∷ rest

-- `rewriteWGHead`
unfoldable pub rewrite_wg_head : Text → Text → Text → Text
unfolding rewrite_lines rewrite_line
rewrite_wg_head conf old_addr new_addr = join (b'\n' ∷ []) (
    rewrite_lines (rewrite_line old_addr new_addr (network_of old_addr) (network_of new_addr))
      (split b'\n' conf))

-- The line is a `server` directive with at least two arguments.
unfoldable pub is_server : List Text → Bool
is_server (a ∷ b ∷ c ∷ f) = a == lit "server"
is_server _ = false

unfoldable pub server_line : IpNet → Text
server_line n =
    lit "server " ++ ip_string n.ip ++ lit " " ++ ip_string (mask_to n.ones (2 ^ 32 - 1))

-- Replaces the first such line, if there is one.
unfoldable pub replace_server : Text → List Text → Option (List Text)
unfolding is_server
replace_server new [] = none
replace_server new (l ∷ ls) =
    let rest = replace_server new ls in
    if is_server (fields l)
    then some (new ∷ ls)
    else elim rest [ none ↦ none | some ks ↦ some (l ∷ ks) ]

-- `rewriteOvpnServerLine`
unfoldable pub rewrite_ovpn_server_line : Text → Text → Text × Bool
unfolding replace_server server_line
rewrite_ovpn_server_line conf subnet = elim (parse_cidr subnet) [
  | none ↦ (conf, false)
  | some (ip, n) ↦ elim (replace_server (server_line n) (split b'\n' conf)) [
    | none ↦ (conf, false)
    | some lines ↦ (join (b'\n' ∷ []) lines, true)
  ]
]
