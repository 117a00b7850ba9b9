-- ===== src/Subnet.antt =====
-- Widening the address pools (subnet.go): the new prefix, the rewritten configuration files, and
-- the routes that a wider pool would collide with.
pub mod Widen
pub mod Routes
pub mod Conflicts
pub mod Plan
pub mod Rules
pub mod Expand
pub mod Command
use wg_manager.Base.{ℕ, zero, suc, ◌+◌, ◌-◌, Bool, true, false, not, ◌&&◌, ◌||◌, Option, none, some}
use wg_manager.Base.{List, [], ◌∷◌, ◌++◌, Text, lit, text_eq, nat_eq, ◌==◌, if◌then◌else◌, is_empty}
use wg_manager.Base.{
  ℤ, pos, pos_part, ltb_ℤ, leb, trim, is_space, to_dec, split, join, fields, elem,
}
use wg_manager.Base.{contains, has_prefix, map, any, keep}
use wg_manager.Net.{IpNet, ip_string, mask_to, parse_cidr, net_string, net_contains, network}
use wg_manager.Net.Overlap.{nets_overlap}
use wg_manager.Recharge.{Result, ok, err}

-- `widenCIDR`: the text, and whether it is a new one
unfoldable pub widen_cidr : Text → ℤ → Bool → Result (Text × Bool)
widen_cidr cidr prefix keep_host = elim (parse_cidr (trim is_space cidr)) [
  | none ↦ err (lit "not an IPv4 CIDR")
  | some (ip, n) ↦
      if ltb_ℤ prefix (pos 16) || ltb_ℤ (pos 30) prefix
      then err (lit "prefix out of range")
      else if leb n.ones (pos_part prefix)
      then ok (cidr, false)
      else if keep_host
      then ok (ip_string ip ++ (b'/' ∷ to_dec (pos_part prefix)), true)
      else ok (ip_string (mask_to (pos_part prefix) ip) ++ (b'/' ∷ to_dec (pos_part prefix)), true)
]

-- `networkOf`
unfoldable pub network_of : Text → Text
network_of cidr = elim (parse_cidr cidr) [ none ↦ [] | some (ip, n) ↦ net_string n ]

-- `prefixAll`
unfoldable pub prefix_all : Text → List Text → List Text
prefix_all pre xs = map (λ x. pre ++ x) xs
