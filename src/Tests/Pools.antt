-- ===== src/Tests/Pools.antt =====
-- Addresses, pools and firewall rules at concrete data.
use wg_manager.Base.{ℕ, ◌+◌, ◌≤◌, ◌<◌, ◌≡◌, ◌↔◌, true, false, none, some}
use wg_manager.Base.{List, [], ◌∷◌, refl, arith, Text, lit, pos, All, elem, text_eq, text_beq}
use wg_manager.Base.{split, trim, is_space, cut, parse_uint, scan, to_dec, digits}
use wg_manager.Base.{cons_head, trim_left, trim_right}
use wg_manager.Net.{
  IpNet, block, network, net_contains, host_allocatable, ip_string, next_free_host,
}
use wg_manager.Net.{
  parse_cidr, mask_to, scan_hosts, next_ip, octets, increment, of_octets, broadcast_addr,
  or_inverse,
}
use wg_manager.Net.{parse_ip, parse_octets, parse_octet, parse_ones, net_string}
use wg_manager.Net.Hosts.{IsNet, next_free_host_found, next_free_host-none}
use wg_manager.Net.Overlap.{nets_overlap, nets_overlap_iff}
use wg_manager.Recharge.{ok}
use wg_manager.Subnet.{widen_cidr, network_of, prefix_all}
use wg_manager.Subnet.Widen.{widen_cidr-contains}
use wg_manager.Subnet.Routes.{NetEntry}
use wg_manager.Subnet.Conflicts.{
  subnet_conflicts, inside_pool, conflicts_from, collides, conflict_text, pool_devs,
}
use wg_manager.Subnet.Conflicts.Listed.{
  has_conflict, AreDistinct, Tolerates, subnet_conflicts-listed, subnet_conflicts-clean,
}
use wg_manager.Subnet.Plan.{
  ExpandPlan, build_expand_plan, wg_widening, ov_widening, widen_pool, conflicts_of, net_of,
}
use wg_manager.Subnet.Plan.{wg_plan_conflicts, ov_plan_conflicts, first_overlap, moved, sort_texts}
use wg_manager.Subnet.Plan.Clean.{build_expand_plan-disjoint}
use wg_manager.Subnet.Rules.Copies.{row_eq}

-- 10.8.0.0/24 and 10.8.1.0/24
abbrev pool : IpNet
pool = record { ip = 168296448; ones = 24 }

abbrev next_pool : IpNet
next_pool = record { ip = 168296704; ones = 24 }

-- 10.8.0.0/16
abbrev wide_pool : IpNet
wide_pool = record { ip = 168296448; ones = 16 }

pool-IsNet : IsNet pool
pool-IsNet = record { ip_lt = omega arith; ones_le = omega arith }

next_pool-IsNet : IsNet next_pool
next_pool-IsNet = record { ip_lt = omega arith; ones_le = omega arith }

wide_pool-IsNet : IsNet wide_pool
wide_pool-IsNet = record { ip_lt = omega arith; ones_le = omega arith }

abbrev taken : List Text
unfolding lit
taken = lit "10.8.0.1" ∷ []

first_free : next_free_host pool taken ≡ some (lit "10.8.0.2")
unfolding next_free_host scan_hosts host_allocatable net_contains broadcast_addr octets increment
    of_octets or_inverse next_ip ip_string to_dec digits lit text_beq
first_free = refl

next_free_host_found_example :
    (ip : ℕ) × (lit "10.8.0.2" ≡ ip_string ip)
    × (network pool ≤ ip)
    × (ip < network pool + block pool)
    × (host_allocatable ip pool ≡ true)
    × (elem (lit "10.8.0.2") taken ≡ false)
    × ((j : ℕ) → j < ip → host_allocatable j pool ≡ true → elem (ip_string j) taken ≡ true)
next_free_host_found_example =
    next_free_host_found pool taken {s = lit "10.8.0.2"} pool-IsNet first_free

-- 10.8.0.0/30 has two addresses to give out, and both are taken.
abbrev small : IpNet
small = record { ip = 168296448; ones = 30 }

abbrev both : List Text
both = ip_string 168296449 ∷ ip_string 168296450 ∷ []

small-IsNet : IsNet small
small-IsNet = record { ip_lt = omega arith; ones_le = omega arith }

small_full : next_free_host small both ≡ none
unfolding next_free_host scan_hosts host_allocatable net_contains broadcast_addr octets increment
    of_octets or_inverse next_ip ip_string to_dec digits text_beq
small_full = refl

last_allocatable : host_allocatable 168296450 small ≡ true
unfolding host_allocatable broadcast_addr octets of_octets or_inverse
last_allocatable = refl

next_free_host-none_example : elem (ip_string 168296450) both ≡ true
next_free_host-none_example =
    next_free_host-none small both small-IsNet small_full 168296450 last_allocatable

nets_overlap_iff_example :
    (nets_overlap pool wide_pool ≡ true)
    ↔ ∥ ((x : ℕ) × (net_contains pool x ≡ true) × (net_contains wide_pool x ≡ true)) ∥₁
nets_overlap_iff_example = nets_overlap_iff pool wide_pool pool-IsNet wide_pool-IsNet

read_old :
    parse_cidr (trim is_space (lit "10.8.0.1/24"))
    ≡ some (168296449, record { ip = mask_to 24 168296449; ones = 24 })
unfolding parse_cidr parse_ip parse_octets parse_octet parse_ones parse_uint scan cut split
    cons_head trim trim_left trim_right is_space lit
read_old = refl

widened_old : widen_cidr (lit "10.8.0.1/24") (pos 16) true ≡ ok (lit "10.8.0.1/16", true)
unfolding widen_cidr parse_cidr parse_ip parse_octets parse_octet parse_ones parse_uint scan cut
    split cons_head trim trim_left trim_right is_space lit ip_string to_dec digits
widened_old = refl

widen_cidr-contains_example :
    (ip' : ℕ) × (n' : IpNet) × (parse_cidr (lit "10.8.0.1/16") ≡ some (ip', n'))
    × (n'.ones ≡ 16)
    × (true ≡ true → ip' ≡ 168296449)
    × ((x : ℕ)
        → net_contains (record { ip = mask_to 24 168296449; ones = 24 }) x ≡ true
        → net_contains n' x ≡ true)
widen_cidr-contains_example =
    widen_cidr-contains (lit "10.8.0.1/24") (lit "10.8.0.1/16") 16 168296449 24 true (omega arith)
      (omega arith) read_old widened_old

abbrev lan : NetEntry
lan = record { dev = b'e' ∷ []; net = next_pool }

-- The entry lies outside the old pool, on another device, and inside the new pool.
lan_conflict : subnet_conflicts pool wide_pool [] (lan ∷ lan ∷ []) ≡ lit "10.8.1.0/24 dev e" ∷ []
unfolding subnet_conflicts conflicts_from collides conflict_text nets_overlap net_contains
    net_string ip_string to_dec digits lit text_beq
lan_conflict = refl

-- Its own device does not count.
own_device : subnet_conflicts pool wide_pool ((b'e' ∷ []) ∷ []) (lan ∷ []) ≡ []
unfolding subnet_conflicts conflicts_from collides conflict_text text_beq
own_device = refl

subnet_conflicts-listed_example :
    ((s : Text)
      → elem s (subnet_conflicts pool wide_pool [] (lan ∷ lan ∷ []))
        ≡ has_conflict pool wide_pool [] s (lan ∷ lan ∷ []))
    × AreDistinct (subnet_conflicts pool wide_pool [] (lan ∷ lan ∷ []))
subnet_conflicts-listed_example = subnet_conflicts-listed pool wide_pool [] (lan ∷ lan ∷ [])

subnet_conflicts-clean_example : All (Tolerates pool wide_pool ((b'e' ∷ []) ∷ [])) (lan ∷ [])
subnet_conflicts-clean_example =
    subnet_conflicts-clean pool wide_pool ((b'e' ∷ []) ∷ []) (lan ∷ []) wide_pool-IsNet
      (next_pool-IsNet, tt) own_device

-- 192.168.1.0/24 on another device
abbrev far : NetEntry
far = record { net = record { ip = 3232235776; ones = 24 }; dev = b'e' ∷ [] }

abbrev clean_plan : ExpandPlan
unfolding lit
clean_plan = record {
  wg_old_addr = lit "10.66.66.1/24";
  wg_new_addr = lit "10.66.66.1/16";
  ov_old_net = lit "10.8.0.0/24";
  ov_new_net = lit "10.8.0.0/16";
  wg_conflicts = [];
  ov_conflicts = [];
}

clean_planned :
    build_expand_plan []
      (some (172114433, record { ip = 172114432; ones = 24 }))
      (some (lit "10.8.0.0/24"))
      (pos 16)
      (far ∷ [])
    ≡ ok clean_plan
unfolding build_expand_plan wg_widening ov_widening widen_pool conflicts_of net_of wg_plan_conflicts
    ov_plan_conflicts first_overlap moved sort_texts pool_devs prefix_all network_of net_string
    subnet_conflicts conflicts_from next_ip octets increment of_octets widen_cidr parse_cidr
    parse_ip parse_octets parse_octet parse_ones parse_uint scan cut split cons_head trim trim_left
    trim_right is_space lit ip_string to_dec digits nets_overlap net_contains inside_pool collides
    conflict_text text_beq
clean_planned = refl

build_expand_plan-disjoint_example :
    (wg_old wg_new ov_old ov_new : IpNet) × (net_of clean_plan.wg_old_addr ≡ ok wg_old)
    × (net_of clean_plan.wg_new_addr ≡ ok wg_new)
    × (net_of clean_plan.ov_old_net ≡ ok ov_old)
    × (net_of clean_plan.ov_new_net ≡ ok ov_new)
    × (nets_overlap wg_new ov_new ≡ false)
    × (next_ip ov_old.ip ≡ next_ip ov_new.ip)
    × All (Tolerates wg_old wg_new (pool_devs wg_old (far ∷ []) ([] ∷ []))) (far ∷ [])
    × All (Tolerates ov_old ov_new (pool_devs ov_old (far ∷ []) [])) (far ∷ [])
unfolding clean_plan
build_expand_plan-disjoint_example =
    build_expand_plan-disjoint [] (some (172114433, record { ip = 172114432; ones = 24 }))
      (some (lit "10.8.0.0/24")) (pos 16) (far ∷ []) clean_plan clean_planned refl refl refl refl
      (record { ip_lt = omega arith; ones_le = omega arith }, tt)
