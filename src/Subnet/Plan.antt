-- ===== src/Subnet/Plan.antt =====
-- `buildExpandPlan` (subnet.go): which pools are widened, and what stands in the way.
pub mod Clean
use wg_manager.Base.{
  ℕ, ℤ, Bool, true, false, not, ◌&&◌, ◌||◌, Option, none, some, List, [], ◌∷◌, ◌++◌,
}
use wg_manager.Base.{
  Text, lit, text_eq, ◌==◌, if◌then◌else◌, elem, keep, map, is_empty, leb, ltb, nat_eq,
}
use wg_manager.Base.{to_dec, pos_part}
use wg_manager.Net.{IpNet, net_contains, net_string, parse_cidr, next_ip, ip_string}
use wg_manager.Net.Overlap.{nets_overlap}
use wg_manager.Recharge.{Result, ok, err, ◌>>=◌}
use wg_manager.Subnet.{widen_cidr, network_of, prefix_all}
use wg_manager.Subnet.Routes.{NetEntry}
use wg_manager.Subnet.Conflicts.{pool_devs, subnet_conflicts}

-- `expandPlan`; an empty text is nothing to do
pub record ExpandPlan : Type 0 where
  pub wg_old_addr : Text
  pub wg_new_addr : Text
  pub ov_old_net : Text
  pub ov_new_net : Text
  pub wg_conflicts : List Text
  pub ov_conflicts : List Text

-- `p.empty()`
unfoldable pub plan_is_empty : ExpandPlan → Bool
plan_is_empty p = is_empty p.wg_new_addr && is_empty p.ov_new_net

-- `sort.Strings`
unfoldable pub text_leb : Text → Text → Bool
text_leb [] b = true
text_leb (x ∷ a) [] = false
text_leb (x ∷ a) (y ∷ b) = ltb x y || x == y && text_leb a b

unfoldable pub insert_sorted : Text → List Text → List Text
unfolding text_leb
insert_sorted a [] = a ∷ []
insert_sorted a (b ∷ bs) =
    let rest = insert_sorted a bs in if text_leb a b then a ∷ b ∷ bs else b ∷ rest

unfoldable pub sort_texts : List Text → List Text
unfolding insert_sorted
sort_texts [] = []
sort_texts (a ∷ rest) = insert_sorted a (sort_texts rest)

-- The loop over the networks of the other protocol, left at the first overlap.
unfoldable pub first_overlap : Text → Text → IpNet → List Text → List Text
unfolding nets_overlap
first_overlap own other n [] = []
first_overlap own other n (o ∷ os) =
    let rest = first_overlap own other n os in
    elim (parse_cidr o) [
      | none ↦ rest
      | some (ip, m) ↦
          if nets_overlap n m
          then (own
              ++ lit " "
              ++ net_string n
              ++ lit " overlaps "
              ++ other
              ++ lit " "
              ++ net_string m)
            ∷ []
          else rest
    ]

-- `ParseCIDR` with its error ignored: a network that is missing is a nil pointer.
unfoldable pub net_of : Text → Result IpNet
net_of s = elim (parse_cidr s) [ none ↦ err (lit "nil pointer") | some (ip, n) ↦ ok n ]

-- One protocol's part of the plan: the old text and the new one, if it changes.
unfoldable pub widen_pool : Text → Text → Text → ℤ → Bool → Result (Text × Text)
unfolding widen_cidr
widen_pool who cidr shown prefix keep_host = elim (widen_cidr cidr prefix keep_host) [
  | err e ↦ err (who ++ lit ": " ++ e)
  | ok (w, changed) ↦ (if changed then ok (shown, w) else ok ([], []))
]

-- The part of WireGuard: the current network, the old address and the new one. The argument is the
-- server's address and the network that `interfaceHead` reads, if there is a file.
unfoldable pub wg_widening : Option (ℕ × IpNet) → ℤ → Result (Text × Text × Text)
unfolding widen_pool
wg_widening none prefix = ok ([], [], [])
wg_widening (some (srv, n)) prefix =
    let old = ip_string srv ++ (b'/' ∷ to_dec n.ones) in
    elim (widen_pool (lit "wireguard") old old prefix true) [
      | err e ↦ err e
      | ok (o, w) ↦ ok (net_string n, o, w)
    ]

-- The part of OpenVPN, whose subnet is given if it is configured.
unfoldable pub ov_widening : Option Text → ℤ → Result (Text × Text × Text)
unfolding widen_pool network_of
ov_widening none prefix = ok ([], [], [])
ov_widening (some subnet) prefix =
    elim (widen_pool (lit "openvpn") subnet (network_of subnet) prefix false) [
      | err e ↦ err e
      | ok (o, w) ↦ ok (network_of subnet, o, w)
    ]

unfoldable pub wg_plan_conflicts : Text → List NetEntry → List Text → IpNet → IpNet → List Text
unfolding pool_devs subnet_conflicts prefix_all first_overlap
wg_plan_conflicts interface entries others old new =
    prefix_all (lit "wireguard " ++ net_string new ++ lit " overlaps ")
      (subnet_conflicts old new (pool_devs old entries (interface ∷ [])) entries)
    ++ first_overlap (lit "wireguard") (lit "openvpn") new others

-- The server stands on the address behind the network's; `moved` says that it would not stay.
unfoldable pub moved : ℤ → IpNet → IpNet → List Text
unfolding next_ip
moved prefix old new =
    if next_ip old.ip == next_ip new.ip
    then []
    else (lit "openvpn server IP would move "
        ++ ip_string (next_ip old.ip)
        ++ lit " -> "
        ++ ip_string (next_ip new.ip)
        ++ lit " ("
        ++ net_string old
        ++ lit " is not aligned to /"
        ++ to_dec (pos_part prefix)
        ++ lit ")")
      ∷ []

unfoldable pub ov_plan_conflicts : ℤ → List NetEntry → List Text → IpNet → IpNet → List Text
unfolding moved pool_devs subnet_conflicts prefix_all first_overlap
ov_plan_conflicts prefix entries others old new =
    moved prefix old new
    ++ (prefix_all (lit "openvpn " ++ net_string new ++ lit " overlaps ")
          (subnet_conflicts old new (pool_devs old entries []) entries)
        ++ first_overlap (lit "openvpn") (lit "wireguard") new others)

-- The conflicts of a protocol, which has none if its pool stays as it is.
unfoldable pub conflicts_of : (IpNet → IpNet → List Text) → Text → Text → Result (List Text)
unfolding net_of
conflicts_of f old new =
    if is_empty new then ok [] else net_of old >>= λ o. net_of new >>= λ n. ok (sort_texts (f o n))

-- `buildExpandPlan`
unfoldable pub build_expand_plan :
    Text → Option (ℕ × IpNet) → Option Text → ℤ → List NetEntry → Result ExpandPlan
unfolding wg_widening ov_widening wg_plan_conflicts ov_plan_conflicts conflicts_of
build_expand_plan interface wg ov prefix entries = do
  (wg_cur, wg_old, wg_new) ← wg_widening wg prefix
  (ov_cur, ov_old, ov_new) ← ov_widening ov prefix
  wgs ← conflicts_of (wg_plan_conflicts interface entries (ov_cur ∷ ov_new ∷ [])) wg_old wg_new
  ovs ←
      conflicts_of (ov_plan_conflicts prefix entries (wg_cur ∷ network_of wg_new ∷ [])) ov_old
        ov_new
  ok record {
    wg_old_addr = wg_old;
    wg_new_addr = wg_new;
    ov_old_net = ov_old;
    ov_new_net = ov_new;
    wg_conflicts = wgs;
    ov_conflicts = ovs;
  }
