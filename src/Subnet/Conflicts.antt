-- ===== src/Subnet/Conflicts.antt =====
-- `poolDevs`, `subnetConflicts` and `buildExpandPlan` (subnet.go): what a wider pool would
-- collide with.
pub mod Listed
use wg_manager.Base.{
  ℕ, ℤ, Bool, true, false, not, ◌&&◌, ◌||◌, Option, none, some, List, [], ◌∷◌, ◌++◌,
}
use wg_manager.Base.{
  Text, lit, text_eq, ◌==◌, if◌then◌else◌, elem, keep, map, is_empty, leb, ltb, nat_eq,
}
use wg_manager.Base.{to_dec, pos_part}
use wg_manager.Net.{IpNet, net_contains, net_string, parse_cidr, next_ip, ip_string}
use wg_manager.Net.Overlap.{nets_overlap}
use wg_manager.Recharge.{Result, ok, err, ◌>>=◌}
use wg_manager.Subnet.{widen_cidr, network_of, prefix_all}
use wg_manager.Subnet.Routes.{NetEntry}

-- The entry lies inside the pool, and is not wider.
unfoldable pub inside_pool : IpNet → NetEntry → Bool
unfolding net_contains
inside_pool pool e = not (is_empty e.dev) && leb pool.ones e.net.ones && net_contains pool e.net.ip

-- `poolDevs`: the devices that are the pool's own
unfoldable pub pool_devs : IpNet → List NetEntry → List Text → List Text
unfolding inside_pool
pool_devs pool entries extra =
    keep (λ d. not (is_empty d)) extra ++ map (λ e. e.dev) (keep (inside_pool pool) entries)

-- The entry is one that the wider pool would newly collide with.
unfoldable pub collides : IpNet → IpNet → List Text → NetEntry → Bool
unfolding nets_overlap
collides old new own e =
    not (elem e.dev own || nets_overlap old e.net || not (nets_overlap new e.net))

unfoldable pub conflict_text : NetEntry → Text
conflict_text e = net_string e.net ++ lit " dev " ++ e.dev

-- The loop of `subnetConflicts`; `seen` holds the texts listed so far.
unfoldable pub conflicts_from : IpNet → IpNet → List Text → List Text → List NetEntry → List Text
unfolding collides conflict_text
conflicts_from old new own seen [] = []
conflicts_from old new own seen (e ∷ es) =
    let s = conflict_text e in
    let rest = conflicts_from old new own seen es in
    let more = conflicts_from old new own (s ∷ seen) es in
    if not (collides old new own e) then rest else if elem s seen then rest else s ∷ more

-- `subnetConflicts`
unfoldable pub subnet_conflicts : IpNet → IpNet → List Text → List NetEntry → List Text
unfolding conflicts_from
subnet_conflicts old new own entries = conflicts_from old new own [] entries
