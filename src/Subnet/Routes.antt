-- ===== src/Subnet/Routes.antt =====
-- `parseIPRoutes` (subnet.go): the networks that the host has routes or addresses in.
use wg_manager.Base.{none, some, List, [], ◌∷◌, ◌++◌}
use wg_manager.Base.{Text, lit, text_eq, ◌==◌, if◌then◌else◌, split, fields, elem, contains}
use wg_manager.Net.{IpNet, parse_cidr}

-- `netEntry`
pub record NetEntry : Type 0 where
  pub dev : Text
  pub net : IpNet

-- The route types that may stand before the destination.
unfoldable pub route_types : List Text
unfolding lit
route_types =
    lit "blackhole"
    ∷ lit "unreachable"
    ∷ lit "prohibit"
    ∷ lit "throw"
    ∷ lit "local"
    ∷ lit "broadcast"
    ∷ lit "anycast"
    ∷ lit "multicast"
    ∷ []

-- The `switch` on `f[0]`
unfoldable pub drop_type : List Text → List Text
drop_type [] = []
drop_type (a ∷ []) = a ∷ []
drop_type (a ∷ b ∷ f) = if elem a route_types then b ∷ f else a ∷ b ∷ f

-- The loop that looks for `dev`; the last one counts.
unfoldable pub route_dev : List Text → Text → Text
route_dev [] dev = dev
route_dev (a ∷ []) dev = dev
route_dev (a ∷ b ∷ f) dev = route_dev (b ∷ f) (if a == lit "dev" then b else dev)

unfoldable pub route_form : List Text → Text × Text
unfolding route_dev
route_form [] = ([], [])
route_form (a ∷ f) = (a, route_dev (a ∷ f) [])

-- The address and the device of a line, in the form of `ip addr` or of `ip route`.
unfoldable pub entry_parts : List Text → Text × Text
unfolding route_form
entry_parts (a ∷ b ∷ c ∷ d ∷ f) = if c == lit "inet" then (d, b) else route_form (a ∷ b ∷ c ∷ d ∷ f)
entry_parts f = route_form f

unfoldable pub with_length : Text → Text
with_length cidr = if contains cidr (lit "/") then cidr else cidr ++ lit "/32"

unfoldable pub entry_of : Text × Text → List NetEntry
unfolding with_length
entry_of (cidr, dev) = elim (parse_cidr (with_length cidr)) [
  | none ↦ []
  | some (ip, n) ↦ record { dev = dev; net = n } ∷ []
]

unfoldable pub entry_fields : List Text → List NetEntry
unfolding entry_of entry_parts
entry_fields [] = []
entry_fields (a ∷ f) = if a == lit "default" then [] else entry_of (entry_parts (a ∷ f))

-- One turn of the loop.
unfoldable pub entry_line : Text → List NetEntry
unfolding entry_fields drop_type
entry_line line = entry_fields (drop_type (fields line))

unfoldable pub entry_lines : List Text → List NetEntry
entry_lines [] = []
entry_lines (l ∷ ls) = entry_line l ++ entry_lines ls

unfoldable pub parse_ip_routes : Text → List NetEntry
unfolding entry_lines
parse_ip_routes out = entry_lines (split b'\n' out)
