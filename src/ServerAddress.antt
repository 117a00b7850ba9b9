-- ===== src/ServerAddress.antt =====
-- The public address of the server: `serverPublicIP` (serverip.go).
pub mod Public
use wg_manager.Base.{
  ℕ, ◌/◌, Bool, true, false, not, ◌||◌, Option, none, some, List, [], ◌∷◌, Text, lit,
}
use wg_manager.Base.{nat_eq, ◌==◌, if◌then◌else◌, is_empty, trim, is_space, has_prefix, cut, split}
use wg_manager.Net.{parse_ip, ip_string}
use wg_manager.Settings.{Config}

-- `ip.IsLoopback()`, `ip.IsLinkLocalUnicast()` and `ip.IsPrivate()`, for IPv4
unfoldable pub is_loopback : ℕ → Bool
is_loopback ip = ip / 16777216 == 127

unfoldable pub is_link_local : ℕ → Bool
is_link_local ip = ip / 65536 == 43518

unfoldable pub is_private : ℕ → Bool
is_private ip = ip / 16777216 == 10 || ip / 1048576 == 2753 || ip / 65536 == 49320

-- The value of a line of the file of parameters, the empty text if the line sets none.
unfoldable pub address_value : Text → Text
address_value line =
    if has_prefix line (lit "SERVER_PUB_IP")
    then elim (cut b'=' line) [ none ↦ [] | some (k, v) ↦ trim is_space v ]
    else []

-- The loop over the lines, left at the first value.
unfoldable pub first_value : List Text → Text
unfolding address_value
first_value [] = []
first_value (l ∷ ls) =
    let rest = first_value ls in
    let v = address_value (trim is_space l) in if is_empty v then rest else v

-- The value that the file of parameters gives, the empty text for none.
unfoldable pub from_params : Option Text → Config → Text
unfolding first_value
from_params file cfg =
    if is_empty cfg.params
    then []
    else elim file [ none ↦ [] | some text ↦ first_value (split b'\n' text) ]

-- The loop over the addresses of the interfaces; `none` is one that is not IPv4.
unfoldable pub first_public : List (Option ℕ) → Text
unfolding is_loopback is_link_local is_private
first_public [] = []
first_public (none ∷ more) = first_public more
first_public (some ip ∷ more) =
    let rest = first_public more in
    if is_loopback ip || is_link_local ip
    then rest
    else if is_private ip
    then rest
    else ip_string ip

-- `serverPublicIP`. `file` is the text of `cfg.Params`, if it can be read; `other_ip` tells whether
-- `net.ParseIP` reads a text that is no dotted IPv4 address; `addrs` are the addresses of the
-- interfaces, if they can be listed.
unfoldable pub server_public_ip :
    (Text → Bool) → Option Text → Option (List (Option ℕ)) → Config → Text
unfolding from_params first_public
server_public_ip other_ip file addrs cfg =
    let is_ip : Bool = elim (parse_ip cfg.ovpn_endpoint) [
      | none ↦ other_ip cfg.ovpn_endpoint
      | some ip ↦ true
    ] in
    if not (is_empty (from_params file cfg))
    then from_params file cfg
    else if is_ip
    then cfg.ovpn_endpoint
    else elim addrs [ none ↦ [] | some found ↦ first_public found ]
