-- ===== src/Net.antt =====
-- IPv4 addresses and networks: package `net` as far as the source uses it, and the address
-- arithmetic of subnet.go and main.go. An address is its 32-bit number; a network keeps the address
-- that it was written with and the length of its prefix. A text with a colon is no
-- address here; Ipv6 only tells which texts are IPv6 networks.
pub mod Bytes
pub mod Hosts
pub mod Overlap
pub mod Print
pub mod Parsed
pub mod Ipv6
use Prim.Native.Nat.{bit_or}
use wg_manager.Base.{ℕ, zero, suc, ◌+◌, ◌-◌, ◌*◌, ◌/◌, ◌%◌, ◌^◌, Bool, true, false, not, ◌&&◌, ◌||◌}
use wg_manager.Base.{Option, none, some, List, [], ◌∷◌, ◌++◌, Text, text_eq, nat_eq, ◌==◌, is_empty}
use wg_manager.Base.{if◌then◌else◌, ltb, leb, elem, to_dec, split, cut, length, Scan, parse_uint}
use wg_manager.Base.{number, syntax_error, range_error}

pub record IpNet : Type 0 where
  pub ip : ℕ
  pub ones : ℕ

-- The number of addresses of the network.
abbrev pub block : IpNet → ℕ
block n = 2 ^ (32 - n.ones)

-- `ip.Mask(mask)`
abbrev pub mask_to : ℕ → ℕ → ℕ
mask_to ones ip = ip / 2 ^ (32 - ones) * 2 ^ (32 - ones)

-- `n.IP.Mask(n.Mask)`, which is what `ParseCIDR` stores as `n.IP`
abbrev pub network : IpNet → ℕ
network n = mask_to n.ones n.ip

-- `n.Contains(ip)`
unfoldable pub net_contains : IpNet → ℕ → Bool
net_contains n ip = n.ip / 2 ^ (32 - n.ones) == ip / 2 ^ (32 - n.ones)

-- The four bytes of an address, the last one first.
unfoldable pub octets : ℕ → List ℕ
octets ip = ip % 256 ∷ ip / 256 % 256 ∷ ip / 65536 % 256 ∷ ip / 16777216 % 256 ∷ []

unfoldable pub of_octets : List ℕ → ℕ
of_octets [] = 0
of_octets (b ∷ bs) = b + 256 * of_octets bs

-- The loop of `nextIP`, from the last byte: `out[i]++; if out[i] != 0 { break }`
unfoldable pub increment : List ℕ → List ℕ
increment [] = []
increment (b ∷ bs) =
    let carry = increment bs in let b' = (b + 1) % 256 in if b' == 0 then b' ∷ carry else b' ∷ bs

-- `nextIP`
unfoldable pub next_ip : ℕ → ℕ
unfolding octets of_octets increment
next_ip ip = of_octets (increment (octets ip))

-- `base[i] | ^mask[i]`, byte by byte
unfoldable pub or_inverse : List ℕ → List ℕ → List ℕ
or_inverse [] _ = []
or_inverse (b ∷ bs) [] = []
or_inverse (b ∷ bs) (m ∷ ms) = bit_or b (255 - m) ∷ or_inverse bs ms

-- `broadcastAddr`
unfoldable pub broadcast_addr : IpNet → ℕ
unfolding octets of_octets or_inverse
broadcast_addr n = of_octets (or_inverse (octets (network n)) (octets (2 ^ 32 - block n)))

-- `hostAllocatable`
unfoldable pub host_allocatable : ℕ → IpNet → Bool
unfolding net_contains broadcast_addr
host_allocatable ip n =
    if not (net_contains n ip)
    then false
    else if ip % 256 == 0 || ip % 256 == 255
    then false
    else not (ip == network n) && not (ip == broadcast_addr n)

-- `ip.String()`
unfoldable pub ip_string : ℕ → Text
ip_string ip =
    to_dec (ip / 16777216 % 256)
    ++ (b'.'
        ∷ (to_dec (ip / 65536 % 256)
            ++ (b'.' ∷ (to_dec (ip / 256 % 256) ++ (b'.' ∷ to_dec (ip % 256))))))

-- The loop of `nextFreeHost`, for as many addresses as are left.
unfoldable pub scan_hosts : IpNet → List Text → ℕ → ℕ → Option ℕ
scan_hosts n used zero ip = none
scan_hosts n used (suc left) ip =
    let rest = scan_hosts n used left (next_ip ip) in
    if host_allocatable ip n && not (elem (ip_string ip) used) then some ip else rest

-- `nextFreeHost`
unfoldable pub next_free_host : IpNet → List Text → Option Text
unfolding scan_hosts
next_free_host n used = elim (scan_hosts n used (block n) (network n)) [
  | none ↦ none
  | some ip ↦ some (ip_string ip)
]

-- One decimal field of a dotted address: at most 255, with no zero in front.
unfoldable pub parse_octet : Text → Option ℕ
unfolding parse_uint
parse_octet [] = none
parse_octet (c ∷ s) = if c == b'0' && not (is_empty s) then none else elim (parse_uint (c ∷ s)) [
  | number v ↦ (if leb v 255 then some v else none)
  | syntax_error ↦ none
  | range_error ↦ none
]

infixl 5 ◌>>=◌
abbrev pub ◌>>=◌ {ℓ κ} : {A : Type ℓ} {B : Type κ} → Option A → (A → Option B) → Option B
none >>= f = none
some a >>= f = f a

unfoldable pub parse_octets : List Text → Option ℕ
unfolding parse_octet
parse_octets (a ∷ b ∷ c ∷ d ∷ []) = do
  w ← parse_octet a
  x ← parse_octet b
  y ← parse_octet c
  z ← parse_octet d
  some (w * 16777216 + x * 65536 + y * 256 + z)
parse_octets _ = none

-- `net.ParseIP(s)`, for IPv4
unfoldable pub parse_ip : Text → Option ℕ
unfolding parse_octets
parse_ip s = parse_octets (split b'.' s)

-- The prefix length of `net.ParseCIDR`
unfoldable pub parse_ones : Text → Option ℕ
unfolding parse_uint
parse_ones s = elim (parse_uint s) [
  | number v ↦ (if leb v 32 then some v else none)
  | syntax_error ↦ none
  | range_error ↦ none
]

-- `net.ParseCIDR(s)`: the address as written, and the network
unfoldable pub parse_cidr : Text → Option (ℕ × IpNet)
unfolding parse_ip parse_ones
parse_cidr s = do
  (addr, len) ← cut b'/' s
  ip ← parse_ip addr
  ones ← parse_ones len
  some (ip, record { ip = mask_to ones ip; ones = ones })

-- `n.String()`
unfoldable pub net_string : IpNet → Text
unfolding ip_string
net_string n = ip_string n.ip ++ (b'/' ∷ to_dec n.ones)
