-- ===== src/Net/Parsed.antt =====
-- A network that is read from a text (`net.ParseCIDR`) is one of IPv4.
use wg_manager.Base.{
  ℕ, ◌+◌, ◌*◌, ◌^◌, ◌/◌, ◌-◌, ◌≤◌, ◌<◌, some, List, [], ◌∷◌, ◌≡◌, arith, Text, inl, inr, subst,
  some_inj, cut,
}
use wg_manager.Base.{Option-cases, ap, split}
use wg_manager.Net.{IpNet, parse_octet, parse_octets, parse_ip, parse_ones, parse_cidr, mask_to}
use wg_manager.Net.Hosts.{IsNet}

octet_le : (s : Text) (v : ℕ) → parse_octet s ≡ some v → v ≤ 255
unfolding parse_octet
octet_le [] v h = cc
octet_le (c ∷ s) v h = ground (arith, h)

ones_le : (s : Text) (v : ℕ) → parse_ones s ≡ some v → v ≤ 32
unfolding parse_ones
ones_le s v h = ground (arith, h)

parse_octets_lt : (ss : List Text) (v : ℕ) → parse_octets ss ≡ some v → v < 2 ^ 32
unfolding parse_octets
parse_octets_lt [] v h = cc
parse_octets_lt (a ∷ []) v h = cc
parse_octets_lt (a ∷ b ∷ []) v h = cc
parse_octets_lt (a ∷ b ∷ c ∷ []) v h = cc
parse_octets_lt (a ∷ b ∷ c ∷ d ∷ e ∷ ss) v h = cc
parse_octets_lt (a ∷ b ∷ c ∷ d ∷ []) v h = elim (Option-cases (parse_octet a)) [
  | inl p ↦ cc (rw p at h)
  | inr (w, p) ↦ elim (Option-cases (parse_octet b)) [
    | inl q ↦ cc (rw (p, q) at h)
    | inr (x, q) ↦ elim (Option-cases (parse_octet c)) [
      | inl r ↦ cc (rw (p, q, r) at h)
      | inr (y, r) ↦ elim (Option-cases (parse_octet d)) [
        | inl s ↦ cc (rw (p, q, r, s) at h)
        | inr (z, s) ↦
            let k : w * 16777216 + x * 65536 + y * 256 + z ≡ v = some_inj (rw (p, q, r, s) at h) in
            omega (arith, k, octet_le a w p, octet_le b x q, octet_le c y r, octet_le d z s)
      ]
    ]
  ]
]

mask_to_le : (ones ip : ℕ) → mask_to ones ip ≤ ip
mask_to_le ones ip = at (2 ^ (32 - ones))
  where
    at : (P : ℕ) → ip / P * P ≤ ip
    at P = omega arith

pub parse_cidr-IsNet : (s : Text) (ip : ℕ) (n : IpNet) → parse_cidr s ≡ some (ip, n) → IsNet n
unfolding parse_cidr parse_ip
parse_cidr-IsNet s ip n h = elim (Option-cases (cut b'/' s)) [
  | inl p ↦ cc (rw p at h)
  | inr ((addr, len), p) ↦ elim (Option-cases (parse_octets (split b'.' addr))) [
    | inl q ↦ cc (rw (p, q) at h)
    | inr (a, q) ↦ elim (Option-cases (parse_ones len)) [
      | inl r ↦ cc (rw (p, q, r) at h)
      | inr (ones, r) ↦
          subst IsNet (ap (λ (x : ℕ × IpNet). x.1) (some_inj (rw (p, q, r) at h))) (record {
            ip_lt = omega (arith, mask_to_le ones a, parse_octets_lt (split b'.' addr) a q);
            ones_le = ones_le len ones r;
          })
    ]
  ]
]
