-- ===== src/Subnet/Widen.antt =====
-- A widened pool holds the old one, and the server and all users keep their addresses.
use wg_manager.Base.{ℕ, ◌-◌, ◌/◌, ◌^◌, ◌≤◌, ◌<◌, ◌≡◌, refl, arith, Bool, true, false}
use wg_manager.Base.{some, Text, pos, trim, is_space, ap, ◌∙◌, sym}
use wg_manager.Base.{nat_eq, to_dec, ◌++◌, ◌∷◌, if◌then◌else◌}
use wg_manager.Net.{IpNet, parse_cidr, net_contains, mask_to, ip_string}
use wg_manager.Net.Hosts.{pow_pos}
use wg_manager.Net.Print.{parse_cidr-ip_string}
use wg_manager.Net.Overlap.{contains_wider, net_contains_eq}
use wg_manager.Recharge.{ok}
use wg_manager.Subnet.{widen_cidr}

-- The new text is the address of the interface, or the network, with the new prefix.
pub widened :
    (cidr w : Text) (prefix ip : ℕ) (n : IpNet) (keep_host : Bool)
    → parse_cidr (trim is_space cidr) ≡ some (ip, n)
    → widen_cidr cidr (pos prefix) keep_host ≡ ok (w, true)
    → (16 ≤ prefix)
      × (prefix ≤ 30)
      × (prefix < n.ones)
      × (w ≡ ip_string (if keep_host then ip else mask_to prefix ip) ++ (b'/' ∷ to_dec prefix))
unfolding widen_cidr
widened cidr w prefix ip n true e h = ground arith
widened cidr w prefix ip n false e h = ground arith

mask_to-div : (k ip : ℕ) → mask_to k ip / 2 ^ (32 - k) ≡ ip / 2 ^ (32 - k)
mask_to-div k ip = grind (arith, pow_pos (32 - k))

mask_to-le : (k ip : ℕ) → mask_to k ip ≤ ip
mask_to-le k ip = omega arith

-- Whatever the form, the new text names a network that holds every address of the old one.
pub widen_cidr-contains :
    (cidr w : Text) (prefix ip ones : ℕ) (keep_host : Bool)
    → ip < 2 ^ 32
    → ones ≤ 32
    → parse_cidr (trim is_space cidr) ≡ some (ip, record { ip = mask_to ones ip; ones = ones })
    → widen_cidr cidr (pos prefix) keep_host ≡ ok (w, true)
    → (ip' : ℕ) × (n' : IpNet) × (parse_cidr w ≡ some (ip', n'))
      × (n'.ones ≡ prefix)
      × (keep_host ≡ true → ip' ≡ ip)
      × ((x : ℕ)
          → net_contains (record { ip = mask_to ones ip; ones = ones }) x ≡ true
          → net_contains n' x ≡ true)
widen_cidr-contains cidr w prefix ip ones keep_host lt le e h =
    let (lo, hi, narrower, form) = widened cidr w prefix ip _ keep_host e h in
    let addr = if keep_host then ip else mask_to prefix ip in
    (
      addr,
      record { ip = mask_to prefix addr; ones = prefix },
      ap parse_cidr form ∙ parse_cidr-ip_string addr prefix (small keep_host) (omega arith),
      refl,
      (λ q. rw q),
      λ x c.
          let k = (net_contains_eq (record { ip = mask_to ones ip; ones = ones }) x).0 c in
          (net_contains_eq (record { ip = mask_to prefix addr; ones = prefix }) x).1 (
            mask_to-div prefix addr
            ∙ same_block keep_host
            ∙ contains_wider prefix ones ip x (omega arith) le (sym (mask_to-div ones ip) ∙ k)),
    )
  where
    small : (b : Bool) → (if b then ip else mask_to prefix ip) < 2 ^ 32
    small true = lt
    small false = omega (arith, mask_to-le prefix ip)

    same_block :
        (b : Bool)
        → (if b then ip else mask_to prefix ip) / 2 ^ (32 - prefix) ≡ ip / 2 ^ (32 - prefix)
    same_block true = refl
    same_block false = mask_to-div prefix ip
