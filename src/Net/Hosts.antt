-- ===== src/Net/Hosts.antt =====
-- `nextFreeHost` finds the lowest free address of the network, and finds one if there is any.
use wg_manager.Base.{ℕ, zero, suc, ◌+◌, ◌-◌, ◌*◌, ◌/◌, ◌^◌, ◌≤◌, ◌<◌, ◌≡◌, refl, arith, Bool, true}
use wg_manager.Base.{false, not, ◌&&◌, none, some, List, Text, text_eq, nat_eq}
use wg_manager.Base.{
  elem, ap, ◌∙◌, sym, subst, nat_beq_iff, ◌↔◌, Bool-cases, Option-cases, inl, inr, some_inj,
}
use native.Mathlib.Decide.{dec_lt}
use native.Mathlib.Nat.{pow-suc, mul-le-mul_right}
use native.Mathlib.Numerals.{unary_clauses}
use wg_manager.Net.{IpNet, block, network, net_contains, next_ip, host_allocatable, ip_string}
use wg_manager.Net.{scan_hosts, next_free_host}
use wg_manager.Net.Bytes.{next_ip_lem}

-- A network as `ParseCIDR` gives it.
pub record IsNet (n : IpNet) : Type 0 where
  pub ip_lt : n.ip < 2 ^ 32
  pub ones_le : n.ones ≤ 32

pub pow_pos : (k : ℕ) → 0 < 2 ^ k
pow_pos zero = omega arith
pow_pos (suc k) = rw pow-suc (omega (arith, pow_pos k))

pub pow_split : (a b : ℕ) → 2 ^ a * 2 ^ b ≡ 2 ^ (a + b)
pow_split a zero = simp unary_clauses (omega arith)
pow_split a (suc b) = simp unary_clauses (omega (arith, pow_split a b))

-- A block of `P` numbers that starts at a multiple of `P` below `Q * P` ends there at the latest.
pub block_fits : (P Q q : ℕ) → q * P < Q * P → q * P + P ≤ Q * P
block_fits P Q q h = elim (dec_lt q Q) [
  | yes p ↦ omega (arith, mul-le-mul_right P p)
  | no p ↦ absurd (omega (arith, mul-le-mul_right P (le_of_not p)))
]
  where
    le_of_not : ¬ (q < Q) → Q ≤ q
    le_of_not p = omega arith

div-mul-le : (a P : ℕ) → a / P * P ≤ a
div-mul-le a P = omega arith

pub network-block-le : (n : IpNet) → IsNet n → network n + block n ≤ 2 ^ 32
network-block-le n v =
    let P = 2 ^ (32 - n.ones) in
    let e : 2 ^ n.ones * 2 ^ (32 - n.ones) ≡ 2 ^ 32 =
      pow_split n.ones (32 - n.ones) ∙ ap (λ (k : ℕ). 2 ^ k) {y = 32} (omega (arith, v.ones_le)) in
    rw (← e)
      (block_fits P (2 ^ n.ones) (n.ip / P) (rw e (omega (arith, v.ip_lt, div-mul-le n.ip P))))

same_block : (P a b : ℕ) → 0 < P → a / P ≡ b / P → (a / P * P ≤ b) × (b < a / P * P + P)
same_block P a b h e = grind arith

in_block : (P a b : ℕ) → 0 < P → a / P * P ≤ b → b < a / P * P + P → a / P ≡ b / P
in_block P a b h l u = grind arith

-- An address belongs to the network exactly if it is one of the block that starts at its own
-- address.
pub net_contains_iff :
    (n : IpNet) (ip : ℕ)
    → (net_contains n ip ≡ true) ↔ ((network n ≤ ip) × (ip < network n + block n))
unfolding net_contains
net_contains_iff n ip =
    let P = 2 ^ (32 - n.ones) in
    let pos = pow_pos (32 - n.ones) in
    (
      (λ h. same_block P n.ip ip pos ((nat_beq_iff _ _).0 h)),
      (λ h. (nat_beq_iff _ _).1 (in_block P n.ip ip pos h.0 h.1)),
    )

-- The address may be given to a user and is not in use.
abbrev pub is_free : IpNet → List Text → ℕ → Bool
is_free n used ip = host_allocatable ip n && not (elem (ip_string ip) used)

busy_used : (a e : Bool) → a ≡ true → (a && not e) ≡ false → e ≡ true
busy_used a e h k = ground arith

free_parts : (a e : Bool) → (a && not e) ≡ true → (a ≡ true) × (e ≡ false)
free_parts a e h = ground arith

module _ (n : IpNet) (used : List Text) where
  -- In the range of the loop `nextIP` is the successor.
  scan_hosts-next_ip :
      (left ip : ℕ)
      → ip + suc left ≤ 2 ^ 32
      → scan_hosts n used left (next_ip ip) ≡ scan_hosts n used left (ip + 1)
  unfolding scan_hosts
  scan_hosts-next_ip zero ip h = refl
  scan_hosts-next_ip (suc left) ip h =
      let e : next_ip ip ≡ ip + 1 = omega (arith, next_ip_lem ip (omega arith)) in
      ap (scan_hosts n used (suc left)) e

  -- A result is the first free address in the range.
  abbrev IsFirst : ℕ → ℕ → ℕ → Type 0
  IsFirst ip left r =
      (ip ≤ r)
      × (r < ip + left)
      × (is_free n used r ≡ true)
      × ((j : ℕ) → ip ≤ j → j < r → is_free n used j ≡ false)

  IsFirst-here : (ip left r : ℕ) → ip ≡ r → is_free n used ip ≡ true → IsFirst ip (suc left) r
  IsFirst-here ip left r q free = (
    omega arith,
    omega arith,
    subst (λ (x : ℕ). is_free n used x ≡ true) q free,
    λ j a b. absurd (omega arith),
  )

  IsFirst-later :
      (ip left r : ℕ)
      → is_free n used ip ≡ false
      → IsFirst (ip + 1) left r
      → IsFirst ip (suc left) r
  IsFirst-later ip left r busy (l, u, f, b) = (
    omega arith,
    omega arith,
    f,
    λ j a c. elim (dec_lt ip j) [
      | yes p ↦ b j (omega arith) c
      | no p ↦ subst (λ (x : ℕ). is_free n used x ≡ false) (omega arith) busy
    ],
  )

  scan_hosts_found :
      (left ip : ℕ) {r : ℕ}
      → ip + left ≤ 2 ^ 32
      → scan_hosts n used left ip ≡ some r
      → IsFirst ip left r
  unfolding scan_hosts
  scan_hosts_found zero ip h e = cc
  scan_hosts_found (suc left) ip {r} h e = elim (Bool-cases (is_free n used ip)) [
    | inl free ↦ IsFirst-here ip left r (some_inj (rw (scan_hosts, free) at e)) free
    | inr busy ↦ IsFirst-later ip left r busy (
        scan_hosts_found left (ip + 1) {r = r} (omega arith)
          (sym (scan_hosts-next_ip left ip h) ∙ (rw (scan_hosts, busy) at e)))
  ]

  scan_hosts-none :
      (left ip j : ℕ)
      → ip + left ≤ 2 ^ 32
      → scan_hosts n used left ip ≡ none
      → ip ≤ j
      → j < ip + left
      → is_free n used j ≡ false
  unfolding scan_hosts
  scan_hosts-none zero ip j h e l u = absurd (omega arith)
  scan_hosts-none (suc left) ip j h e l u = elim (Bool-cases (is_free n used ip)) [
    | inl free ↦ cc (rw (scan_hosts, free) at e)
    | inr busy ↦ elim (dec_lt ip j) [
      | yes p ↦
          scan_hosts-none left (ip + 1) j (omega arith)
            (sym (scan_hosts-next_ip left ip h) ∙ (rw (scan_hosts, busy) at e)) (omega arith)
            (omega arith)
      | no p ↦ subst (λ (x : ℕ). is_free n used x ≡ false) (omega arith) busy
    ]
  ]

  allocatable_inside : (ip : ℕ) → host_allocatable ip n ≡ true → net_contains n ip ≡ true
  unfolding host_allocatable
  allocatable_inside ip h = ground arith

  -- The address found lies in the network, may be given out, is not in use, and is the lowest such
  -- address of the network.
  pub next_free_host_found :
      {s : Text}
      → IsNet n
      → next_free_host n used ≡ some s
      → (ip : ℕ) × (s ≡ ip_string ip)
        × (network n ≤ ip)
        × (ip < network n + block n)
        × (host_allocatable ip n ≡ true)
        × (elem s used ≡ false)
        × ((j : ℕ) → j < ip → host_allocatable j n ≡ true → elem (ip_string j) used ≡ true)
  unfolding next_free_host
  next_free_host_found {s} v e = elim (Option-cases (scan_hosts n used (block n) (network n))) [
    | inl q ↦ cc (rw (next_free_host, q) at e)
    | inr (ip, q) ↦
        let (l, u, f, b) =
          scan_hosts_found (block n) (network n) {r = ip} (network-block-le n v) q in
        let k : ip_string ip ≡ s = some_inj (rw (next_free_host, q) at e) in
        let (a, unused) = free_parts (host_allocatable ip n) (elem (ip_string ip) used) f in
        (
          ip,
          sym k,
          l,
          u,
          a,
          subst (λ (x : Text). elem x used ≡ false) k unused,
          λ j c a'.
              let (l', _) = (net_contains_iff n j).0 (allocatable_inside j a') in
              busy_used (host_allocatable j n) (elem (ip_string j) used) a' (b j l' c),
        )
  ]

  -- If none is found, every address of the network that may be given out is in use.
  pub next_free_host-none :
      IsNet n
      → next_free_host n used ≡ none
      → (j : ℕ) → host_allocatable j n ≡ true
      → elem (ip_string j) used ≡ true
  unfolding next_free_host
  next_free_host-none v e j a = elim (Option-cases (scan_hosts n used (block n) (network n))) [
    | inl q ↦
        let (l, u) = (net_contains_iff n j).0 (allocatable_inside j a) in
        let f = scan_hosts-none (block n) (network n) j (network-block-le n v) q l u in
        busy_used (host_allocatable j n) (elem (ip_string j) used) a f
    | inr (ip, q) ↦ cc (rw (next_free_host, q) at e)
  ]
