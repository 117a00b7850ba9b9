-- ===== src/Net/Overlap.antt =====
-- Two networks overlap exactly if they share an address.
use wg_manager.Base.{ℕ, ◌-◌, ◌*◌, ◌/◌, ◌^◌, ◌≤◌, ◌≡◌, arith, Bool, true, ◌||◌, ap, ◌∙◌}
use wg_manager.Base.{nat_eq, nat_beq_iff, ◌↔◌, beq_self, sym, subst, Bool-cases, inl, inr}
use native.Mathlib.Decide.{dec_le}
use native.Mathlib.Nat.{div-div-eq-div-mul}
use mathlib.Core.Logic.{∥∥₁_elim}
use mathlib.Core.Bool.{Bool-set}
use wg_manager.Net.{IpNet, net_contains}
use wg_manager.Net.Hosts.{IsNet, pow_split}

-- `netsOverlap`
unfoldable pub nets_overlap : IpNet → IpNet → Bool
unfolding net_contains
nets_overlap a b = net_contains a b.ip || net_contains b a.ip

net_contains_self : (n : IpNet) → net_contains n n.ip ≡ true
unfolding net_contains
net_contains_self n = beq_self (n.ip / 2 ^ (32 - n.ones))

-- Numbers in one small block are in one block of any multiple size.
coarser : (P m x y : ℕ) → x / P ≡ y / P → x / (P * m) ≡ y / (P * m)
coarser P m x y e =
    sym (div-div-eq-div-mul x P m) ∙ ap (λ (k : ℕ). k / m) e ∙ div-div-eq-div-mul y P m

-- What shares a block of the longer prefix shares the block of the shorter one.
pub contains_wider :
    (a b x y : ℕ)
    → a ≤ b
    → b ≤ 32
    → x / 2 ^ (32 - b) ≡ y / 2 ^ (32 - b)
    → x / 2 ^ (32 - a) ≡ y / 2 ^ (32 - a)
contains_wider a b x y h k e =
    let q : 2 ^ (32 - b) * 2 ^ (b - a) ≡ 2 ^ (32 - a) =
      pow_split (32 - b) (b - a) ∙ ap (λ (n : ℕ). 2 ^ n) {y = 32 - a} (omega arith) in
    subst (λ (n : ℕ). x / n ≡ y / n) q (coarser (2 ^ (32 - b)) (2 ^ (b - a)) x y e)

pub net_contains_eq :
    (n : IpNet) (x : ℕ)
    → (net_contains n x ≡ true) ↔ (n.ip / 2 ^ (32 - n.ones) ≡ x / 2 ^ (32 - n.ones))
unfolding net_contains
net_contains_eq n x = nat_beq_iff (n.ip / 2 ^ (32 - n.ones)) (x / 2 ^ (32 - n.ones))

-- A shared address puts the narrower network into the wider one.
overlap_wider :
    (a b : IpNet) (x : ℕ)
    → IsNet b
    → a.ones ≤ b.ones
    → net_contains a x ≡ true
    → net_contains b x ≡ true
    → net_contains a b.ip ≡ true
overlap_wider a b x v h p q =
    let e = (net_contains_eq a x).0 p in
    let k = (net_contains_eq b x).0 q in
    (net_contains_eq a b.ip).1 (e ∙ contains_wider a.ones b.ones x b.ip h v.ones_le (sym k))

or_left : (a b : Bool) → a ≡ true → (a || b) ≡ true
or_left a b h = ground arith

or_right : (a b : Bool) → b ≡ true → (a || b) ≡ true
or_right a b h = ground arith

-- The test of the two network addresses finds every overlap, and only overlaps.
pub nets_overlap_iff :
    (a b : IpNet)
    → IsNet a
    → IsNet b
    → (nets_overlap a b ≡ true)
      ↔ ∥ ((x : ℕ) × (net_contains a x ≡ true) × (net_contains b x ≡ true)) ∥₁
unfolding nets_overlap
nets_overlap_iff a b va vb = (
  λ h. elim (Bool-cases (net_contains a b.ip)) [
    | inl e ↦ ∣ (b.ip, e, net_contains_self b) ∣₁
    | inr e ↦ ∣ (a.ip, net_contains_self a, ground arith) ∣₁
  ],
  λ t. ∥∥₁_elim t (Bool-set _ _) λ (x, p, q). elim (dec_le a.ones b.ones) [
    | yes h ↦ or_left (net_contains a b.ip) (net_contains b a.ip) (overlap_wider a b x vb h p q)
    | no h ↦
        or_right (net_contains a b.ip) (net_contains b a.ip)
          (overlap_wider b a x va (omega arith) q p)
  ],
)
