-- ===== src/Subnet/Expand/Swap.antt =====
-- The swap of the addresses of the interface.
use wg_manager.Base.{
  ℕ, ◌^◌, ◌≤◌, ◌<◌, true, false, not, some, none, List, [], ◌∷◌, ◌≡◌, arith, elem,
}
use wg_manager.Base.{
  Text, text_eq, text_beq_iff, beq_self, ◌==◌, if◌then◌else◌, elem-append, elem-keep, pos, trim,
  is_space, Bool-cases, Option-cases, inl, inr, ap, sym, ◌∙◌, subst, some_inj,
}
use wg_manager.Net.{IpNet, parse_cidr, mask_to, net_contains}
use wg_manager.Recharge.{ok}
use wg_manager.Subnet.{widen_cidr}
use wg_manager.Subnet.Widen.{widened, widen_cidr-contains}
use wg_manager.Subnet.Expand.{Host, Tools, add_addr, del_addr, swap_addrs}

-- Some address of the interface brings a route to the tunnel address.
pub record IsServed (addrs : List Text) (x : ℕ) : Type 0 where
  pub addr : Text
  pub held : elem addr addrs ≡ true
  pub ip : ℕ
  pub net : IpNet
  pub parsed : parse_cidr addr ≡ some (ip, net)
  pub inside : net_contains net x ≡ true

-- The addresses between `ip addr add` and `ip addr del`.
abbrev pub between : Tools → Text → List Text → List Text
between k new addrs = elim (add_addr k new addrs) [ none ↦ addrs | some more ↦ more ]

elem-between :
    (k : Tools) (new a : Text) (addrs : List Text)
    → elem a addrs ≡ true
    → elem a (between k new addrs) ≡ true
unfolding add_addr
elem-between k new a addrs h = ground (arith, elem-append a addrs (new ∷ []))

between-IsServed :
    (k : Tools) (new : Text) (addrs : List Text) (x : ℕ)
    → IsServed addrs x
    → IsServed (between k new addrs) x
between-IsServed k new addrs x s = record {
  addr = s.addr;
  held = elem-between k new s.addr addrs s.held;
  ip = s.ip;
  net = s.net;
  parsed = s.parsed;
  inside = s.inside;
}

elem-add_addr :
    (k : Tools) (new : Text) (addrs more : List Text)
    → add_addr k new addrs ≡ some more
    → elem new more ≡ true
unfolding add_addr
elem-add_addr k new addrs more e = ground (arith, e, elem-append new addrs (new ∷ []), beq_self new)

elem-del_addr :
    (k : Tools) (old a : Text) (addrs : List Text)
    → (a == old) ≡ false
    → elem a addrs ≡ true
    → elem a (del_addr k old addrs) ≡ true
unfolding del_addr
elem-del_addr k old a addrs n h = ground (arith, n, elem-keep a (λ b. not (b == old)) addrs)

between_more :
    (k : Tools) (new : Text) (addrs more : List Text)
    → add_addr k new addrs ≡ some more
    → between k new addrs ≡ more
between_more k new addrs more q = ground (arith, q)

-- The addresses behind the swap.
swapped :
    (k : Tools) (old new : Text) (h : Host)
    → (swap_addrs k old new h).0.addrs ≡ (
        if not h.is_up
        then h.addrs
        else elim (add_addr k new h.addrs) [ none ↦ h.addrs | some more ↦ del_addr k old more ])
unfolding swap_addrs
swapped k old new h = ground arith

module _ (old new : Text) (prefix ip ones : ℕ) (lt : ip < 2 ^ 32) (le : ones ≤ 32)
    (trimmed : trim is_space old ≡ old)
    (parsed : parse_cidr old ≡ some (ip, record { ip = mask_to ones ip; ones = ones }))
    (wider : widen_cidr old (pos prefix) true ≡ ok (new, true)) where
  new-ne-old : (new == old) ≡ false
  new-ne-old =
      let e = ap parse_cidr trimmed ∙ parsed in
      let (lo, hi, narrower, form) = widened old new prefix ip _ true e wider in
      let (ip', n', p, o, host, c) =
        widen_cidr-contains old new prefix ip ones true lt le e wider in
      elim (Bool-cases (new == old)) [
        | inr q ↦ q
        | inl q ↦ absurd (
            omega (
              arith,
              narrower,
              o,
              ap (λ (x : ℕ × IpNet). x.1.ones)
                  (some_inj (sym p ∙ ap parse_cidr ((text_beq_iff new old).0 q) ∙ parsed)),
            ))
      ]

  -- The new address serves what the old one served.
  wider-IsServed :
      (addrs : List Text) (x : ℕ)
      → elem new addrs ≡ true
      → net_contains (record { ip = mask_to ones ip; ones = ones }) x ≡ true
      → IsServed addrs x
  wider-IsServed addrs x h c =
      let e = ap parse_cidr trimmed ∙ parsed in
      let (ip', n', p, o, host, k) =
        widen_cidr-contains old new prefix ip ones true lt le e wider in
      record { addr = new; held = h; ip = ip'; net = n'; parsed = p; inside = k x c }

  del_addr-IsServed :
      (k : Tools) (addrs : List Text) (x : ℕ)
      → elem new addrs ≡ true
      → IsServed addrs x
      → IsServed (del_addr k old addrs) x
  del_addr-IsServed k addrs x h s = elim (Bool-cases (s.addr == old)) [
    | inl q ↦ wider-IsServed (del_addr k old addrs) x (elem-del_addr k old new addrs new-ne-old h) (
        subst (λ (n : IpNet). net_contains n x ≡ true)
          (ap (λ (y : ℕ × IpNet). y.1)
            (some_inj (sym s.parsed ∙ ap parse_cidr ((text_beq_iff s.addr old).0 q) ∙ parsed)))
          s.inside)
    | inr q ↦ record {
      addr = s.addr;
      held = elem-del_addr k old s.addr addrs q s.held;
      ip = s.ip;
      net = s.net;
      parsed = s.parsed;
      inside = s.inside;
    }
  ]

  after-IsServed :
      (k : Tools) (h : Host) (x : ℕ)
      → IsServed h.addrs x
      → IsServed (swap_addrs k old new h).0.addrs x
  after-IsServed k h x s =
      subst (λ (l : List Text). IsServed l x) (sym (swapped k old new h))
        (elim (Bool-cases h.is_up) [
          | inr u ↦ rw u s
          | inl u ↦ elim (Option-cases (add_addr k new h.addrs)) [
            | inl q ↦ rw (u, q) s
            | inr (more, q) ↦
                rw (u, q)
                  (del_addr-IsServed k more x (elem-add_addr k new h.addrs more q) (
                    subst (λ (l : List Text). IsServed l x) (between_more k new h.addrs more q)
                      (between-IsServed k new h.addrs x s)))
          ]
        ])

  -- The live swap to a wider address of the same server: every tunnel address that the interface
  -- has a route to keeps one between the two commands and behind them, whatever `ip` refuses.
  pub swap_addrs-IsServed :
      (k : Tools) (h : Host) (x : ℕ)
      → IsServed h.addrs x
      → IsServed (between k new h.addrs) x × IsServed (swap_addrs k old new h).0.addrs x
  swap_addrs-IsServed k h x s = (between-IsServed k new h.addrs x s, after-IsServed k h x s)
