-- ===== src/Subnet/Plan/Clean.antt =====
-- What a plan without conflicts keeps apart.
use wg_manager.Base.{
  ℕ, ℤ, Bool, true, false, ◌==◌, nat_eq, Option, none, some, List, [], ◌∷◌, ◌++◌, ◌≡◌, ◌≢◌,
}
use wg_manager.Base.{
  refl, arith, ap, lit, Option-cases, Bool-cases, inl, inr, sym, ◌∙◌, subst, Text, is_empty,
  if◌then◌else◌, nat_beq_iff,
}
use wg_manager.Net.{IpNet, parse_cidr, next_ip}
use wg_manager.Base.{All}
use wg_manager.Net.Hosts.{IsNet}
use wg_manager.Net.Parsed.{parse_cidr-IsNet}
use wg_manager.Net.Overlap.{nets_overlap}
use wg_manager.Subnet.Conflicts.Listed.{Tolerates, subnet_conflicts-clean}
use wg_manager.Recharge.{Result, ok, err, ok_inj, ◌>>=◌}
use wg_manager.Subnet.{network_of, prefix_all}
use wg_manager.Subnet.Conflicts.{subnet_conflicts, pool_devs}
use wg_manager.Subnet.Routes.{NetEntry}
use wg_manager.Subnet.Plan.{ExpandPlan, build_expand_plan, conflicts_of, wg_plan_conflicts, net_of}
use wg_manager.Subnet.Plan.{ov_plan_conflicts, sort_texts, insert_sorted, first_overlap, moved}
use wg_manager.Subnet.Plan.{wg_widening, ov_widening}

bind-ok :
    {A B : Type 0} (m : Result A) (f : A → Result B) (b : B)
    → (m >>= f) ≡ ok b
    → (a : A) × (m ≡ ok a) × (f a ≡ ok b)
bind-ok (ok a) f b h = (a, refl, h)
bind-ok (err e) f b h = cc

insert_sorted-ne-nil : (a : Text) (as' : List Text) → insert_sorted a as' ≢ []
unfolding insert_sorted
insert_sorted-ne-nil a [] = ground arith
insert_sorted-ne-nil a (b ∷ bs) = ground arith

sort_texts-nil : (as' : List Text) → sort_texts as' ≡ [] → as' ≡ []
unfolding sort_texts
sort_texts-nil [] h = refl
sort_texts-nil (a ∷ as') h = absurd (insert_sorted-ne-nil a (sort_texts as') h)

append-nil_inv : {A : Type 0} (xs ys : List A) → xs ++ ys ≡ [] → (xs ≡ []) × (ys ≡ [])
append-nil_inv [] ys h = (refl, h)
append-nil_inv (x ∷ xs) ys h = cc

if_false : {A : Type 0} (b : Bool) (x y : A) → b ≡ false → (if b then x else y) ≡ y
if_false b x y e = rw e

-- The pool's network text of a plan and what it is checked against.
conflicts_of-nil :
    (f : IpNet → IpNet → List Text) (old new : Text)
    → is_empty new ≡ false
    → conflicts_of f old new ≡ ok []
    → (o n : IpNet) × (net_of old ≡ ok o) × (net_of new ≡ ok n) × (f o n ≡ [])
unfolding conflicts_of
conflicts_of-nil f old new e h =
    let (o, eo, k') = bind-ok (net_of old) _ [] (sym (if_false (is_empty new) _ _ e) ∙ h) in
    let (n, en, k'') = bind-ok (net_of new) _ [] k' in
    (o, n, eo, en, sort_texts-nil (f o n) (ok_inj k''))

-- How the plan is made up.
plan_parts :
    (interface : Text) (wg : Option (ℕ × IpNet)) (ov : Option Text) (prefix : ℤ)
    → (entries : List NetEntry) (p : ExpandPlan)
    → build_expand_plan interface wg ov prefix entries ≡ ok p
    → (wg_cur ov_cur : Text) × (conflicts_of
          (wg_plan_conflicts interface entries (ov_cur ∷ p.ov_new_net ∷ []))
          p.wg_old_addr
          p.wg_new_addr
        ≡ ok p.wg_conflicts)
      × (conflicts_of
            (ov_plan_conflicts prefix entries (wg_cur ∷ network_of p.wg_new_addr ∷ []))
            p.ov_old_net
            p.ov_new_net
          ≡ ok p.ov_conflicts)
unfolding build_expand_plan
plan_parts interface wg ov prefix entries p h =
    let ((wg_cur, wg_old, wg_new), e1, k1) = bind-ok (wg_widening wg prefix) _ p h in
    let ((ov_cur, ov_old, ov_new), e2, k2) = bind-ok (ov_widening ov prefix) _ p k1 in
    let (wgs, e3, k3) =
      bind-ok
        (conflicts_of (wg_plan_conflicts interface entries (ov_cur ∷ ov_new ∷ [])) wg_old wg_new) _
        p k2 in
    let (ovs, e4, k4) =
      bind-ok
        (conflicts_of (ov_plan_conflicts prefix entries (wg_cur ∷ network_of wg_new ∷ [])) ov_old
          ov_new)
        _ p k3 in
    let e = ok_inj k4 in
    (
      wg_cur,
      ov_cur,
      subst
          (λ q.
            conflicts_of (wg_plan_conflicts interface entries (ov_cur ∷ q.ov_new_net ∷ []))
              q.wg_old_addr q.wg_new_addr
            ≡ ok q.wg_conflicts)
          e e3,
      subst
          (λ q.
            conflicts_of (ov_plan_conflicts prefix entries (wg_cur ∷ network_of q.wg_new_addr ∷ []))
              q.ov_old_net q.ov_new_net
            ≡ ok q.ov_conflicts)
          e e4,
    )

net_of-some : (s : Text) (ip : ℕ) (n : IpNet) → parse_cidr s ≡ some (ip, n) → net_of s ≡ ok n
unfolding net_of
net_of-some s ip n e = rw (e, net_of)

net_of-none : (s : Text) (n : IpNet) → parse_cidr s ≡ none → net_of s ≢ ok n
unfolding net_of
net_of-none s n e = rw (e, net_of) (λ q. cc)

net_of-parse : (s : Text) (n : IpNet) → net_of s ≡ ok n → (ip : ℕ) × (parse_cidr s ≡ some (ip, n))
net_of-parse s n h = elim (Option-cases (parse_cidr s)) [
  | inl e ↦ absurd (net_of-none s n e h)
  | inr ((ip, m), e) ↦ (ip, e ∙ ap (λ k. some (ip, k)) (ok_inj (sym (net_of-some s ip m e) ∙ h)))
]

-- The second of the networks does not overlap if the loop finds nothing.
first_overlap-nil :
    (own other : Text) (n m : IpNet) (a b : Text) (ip : ℕ)
    → first_overlap own other n (a ∷ b ∷ []) ≡ []
    → parse_cidr b ≡ some (ip, m)
    → nets_overlap n m ≡ false
unfolding first_overlap
first_overlap-nil own other n m a b ip h e = elim (Option-cases (parse_cidr a)) [
  | inl q ↦ go (nets_overlap n m) refl
  | inr ((x, k), q) ↦ go (nets_overlap n m) refl
]
  where
    go : (v : Bool) → nets_overlap n m ≡ v → v ≡ false
    go false r = refl
    go true r = ground (arith, h, e, r)

prefix_all-nil : (pre : Text) (xs : List Text) → prefix_all pre xs ≡ [] → xs ≡ []
unfolding prefix_all
prefix_all-nil pre [] h = refl
prefix_all-nil pre (x ∷ xs) h = cc

wg_clean :
    (interface : Text) (entries : List NetEntry) (others : List Text) (old new : IpNet)
    → wg_plan_conflicts interface entries others old new ≡ []
    → (subnet_conflicts old new (pool_devs old entries (interface ∷ [])) entries ≡ [])
      × (first_overlap (lit "wireguard") (lit "openvpn") new others ≡ [])
unfolding wg_plan_conflicts
wg_clean interface entries others old new h =
    let (a, b) = append-nil_inv _ _ h in (prefix_all-nil _ _ a, b)

moved-nil :
    (prefix : ℤ) (old new : IpNet) → moved prefix old new ≡ [] → next_ip old.ip ≡ next_ip new.ip
unfolding moved
moved-nil prefix old new h = elim (Bool-cases (next_ip old.ip == next_ip new.ip)) [
  | inl e ↦ (nat_beq_iff (next_ip old.ip) (next_ip new.ip)).0 e
  | inr e ↦ ground arith
]

ov_clean :
    (prefix : ℤ) (entries : List NetEntry) (others : List Text) (old new : IpNet)
    → ov_plan_conflicts prefix entries others old new ≡ []
    → (next_ip old.ip ≡ next_ip new.ip)
      × (subnet_conflicts old new (pool_devs old entries []) entries ≡ [])
unfolding ov_plan_conflicts
ov_clean prefix entries others old new h =
    let (a, b) = append-nil_inv _ _ h in
    let (c, d) = append-nil_inv _ _ b in (moved-nil prefix old new a, prefix_all-nil _ _ c)

-- A plan that widens both pools and lists no conflict gives them disjoint networks and leaves the
-- OpenVPN server on its address; and every IPv4 entry of the host that shares an address with a new
-- pool is on one of that pool's own devices or overlapped the old pool already.
pub build_expand_plan-disjoint :
    (interface : Text) (wg : Option (ℕ × IpNet)) (ov : Option Text) (prefix : ℤ)
    → (entries : List NetEntry) (p : ExpandPlan)
    → build_expand_plan interface wg ov prefix entries ≡ ok p
    → is_empty p.wg_new_addr ≡ false
    → is_empty p.ov_new_net ≡ false
    → p.wg_conflicts ≡ []
    → p.ov_conflicts ≡ []
    → All (λ e. IsNet e.net) entries
    → (wg_old wg_new ov_old ov_new : IpNet) × (net_of p.wg_old_addr ≡ ok wg_old)
      × (net_of p.wg_new_addr ≡ ok wg_new)
      × (net_of p.ov_old_net ≡ ok ov_old)
      × (net_of p.ov_new_net ≡ ok ov_new)
      × (nets_overlap wg_new ov_new ≡ false)
      × (next_ip ov_old.ip ≡ next_ip ov_new.ip)
      × All (Tolerates wg_old wg_new (pool_devs wg_old entries (interface ∷ []))) entries
      × All (Tolerates ov_old ov_new (pool_devs ov_old entries [])) entries
build_expand_plan-disjoint interface wg ov prefix entries p h ne1 ne2 c1 c2 ve =
    let (wg_cur, ov_cur, k1, k2) = plan_parts interface wg ov prefix entries p h in
    let (wg_old, wg_new, e1, e2, z) =
      conflicts_of-nil _ p.wg_old_addr p.wg_new_addr ne1 (k1 ∙ ap ok c1) in
    let (ov_old, ov_new, e3, e4, y) =
      conflicts_of-nil _ p.ov_old_net p.ov_new_net ne2 (k2 ∙ ap ok c2) in
    let (z1, z2) = wg_clean interface entries _ wg_old wg_new z in
    let (y1, y2) = ov_clean prefix entries _ ov_old ov_new y in
    let (ip, q) = net_of-parse p.ov_new_net ov_new e4 in
    let (ip', q') = net_of-parse p.wg_new_addr wg_new e2 in
    (
      wg_old,
      wg_new,
      ov_old,
      ov_new,
      e1,
      e2,
      e3,
      e4,
      first_overlap-nil _ _ wg_new ov_new ov_cur p.ov_new_net ip z2 q,
      y1,
      subnet_conflicts-clean wg_old wg_new _ entries (parse_cidr-IsNet p.wg_new_addr ip' wg_new q')
          ve z1,
      subnet_conflicts-clean ov_old ov_new _ entries (parse_cidr-IsNet p.ov_new_net ip ov_new q) ve
          y2,
    )
