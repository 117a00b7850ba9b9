-- ===== src/Enforce/Tick/BlockSet.antt =====
-- What a pass leaves in the block set.
use wg_manager.Base.{Bool, true, false, not, ◌&&◌, ◌||◌, List, [], ◌∷◌}
use wg_manager.Base.{◌≡◌, refl, ap, ◌∙◌, sym, arith, All, if◌then◌else◌, Option-cases, Bool-cases}
use wg_manager.Base.{
  inl, inr, text_eq, text_beq, text_beq_iff, ◌==◌, Text, is_empty, elem, elem-keep,
}
use wg_manager.Base.{elem-append, any, IsWord, HasNoSpace, lit, subst}
use wg_manager.Store.{Peer, Table}
use wg_manager.Enforce.{Clock, effective_blocked, stale_ips}
use wg_manager.Enforce.Firewall.{Firewall, IsLawful}
use wg_manager.Enforce.Firewall.Save.{parse_ipset_save-save_text}
use wg_manager.Enforce.Tick.{Readings, wg_reading, ovpn_reading, add_wg, add_ovpn, wg_step}
use wg_manager.Enforce.Tick.{ovpn_step, sync_ip, tick_peer, tick_peers, enforce_tick, sweep}
use wg_manager.Enforce.Tick.{ensure_ipset, ensure_drop_rule, ipset_members, delete_all, known_ips}
use wg_manager.Enforce.Tick.Rows.{count_wg, count_ovpn, counted}

-- The IP is one of the two tunnel IPs of the user.
abbrev pub claims : Text → Peer → Bool
claims x p = not (is_empty x) && (x == p.address || x == p.ovpn_ip)

wg_step-fst : (r : Readings) (p : Peer) (t : Table) → (wg_step r p t).0 ≡ count_wg r p
wg_step-fst r p t = elim (Option-cases (wg_reading r p)) [
  | inl e ↦ unfold wg_step count_wg in rw (wg_step, count_wg, e)
  | inr (cur, e) ↦ unfold wg_step count_wg in rw (wg_step, count_wg, e)
]

ovpn_step-fst : (r : Readings) (p : Peer) (t : Table) → (ovpn_step r p t).0 ≡ count_ovpn r p
ovpn_step-fst r p t = elim (Option-cases (ovpn_reading r p)) [
  | inl e ↦ unfold ovpn_step count_ovpn in rw (ovpn_step, count_ovpn, e)
  | inr (cur, e) ↦ unfold ovpn_step count_ovpn in rw (ovpn_step, count_ovpn, e)
]

abbrev SameIps : Peer → Peer → Type 0
SameIps q p = (q.address ≡ p.address) × (q.ovpn_ip ≡ p.ovpn_ip)

count_wg-SameIps : (r : Readings) (p : Peer) → SameIps (count_wg r p) p
unfolding count_wg add_wg
count_wg-SameIps r p = elim (Option-cases (wg_reading r p)) [
  | inl e ↦ rw (count_wg, e) (refl, refl)
  | inr (cur, e) ↦ rw (count_wg, e) (refl, refl)
]

count_ovpn-SameIps : (r : Readings) (p : Peer) → SameIps (count_ovpn r p) p
unfolding count_ovpn add_ovpn
count_ovpn-SameIps r p = elim (Option-cases (ovpn_reading r p)) [
  | inl e ↦ rw (count_ovpn, e) (refl, refl)
  | inr (cur, e) ↦ rw (count_ovpn, e) (refl, refl)
]

counted-SameIps : (r : Readings) (p : Peer) → SameIps (counted r p) p
unfolding counted
counted-SameIps r p =
    let (a, o) = count_wg-SameIps r p in
    let (a', o') = count_ovpn-SameIps r (count_wg r p) in (a' ∙ a, o' ∙ o)

module _ (c : Clock) (r : Readings) (now : c.Time) where
  -- The verdict of a pass on one user.
  abbrev pub verdict : Peer → Bool
  verdict p = effective_blocked c (counted r p) now

  -- What the last user that claims the IP decides, or the value before.
  pub last_verdict : Text → List Peer → Bool → Bool
  last_verdict x [] before = before
  last_verdict x (p ∷ ps) before = last_verdict x ps (if claims x p then verdict p else before)

  last_verdict_unclaimed :
      (x : Text) (ps : List Peer) (before : Bool)
      → any (claims x) ps ≡ false
      → last_verdict x ps before ≡ before
  unfolding last_verdict
  last_verdict_unclaimed x [] before h = refl
  last_verdict_unclaimed x (p ∷ ps) before h = elim (Bool-cases (claims x p)) [
    | inl e ↦ cc (rw e at h)
    | inr e ↦ rw e (last_verdict_unclaimed x ps before (rw e at h))
  ]

  last_verdict_claimed :
      (x : Text) (ps : List Peer) (before : Bool)
      → any (claims x) ps ≡ true
      → last_verdict x ps before ≡ last_verdict x ps false
  unfolding last_verdict
  last_verdict_claimed x [] before h = cc
  last_verdict_claimed x (p ∷ ps) before h = elim (Bool-cases (claims x p)) [
    | inl e ↦ rw e
    | inr e ↦ rw e (last_verdict_claimed x ps before (rw e at h))
  ]

  last_verdict-any :
      (x : Text) (ps : List Peer) (before : Bool)
      → (any (claims x) ps && last_verdict x ps before) ≡ last_verdict x ps false
  last_verdict-any x ps before = elim (Bool-cases (any (claims x) ps)) [
    | inl e ↦ rw e (last_verdict_claimed x ps before e)
    | inr e ↦ rw e (sym (last_verdict_unclaimed x ps false e))
  ]

-- Both tunnel IPs are free of white space.
abbrev pub HasPlainIps : Peer → Type 0
HasPlainIps p = HasNoSpace p.address × HasNoSpace p.ovpn_ip

module _ (fw : Firewall) (L : IsLawful fw) (n : Text) where
  elem-sync_ip :
      (b : Bool) (x ip : Text) (s : fw.State)
      → L.takes x ≡ true
      → HasNoSpace ip
      → elem x (L.members n (sync_ip fw n b ip s))
        ≡ (if not (is_empty ip) && x == ip then b else elem x (L.members n s))
  unfolding sync_ip
  elem-sync_ip b x [] s tx h = refl
  elem-sync_ip true x (k ∷ ks) s tx h =
      L.elem-add_ip n (k ∷ ks) x s ((λ q. cc), h) ∙ ground (arith, tx)
  elem-sync_ip false x (k ∷ ks) s tx h = L.elem-del_ip n (k ∷ ks) x s ∙ ground arith

  elem-delete_all :
      (x : Text) (ips : List Text) (s : fw.State)
      → elem x (L.members n (delete_all fw n ips s)) ≡ (not (elem x ips) && elem x (L.members n s))
  unfolding delete_all
  elem-delete_all x [] s = refl
  elem-delete_all x (ip ∷ ips) s =
      elem-delete_all x ips (fw.del_ip n ip s) ∙ ground (arith, L.elem-del_ip n ip x s)

  ipset_members_lem : (s : fw.State) → IsWord n → ipset_members fw n s ≡ L.members n s
  unfolding ipset_members
  ipset_members_lem s w =
      rw (ipset_members, L.list_save_lem n s)
        (parse_ipset_save-save_text (L.options n s) n (L.members n s) (L.options_line n s) w
          (L.members_words n s))

  elem-ensure_drop_rule :
      (x d : Text) (s : fw.State)
      → elem x (L.members n (ensure_drop_rule fw n d s)) ≡ elem x (L.members n s)
  unfolding ensure_drop_rule
  elem-ensure_drop_rule x d s = ground (arith, L.elem-insert_drop n d x s)

  elem-ensure_ipset :
      (x : Text) (s : fw.State)
      → elem x (L.members n (ensure_ipset fw n s)) ≡ elem x (L.members n s)
  unfolding ensure_ipset
  elem-ensure_ipset x s =
      elem-ensure_drop_rule x (lit "dst") _
      ∙ elem-ensure_drop_rule x (lit "src") _
      ∙ L.elem-create_set n x s

elem_of_ip :
    (x ip : Text) → elem x (if is_empty ip then [] else ip ∷ []) ≡ not (is_empty x) && x == ip
unfolding text_beq
elem_of_ip [] [] = refl
elem_of_ip [] (k ∷ ks) = refl
elem_of_ip (c ∷ x) [] = refl
elem_of_ip (c ∷ x) (k ∷ ks) = ground arith

elem-known_ips : (x : Text) (ps : List Peer) → elem x (known_ips ps) ≡ any (claims x) ps
unfolding known_ips
elem-known_ips x [] = refl
elem-known_ips x (p ∷ ps) =
    elem-append x (if is_empty p.address then [] else p.address ∷ []) _
    ∙ rw (elem_of_ip x p.address, elem-append, elem_of_ip x p.ovpn_ip, elem-known_ips x ps)
        (regroup (is_empty x) (x == p.address) (x == p.ovpn_ip) (any (claims x) ps))
  where
    regroup : (e a b r : Bool) → (not e && a || (not e && b || r)) ≡ (not e && (a || b) || r)
    regroup e a b r = ground arith

module _ (c : Clock) (fw : Firewall) (r : Readings) (now : c.Time) (L : IsLawful fw) where
  elem-sync_ips :
      (b : Bool) (x a o : Text) (s : fw.State)
      → L.takes x ≡ true
      → HasNoSpace a
      → HasNoSpace o
      → elem x (L.members r.ipset (sync_ip fw r.ipset b o (sync_ip fw r.ipset b a s)))
        ≡ (if not (is_empty x) && (x == a || x == o) then b else elem x (L.members r.ipset s))
  elem-sync_ips b x a o s tx ha ho =
      elem-sync_ip fw L r.ipset b x o (sync_ip fw r.ipset b a s) tx ho
      ∙ rw (elem-sync_ip fw L r.ipset b x a s tx ha, same x a, same x o)
          (regroup (is_empty x) (x == a) (x == o) b (elem x (L.members r.ipset s)))
    where
      same : (x ip : Text) → (not (is_empty ip) && x == ip) ≡ (not (is_empty x) && x == ip)
      same x ip = ground (arith, text_beq_iff x ip)

      regroup :
          (e a o b d : Bool)
          → (if not e && o then b else if not e && a then b else d)
            ≡ (if not e && (a || o) then b else d)
      regroup e a o b d = ground arith

  elem-tick_peer :
      (x : Text) (p : Peer) (t : Table) (s : fw.State)
      → L.takes x ≡ true
      → HasPlainIps p
      → elem x (L.members r.ipset (tick_peer c fw r now p (t, s)).1)
        ≡ (if claims x p then verdict c r now p else elem x (L.members r.ipset s))
  unfolding tick_peer counted
  elem-tick_peer x p t s tx (ha, ho) =
      let (a, o) = counted-SameIps r p in
      rw (wg_step-fst r p t, ovpn_step-fst)
        (elem-sync_ips (verdict c r now p) x (counted r p).address (counted r p).ovpn_ip s tx
            (subst HasNoSpace (sym a) ha) (subst HasNoSpace (sym o) ho)
          ∙ rw (a, o))

  elem-tick_peers :
      (x : Text) (ps : List Peer) (t : Table) (s : fw.State)
      → L.takes x ≡ true
      → All HasPlainIps ps
      → elem x (L.members r.ipset (tick_peers c fw r now ps (t, s)).1)
        ≡ last_verdict c r now x ps (elem x (L.members r.ipset s))
  unfolding tick_peers last_verdict
  elem-tick_peers x [] t s tx h = refl
  elem-tick_peers x (p ∷ ps) t s tx (h, hs) =
      let (t', s') = tick_peer c fw r now p (t, s) in
      elem-tick_peers x ps t' s' tx hs
      ∙ ap (last_verdict c r now x ps) (elem-tick_peer x p t s tx h)

  elem-sweep :
      (x : Text) (ps : List Peer) (s : fw.State)
      → IsWord r.ipset
      → elem x (L.members r.ipset (sweep c fw r now ps s))
        ≡ (any (claims x) ps && elem x (L.members r.ipset s))
  unfolding sweep stale_ips
  elem-sweep x ps s w =
      elem-delete_all fw L r.ipset x _ s
      ∙ rw (ipset_members_lem fw L r.ipset s w, elem-keep, elem-known_ips x ps)
          (regroup (elem x (L.members r.ipset s)) (any (claims x) ps))
    where
      regroup : (m k : Bool) → (not (m && not k) && m) ≡ (k && m)
      regroup m k = ground arith

  not_taken : (x : Text) (s : fw.State) → L.takes x ≡ false → elem x (L.members r.ipset s) ≡ false
  not_taken x s h = ground (arith, h, L.members_taken r.ipset x s)

  -- After a pass an IP that the set takes is in the block set exactly when the last user that claims
  -- it is to be blocked; an IP that no user claims is not in it, and neither is a word that the set
  -- refuses.
  pub elem-enforce_tick :
      (x : Text) (t : Table) (s : fw.State)
      → IsWord r.ipset
      → All HasPlainIps t.rows
      → elem x (L.members r.ipset (enforce_tick c fw r now (t, s)).1)
        ≡ (L.takes x && last_verdict c r now x t.rows false)
  unfolding enforce_tick
  elem-enforce_tick x t s w h = elim (Bool-cases (L.takes x)) [
    | inl tx ↦ rw tx (
        elem-sweep x t.rows _ w
        ∙ ap (◌&&◌ (any (claims x) t.rows)) (elem-tick_peers x t.rows t _ tx h)
        ∙ last_verdict-any c r now x t.rows _)
    | inr e ↦ rw e (not_taken x (enforce_tick c fw r now (t, s)).1 e)
  ]
