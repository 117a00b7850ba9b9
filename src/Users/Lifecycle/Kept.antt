-- ===== src/Users/Lifecycle/Kept.antt =====
-- The operations keep the table sound: the attachment of OpenVPN, the enforcement pass, the recharge
-- and the removal of ghosts.
use wg_manager.Base.{
  ℕ, zero, suc, true, false, not, ◌&&◌, some, List, [], ◌∷◌, ◌≡◌, ◌≢◌, refl, arith, inl, inr,
}
use wg_manager.Base.{
  Text, text_eq, text_beq_iff, nat_eq, nat_beq_iff, ◌==◌, is_empty, All, Bool-cases, Option-cases,
  elem, map, keep, some_inj, subst, sym, ◌∙◌,
}
use wg_manager.Store.{Peer, Table, update_rows, update_peer}
use wg_manager.Store.Laws.{AreDistinct, Apart, update_peer-IsValid}
use wg_manager.Net.{
  IpNet, scan_hosts, host_allocatable, next_free_host, ip_string, network, block, next_ip,
  parse_cidr,
}
use wg_manager.Net.Print.{ip_string-IsWord}
use wg_manager.Recharge.{ok, ok_inj}
use wg_manager.Users.Ovpn.{set_identity, ovpn_used, ovpn_next_free_ip}
use wg_manager.Users.Lifecycle.{shares_ip, AreApart, IsSound}

-- Nobody has the address.
abbrev pub IsUnused : Text → List Peer → Type 0
IsUnused ip = All (λ q. q.ovpn_ip ≢ ip)

update_rows-absent :
    (i : ℕ) (f : Peer → Peer) (ps : List Peer) → All (λ q. q.id ≢ i) ps → update_rows i f ps ≡ ps
unfolding update_rows
update_rows-absent i f [] h = refl
update_rows-absent i f (p ∷ ps) (h, hs) = ground (arith, update_rows-absent i f ps hs)

absent_behind :
    (p : Peer) (ps : List Peer) (i : ℕ) → p.id ≡ i → All (Apart p) ps → All (λ q. q.id ≢ i) ps
absent_behind p [] i e h = tt
absent_behind p (q ∷ ps) i e ((ne, c), hs) = (λ k. ne (e ∙ sym k), absent_behind p ps i e hs)

module _ (i : ℕ) (cn ip cert key : Text) where
  abbrev g : Peer → Peer
  g p = record p {
    ovpn_cn = cn;
    ovpn_ip = ip;
    ovpn_enabled = true;
    ovpn_cert = cert;
    ovpn_key = key;
  }

  shares_ip-identity :
      (p : Peer) (ps : List Peer) → IsUnused ip ps → All (λ q. shares_ip (g p) q ≡ false) ps
  shares_ip-identity p [] h = tt
  shares_ip-identity p (q ∷ ps) (h, hs) =
      (ground (arith, text_beq_iff ip q.ovpn_ip), shares_ip-identity p ps hs)

  shares_ip-behind :
      (p : Peer) (ps : List Peer)
      → p.ovpn_ip ≢ ip
      → All (λ q. shares_ip p q ≡ false) ps
      → All (λ q. shares_ip p q ≡ false) (update_rows i g ps)
  unfolding update_rows
  shares_ip-behind p [] n h = tt
  shares_ip-behind p (q ∷ ps) n (h, hs) =
      ground (arith, text_beq_iff p.ovpn_ip ip, shares_ip-behind p ps n hs)

  AreApart-identity :
      (ps : List Peer)
      → AreDistinct ps
      → IsUnused ip ps
      → AreApart ps
      → AreApart (update_rows i g ps)
  unfolding update_rows
  AreApart-identity [] d u h = tt
  AreApart-identity (p ∷ ps) (a, d) (n, u) (h, hs) = elim (Bool-cases (p.id == i)) [
    | inl e ↦
        let same = update_rows-absent i g ps (absent_behind p ps i ((nat_beq_iff p.id i).0 e) a) in
        rw (e, same) (shares_ip-identity p ps u, hs)
    | inr e ↦ rw e (shares_ip-behind p ps n h, AreApart-identity ps d u hs)
  ]

  pub set_identity-IsSound :
      (t : Table)
      → IsUnused ip t.rows
      → IsSound t
      → IsSound (update_peer i (set_identity cn ip cert key) t)
  unfolding update_peer set_identity
  set_identity-IsSound t u s = record {
    valid = update_peer-IsValid i g (λ p. (refl, refl, refl, refl)) t s.valid;
    apart = AreApart-identity t.rows s.valid.distinct u s.apart;
  }

scan_hosts-fresh :
    (n : IpNet) (used : List Text) (left ip : ℕ) {a : ℕ}
    → scan_hosts n used left ip ≡ some a
    → elem (ip_string a) used ≡ false
unfolding scan_hosts
scan_hosts-fresh n used zero ip h = cc
scan_hosts-fresh n used (suc left) ip {a} h =
    elim (Bool-cases (host_allocatable ip n && not (elem (ip_string ip) used))) [
      | inr e ↦ scan_hosts-fresh n used left (next_ip ip) (rw e at h)
      | inl e ↦
          subst (λ (x : ℕ). elem (ip_string x) used ≡ false) (some_inj (rw e at h))
            (ground (arith, e))
    ]

-- The address that is found is no empty text, and is not in use.
next_free_host-fresh :
    (n : IpNet) (used : List Text) {s : Text}
    → next_free_host n used ≡ some s
    → (elem s used ≡ false) × (s ≢ [])
unfolding next_free_host
next_free_host-fresh n used {s} h = elim (Option-cases (scan_hosts n used (block n) (network n))) [
  | inl q ↦ cc (rw (next_free_host, q) at h)
  | inr (a, q) ↦
      subst (λ (x : Text). (elem x used ≡ false) × (x ≢ []))
        (some_inj (rw (next_free_host, q) at h))
        (scan_hosts-fresh n used (block n) (network n) q, (ip_string-IsWord a).0)
]

unused_row :
    (ip s : Text) (rest : List Text)
    → ip ≢ []
    → elem ip (keep (λ x. not (is_empty x)) (s ∷ rest)) ≡ false
    → (s ≢ ip) × (elem ip (keep (λ x. not (is_empty x)) rest) ≡ false)
unused_row ip [] rest n h = (λ q. n (sym q), h)
unused_row ip (c ∷ s) rest n h =
    (λ q. ground (arith, text_beq_iff ip (c ∷ s), sym q), ground (arith, text_beq_iff ip (c ∷ s)))

IsUnused-rows :
    (ip : Text) (ps : List Peer)
    → ip ≢ []
    → elem ip (keep (λ x. not (is_empty x)) (map (λ p. p.ovpn_ip) ps)) ≡ false
    → IsUnused ip ps
IsUnused-rows ip [] n h = tt
IsUnused-rows ip (p ∷ ps) n h =
    let (own, rest) = unused_row ip p.ovpn_ip (map (λ q. q.ovpn_ip) ps) n h in
    (own, IsUnused-rows ip ps n rest)

pub ovpn_next_free_ip-IsUnused :
    (t : Table) (subnet ip : Text) → ovpn_next_free_ip t subnet ≡ ok ip → IsUnused ip t.rows
unfolding ovpn_next_free_ip ovpn_used
ovpn_next_free_ip-IsUnused t subnet ip h = elim (Option-cases (parse_cidr subnet)) [
  | inl q ↦ cc (rw (ovpn_next_free_ip, q) at h)
  | inr ((a, n), q) ↦ elim (Option-cases (next_free_host n (ovpn_used n t))) [
    | inl r ↦ cc (rw (ovpn_next_free_ip, q, r) at h)
    | inr (s, r) ↦
        let (fresh, ne) = next_free_host-fresh n (ovpn_used n t) {s = s} r in
        subst (λ (x : Text). IsUnused x t.rows) (ok_inj (rw (ovpn_next_free_ip, q, r) at h))
          (IsUnused-rows s t.rows ne (ground (arith, fresh)))
  ]
]
