-- ===== src/Users/Lifecycle/Accounts.antt =====
-- The commands on accounts, the enforcement pass and the removal of ghosts keep the table sound.
use wg_manager.Base.{
  Bool, true, false, not, ◌&&◌, Option, none, some, List, [], ◌∷◌, ◌≡◌, refl, ◌<◌, lit, lookup_or,
  inl, inr,
}
use wg_manager.Base.{
  Text, if◌then◌else◌, Bool-cases, Option-cases, subst, ap, ◌∙◌, Dict, All, keep, differ, text_eq,
  ◌==◌,
}
use wg_manager.Store.{Peer, Table, get_peer}
use wg_manager.Store.Laws.{AreDistinct, Apart, SameKeys-trans}
use wg_manager.Enforce.{Clock, effective_blocked}
use wg_manager.Enforce.Firewall.{Firewall}
use wg_manager.Enforce.Tick.{
  Readings, wg_reading, ovpn_reading, wg_step, ovpn_step, flag_step, tick_peer, tick_peers,
  enforce_tick,
}
use wg_manager.Recharge.{
  Floats, Json, Result, ok, Result-cases, ok_inj, recharge_peer, recharge_plan, recharged,
  set_baseline, set_quota, add_quota, ResetCounters, amount, cli_recharge, cli_amount, cli_reset,
}
use wg_manager.Users.Ghosts.{is_ghost, delete_ghost, delete_ghosts, ghosts_command, ghost_users}
use wg_manager.Users.Lifecycle.{shares_ip, AreApart, IsSound, IsTame, update_peer-IsSound}

-- An update that leaves the id, the unique columns and the OpenVPN address alone.
pub fixed-IsTame :
    (f : Peer → Peer)
    → ((p : Peer)
        → f p ≡ record (f p) {
          id = p.id;
          username = p.username;
          public_key = p.public_key;
          address = p.address;
          ovpn_ip = p.ovpn_ip;
        })
    → IsTame f
fixed-IsTame f h = record {
  keys = λ p. (
    ap (λ (q : Peer). q.id) (h p),
    ap (λ (q : Peer). q.username) (h p),
    ap (λ (q : Peer). q.public_key) (h p),
    ap (λ (q : Peer). q.address) (h p),
  );
  ovpn = λ p. inl (ap (λ (q : Peer). q.ovpn_ip) (h p));
}

wg_step-IsSound : (r : Readings) (p : Peer) (t : Table) → IsSound t → IsSound (wg_step r p t).1
unfolding wg_step
wg_step-IsSound r p t s = elim (Option-cases (wg_reading r p)) [
  | inl e ↦ rw (wg_step, e) s
  | inr (cur, e) ↦ rw (wg_step, e) (update_peer-IsSound p.id _ (fixed-IsTame _ (λ q. refl)) t s)
]

ovpn_step-IsSound : (r : Readings) (p : Peer) (t : Table) → IsSound t → IsSound (ovpn_step r p t).1
unfolding ovpn_step
ovpn_step-IsSound r p t s = elim (Option-cases (ovpn_reading r p)) [
  | inl e ↦ rw (ovpn_step, e) s
  | inr (cur, e) ↦ rw (ovpn_step, e) (update_peer-IsSound p.id _ (fixed-IsTame _ (λ q. refl)) t s)
]

flag_step-IsSound : (b : Bool) (p : Peer) (t : Table) → IsSound t → IsSound (flag_step b p t)
unfolding flag_step
flag_step-IsSound b p t s = elim (Bool-cases (differ b p.blocked)) [
  | inl e ↦ rw e (update_peer-IsSound p.id _ (fixed-IsTame _ (λ q. refl)) t s)
  | inr e ↦ rw e s
]

module _ (c : Clock) (fw : Firewall) (r : Readings) (now : c.Time) where
  tick_peers-IsSound :
      (ps : List Peer) (t : Table) (s : fw.State)
      → IsSound t
      → IsSound (tick_peers c fw r now ps (t, s)).0
  unfolding tick_peers tick_peer
  tick_peers-IsSound [] t s h = h
  tick_peers-IsSound (p ∷ ps) t s h = tick_peers-IsSound ps _ _ (
      flag_step-IsSound
        (effective_blocked c (ovpn_step r (wg_step r p t).0 (wg_step r p t).1).0 now)
        (ovpn_step r (wg_step r p t).0 (wg_step r p t).1).0
        (ovpn_step r (wg_step r p t).0 (wg_step r p t).1).1
        (ovpn_step-IsSound r (wg_step r p t).0 (wg_step r p t).1 (wg_step-IsSound r p t h)))

  pub enforce_tick-IsSound :
      (t : Table) (s : fw.State) → IsSound t → IsSound (enforce_tick c fw r now (t, s)).0
  unfolding enforce_tick
  enforce_tick-IsSound t s h = tick_peers-IsSound t.rows t _ h

All-keep {ℓ} :
    (P : Peer → Type ℓ) (test : Peer → Bool) (ps : List Peer) → All P ps → All P (keep test ps)
All-keep P test [] h = tt
All-keep P test (p ∷ ps) (h, hs) = elim (Bool-cases (test p)) [
  | inl e ↦ rw e (h, All-keep P test ps hs)
  | inr e ↦ rw e (All-keep P test ps hs)
]

AreDistinct-keep :
    (test : Peer → Bool) (ps : List Peer) → AreDistinct ps → AreDistinct (keep test ps)
AreDistinct-keep test [] h = tt
AreDistinct-keep test (p ∷ ps) (h, hs) = elim (Bool-cases (test p)) [
  | inl e ↦ rw e (All-keep (Apart p) test ps h, AreDistinct-keep test ps hs)
  | inr e ↦ rw e (AreDistinct-keep test ps hs)
]

AreApart-keep : (test : Peer → Bool) (ps : List Peer) → AreApart ps → AreApart (keep test ps)
AreApart-keep test [] h = tt
AreApart-keep test (p ∷ ps) (h, hs) = elim (Bool-cases (test p)) [
  | inl e ↦ rw e (All-keep (λ q. shares_ip p q ≡ false) test ps h, AreApart-keep test ps hs)
  | inr e ↦ rw e (AreApart-keep test ps hs)
]

delete_ghosts-IsSound : (us : List Text) (t : Table) → IsSound t → IsSound (delete_ghosts us t)
unfolding delete_ghosts delete_ghost
delete_ghosts-IsSound [] t s = s
delete_ghosts-IsSound (u ∷ us) t s =
    let test = λ (p : Peer). not (p.username == u && is_ghost p) in
    delete_ghosts-IsSound us (delete_ghost u t) (record {
      valid = record {
        distinct = AreDistinct-keep test t.rows s.valid.distinct;
        below = All-keep (λ p. p.id < t.next_id) test t.rows s.valid.below;
      };
      apart = AreApart-keep test t.rows s.apart;
    })

pub ghosts_command-IsSound :
    (delete : Bool) (t : Table) → IsSound t → IsSound (ghosts_command delete t)
unfolding ghosts_command
ghosts_command-IsSound true t s = delete_ghosts-IsSound (ghost_users t) t s
ghosts_command-IsSound false t s = s

IsTame-after : (f g : Peer → Peer) → IsTame f → IsTame g → IsTame (λ p. g (f p))
IsTame-after f g a b = record {
  keys = λ p. SameKeys-trans (g (f p)) (f p) p (b.keys (f p)) (a.keys p);
  ovpn = λ p. elim (b.ovpn (f p)) [
    | inr e ↦ inr e
    | inl e ↦ elim (a.ovpn p) [ inl d ↦ inl (e ∙ d) | inr d ↦ inr (e ∙ d) ]
  ];
}

IsTame-if : (b : Bool) (f : Peer → Peer) → IsTame f → IsTame (λ p. if b then f p else p)
IsTame-if true f h = h
IsTame-if false f h = fixed-IsTame _ (λ p. refl)

module _ (fl : Floats) where
  set_quota-IsTame : (v : Option fl.Float) → IsTame (set_quota fl v)
  unfolding set_quota
  set_quota-IsTame none = fixed-IsTame _ (λ p. refl)
  set_quota-IsTame (some v) = fixed-IsTame _ (λ p. refl)

  add_quota-IsTame : (v : Option fl.Float) → IsTame (add_quota fl v)
  unfolding add_quota
  add_quota-IsTame none = fixed-IsTame _ (λ p. refl)
  add_quota-IsTame (some v) = fixed-IsTame _ (λ p. refl)

  quota-IsTame :
      (f : Peer → Peer) (v u : Option fl.Float)
      → IsTame f
      → IsTame (λ p. add_quota fl u (set_quota fl v (f p)))
  quota-IsTame f v u h =
      IsTame-after (λ p. set_quota fl v (f p)) (add_quota fl u)
        (IsTame-after f (set_quota fl v) h (set_quota-IsTame v)) (add_quota-IsTame u)

  set_baseline-IsTame : (c : ResetCounters) → IsTame (set_baseline fl c)
  unfolding set_baseline
  set_baseline-IsTame c = fixed-IsTame _ (λ p. refl)

  cli_reset-IsTame : IsTame (cli_reset fl)
  unfolding cli_reset
  cli_reset-IsTame = fixed-IsTame _ (λ p. refl)

  recharged-IsTame :
      (reset : Bool) (c : ResetCounters) (m : Dict (Json fl.Float))
      → IsTame (recharged fl reset c m)
  unfolding recharged
  recharged-IsTame reset c m =
      quota-IsTame (λ p. if reset then set_baseline fl c p else p) (amount fl (lit "set_gb") m)
        (amount fl (lit "add_gb") m) (IsTame-if reset (set_baseline fl c) (set_baseline-IsTame c))

  pub recharge_peer-IsSound :
      (commits : Bool) (snapshot : Peer → Result ResetCounters) (name : Text)
      (m : Dict (Json fl.Float)) (t u : Table)
      → IsSound t
      → recharge_peer fl commits snapshot name m t ≡ ok u
      → IsSound u
  unfolding recharge_peer
  recharge_peer-IsSound commits snapshot name m t u s h = elim (Option-cases (get_peer t name)) [
    | inl q ↦ cc (rw (recharge_peer, q) at h)
    | inr (p, q) ↦ elim (Result-cases (recharge_plan fl snapshot m p)) [
      | inr (e, r) ↦ cc (rw (recharge_peer, q, r) at h)
      | inl ((reset, c), r) ↦ elim (Bool-cases commits) [
        | inr k ↦ cc (rw (recharge_peer, q, r, k) at h)
        | inl k ↦
            subst IsSound (ok_inj (rw (recharge_peer, q, r, k) at h))
              (update_peer-IsSound p.id (recharged fl reset c m) (recharged-IsTame reset c m) t s)
      ]
    ]
  ]

  pub cli_recharge-IsSound :
      (flags : Dict Text) (p : Peer) (t : Table) → IsSound t → IsSound (cli_recharge fl flags p t)
  unfolding cli_recharge
  cli_recharge-IsSound flags p t s =
      let reset : Bool = lookup_or [] (lit "reset") flags == lit "true" in
      update_peer-IsSound p.id _
        (quota-IsTame (λ q. if reset then cli_reset fl q else q)
          (cli_amount fl (lit "set-gb") flags) (cli_amount fl (lit "add-gb") flags)
          (IsTame-if reset (cli_reset fl) cli_reset-IsTame))
        t s
