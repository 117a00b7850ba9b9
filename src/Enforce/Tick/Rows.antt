-- ===== src/Enforce/Tick/Rows.antt =====
-- What a pass writes to the table: each row on its own.
use wg_manager.Base.{ℕ, Bool, differ, differ-eq-false, none, some, List, [], ◌∷◌, ◌++◌, ◌≡◌, ◌≢◌}
use wg_manager.Base.{refl, ◌∙◌, sym, arith, subst, All, map, append_assoc}
use wg_manager.Base.{Option-cases, Bool-cases, inl, inr, nat_eq, All-append}
use wg_manager.Store.{Peer, Table, update_rows, update_peer}
use wg_manager.Store.Laws.{Apart, AreDistinct, IsValid}
use wg_manager.Enforce.{Clock, effective_blocked}
use wg_manager.Enforce.Firewall.{Firewall}
use wg_manager.Enforce.Tick.{Readings, wg_reading, ovpn_reading, add_wg, add_ovpn, wg_step}
use wg_manager.Enforce.Tick.{ovpn_step, flag_step, tick_peer, tick_peers, enforce_tick}

-- The accounts of one user after a pass.
unfoldable pub count_wg : Readings → Peer → Peer
count_wg r p = elim (wg_reading r p) [ none ↦ p | some cur ↦ add_wg cur p ]

unfoldable pub count_ovpn : Readings → Peer → Peer
count_ovpn r p = elim (ovpn_reading r p) [ none ↦ p | some cur ↦ add_ovpn cur p ]

unfoldable pub counted : Readings → Peer → Peer
unfolding count_wg count_ovpn
counted r p = count_ovpn r (count_wg r p)

-- The whole row after a pass.
unfoldable pub settle : (c : Clock) → Readings → c.Time → Peer → Peer
unfolding counted
settle c r now p = let q = counted r p in record q { blocked = effective_blocked c q now }

abbrev IsFresh : ℕ → List Peer → Type 0
IsFresh i = All (λ q. q.id ≢ i)

update_rows-IsFresh :
    (i : ℕ) (f : Peer → Peer) (m : List Peer) → IsFresh i m → update_rows i f m ≡ m
unfolding update_rows
update_rows-IsFresh i f [] h = refl
update_rows-IsFresh i f (q ∷ m) (h, hs) = ground (arith, update_rows-IsFresh i f m hs)

-- An update by id changes the one row that has the id.
update_rows-at :
    (f : Peer → Peer) (l : List Peer) (p : Peer) (m : List Peer) (i : ℕ)
    → p.id ≡ i
    → IsFresh i l
    → IsFresh i m
    → update_rows i f (l ++ (p ∷ m)) ≡ l ++ (f p ∷ m)
unfolding update_rows
update_rows-at f [] p m i e hl hm = ground (arith, update_rows-IsFresh i f m hm)
update_rows-at f (q ∷ l) p m i e (h, hl) hm = ground (arith, update_rows-at f l p m i e hl hm)

module _ (l m : List Peer) (i : ℕ) (hl : IsFresh i l) (hm : IsFresh i m) where
  -- The table holds this row, between rows with other ids.
  abbrev Holds : Peer → Table → Type 0
  Holds p t = (t.rows ≡ l ++ (p ∷ m)) × (p.id ≡ i)

  update_peer-Holds :
      (f : Peer → Peer) (p : Peer) (t : Table)
      → Holds p t
      → (f p).id ≡ i
      → Holds (f p) (update_peer p.id f t)
  unfolding update_peer
  update_peer-Holds f p t (e, k) k' = (cc (update_rows-at f l p m i k hl hm), k')

  wg_step-Holds :
      (r : Readings) (p : Peer) (t : Table)
      → Holds p t
      → Holds (count_wg r p) (wg_step r p t).1 × ((wg_step r p t).0 ≡ count_wg r p)
  unfolding wg_step count_wg add_wg
  wg_step-Holds r p t h = elim (Option-cases (wg_reading r p)) [
    | inl e ↦ rw (e, wg_step, count_wg) (h, refl)
    | inr (cur, e) ↦ rw (e, wg_step, count_wg) (update_peer-Holds _ p t h h.1, refl)
  ]

  ovpn_step-Holds :
      (r : Readings) (p : Peer) (t : Table)
      → Holds p t
      → Holds (count_ovpn r p) (ovpn_step r p t).1 × ((ovpn_step r p t).0 ≡ count_ovpn r p)
  unfolding ovpn_step count_ovpn add_ovpn
  ovpn_step-Holds r p t h = elim (Option-cases (ovpn_reading r p)) [
    | inl e ↦ rw (e, ovpn_step, count_ovpn) (h, refl)
    | inr (cur, e) ↦ rw (e, ovpn_step, count_ovpn) (update_peer-Holds _ p t h h.1, refl)
  ]

  -- The flag is written only where it differs.
  unchanged-Holds :
      (b : Bool) (p : Peer) (t : Table)
      → p.blocked ≡ b
      → Holds p t
      → Holds (record p { blocked = b }) t
  unchanged-Holds b p t e h = subst (λ (x : Peer). Holds x t) (λ j. record p { blocked = e j }) h

  flag_step-Holds :
      (b : Bool) (p : Peer) (t : Table)
      → Holds p t
      → Holds (record p { blocked = b }) (flag_step b p t)
  unfolding flag_step
  flag_step-Holds b p t h = elim (Bool-cases (differ b p.blocked)) [
    | inl e ↦ rw (flag_step, e) (update_peer-Holds (λ q. record q { blocked = b }) p t h h.1)
    | inr e ↦ rw (flag_step, e) (unchanged-Holds b p t (differ-eq-false b p.blocked e) h)
  ]

  tick_peer-Holds :
      (c : Clock) (fw : Firewall) (r : Readings) (now : c.Time) (p : Peer) (t : Table)
      (s : fw.State)
      → Holds p t
      → Holds (settle c r now p) (tick_peer c fw r now p (t, s)).0
  unfolding tick_peer settle counted
  tick_peer-Holds c fw r now p t s h =
      let (h1, e1) = wg_step-Holds r p t h in
      let (h2, e2) = ovpn_step-Holds r (count_wg r p) (wg_step r p t).1 h1 in
      rw (e1, e2) (flag_step-Holds (effective_blocked c (counted r p) now) (counted r p) _ h2)

Apart-IsFresh : (p : Peer) (i : ℕ) (m : List Peer) → p.id ≡ i → All (Apart p) m → IsFresh i m
Apart-IsFresh p i [] e h = tt
Apart-IsFresh p i (q ∷ m) e (h, hs) = ((λ k. h.0 (e ∙ sym k)), Apart-IsFresh p i m e hs)

module _ (c : Clock) (fw : Firewall) (r : Readings) (now : c.Time) where
  -- What is settled before them leaves the rows behind fresh.
  IsFresh-settled :
      (p q : Peer) (l m : List Peer)
      → q.id ≡ p.id
      → All (Apart p) m
      → All (λ x. IsFresh x.id l) m
      → All (λ x. IsFresh x.id (l ++ (q ∷ []))) m
  IsFresh-settled p q l [] e a h = tt
  IsFresh-settled p q l (x ∷ m) e (a, as') (h, hs) = (
    All-append (λ y. y.id ≢ x.id) l (q ∷ []) h ((λ k. a.0 (sym e ∙ k)), tt),
    IsFresh-settled p q l m e as' hs,
  )

  tick_peers-rows :
      (l m : List Peer) (t : Table) (s : fw.State)
      → t.rows ≡ l ++ m
      → AreDistinct m
      → All (λ x. IsFresh x.id l) m
      → (tick_peers c fw r now m (t, s)).0.rows ≡ l ++ map (settle c r now) m
  unfolding tick_peers
  tick_peers-rows l [] t s e d f = e
  tick_peers-rows l (p ∷ m) t s e (a, d) (f, fs) =
      let q = settle c r now p in
      let (t', s') = tick_peer c fw r now p (t, s) in
      let (e', k) =
        tick_peer-Holds l m p.id f (Apart-IsFresh p p.id m refl a) c fw r now p t s (e, refl) in
      tick_peers-rows (l ++ (q ∷ [])) m t' s' (e' ∙ sym (append_assoc l (q ∷ []) m)) d
        (IsFresh-settled p q l m k a fs)
      ∙ append_assoc l (q ∷ []) (map (settle c r now) m)

  rows-IsFresh : (m : List Peer) → All (λ x. IsFresh x.id []) m
  rows-IsFresh [] = tt
  rows-IsFresh (x ∷ m) = (tt, rows-IsFresh m)

  -- A pass turns every row into its settled form, and adds and drops none.
  pub enforce_tick-rows :
      (t : Table) (s : fw.State)
      → IsValid t
      → (enforce_tick c fw r now (t, s)).0.rows ≡ map (settle c r now) t.rows
  unfolding enforce_tick
  enforce_tick-rows t s v = tick_peers-rows [] t.rows t _ refl v.distinct (rows-IsFresh t.rows)
