-- ===== src/Users/Lifecycle/Imported.antt =====
-- The imports keep the table valid: that of a migration (migration.go), and that of a WireGuard file
-- (main.go).
use wg_manager.Base.{lit, take, ◌++◌}
use wg_manager.Base.{ℕ, Bool, false, not, ◌&&◌, ◌||◌, some, List, [], ◌∷◌, ◌≡◌, refl, arith}
use wg_manager.Base.{
  Text, text_eq, nat_eq, nat_beq_iff, text_beq_iff, ◌==◌, is_empty, All, any, Bool-cases, inl, inr,
  Option-cases, subst, some_inj, Dict, ltb, length,
}
use wg_manager.Store.{Peer, Table, update_rows, clashes, get_peer, insert_peer}
use wg_manager.Store.Laws.{IsValid, AreDistinct, AreBelow, Apart, insert_peer-IsValid}
use wg_manager.Recharge.{ok, ok_inj, Result-cases}
use wg_manager.Migration.{
  MigrationPeer, overwritten, imported, update_unique, import_peer, import_peers, import_migration,
}
use wg_manager.WgConf.Import.{Legacy, Section, imported_row, import_row, flush}
use wg_manager.Users.Lifecycle.{IsSound, insert_peer-IsSound}

module _ (i : ℕ) (m : MigrationPeer) (p : Peer) where
  -- The row that is written clashes with no other row.
  abbrev clashes_other : Peer → Bool
  clashes_other q = not (q.id == i) && clashes (overwritten m p) q

  Apart-written :
      (q r : Peer) → q.id ≡ i → Apart q r → clashes_other r ≡ false → Apart (overwritten m q) r
  unfolding clashes overwritten
  Apart-written q r e (ne, c) h = (ne, ground (arith, e, ne, c, h, nat_beq_iff r.id i))

  Apart-written_right :
      (q r : Peer) → r.id ≡ i → Apart q r → clashes_other q ≡ false → Apart q (overwritten m r)
  unfolding clashes overwritten
  Apart-written_right q r e (ne, c) h = (
    ne,
    ground (
      arith,
      e,
      ne,
      c,
      h,
      nat_beq_iff q.id i,
      text_beq_iff q.public_key m.public_key,
      text_beq_iff m.public_key q.public_key,
      text_beq_iff q.address m.address,
      text_beq_iff m.address q.address,
    ),
  )

  All-written :
      (q : Peer) (ps : List Peer)
      → q.id ≡ i
      → All (Apart q) ps
      → any clashes_other ps ≡ false
      → All (Apart (overwritten m q)) (update_rows i (overwritten m) ps)
  unfolding update_rows
  All-written q [] e h c = tt
  All-written q (r ∷ ps) e (h, hs) c =
      let other : (r.id == i) ≡ false = ground (arith, e, h.0, nat_beq_iff r.id i) in
      rw other
        (Apart-written q r e h (ground (arith, c)), All-written q ps e hs (ground (arith, c)))

  All-kept :
      (q : Peer) (ps : List Peer)
      → clashes_other q ≡ false
      → All (Apart q) ps
      → All (Apart q) (update_rows i (overwritten m) ps)
  unfolding update_rows
  All-kept q [] c h = tt
  All-kept q (r ∷ ps) c (h, hs) = elim (Bool-cases (r.id == i)) [
    | inl e ↦ rw e (Apart-written_right q r ((nat_beq_iff r.id i).0 e) h c, All-kept q ps c hs)
    | inr e ↦ rw e (h, All-kept q ps c hs)
  ]

  AreDistinct-written :
      (ps : List Peer)
      → AreDistinct ps
      → any clashes_other ps ≡ false
      → AreDistinct (update_rows i (overwritten m) ps)
  unfolding update_rows
  AreDistinct-written [] h c = tt
  AreDistinct-written (q ∷ ps) (h, hs) c =
      let rest = AreDistinct-written ps hs (ground (arith, c)) in
      elim (Bool-cases (q.id == i)) [
        | inl e ↦ rw e (All-written q ps ((nat_beq_iff q.id i).0 e) h (ground (arith, c)), rest)
        | inr e ↦ rw e (All-kept q ps (ground (arith, c)) h, rest)
      ]

  AreBelow-written :
      (n : ℕ) (ps : List Peer) → AreBelow n ps → AreBelow n (update_rows i (overwritten m) ps)
  unfolding update_rows overwritten
  AreBelow-written n [] h = tt
  AreBelow-written n (q ∷ ps) (h, hs) = (ground (arith, h), AreBelow-written n ps hs)

  update_unique-IsValid :
      (t : Table) {u : Table} → IsValid t → update_unique i (overwritten m) p t ≡ some u → IsValid u
  unfolding update_unique
  update_unique-IsValid t {u} v h = elim (Bool-cases (any clashes_other t.rows)) [
    | inl e ↦ cc (rw (update_unique, e) at h)
    | inr e ↦ subst IsValid (some_inj (rw (update_unique, e) at h)) (record {
      distinct = AreDistinct-written t.rows v.distinct e;
      below = AreBelow-written t.next_id t.rows v.below;
    })
  ]

import_peer-IsValid :
    (before : Table) (m : MigrationPeer) (t u : Table)
    → IsValid t
    → import_peer before m t ≡ ok u
    → IsValid u
unfolding import_peer
import_peer-IsValid before m t u v h = elim (Bool-cases (is_empty m.username)) [
  | inl e ↦ cc (rw (import_peer, e) at h)
  | inr e ↦ elim (Option-cases (get_peer before m.username)) [
    | inr (p, g) ↦ elim (Option-cases (update_unique p.id (overwritten m) p t)) [
      | inl q ↦ cc (rw (import_peer, e, g, q) at h)
      | inr (s, q) ↦
          subst IsValid (ok_inj (rw (import_peer, e, g, q) at h))
            (update_unique-IsValid p.id m p t {u = s} v q)
    ]
    | inl g ↦ elim (Option-cases (insert_peer (imported m) t)) [
      | inl q ↦ cc (rw (import_peer, e, g, q) at h)
      | inr (s, q) ↦
          subst IsValid (ok_inj (rw (import_peer, e, g, q) at h))
            (insert_peer-IsValid (imported m) t {u = s} v q)
    ]
  ]
]

import_peers-IsValid :
    (before : Table) (ms : List MigrationPeer) (t u : Table)
    → IsValid t
    → import_peers before ms t ≡ ok u
    → IsValid u
unfolding import_peers
import_peers-IsValid before [] t u v h = subst IsValid (ok_inj h) v
import_peers-IsValid before (m ∷ ms) t u v h = elim (Result-cases (import_peer before m t)) [
  | inr (e, q) ↦ cc (rw (import_peers, q) at h)
  | inl (s, q) ↦
      import_peers-IsValid before ms s u (import_peer-IsValid before m t s v q)
        (rw (import_peers, q) at h)
]

pub import_migration-IsValid :
    (ms : List MigrationPeer) (t : Table) → IsValid t → IsValid (import_migration ms t).0
unfolding import_migration
import_migration-IsValid ms t v = elim (Result-cases (import_peers t ms t)) [
  | inr (e, q) ↦ rw (import_migration, q) v
  | inl (u, q) ↦ rw (import_migration, q) (import_peers-IsValid t ms t u v q)
]

import_row-IsSound : (p : Peer) (t : Table) → p.ovpn_ip ≡ [] → IsSound t → IsSound (import_row p t)
unfolding import_row
import_row-IsSound p t e s = elim (Option-cases (get_peer t p.username)) [
  | inr (q, g) ↦ rw (import_row, g) s
  | inl g ↦ elim (Option-cases (insert_peer p t)) [
    | inl i ↦ rw (import_row, g, i) s
    | inr (u, i) ↦ rw (import_row, g, i) (insert_peer-IsSound p t {u = u} e s i)
  ]
]

imported_row_ip :
    (legacy : Dict Legacy) (name : Text) (s : Section) → (imported_row legacy name s).ovpn_ip ≡ []
unfolding imported_row
imported_row_ip legacy name s = refl

pub flush-IsSound :
    (legacy : Dict Legacy) (s : Section) (t u : Table)
    → IsSound t
    → flush legacy s t ≡ ok u
    → IsSound u
unfolding flush
flush-IsSound legacy s t u h e = elim (Bool-cases (is_empty s.key || is_empty s.ip)) [
  | inl a ↦ subst IsSound (ok_inj (rw (flush, a) at e)) h
  | inr a ↦ elim (Bool-cases (is_empty s.name)) [
    | inr b ↦
        subst IsSound (ok_inj (rw (flush, a, b) at e))
          (import_row-IsSound (imported_row legacy s.name s) t (imported_row_ip legacy s.name s) h)
    | inl b ↦ elim (Bool-cases (ltb (length s.key) 6)) [
      | inl c ↦ cc (rw (flush, a, b, c) at e)
      | inr c ↦ subst IsSound (ok_inj (rw (flush, a, b, c) at e)) (
          import_row-IsSound (imported_row legacy (lit "peer-" ++ take 6 s.key) s) t
            (imported_row_ip legacy (lit "peer-" ++ take 6 s.key) s) h)
    ]
  ]
]
