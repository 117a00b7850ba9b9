-- ===== src/Users/Lifecycle.antt =====
-- What every command keeps: the unique columns, and OpenVPN addresses that no two users share.
pub mod Kept
pub mod Handlers
pub mod Accounts
pub mod Fields
pub mod Imported
pub mod Reach
pub mod Sound
use wg_manager.Base.{
  ℕ, Bool, true, false, not, ◌&&◌, List, [], ◌∷◌, ◌++◌, ◌≡◌, ◌≢◌, refl, arith, ◌⊎◌, inl, inr,
}
use wg_manager.Base.{
  Text, text_eq, text_beq, text_beq_iff, ◌==◌, if◌then◌else◌, is_empty, All, All-append, Bool-cases,
  elem, map, keep, some_inj, subst,
}
use wg_manager.Base.{some, none, nat_eq, any}
use wg_manager.Store.{
  Peer, Table, update_rows, update_peer, delete_rows, delete_peer, insert_peer, clashes,
}
use wg_manager.Store.Laws.{
  IsValid, AreDistinct, Apart, KeepsKeys, SameKeys, update_peer-IsValid, delete_peer-IsValid,
  insert_peer-IsValid, All-delete_rows,
}

-- Both have an OpenVPN address, and it is the same.
abbrev pub shares_ip : Peer → Peer → Bool
shares_ip p q = not (is_empty p.ovpn_ip) && p.ovpn_ip == q.ovpn_ip

abbrev pub AreApart : List Peer → Type 0
AreApart [] = Unit
AreApart (p ∷ ps) = All (λ q. shares_ip p q ≡ false) ps × AreApart ps

pub record IsSound (t : Table) : Type 0 where
  pub valid : IsValid t
  pub apart : AreApart t.rows

-- An update that leaves the unique columns alone, and keeps the OpenVPN address or clears it.
pub record IsTame (f : Peer → Peer) : Type 0 where
  pub keys : KeepsKeys f
  pub ovpn : (p : Peer) → ((f p).ovpn_ip ≡ p.ovpn_ip) ⊎ ((f p).ovpn_ip ≡ [])

module _ (i : ℕ) (f : Peer → Peer) (tame : IsTame f) where
  shares_ip-moved_right : (p q : Peer) → shares_ip p q ≡ false → shares_ip p (f q) ≡ false
  shares_ip-moved_right p q h = elim (tame.ovpn q) [
    | inl e ↦ rw e h
    | inr e ↦ rw e (ground (arith, text_beq_iff p.ovpn_ip []))
  ]

  shares_ip-moved_left : (p q : Peer) → shares_ip p q ≡ false → shares_ip (f p) q ≡ false
  shares_ip-moved_left p q h = elim (tame.ovpn p) [ inl e ↦ rw e h | inr e ↦ rw e ]

  All-update_rows :
      (p : Peer) (ps : List Peer)
      → All (λ q. shares_ip p q ≡ false) ps
      → All (λ q. shares_ip p q ≡ false) (update_rows i f ps)
  unfolding update_rows
  All-update_rows p [] h = tt
  All-update_rows p (q ∷ ps) (h, hs) = elim (Bool-cases (q.id == i)) [
    | inl e ↦ rw e (shares_ip-moved_right p q h, All-update_rows p ps hs)
    | inr e ↦ rw e (h, All-update_rows p ps hs)
  ]

  All-moved :
      (p : Peer) (ps : List Peer)
      → All (λ q. shares_ip p q ≡ false) ps
      → All (λ q. shares_ip (f p) q ≡ false) ps
  All-moved p [] h = tt
  All-moved p (q ∷ ps) (h, hs) = (shares_ip-moved_left p q h, All-moved p ps hs)

  AreApart-update_rows : (ps : List Peer) → AreApart ps → AreApart (update_rows i f ps)
  unfolding update_rows
  AreApart-update_rows [] h = tt
  AreApart-update_rows (p ∷ ps) (h, hs) = elim (Bool-cases (p.id == i)) [
    | inl e ↦ rw e (All-update_rows (f p) ps (All-moved p ps h), AreApart-update_rows ps hs)
    | inr e ↦ rw e (All-update_rows p ps h, AreApart-update_rows ps hs)
  ]

  pub update_peer-IsSound : (t : Table) → IsSound t → IsSound (update_peer i f t)
  unfolding update_peer
  update_peer-IsSound t s = record {
    valid = update_peer-IsValid i f tame.keys t s.valid;
    apart = AreApart-update_rows t.rows s.apart;
  }

AreApart-delete_rows : (i : ℕ) (ps : List Peer) → AreApart ps → AreApart (delete_rows i ps)
unfolding delete_rows
AreApart-delete_rows i [] h = tt
AreApart-delete_rows i (p ∷ ps) (h, hs) =
    ground
      (arith, AreApart-delete_rows i ps hs, All-delete_rows (λ q. shares_ip p q ≡ false) i ps h)

pub delete_peer-IsSound : (i : ℕ) (t : Table) → IsSound t → IsSound (delete_peer i t)
unfolding delete_peer
delete_peer-IsSound i t s = record {
  valid = delete_peer-IsValid i t s.valid;
  apart = AreApart-delete_rows i t.rows s.apart;
}

-- A row without an OpenVPN address at the end.
AreApart-last :
    (ps : List Peer) (q : Peer) → q.ovpn_ip ≡ [] → AreApart ps → AreApart (ps ++ (q ∷ []))
AreApart-last [] q e h = (tt, tt)
AreApart-last (p ∷ ps) q e (h, hs) = (
  All-append (λ r. shares_ip p r ≡ false) ps (q ∷ []) h
      (ground (arith, e, text_beq_iff p.ovpn_ip q.ovpn_ip), tt),
  AreApart-last ps q e hs,
)

pub insert_peer-IsSound :
    (p : Peer) (t : Table) {u : Table}
    → p.ovpn_ip ≡ []
    → IsSound t
    → insert_peer p t ≡ some u
    → IsSound u
unfolding insert_peer
insert_peer-IsSound p t {u} e s h = record {
  valid = insert_peer-IsValid p t s.valid h;
  apart = elim (Bool-cases (any (clashes p) t.rows)) [
    | inl q ↦ cc (rw q at h)
    | inr q ↦
        subst (λ (x : Table). AreApart x.rows) (some_inj (rw q at h))
          (AreApart-last t.rows (record p { id = t.next_id }) e s.apart)
  ];
}
