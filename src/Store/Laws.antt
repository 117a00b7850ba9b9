-- ===== src/Store/Laws.antt =====
-- What the statements keep: ids are unique and below the next one, and the unique columns are
-- unique.
use wg_manager.Base.{ℕ, ◌+◌, ◌<◌, ◌≡◌, ◌≢◌, false}
use wg_manager.Base.{some, List, [], ◌∷◌, ◌++◌, arith, Text, text_beq_iff, ◌==◌}
use wg_manager.Base.{if◌then◌else◌, any, All, All-append, nat_eq, text_eq, text_beq}
use wg_manager.Base.{Bool-cases, inl, inr, ◌∙◌, subst, some_inj}
use wg_manager.Store.{Peer, Table, find_user, get_peer, update_rows, update_peer, delete_rows}
use wg_manager.Store.{delete_peer, clashes, insert_peer}

-- Two rows that the table's constraints allow side by side.
abbrev pub Apart : Peer → Peer → Type 0
Apart p q = (p.id ≢ q.id) × (clashes p q ≡ false)

-- No two rows share an id, a username, a key or an address.
abbrev pub AreDistinct : List Peer → Type 0
AreDistinct [] = Unit
AreDistinct (p ∷ ps) = All (Apart p) ps × AreDistinct ps

abbrev pub AreBelow : ℕ → List Peer → Type 0
AreBelow n = All (λ p. p.id < n)

pub record IsValid (t : Table) : Type 0 where
  pub distinct : AreDistinct t.rows
  pub below : AreBelow t.next_id t.rows

-- The same id and the same unique columns.
abbrev pub SameKeys : Peer → Peer → Type 0
SameKeys q p =
    (q.id ≡ p.id)
    × (q.username ≡ p.username)
    × (q.public_key ≡ p.public_key)
    × (q.address ≡ p.address)

pub SameKeys-trans : (r q p : Peer) → SameKeys r q → SameKeys q p → SameKeys r p
SameKeys-trans r q p (a, b, c, d) (a', b', c', d') = (a ∙ a', b ∙ b', c ∙ c', d ∙ d')

-- An update that leaves the id and the unique columns alone.
abbrev pub KeepsKeys : (Peer → Peer) → Type 0
KeepsKeys f = (p : Peer) → SameKeys (f p) p

module _ (i : ℕ) (f : Peer → Peer) (same : KeepsKeys f) where
  Apart-update_rows :
      (p : Peer) (ps : List Peer) → All (Apart p) ps → All (Apart p) (update_rows i f ps)
  unfolding update_rows clashes
  Apart-update_rows p [] h = tt
  Apart-update_rows p (q ∷ ps) h = (ground (arith, same q), Apart-update_rows p ps h.1)

  Apart-updated : (p : Peer) (ps : List Peer) → All (Apart p) ps → All (Apart (f p)) ps
  unfolding clashes
  Apart-updated p [] h = tt
  Apart-updated p (q ∷ ps) h = (ground (arith, same p), Apart-updated p ps h.1)

  AreDistinct-update_rows : (ps : List Peer) → AreDistinct ps → AreDistinct (update_rows i f ps)
  unfolding update_rows
  AreDistinct-update_rows [] h = tt
  AreDistinct-update_rows (p ∷ ps) (h, hs) = ground (
    arith,
    AreDistinct-update_rows ps hs,
    Apart-update_rows p ps h,
    Apart-update_rows (f p) ps (Apart-updated p ps h),
  )

  AreBelow-update_rows : (n : ℕ) (ps : List Peer) → AreBelow n ps → AreBelow n (update_rows i f ps)
  unfolding update_rows
  AreBelow-update_rows n [] h = tt
  AreBelow-update_rows n (p ∷ ps) (h, hs) = (ground (arith, same p), AreBelow-update_rows n ps hs)

  pub update_peer-IsValid : (t : Table) → IsValid t → IsValid (update_peer i f t)
  unfolding update_peer
  update_peer-IsValid t v = record {
    distinct = AreDistinct-update_rows t.rows v.distinct;
    below = AreBelow-update_rows t.next_id t.rows v.below;
  }

pub All-delete_rows {ℓ} :
    (P : Peer → Type ℓ) (i : ℕ) (ps : List Peer) → All P ps → All P (delete_rows i ps)
unfolding delete_rows
All-delete_rows P i [] h = tt
All-delete_rows P i (p ∷ ps) (h, hs) = ground (arith, All-delete_rows P i ps hs)

AreDistinct-delete_rows : (i : ℕ) (ps : List Peer) → AreDistinct ps → AreDistinct (delete_rows i ps)
unfolding delete_rows
AreDistinct-delete_rows i [] h = tt
AreDistinct-delete_rows i (p ∷ ps) (h, hs) =
    ground (arith, AreDistinct-delete_rows i ps hs, All-delete_rows (Apart p) i ps h)

pub delete_peer-IsValid : (i : ℕ) (t : Table) → IsValid t → IsValid (delete_peer i t)
unfolding delete_peer
delete_peer-IsValid i t v = record {
  distinct = AreDistinct-delete_rows i t.rows v.distinct;
  below = All-delete_rows (λ p. p.id < t.next_id) i t.rows v.below;
}

text_beq_comm : (a b : Text) → text_beq a b ≡ text_beq b a
text_beq_comm a b = ground (arith, text_beq_iff a b, text_beq_iff b a)

pub clashes_comm : (p q : Peer) → clashes p q ≡ false → clashes q p ≡ false
unfolding clashes
clashes_comm p q h = ground (
  arith,
  text_beq_iff p.username q.username,
  text_beq_iff q.username p.username,
  text_beq_iff p.public_key q.public_key,
  text_beq_iff q.public_key p.public_key,
  text_beq_iff p.address q.address,
  text_beq_iff q.address p.address,
)

Apart-last :
    (p q : Peer) (ps : List Peer) → All (Apart p) ps → Apart p q → All (Apart p) (ps ++ (q ∷ []))
Apart-last p q ps h a = All-append (Apart p) ps (q ∷ []) h (a, tt)

AreDistinct-last :
    (ps : List Peer) (q : Peer)
    → AreDistinct ps
    → All (λ p. Apart p q) ps
    → AreDistinct (ps ++ (q ∷ []))
AreDistinct-last [] q h a = (tt, tt)
AreDistinct-last (p ∷ ps) q (h, hs) (a, as') = (Apart-last p q ps h a, AreDistinct-last ps q hs as')

fits_after :
    (q : Peer) (n : ℕ) (ps : List Peer)
    → AreBelow n ps
    → any (clashes q) ps ≡ false
    → All (λ p. Apart p (record q { id = n })) ps
fits_after q n [] b h = tt
fits_after q n (p ∷ ps) (b, bs) h = (
  (λ e. omega arith, unfold clashes in clashes_comm (record q { id = n }) p (ground arith)),
  fits_after q n ps bs (ground arith),
)

AreBelow-suc : (n : ℕ) (ps : List Peer) → AreBelow n ps → AreBelow (n + 1) ps
AreBelow-suc n [] h = tt
AreBelow-suc n (p ∷ ps) (h, hs) = (omega arith, AreBelow-suc n ps hs)

inserted-IsValid :
    (p : Peer) (t : Table)
    → IsValid t
    → any (clashes p) t.rows ≡ false
    → IsValid
        (record { rows = t.rows ++ (record p { id = t.next_id } ∷ []); next_id = t.next_id + 1 })
inserted-IsValid p t v fresh = record {
  distinct = AreDistinct-last t.rows _ v.distinct (fits_after p t.next_id t.rows v.below fresh);
  below =
      All-append (λ q. q.id < t.next_id + 1) t.rows _ (AreBelow-suc t.next_id t.rows v.below)
        (omega arith, tt);
}

-- An accepted insert keeps the table valid.
pub insert_peer-IsValid :
    (p : Peer) (t : Table) {u : Table} → IsValid t → insert_peer p t ≡ some u → IsValid u
unfolding insert_peer
insert_peer-IsValid p t {u} v e = elim (Bool-cases (any (clashes p) t.rows)) [
  | inl taken ↦ ground arith
  | inr fresh ↦ subst IsValid (some_inj (rw fresh at e)) (inserted-IsValid p t v fresh)
]

-- The rows change at one id only.
pub find_user-update_rows :
    (i : ℕ) (f : Peer → Peer) (name : Text) (ps : List Peer) {p : Peer}
    → KeepsKeys f
    → find_user name ps ≡ some p
    → find_user name (update_rows i f ps) ≡ some (if p.id == i then f p else p)
unfolding find_user update_rows
find_user-update_rows i f name [] same e = cc
find_user-update_rows i f name (q ∷ ps) {p} same e =
    ground (arith, same q, find_user-update_rows i f name ps {p = p} same)

-- A statement for the row of a user changes what `getPeer` then finds for that user.
pub get_peer-update_peer :
    (f : Peer → Peer) (name : Text) (t : Table) {p : Peer}
    → KeepsKeys f
    → get_peer t name ≡ some p
    → get_peer (update_peer p.id f t) name ≡ some (f p)
unfolding get_peer update_peer
get_peer-update_peer f name t {p} same e =
    find_user-update_rows p.id f name t.rows same e ∙ ground arith

pub find_user-username :
    (name : Text) (ps : List Peer) {p : Peer} → find_user name ps ≡ some p → p.username ≡ name
unfolding find_user
find_user-username name [] e = cc
find_user-username name (q ∷ ps) {p} e =
    ground (arith, text_beq_iff q.username name, find_user-username name ps {p = p})
