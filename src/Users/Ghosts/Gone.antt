-- ===== src/Users/Ghosts/Gone.antt =====
-- What the deletion of ghost users leaves.
use wg_manager.Base.{
  Bool, true, not, ◌&&◌, ◌||◌, List, [], ◌∷◌, ◌≡◌, refl, arith, ap, sym, ◌∙◌, Text, text_eq,
}
use wg_manager.Base.{text_beq_iff, ◌==◌, keep, map, elem, All, Bool-cases, inl, inr}
use wg_manager.Store.{Peer, Table}
use wg_manager.Subnet.Plan.{sort_texts, insert_sorted}
use wg_manager.Users.Ghosts.{is_ghost, ghost_users, delete_ghost, delete_ghosts, ghosts_command}

elem-insert_sorted :
    (x a : Text) (bs : List Text) → elem x (insert_sorted a bs) ≡ (x == a || elem x bs)
unfolding insert_sorted
elem-insert_sorted x a [] = refl
elem-insert_sorted x a (b ∷ bs) = ground (arith, elem-insert_sorted x a bs)

elem-sort_texts : (x : Text) (bs : List Text) → elem x (sort_texts bs) ≡ elem x bs
unfolding sort_texts
elem-sort_texts x [] = refl
elem-sort_texts x (b ∷ bs) =
    ground (arith, elem-insert_sorted x b (sort_texts bs), elem-sort_texts x bs)

keep-keep : (p q : Peer → Bool) (ps : List Peer) → keep p (keep q ps) ≡ keep (λ x. q x && p x) ps
keep-keep p q [] = refl
keep-keep p q (x ∷ ps) = ground (arith, keep-keep p q ps)

keep-same : (p q : Peer → Bool) (ps : List Peer) → ((x : Peer) → p x ≡ q x) → keep p ps ≡ keep q ps
keep-same p q [] h = refl
keep-same p q (x ∷ ps) h = ground (arith, keep-same p q ps h, h x)

keep_all : (ps : List Peer) → keep (λ p. true) ps ≡ ps
keep_all [] = refl
keep_all (x ∷ ps) = ap (◌∷◌ x) (keep_all ps)

-- Deleting the users of a list keeps the rows that are no ghost or not listed.
rows-delete_ghosts :
    (us : List Text) (t : Table)
    → (delete_ghosts us t).rows ≡ keep (λ p. not (elem p.username us && is_ghost p)) t.rows
unfolding delete_ghosts delete_ghost
rows-delete_ghosts [] t = sym (keep_all t.rows)
rows-delete_ghosts (u ∷ us) t =
    rows-delete_ghosts us (delete_ghost u t)
    ∙ keep-keep (λ p. not (elem p.username us && is_ghost p))
        (λ p. not (p.username == u && is_ghost p)) t.rows
    ∙ keep-same _ _ t.rows (λ p. regroup (p.username == u) (elem p.username us) (is_ghost p))
  where
    regroup : (a b g : Bool) → (not (a && g) && not (b && g)) ≡ not ((a || b) && g)
    regroup a b g = ground arith

-- In a list whose ghosts are all listed, the test of the list is the test for a ghost.
keep_listed :
    (us : List Text) (ps : List Peer)
    → All (λ p. is_ghost p ≡ true → elem p.username us ≡ true) ps
    → keep (λ p. not (elem p.username us && is_ghost p)) ps ≡ keep (λ p. not (is_ghost p)) ps
keep_listed us [] h = refl
keep_listed us (p ∷ ps) (h, hs) = elim (Bool-cases (is_ghost p)) [
  | inl e ↦ rw (e, h e, keep_listed us ps hs)
  | inr e ↦ ground (arith, e, keep_listed us ps hs)
]

-- The list holds the username of every ghost among the rows.
ghosts_listed :
    (us : List Text) (ps : List Peer)
    → ((x : Text) → elem x (map (λ q. q.username) (keep is_ghost ps)) ≡ true → elem x us ≡ true)
    → All (λ p. is_ghost p ≡ true → elem p.username us ≡ true) ps
ghosts_listed us [] h = tt
ghosts_listed us (p ∷ ps) h = (
  (λ g. h p.username (ground (arith, g, text_beq_iff p.username p.username))),
  ghosts_listed us ps λ x e. h x (ground (arith, e)),
)

-- The command with `--delete` removes exactly the users without any identity.
pub rows-ghosts_command :
    (t : Table) → (ghosts_command true t).rows ≡ keep (λ p. not (is_ghost p)) t.rows
unfolding ghosts_command ghost_users
rows-ghosts_command t =
    rows-delete_ghosts (ghost_users t) t
    ∙ keep_listed (ghost_users t) t.rows (
        ghosts_listed (ghost_users t) t.rows
          λ x e. elem-sort_texts x (map (λ q. q.username) (keep is_ghost t.rows)) ∙ e)
