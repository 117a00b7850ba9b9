-- ===== src/Migration/Transfer.antt =====
-- All users arrive on a server that has none.
use wg_manager.Base.{
  ℕ, ◌+◌, Bool, true, false, ◌||◌, List, [], ◌∷◌, ◌++◌, ◌≡◌, refl, arith, ap, ap₂, sym, ◌∙◌,
}
use wg_manager.Base.{is_empty, any, All, length, map, append_assoc, append-nil}
use wg_manager.Store.{Peer, Table, get_peer, find_user, insert_peer, clashes}
use wg_manager.Store.Laws.{Apart, AreDistinct, IsValid, clashes_comm}
use wg_manager.Recharge.{Result, ok}
use wg_manager.Migration.{
  exported, imported, migration_from_db, import_peer, import_peers, import_migration,
}

-- A table without users.
abbrev pub no_users : ℕ → Table
no_users n = record { rows = []; next_id = n }

-- The rows with new ids, from the first one on.
unfoldable pub renumber : ℕ → List Peer → List Peer
renumber n [] = []
renumber n (p ∷ ps) = record p { id = n } ∷ renumber (n + 1) ps

abbrev Free : List Peer → List Peer → Type 0
Free rows = All (λ p. any (clashes p) rows ≡ false)

any-append : (f : Peer → Bool) (xs ys : List Peer) → any f (xs ++ ys) ≡ (any f xs || any f ys)
any-append f [] ys = refl
any-append f (x ∷ xs) ys = ground (arith, any-append f xs ys)

clashes_id : (q p : Peer) (n : ℕ) → clashes q (record p { id = n }) ≡ clashes q p
unfolding clashes
clashes_id q p n = refl

Free-append :
    (rows ps : List Peer) (p : Peer) (n : ℕ)
    → Free rows ps
    → All (Apart p) ps
    → Free (rows ++ (record p { id = n } ∷ [])) ps
Free-append rows [] p n h a = tt
Free-append rows (q ∷ ps) p n (h, hs) (a, as') = (
  any-append (clashes q) rows (record p { id = n } ∷ [])
      ∙ rw (h, clashes_id q p n, clashes_comm p q a.1) refl,
  Free-append rows ps p n hs as',
)

-- A user whose name is set, and who clashes with no row, gets the next row.
import_next :
    (before n : ℕ) (p : Peer) (rows : List Peer)
    → any (clashes p) rows ≡ false
    → is_empty p.username ≡ false
    → import_peer (no_users before) (exported p) (record { rows = rows; next_id = n })
      ≡ ok (record { rows = rows ++ (record p { id = n } ∷ []); next_id = n + 1 })
unfolding import_peer exported imported get_peer find_user insert_peer
import_next before n p rows f h =
    let e : any (clashes (imported (exported p))) rows ≡ false = any-same rows ∙ f in
    rw (import_peer, h, insert_peer, e)
  where
    any-same :
        (rows : List Peer) → any (clashes (imported (exported p))) rows ≡ any (clashes p) rows
    any-same [] = refl
    any-same (q ∷ rows) = unfold clashes imported exported in ap₂ (◌||◌) refl (any-same rows)

import-exported :
    (before : ℕ) (ps rows : List Peer) (n : ℕ)
    → AreDistinct ps
    → Free rows ps
    → All (λ p. is_empty p.username ≡ false) ps
    → import_peers (no_users before) (map exported ps) (record { rows = rows; next_id = n })
      ≡ ok (record { rows = rows ++ renumber n ps; next_id = n + length ps })
unfolding import_peers renumber
import-exported before [] rows n d f h =
    ap {B = Result Table} (λ (x : List Peer × ℕ). ok (record { rows = x.0; next_id = x.1 }))
      (ap₂ (λ a b. (a, b)) (sym (append-nil rows)) (omega arith))
import-exported before (p ∷ ps) rows n (a, d) (f, fs) (h, hs) =
    rw (import_peers, import_next before n p rows f h)
      (import-exported before ps (rows ++ (record p { id = n } ∷ [])) (n + 1) d
          (Free-append rows ps p n fs a) hs
        ∙ ap {B = Result Table} (λ (x : List Peer × ℕ). ok (record { rows = x.0; next_id = x.1 }))
            (ap₂ (λ a b. (a, b))
              (append_assoc rows (record p { id = n } ∷ []) (renumber (n + 1) ps)) (omega arith)))

Free-in_empty : (ps : List Peer) → Free [] ps
Free-in_empty [] = tt
Free-in_empty (p ∷ ps) = (refl, Free-in_empty ps)

-- An export that is imported on a server without users arrives whole: every row, in order, with its
-- accounts, baselines and identities, under new ids.
pub import_migration-export :
    (t : Table) (n : ℕ)
    → IsValid t
    → All (λ p. is_empty p.username ≡ false) t.rows
    → import_migration (migration_from_db t) (no_users n)
      ≡ (record { rows = renumber n t.rows; next_id = n + length t.rows }, true)
unfolding import_migration migration_from_db
import_migration-export t n v h =
    rw (import_migration, import-exported n t.rows [] n v.distinct (Free-in_empty t.rows) h)
