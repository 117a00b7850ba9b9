-- ===== src/Users/Ghosts.antt =====
-- Users without any identity (ghosts.go).
pub mod Gone
use wg_manager.Base.{
  ℕ, Bool, true, false, not, ◌&&◌, List, [], ◌∷◌, Text, text_eq, ◌==◌, if◌then◌else◌, is_empty,
}
use wg_manager.Base.{keep, map}
use wg_manager.Store.{Peer, Table, all_peers}
use wg_manager.Subnet.Plan.{sort_texts}

-- The WHERE clause of both statements.
unfoldable pub is_ghost : Peer → Bool
is_ghost p = is_empty p.public_key && is_empty p.ovpn_cn

-- `ghostUsers`
unfoldable pub ghost_users : Table → List Text
unfolding is_ghost
ghost_users t = sort_texts (map (λ p. p.username) (keep is_ghost (all_peers t)))

-- `DELETE FROM peers WHERE username=? AND …`
unfoldable pub delete_ghost : Text → Table → Table
delete_ghost name t = record t { rows = keep (λ p. not (p.username == name && is_ghost p)) t.rows }

unfoldable pub delete_ghosts : List Text → Table → Table
unfolding delete_ghost
delete_ghosts [] t = t
delete_ghosts (u ∷ us) t = delete_ghosts us (delete_ghost u t)

-- `cmdGhostUsers`; the flag is `--delete`.
unfoldable pub ghosts_command : Bool → Table → Table
unfolding delete_ghosts ghost_users
ghosts_command delete t = if delete then delete_ghosts (ghost_users t) t else t
