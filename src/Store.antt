-- ===== src/Store.antt =====
-- The peers table (main.go): a row, the queries that read it and the statements that write it.
-- The columns created_at, updated_at and notes are written and never read, and are left out.
pub mod Laws
pub mod Map
use wg_manager.Base.{ℕ, ◌+◌, Bool, true, false, not, ◌&&◌, ◌||◌, Option, none, some, List, [], ◌∷◌}
use wg_manager.Base.{◌++◌, Text, text_eq, nat_eq, ◌==◌, if◌then◌else◌, is_empty, any, keep, map, ℤ}

pub record Peer : Type 0 where
  pub id : ℕ
  pub username : Text
  pub public_key : Text
  pub private_key : Text
  pub psk : Text
  pub address : Text
  pub quota_bytes : ℤ
  pub used_bytes : ℤ
  pub last_rx : ℤ
  pub last_tx : ℤ
  pub expires_at : Text
  pub enabled : Bool
  pub blocked : Bool
  pub ovpn_cn : Text
  pub ovpn_ip : Text
  pub ovpn_enabled : Bool
  pub used_ovpn_bytes : ℤ
  pub last_ovpn_bytes : ℤ
  pub ovpn_cert : Text
  pub ovpn_key : Text

-- The rows in the order of their ids, and the next id that AUTOINCREMENT gives.
pub record Table : Type 0 where
  pub rows : List Peer
  pub next_id : ℕ

-- `SELECT … FROM peers ORDER BY id`
abbrev pub all_peers : Table → List Peer
all_peers t = t.rows

unfoldable pub find_user : Text → List Peer → Option Peer
find_user name [] = none
find_user name (p ∷ ps) =
    let rest = find_user name ps in if p.username == name then some p else rest

-- `SELECT … FROM peers WHERE username=?`
unfoldable pub get_peer : Table → Text → Option Peer
unfolding find_user
get_peer t name = find_user name t.rows

-- `UPDATE peers SET … WHERE id=?`
unfoldable pub update_rows : ℕ → (Peer → Peer) → List Peer → List Peer
update_rows i f [] = []
update_rows i f (p ∷ ps) = (if p.id == i then f p else p) ∷ update_rows i f ps

unfoldable pub update_peer : ℕ → (Peer → Peer) → Table → Table
unfolding update_rows
update_peer i f t = record t { rows = update_rows i f t.rows }

-- `DELETE FROM peers WHERE id=?`
unfoldable pub delete_rows : ℕ → List Peer → List Peer
delete_rows i [] = []
delete_rows i (p ∷ ps) = let rest = delete_rows i ps in if p.id == i then rest else p ∷ rest

unfoldable pub delete_peer : ℕ → Table → Table
unfolding delete_rows
delete_peer i t = record t { rows = delete_rows i t.rows }

-- The unique columns: username, and public_key and address where they are not empty.
unfoldable pub clashes : Peer → Peer → Bool
clashes p q =
    p.username == q.username
    || not (is_empty p.public_key) && p.public_key == q.public_key
    || not (is_empty p.address) && p.address == q.address

-- `INSERT INTO peers(…) VALUES(…)`; `none` is a violated constraint
unfoldable pub insert_peer : Peer → Table → Option Table
unfolding clashes
insert_peer p t =
    if any (clashes p) t.rows
    then none
    else some
        (record { rows = t.rows ++ (record p { id = t.next_id } ∷ []); next_id = t.next_id + 1 })
