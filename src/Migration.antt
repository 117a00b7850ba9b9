-- ===== src/Migration.antt =====
-- Moving users to another server (migration.go): the exported users, their import in one
-- transaction, and the settings that a bundle brings.
pub mod Transfer
pub mod Bundle
pub mod Archive
pub mod Ports
pub mod Restore
pub mod Commands
use wg_manager.Base.{
  ℕ, Bool, true, false, not, ◌&&◌, ◌||◌, Option, none, some, List, [], ◌∷◌, Text, lit, nat_eq, ◌==◌,
}
use wg_manager.Base.{if◌then◌else◌, is_empty, ℤ, map, any}
use wg_manager.Store.{Peer, Table, all_peers, get_peer, insert_peer, update_rows, clashes}
use wg_manager.Recharge.{Result, ok, err}

-- `migrationPeer`
pub record MigrationPeer : Type 0 where
  pub username : Text
  pub public_key : Text
  pub private_key : Text
  pub psk : Text
  pub address : Text
  pub quota_bytes : ℤ
  pub used_bytes : ℤ
  pub last_rx : ℤ
  pub last_tx : ℤ
  pub expires_at : Text
  pub enabled : Bool
  pub blocked : Bool
  pub ovpn_cn : Text
  pub ovpn_ip : Text
  pub ovpn_enabled : Bool
  pub used_ovpn_bytes : ℤ
  pub last_ovpn_bytes : ℤ
  pub ovpn_cert : Text
  pub ovpn_key : Text

unfoldable pub exported : Peer → MigrationPeer
exported p = record {
  username = p.username;
  public_key = p.public_key;
  private_key = p.private_key;
  psk = p.psk;
  address = p.address;
  quota_bytes = p.quota_bytes;
  used_bytes = p.used_bytes;
  last_rx = p.last_rx;
  last_tx = p.last_tx;
  expires_at = p.expires_at;
  enabled = p.enabled;
  blocked = p.blocked;
  ovpn_cn = p.ovpn_cn;
  ovpn_ip = p.ovpn_ip;
  ovpn_enabled = p.ovpn_enabled;
  used_ovpn_bytes = p.used_ovpn_bytes;
  last_ovpn_bytes = p.last_ovpn_bytes;
  ovpn_cert = p.ovpn_cert;
  ovpn_key = p.ovpn_key;
}

-- `migrationFromDB`
unfoldable pub migration_from_db : Table → List MigrationPeer
unfolding exported
migration_from_db t = map exported (all_peers t)

-- The columns of the UPDATE statement, which leaves the id and the username alone.
unfoldable pub overwritten : MigrationPeer → Peer → Peer
overwritten m p = record p {
  public_key = m.public_key;
  private_key = m.private_key;
  psk = m.psk;
  address = m.address;
  quota_bytes = m.quota_bytes;
  used_bytes = m.used_bytes;
  last_rx = m.last_rx;
  last_tx = m.last_tx;
  expires_at = m.expires_at;
  enabled = m.enabled;
  blocked = m.blocked;
  ovpn_cn = m.ovpn_cn;
  ovpn_ip = m.ovpn_ip;
  ovpn_enabled = m.ovpn_enabled;
  used_ovpn_bytes = m.used_ovpn_bytes;
  last_ovpn_bytes = m.last_ovpn_bytes;
  ovpn_cert = m.ovpn_cert;
  ovpn_key = m.ovpn_key;
}

-- The row of the INSERT statement.
unfoldable pub imported : MigrationPeer → Peer
imported m = record {
  id = 0;
  username = m.username;
  public_key = m.public_key;
  private_key = m.private_key;
  psk = m.psk;
  address = m.address;
  quota_bytes = m.quota_bytes;
  used_bytes = m.used_bytes;
  last_rx = m.last_rx;
  last_tx = m.last_tx;
  expires_at = m.expires_at;
  enabled = m.enabled;
  blocked = m.blocked;
  ovpn_cn = m.ovpn_cn;
  ovpn_ip = m.ovpn_ip;
  ovpn_enabled = m.ovpn_enabled;
  used_ovpn_bytes = m.used_ovpn_bytes;
  last_ovpn_bytes = m.last_ovpn_bytes;
  ovpn_cert = m.ovpn_cert;
  ovpn_key = m.ovpn_key;
}

-- An UPDATE by id, which fails if the row would share a unique column with another row.
unfoldable pub update_unique : ℕ → (Peer → Peer) → Peer → Table → Option Table
unfolding update_rows
update_unique i f p t =
    if any (λ q. not (q.id == i) && clashes (f p) q) t.rows
    then none
    else some (record t { rows = update_rows i f t.rows })

-- One round of the loop. The user is looked up in the database as it was before the transaction.
unfoldable pub import_peer : Table → MigrationPeer → Table → Result Table
unfolding update_unique overwritten imported
import_peer before m t =
    if is_empty m.username
    then err (lit "migration contains a user with empty username")
    else elim (get_peer before m.username) [
      | some p ↦ elim (update_unique p.id (overwritten m) p t) [
        | none ↦ err (lit "update")
        | some u ↦ ok u
      ]
      | none ↦ elim (insert_peer (imported m) t) [ none ↦ err (lit "insert") | some u ↦ ok u ]
    ]

unfoldable pub import_peers : Table → List MigrationPeer → Table → Result Table
unfolding import_peer
import_peers before [] t = ok t
import_peers before (m ∷ ms) t = elim (import_peer before m t) [
  | err e ↦ err e
  | ok u ↦ import_peers before ms u
]

-- `importMigration` on the decoded users; an error rolls the transaction back.
unfoldable pub import_migration : List MigrationPeer → Table → Table × Bool
unfolding import_peers
import_migration ms t = elim (import_peers t ms t) [ err e ↦ (t, false) | ok u ↦ (u, true) ]
