-- ===== src/WgConf/Import.antt =====
-- `cmdImport` (main.go): the peers of a configuration file become rows.
pub mod Rendered
use wg_manager.Base.{
  ℕ, Bool, true, false, not, ◌&&◌, ◌||◌, Option, none, some, List, [], ◌∷◌, ◌++◌, ltb, length,
}
use wg_manager.Base.{
  Text, lit, text_eq, ◌==◌, if◌then◌else◌, is_empty, trim, is_space, has_prefix, trim_prefix,
}
use wg_manager.Base.{split, take, Dict, lookup, ℤ, pos}
use wg_manager.Store.{Peer, Table, get_peer, insert_peer}
use wg_manager.Recharge.{Result, ok, err}
use wg_manager.WgConf.{after_first, before_first}

-- What has been read of one peer: `name`, `pub`, `psk` and `ip`.
pub record Section : Type 0 where
  pub name : Text
  pub key : Text
  pub psk : Text
  pub ip : Text

unfoldable pub no_section : Section
no_section = record { name = []; key = []; psk = []; ip = [] }

-- The `switch` on a line: the section that a heading closes, and the section that is open.
unfoldable pub import_line : Text → Section → Option Section × Section
unfolding no_section
import_line t s =
    if has_prefix t (lit "### Client ")
    then (some s, record no_section { name = trim is_space (trim_prefix t (lit "### Client")) })
    else if has_prefix t (lit "### wgmgr:")
    then (some s, record no_section { name = trim is_space (trim_prefix t (lit "### wgmgr:")) })
    else if t == lit "[Peer]"
    then (none, s)
    else if has_prefix t (lit "PublicKey")
    then (none, record s { key = trim is_space (after_first b'=' t) })
    else if has_prefix t (lit "PresharedKey")
    then (none, record s { psk = trim is_space (after_first b'=' t) })
    else if has_prefix t (lit "AllowedIPs")
    then (none, record s { ip = trim is_space (before_first b',' (after_first b'=' t)) })
    else (none, s)

-- A legacy record: the private key, the quota, the usage and the expiry.
pub record Legacy : Type 0 where
  pub private_key : Text
  pub quota_bytes : ℤ
  pub used_bytes : ℤ
  pub expires_at : Text

unfoldable pub legacy_of : Dict Legacy → Text → Legacy
legacy_of legacy key = elim (lookup key legacy) [
  | none ↦ record { private_key = []; quota_bytes = pos 0; used_bytes = pos 0; expires_at = [] }
  | some l ↦ l
]

-- The row that the INSERT statement writes, with the defaults of the schema.
unfoldable pub imported_row : Dict Legacy → Text → Section → Peer
unfolding legacy_of
imported_row legacy name s =
    let l = legacy_of legacy s.key in
    record {
      id = 0;
      username = name;
      public_key = s.key;
      private_key = l.private_key;
      psk = s.psk;
      address = before_first b'/' s.ip;
      quota_bytes = l.quota_bytes;
      used_bytes = l.used_bytes;
      last_rx = pos 0;
      last_tx = pos 0;
      expires_at = l.expires_at;
      enabled = true;
      blocked = false;
      ovpn_cn = [];
      ovpn_ip = [];
      ovpn_enabled = false;
      used_ovpn_bytes = pos 0;
      last_ovpn_bytes = pos 0;
      ovpn_cert = [];
      ovpn_key = [];
    }

-- `INSERT OR IGNORE`, for a name that is not taken
unfoldable pub import_row : Peer → Table → Table
import_row p t = elim (get_peer t p.username) [
  | some q ↦ t
  | none ↦ elim (insert_peer p t) [ none ↦ t | some u ↦ u ]
]

-- `flush`; a key that is too short to name a user by is an index out of range.
unfoldable pub flush : Dict Legacy → Section → Table → Result Table
unfolding imported_row import_row
flush legacy s t =
    if is_empty s.key || is_empty s.ip
    then ok t
    else if not (is_empty s.name)
    then ok (import_row (imported_row legacy s.name s) t)
    else if ltb (length s.key) 6
    then err (lit "slice bounds out of range")
    else ok (import_row (imported_row legacy (lit "peer-" ++ take 6 s.key) s) t)

-- The sections in the order in which they are closed.
unfoldable pub sections : List Text → Section → List Section
unfolding import_line
sections [] s = s ∷ []
sections (l ∷ ls) s =
    let (closed, s') = import_line (trim is_space l) s in
    elim closed [ none ↦ sections ls s' | some c ↦ c ∷ sections ls s' ]

unfoldable pub flush_all : Dict Legacy → List Section → Table → Result Table
unfolding flush
flush_all legacy [] t = ok t
flush_all legacy (s ∷ ss) t = elim (flush legacy s t) [
  | err e ↦ err e
  | ok u ↦ flush_all legacy ss u
]

-- `cmdImport`
unfoldable pub import_conf : Dict Legacy → Text → Table → Result Table
unfolding sections flush_all
import_conf legacy conf t = flush_all legacy (sections (split b'\n' conf) no_section) t
