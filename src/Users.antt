-- ===== src/Users.antt =====
-- The life of a user: what the panel (api.go) and the command line (main.go, ovpn_pki.go, ghosts.go)
-- do to the table, the CCD directory of OpenVPN and the WireGuard file.
pub mod Ovpn
pub mod Panel
pub mod Cli
pub mod Listing
pub mod Lifecycle
pub mod Ghosts
pub mod Removed
pub mod Fresh
use wg_manager.Base.{
  ℕ, Bool, true, false, not, List, [], ◌∷◌, ◌++◌, Text, lit, if◌then◌else◌, is_empty, ℤ, pos,
}
use wg_manager.Base.{Dict, erase, none, some}
use wg_manager.Store.{Peer, Table, get_peer}
use wg_manager.Settings.{Config}
use wg_manager.Recharge.{Result, ok, err}
use wg_manager.WgConf.{render_conf}

-- The table, the CCD files by name, the WireGuard file and the keys of the running interface.
pub record World : Type 0 where
  pub table : Table
  pub ccd : Dict Text
  pub conf : Text
  pub live : List Text

-- What a command leaves, and how it ends; a `die` leaves what was written before it.
abbrev pub Outcome : Type 0 → Type 0
Outcome A = World × Result A

-- `ovpnRemoveCCD`
unfoldable pub remove_ccd : Config → Text → World → World
unfolding erase
remove_ccd cfg name w =
    if is_empty cfg.ovpn_dir
    then w
    else if is_empty name
    then w
    else record w { ccd = erase name w.ccd }

-- `renderConf`; without a WireGuard file there is nothing to render.
unfoldable pub render : Config → Bool → World → Outcome (Unit {0})
unfolding render_conf
render cfg force w =
    if is_empty cfg.wg_conf then (w, ok tt) else elim (render_conf force w.live w.table w.conf) [
      | err e ↦ (w, err e)
      | ok conf ↦ (record w { conf = conf }, ok tt)
    ]

-- The row of the INSERT statements for a new user, with the defaults of the schema.
unfoldable pub new_row : Text → Text → Text → Text → Text → ℤ → Text → Peer
new_row username key private psk address quota expires = record {
  id = 0;
  username = username;
  public_key = key;
  private_key = private;
  psk = psk;
  address = address;
  quota_bytes = quota;
  used_bytes = pos 0;
  last_rx = pos 0;
  last_tx = pos 0;
  expires_at = expires;
  enabled = true;
  blocked = false;
  ovpn_cn = [];
  ovpn_ip = [];
  ovpn_enabled = false;
  used_ovpn_bytes = pos 0;
  last_ovpn_bytes = pos 0;
  ovpn_cert = [];
  ovpn_key = [];
}

-- `mustPeer`
unfoldable pub must_peer : Text → World → Result Peer
unfolding get_peer
must_peer name w = elim (get_peer w.table name) [ none ↦ err (lit "no such user") | some p ↦ ok p ]
