-- ===== src/Users/Ovpn.antt =====
-- The OpenVPN identity of a user (ovpn_pki.go).
use wg_manager.Base.{◌-◌, ◌^◌, true, false, not, none, some, List, [], ◌∷◌, ◌++◌, Text, lit}
use wg_manager.Base.{is_empty, keep, map, pos, insert, Option, Bool, Dict, if◌then◌else◌}
use wg_manager.Store.{Peer, Table, all_peers, update_peer, delete_peer}
use wg_manager.Net.{IpNet, parse_cidr, ip_string, next_ip, next_free_host, mask_to}
use wg_manager.Settings.{Config}
use wg_manager.Recharge.{Result, ok, err, ◌>>=◌}
use wg_manager.Users.{World, Outcome, remove_ccd}

-- The addresses in use: the server's, and those of the users that have one.
unfoldable pub ovpn_used : IpNet → Table → List Text
unfolding next_ip ip_string
ovpn_used n t =
    ip_string (next_ip n.ip) ∷ keep (λ ip. not (is_empty ip)) (map (λ p. p.ovpn_ip) (all_peers t))

-- `ovpnNextFreeIP`
unfoldable pub ovpn_next_free_ip : Table → Text → Result Text
unfolding ovpn_used
ovpn_next_free_ip t subnet = elim (parse_cidr subnet) [
  | none ↦ err (lit "ovpn: bad subnet")
  | some (ip, n) ↦ elim (next_free_host n (ovpn_used n t)) [
    | none ↦ err (lit "ovpn: no free IP")
    | some free ↦ ok free
  ]
]

-- `ovpnMask`
unfoldable pub ovpn_mask : Text → Result Text
ovpn_mask cidr = elim (parse_cidr cidr) [
  | none ↦ err (lit "ovpn: bad subnet")
  | some (ip, n) ↦ ok (ip_string (mask_to n.ones (2 ^ 32 - 1)))
]

unfoldable pub ccd_text : Text → Text → Text
ccd_text ip mask = lit "ifconfig-push " ++ ip ++ lit " " ++ mask ++ lit "\n"

-- `UPDATE peers SET ovpn_cn=?,ovpn_ip=?,ovpn_enabled=1,ovpn_cert=?,ovpn_key=? WHERE id=?`
unfoldable pub set_identity : Text → Text → Text → Text → Peer → Peer
set_identity cn ip cert key p = record p {
  ovpn_cn = cn;
  ovpn_ip = ip;
  ovpn_enabled = true;
  ovpn_cert = cert;
  ovpn_key = key;
}

-- What attaching needs from outside: the certificate and the key that are made for a user (the
-- authority cannot be read or made: `err`), what a failing write of a CCD file leaves of the files,
-- if it fails, and whether the database takes the UPDATE.
pub record Attaching : Type 0 where
  pub issue : Text → Result (Text × Text)
  pub write_failure : Option (Dict Text → Dict Text)
  pub takes_update : Bool

-- What `ovpnAttach` does before it writes: certificate, key, address and mask.
unfoldable pub attach_plan :
    Attaching → Config → Peer → Table → Result ((Text × Text) × (Text × Text))
unfolding ovpn_next_free_ip ovpn_mask
attach_plan k cfg p t = do
  pair ← k.issue p.username
  ip ← ovpn_next_free_ip t cfg.ovpn_subnet
  mask ← ovpn_mask cfg.ovpn_subnet
  ok (pair, (ip, mask))

-- `writeFileMode` for a CCD file
unfoldable pub write_ccd : Attaching → Text → Text → World → Outcome (Unit {0})
write_ccd k name text w = elim k.write_failure [
  | some left ↦ (record w { ccd = left w.ccd }, err (lit "ovpn: write"))
  | none ↦ (record w { ccd = insert name text w.ccd }, ok tt)
]

-- `ovpnAttach`; a failure leaves what was written before it.
unfoldable pub ovpn_attach : Attaching → Config → Peer → World → Outcome Text
unfolding attach_plan write_ccd ccd_text set_identity
ovpn_attach k cfg p w = elim (attach_plan k cfg p w.table) [
  | err e ↦ (w, err e)
  | ok ((cert, key), (ip, mask)) ↦
      let (w', written) = write_ccd k p.username (ccd_text ip mask) w in
      elim written [
        | err e ↦ (w', err e)
        | ok u ↦
            if k.takes_update
            then (
              record w' { table = update_peer p.id (set_identity p.username ip cert key) w'.table },
              ok ip,
            )
            else (w', err (lit "ovpn attach"))
      ]
]

-- `ovpnAttachNewUser`: a failure takes back the row and the CCD file.
unfoldable pub ovpn_attach_new_user : Attaching → Config → Peer → World → Outcome Text
unfolding ovpn_attach
ovpn_attach_new_user k cfg p w =
    let (w', r) = ovpn_attach k cfg p w in
    elim r [
      | ok ip ↦ (w', ok ip)
      | err e ↦ (remove_ccd cfg p.username (record w' { table = delete_peer p.id w'.table }), err e)
    ]

-- `UPDATE peers SET ovpn_cn='',… WHERE id=?`
unfoldable pub clear_identity : Peer → Peer
clear_identity p = record p {
  ovpn_cn = [];
  ovpn_ip = [];
  ovpn_enabled = false;
  ovpn_cert = [];
  ovpn_key = [];
  used_ovpn_bytes = pos 0;
  last_ovpn_bytes = pos 0;
}

-- `ovpnDetach`
unfoldable pub ovpn_detach : Config → Peer → World → World
unfolding clear_identity
ovpn_detach cfg p w =
    let w' = remove_ccd cfg p.username w in
    record w' { table = update_peer p.id clear_identity w'.table }
