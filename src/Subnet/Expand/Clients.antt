-- ===== src/Subnet/Expand/Clients.antt =====
-- What the expansion of the OpenVPN pool does to the clients.
use wg_manager.Base.{false, ◌||◌, Option, none, some, List, [], ◌∷◌, ◌≡◌, refl, arith, ap, sym, ◌∙◌}
use wg_manager.Base.{
  Text, text_eq, text_beq_iff, ◌==◌, if◌then◌else◌, is_empty, Dict, lookup, insert, lookup-insert,
  All,
}
use wg_manager.Base.{Bool-cases, Option-cases, inl, inr}
use wg_manager.Store.{Peer, find_user, get_peer, all_peers, clashes}
use wg_manager.Store.Laws.{IsValid, AreDistinct, Apart}
use wg_manager.Settings.{Config}
use wg_manager.Recharge.{ok}
use wg_manager.WgConf.Rewrite.{rewrite_ovpn_server_line}
use wg_manager.Users.Ovpn.{ovpn_mask, ccd_text}
use wg_manager.Subnet.Expand.{
  Host, Tools, Outcome, rewrite_ccds, expand_openvpn, sync_unit_conf, widen_firewall, write_openvpn,
  finish_openvpn,
}
use wg_manager.Users.{World}

-- The CCD file of a name: one that is missing stays missing, and one of a user with an identity has
-- the user's address and the new mask.
abbrev pub widened_ccd : Text → Option Peer → Option Text → Option Text
widened_ccd mask p none = none
widened_ccd mask none (some old) = some old
widened_ccd mask (some p) (some old) =
    if is_empty p.ovpn_cn || is_empty p.ovpn_ip then some old else some (ccd_text p.ovpn_ip mask)

-- One round of the loop.
abbrev ccd_step : Text → Peer → Dict Text → Dict Text
ccd_step mask p ccd =
    if is_empty p.ovpn_cn || is_empty p.ovpn_ip then ccd else elim (lookup p.username ccd) [
      | none ↦ ccd
      | some old ↦ insert p.username (ccd_text p.ovpn_ip mask) ccd
    ]

find_user-Apart :
    (p : Peer) (name : Text) (ps : List Peer)
    → p.username ≡ name
    → All (Apart p) ps
    → find_user name ps ≡ none
unfolding find_user clashes
find_user-Apart p name [] e h = refl
find_user-Apart p name (q ∷ ps) e (h, hs) = ground (
  arith,
  h,
  e,
  find_user-Apart p name ps e hs,
  text_beq_iff p.username q.username,
  text_beq_iff q.username name,
)

lookup-ccd_step-other :
    (mask name : Text) (p : Peer) (ccd : Dict Text)
    → (p.username == name) ≡ false
    → lookup name (ccd_step mask p ccd) ≡ lookup name ccd
lookup-ccd_step-other mask name p ccd e =
    ground (arith, e, lookup-insert p.username name (ccd_text p.ovpn_ip mask) ccd)

lookup-ccd_step-own :
    (mask name : Text) (p : Peer) (ccd : Dict Text)
    → p.username ≡ name
    → lookup name (ccd_step mask p ccd) ≡ widened_ccd mask (some p) (lookup name ccd)
lookup-ccd_step-own mask name p ccd e = ground (
  arith,
  e,
  text_beq_iff p.username name,
  lookup-insert p.username name (ccd_text p.ovpn_ip mask) ccd,
)

widened_ccd-none : (mask : Text) (o : Option Text) → widened_ccd mask none o ≡ o
widened_ccd-none mask none = refl
widened_ccd-none mask (some old) = refl

lookup-rewrite_ccds :
    (mask name : Text) (ps : List Peer) (ccd : Dict Text)
    → AreDistinct ps
    → lookup name (rewrite_ccds mask ps ccd)
      ≡ widened_ccd mask (find_user name ps) (lookup name ccd)
unfolding rewrite_ccds find_user
lookup-rewrite_ccds mask name [] ccd d = sym (widened_ccd-none mask (lookup name ccd))
lookup-rewrite_ccds mask name (p ∷ ps) ccd (a, d) = elim (Bool-cases (p.username == name)) [
  | inl e ↦
      let own : p.username ≡ name = (text_beq_iff p.username name).0 e in
      rw e (
        lookup-rewrite_ccds mask name ps (ccd_step mask p ccd) d
        ∙ ap (λ (o : Option Peer). widened_ccd mask o (lookup name (ccd_step mask p ccd)))
            (find_user-Apart p name ps own a)
        ∙ widened_ccd-none mask (lookup name (ccd_step mask p ccd))
        ∙ lookup-ccd_step-own mask name p ccd own)
  | inr e ↦ rw e (
      lookup-rewrite_ccds mask name ps (ccd_step mask p ccd) d
      ∙ ap (widened_ccd mask (find_user name ps)) (lookup-ccd_step-other mask name p ccd e))
]

sync_unit_conf-world : (cfg : Config) (h : Host) → (sync_unit_conf cfg h).world ≡ h.world
unfolding sync_unit_conf
sync_unit_conf-world cfg h = ground arith

widen_firewall-world :
    (k : Tools) (old new : Text) (h : Host) → (widen_firewall k old new h).world ≡ h.world
unfolding widen_firewall
widen_firewall-world k old new h = ground arith

widen_firewall-config :
    (k : Tools) (old new : Text) (h : Host) → (widen_firewall k old new h).config ≡ h.config
unfolding widen_firewall
widen_firewall-config k old new h = ground arith

write_openvpn-world :
    (cfg : Config) (text out : Text) (h : Host) → (write_openvpn cfg text out h).world ≡ h.world
unfolding write_openvpn
write_openvpn-world cfg text out h =
    sync_unit_conf-world cfg (record h { backups = text ∷ h.backups; server_conf = some out })

finish_openvpn-world :
    (k : Tools) (cfg : Config) (old mask : Text) (h : Host)
    → (finish_openvpn k cfg old mask h).world
      ≡ record h.world { ccd = rewrite_ccds mask (all_peers h.world.table) h.world.ccd }
unfolding finish_openvpn
finish_openvpn-world k cfg old mask h = widen_firewall-world k old cfg.ovpn_subnet (record h {
  world = record h.world { ccd = rewrite_ccds mask (all_peers h.world.table) h.world.ccd };
  config = cfg;
})

finish_openvpn-config :
    (k : Tools) (cfg : Config) (old mask : Text) (h : Host)
    → (finish_openvpn k cfg old mask h).config ≡ cfg
unfolding finish_openvpn
finish_openvpn-config k cfg old mask h = widen_firewall-config k old cfg.ovpn_subnet (record h {
  world = record h.world { ccd = rewrite_ccds mask (all_peers h.world.table) h.world.ccd };
  config = cfg;
})

-- A run that succeeds found a file with a `server` line.
expanded :
    (k : Tools) (cfg : Config) (old new mask : Text) (h h' : Host)
    → expand_openvpn k cfg old new h ≡ (h', ok tt)
    → ovpn_mask new ≡ ok mask
    → (text : Text) × (out : Text) × (finish_openvpn k
          (record cfg { ovpn_subnet = new })
          old
          mask
          (write_openvpn (record cfg { ovpn_subnet = new }) text out h)
        ≡ h')
unfolding expand_openvpn
expanded k cfg old new mask h h' e m = elim (Option-cases h.server_conf) [
  | inl q ↦ cc (rw (expand_openvpn, q) at e)
  | inr (text, q) ↦ elim (Bool-cases (rewrite_ovpn_server_line text new).1) [
    | inr f ↦ cc (rw (expand_openvpn, q, f) at e)
    | inl f ↦ (
      text,
      (rewrite_ovpn_server_line text new).0,
      ap (λ (x : Outcome (Unit {0})). x.0) (rw (expand_openvpn, q, f, m) at e),
    )
  ]
]

-- After an OpenVPN expansion that is carried out, in a valid table: a CCD file that was there and
-- has a user of its name with an OpenVPN name and address in the table holds the address of that row
-- and the new mask, and nothing else; every other file is as it was, and a file that was missing is
-- still missing; the table stays, and the new subnet is saved.
pub expand_openvpn-ccd :
    (k : Tools) (cfg : Config) (old new mask name : Text) (h h' : Host)
    → IsValid h.world.table
    → expand_openvpn k cfg old new h ≡ (h', ok tt)
    → ovpn_mask new ≡ ok mask
    → (lookup name h'.world.ccd
        ≡ widened_ccd mask (get_peer h.world.table name) (lookup name h.world.ccd))
      × (h'.world.table ≡ h.world.table)
      × (h'.config.ovpn_subnet ≡ new)
unfolding get_peer
expand_openvpn-ccd k cfg old new mask name h h' v e m =
    let (text, out, q) = expanded k cfg old new mask h h' e m in
    let cfg' : Config = record cfg { ovpn_subnet = new } in
    let same = write_openvpn-world cfg' text out h in
    let world : h'.world
        ≡ record h.world { ccd = rewrite_ccds mask (all_peers h.world.table) h.world.ccd } =
      ap (λ (x : Host). x.world) (sym q)
      ∙ finish_openvpn-world k cfg' old mask (write_openvpn cfg' text out h)
      ∙ ap (λ (w : World). record w { ccd = rewrite_ccds mask (all_peers w.table) w.ccd }) same in
    (
      ap (λ (w : World). lookup name w.ccd) world
          ∙ lookup-rewrite_ccds mask name h.world.table.rows h.world.ccd v.distinct,
      ap (λ (w : World). w.table) world,
      ap (λ (x : Host). x.config.ovpn_subnet) (sym q)
          ∙ ap (λ (x : Config). x.ovpn_subnet)
              (finish_openvpn-config k cfg' old mask (write_openvpn cfg' text out h)),
    )
