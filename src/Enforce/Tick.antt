-- ===== src/Enforce/Tick.antt =====
-- `enforceTick`: the accounts, the block set and the blocked column in one pass. The lock
-- `enforceMu` makes a pass one step; a statement of the pass is taken not to fail.
pub mod Rows
pub mod BlockSet
use wg_manager.Base.{
  ℕ, Bool, true, false, not, differ, ◌&&◌, ◌||◌, Option, none, some, List, [], ◌∷◌, ◌++◌,
}
use wg_manager.Base.{
  Text, lit, text_eq, nat_eq, ◌==◌, if◌then◌else◌, is_empty, ℤ, add64, Dict, lookup,
}
use wg_manager.Store.{Peer, Table, update_peer, all_peers}
use wg_manager.Enforce.{Clock, counter_delta, effective_blocked, wg_transfer, parse_ipset_save}
use wg_manager.Enforce.{stale_ips}
use wg_manager.Enforce.Firewall.{Firewall}

-- The counters that one pass reads, and the settings that it uses.
pub record Readings : Type 0 where
  pub ipset : Text
  pub transfer : Dict (ℤ × ℤ)
  pub ovpn : Dict ℤ

-- `tr[p.PublicKey]`, for a user with a key
unfoldable pub wg_reading : Readings → Peer → Option (ℤ × ℤ)
wg_reading r p = if is_empty p.public_key then none else lookup p.public_key r.transfer

unfoldable pub ovpn_reading : Readings → Peer → Option ℤ
ovpn_reading r p = if is_empty p.ovpn_cn then none else lookup p.ovpn_cn r.ovpn

-- The new WireGuard counters of a row.
unfoldable pub add_wg : ℤ × ℤ → Peer → Peer
unfolding counter_delta
add_wg (rx, tx) p = record p {
  used_bytes = add64 p.used_bytes (add64 (counter_delta rx p.last_rx) (counter_delta tx p.last_tx));
  last_rx = rx;
  last_tx = tx;
}

unfoldable pub add_ovpn : ℤ → Peer → Peer
unfolding counter_delta
add_ovpn cur p = record p {
  used_ovpn_bytes = add64 p.used_ovpn_bytes (counter_delta cur p.last_ovpn_bytes);
  last_ovpn_bytes = cur;
}

-- `UPDATE peers SET used_bytes=?,last_rx=?,last_tx=? WHERE id=?`
abbrev set_wg : Peer → Peer → Peer
set_wg p q = record q { used_bytes = p.used_bytes; last_rx = p.last_rx; last_tx = p.last_tx }

-- `UPDATE peers SET used_ovpn_bytes=?,last_ovpn_bytes=? WHERE id=?`
abbrev set_ovpn : Peer → Peer → Peer
set_ovpn p q = record q { used_ovpn_bytes = p.used_ovpn_bytes; last_ovpn_bytes = p.last_ovpn_bytes }

-- The copy of the row in memory, and the table.
unfoldable pub wg_step : Readings → Peer → Table → Peer × Table
wg_step r p t = elim (wg_reading r p) [
  | none ↦ (p, t)
  | some cur ↦ let p' = add_wg cur p in (p', update_peer p.id (set_wg p') t)
]

unfoldable pub ovpn_step : Readings → Peer → Table → Peer × Table
ovpn_step r p t = elim (ovpn_reading r p) [
  | none ↦ (p, t)
  | some cur ↦ let p' = add_ovpn cur p in (p', update_peer p.id (set_ovpn p') t)
]

-- `if blocked != p.Blocked { UPDATE peers SET blocked=? WHERE id=? }`
unfoldable pub flag_step : Bool → Peer → Table → Table
flag_step b p t =
    if differ b p.blocked then update_peer p.id (λ q. record q { blocked = b }) t else t

module _ (fw : Firewall) where
  -- `ensureDropRule`
  unfoldable pub ensure_drop_rule : Text → Text → fw.State → fw.State
  ensure_drop_rule name dir s = if fw.check_drop name dir s then s else fw.insert_drop name dir s

  -- `ensureIPSet`
  unfoldable pub ensure_ipset : Text → fw.State → fw.State
  ensure_ipset name s =
      ensure_drop_rule name (lit "dst") (ensure_drop_rule name (lit "src") (fw.create_set name s))

  -- One round of `for _, ip := range []string{p.Address, p.OvpnIP}`
  unfoldable pub sync_ip : Text → Bool → Text → fw.State → fw.State
  sync_ip name blocked ip s =
      if is_empty ip then s else if blocked then fw.add_ip name ip s else fw.del_ip name ip s

  -- `ipsetMembers`
  unfoldable pub ipset_members : Text → fw.State → List Text
  ipset_members name s = elim (fw.list_save name s) [
    | none ↦ []
    | some out ↦ parse_ipset_save name out
  ]

  unfoldable pub delete_all : Text → List Text → fw.State → fw.State
  delete_all name [] s = s
  delete_all name (ip ∷ ips) s = delete_all name ips (fw.del_ip name ip s)

-- The tunnel IPs of all users, without the empty ones.
unfoldable pub known_ips : List Peer → List Text
known_ips [] = []
known_ips (p ∷ ps) =
    (if is_empty p.address then [] else p.address ∷ [])
    ++ ((if is_empty p.ovpn_ip then [] else p.ovpn_ip ∷ []) ++ known_ips ps)

module _ (c : Clock) (fw : Firewall) (r : Readings) (now : c.Time) where
  -- One user's round of the loop.
  unfoldable pub tick_peer : Peer → Table × fw.State → Table × fw.State
  tick_peer p (t, s) =
      let (p1, t1) = wg_step r p t in
      let (p2, t2) = ovpn_step r p1 t1 in
      let b = effective_blocked c p2 now in
      let s1 = sync_ip fw r.ipset b p2.address s in
      let s2 = sync_ip fw r.ipset b p2.ovpn_ip s1 in (flag_step b p2 t2, s2)

  unfoldable pub tick_peers : List Peer → Table × fw.State → Table × fw.State
  tick_peers [] w = w
  tick_peers (p ∷ ps) w = tick_peers ps (tick_peer p w)

  -- The sweep behind the loop.
  unfoldable pub sweep : List Peer → fw.State → fw.State
  sweep ps s = delete_all fw r.ipset (stale_ips (ipset_members fw r.ipset s) (known_ips ps)) s

  unfoldable pub enforce_tick : Table × fw.State → Table × fw.State
  enforce_tick (t, s) =
      let (t', s') = tick_peers (all_peers t) (t, ensure_ipset fw r.ipset s) in
      (t', sweep (all_peers t) s')
