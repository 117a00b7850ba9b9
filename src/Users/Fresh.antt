-- ===== src/Users/Fresh.antt =====
-- What a new user gets, and what a failure takes back.
use wg_manager.Base.{ℕ, ◌+◌, ◌≤◌, ◌<◌, Bool, true, false, ◌||◌, some, List, [], ◌∷◌, ◌++◌, ◌≡◌}
use wg_manager.Base.{refl, arith, ap, sym, ◌∙◌, subst, Text, text_eq, ◌==◌, elem, map, ℤ}
use wg_manager.Base.{Option-cases, Bool-cases, inl, inr, any, some_inj, text_beq_iff}
use wg_manager.Store.{
  Peer, Table, get_peer, insert_peer, delete_peer, delete_rows, find_user, clashes,
}
use wg_manager.Store.Laws.{AreBelow}
use wg_manager.Settings.{Config, ovpn_defaults}
use wg_manager.Enforce.{Clock}
use wg_manager.Net.{IpNet, ip_string, network, block, host_allocatable, next_free_host}
use wg_manager.Net.Hosts.{IsNet, next_free_host_found}
use wg_manager.Recharge.{Floats, Result-cases, ok, err, ok_inj}
use wg_manager.WgConf.{next_free_ip, interface_head}
use wg_manager.Users.{Outcome, World, remove_ccd, new_row}
use wg_manager.Users.Ovpn.{
  Attaching, attach_plan, write_ccd, ccd_text, ovpn_attach, ovpn_attach_new_user,
}
use wg_manager.Users.Panel.{Server, with_profile, create_ovpn}

neither_left : (a b : Bool) → (a || b) ≡ false → a ≡ false
neither_left a b h = ground arith

neither_right : (a b : Bool) → (a || b) ≡ false → b ≡ false
neither_right a b h = ground arith

-- The address that a new WireGuard user gets lies in the pool of the interface, may be given out,
-- and is neither the server's nor any user's.
pub next_free_ip-fresh :
    (t : Table) (conf head ip : Text) (server : ℕ) (n : IpNet)
    → interface_head conf ≡ ok (head, server, n)
    → IsNet n
    → next_free_ip t conf ≡ ok ip
    → (a : ℕ) × (ip ≡ ip_string a)
      × (network n ≤ a)
      × (a < network n + block n)
      × (host_allocatable a n ≡ true)
      × ((ip == ip_string server) ≡ false)
      × (elem ip (map (λ p. p.address) t.rows) ≡ false)
unfolding next_free_ip
next_free_ip-fresh t conf head ip server n e v h =
    let used = ip_string server ∷ map (λ p. p.address) t.rows in
    elim (Option-cases (next_free_host n used)) [
      | inl q ↦ cc (rw (next_free_ip, e, q) at h)
      | inr (s, q) ↦
          let k : s ≡ ip = ok_inj (rw (next_free_ip, e, q) at h) in
          let (a, f, l, u, ok', unused, b) = next_free_host_found n used {s = s} v q in
          let z = subst (λ (x : Text). elem x used ≡ false) k unused in
          (a, sym k ∙ f, l, u, ok', neither_left _ _ z, neither_right _ _ z)
    ]

find_user-append :
    (name : Text) (ps : List Peer) (p : Peer)
    → any (λ q. q.username == name) ps ≡ false
    → p.username ≡ name
    → find_user name (ps ++ (p ∷ [])) ≡ some p
unfolding find_user
find_user-append name [] p h e = ground (arith, e, text_beq_iff p.username name)
find_user-append name (q ∷ ps) p h e = ground (arith, h, e, find_user-append name ps p)

delete_rows-append :
    (i : ℕ) (ps : List Peer) (p : Peer)
    → AreBelow i ps
    → p.id ≡ i
    → delete_rows i (ps ++ (p ∷ [])) ≡ ps
unfolding delete_rows
delete_rows-append i [] p h e = ground (arith, e)
delete_rows-append i (q ∷ ps) p (h, hs) e = ground (arith, h, e, delete_rows-append i ps p hs)

no_clash_name :
    (p : Peer) (ps : List Peer)
    → any (clashes p) ps ≡ false
    → any (λ q. q.username == p.username) ps ≡ false
unfolding clashes
no_clash_name p [] h = refl
no_clash_name p (q ∷ ps) h = ground (
  arith,
  h,
  no_clash_name p ps,
  text_beq_iff q.username p.username,
  text_beq_iff p.username q.username,
)

-- The row that an insert has added is found by its name, and deleting its id takes it back.
insert_peer-back :
    (p : Peer) (t u : Table)
    → AreBelow t.next_id t.rows
    → insert_peer p t ≡ some u
    → (q : Peer) × (get_peer u p.username ≡ some q)
      × (q.username ≡ p.username)
      × ((delete_peer q.id u).rows ≡ t.rows)
unfolding insert_peer get_peer delete_peer
insert_peer-back p t u b h = elim (Bool-cases (any (clashes p) t.rows)) [
  | inl e ↦ cc (rw e at h)
  | inr e ↦
      let r : Peer = record p { id = t.next_id } in
      let k : record { rows = t.rows ++ (r ∷ []); next_id = t.next_id + 1 } ≡ u =
        some_inj (rw e at h) in
      (
        r,
        subst (λ (x : Table). find_user p.username x.rows ≡ some r) k
            (find_user-append p.username t.rows r (no_clash_name p t.rows e) refl),
        refl,
        subst (λ (x : Table). delete_rows t.next_id x.rows ≡ t.rows) k
            (delete_rows-append t.next_id t.rows r b refl),
      )
]

remove_ccd-table :
    (cfg : Config) (name : Text) (w : World) → (remove_ccd cfg name w).table ≡ w.table
unfolding remove_ccd
remove_ccd-table cfg name w = ground arith

pub write_ccd-table :
    (k : Attaching) (name text : Text) (w : World) → (write_ccd k name text w).0.table ≡ w.table
unfolding write_ccd
write_ccd-table k name text w = ground arith

-- Attaching that fails has not written to the table.
ovpn_attach_failed :
    (k : Attaching) (cfg : Config) (p : Peer) (w : World) (e : Text)
    → (ovpn_attach k cfg p w).1 ≡ err e
    → (ovpn_attach k cfg p w).0.table ≡ w.table
unfolding ovpn_attach
ovpn_attach_failed k cfg p w e h = elim (Result-cases (attach_plan k cfg p w.table)) [
  | inr (f, q) ↦ rw (ovpn_attach, q)
  | inl ((pair, rest), q) ↦
      let text : Text = ccd_text rest.0 rest.1 in
      let same : (write_ccd k p.username text w).0.table ≡ w.table =
        write_ccd-table k p.username text w in
      elim (Result-cases (write_ccd k p.username text w).1) [
        | inr (f, c) ↦ rw (ovpn_attach, q, c) same
        | inl (u, c) ↦ elim (Bool-cases k.takes_update) [
          | inr b ↦ rw (ovpn_attach, q, c, b) same
          | inl b ↦ cc (rw (ovpn_attach, q, c, b) at h)
        ]
      ]
]

attach_failed :
    (k : Attaching) (cfg : Config) (p : Peer) (w : World) (e : Text)
    → (ovpn_attach_new_user k cfg p w).1 ≡ err e
    → (ovpn_attach_new_user k cfg p w).0.table.rows ≡ (delete_peer p.id w.table).rows
unfolding ovpn_attach_new_user
attach_failed k cfg p w e h =
    let w' : World = (ovpn_attach k cfg p w).0 in
    elim (Result-cases (ovpn_attach k cfg p w).1) [
      | inl (ip, q) ↦ cc (rw (ovpn_attach_new_user, q) at h)
      | inr (f, q) ↦
          rw (ovpn_attach_new_user, q)
            (ap (λ (t : Table). t.rows)
                (remove_ccd-table cfg p.username (record w' { table = delete_peer p.id w'.table }))
              ∙ ap (λ (t : Table). (delete_peer p.id t).rows) (ovpn_attach_failed k cfg p w f q))
    ]

module _ (fl : Floats) (c : Clock) (now : c.Time) (sv : Server) (reconcile : World → World) where
  with_profile-err :
      (o : Outcome Text) (e : Text)
      → sv.has_profile ≡ true
      → (with_profile fl c now sv reconcile o).1 ≡ err e
      → o.1 ≡ err e
  unfolding with_profile
  with_profile-err (w, ok ip) e r h = cc (rw r at h)
  with_profile-err (w, err f) e r h = h

  with_profile-world : (o : Outcome Text) → (with_profile fl c now sv reconcile o).0 ≡ o.0
  unfolding with_profile
  with_profile-world (w, ok ip) = refl
  with_profile-world (w, err f) = refl

  -- Where the files of the profile can be read: if creating an OpenVPN user fails, be it for the
  -- row, the certificate, the address, the CCD file or the UPDATE, the table has the rows that it
  -- had.
  pub create_ovpn_failed :
      (username expires e : Text) (quota : ℤ) (w w' : World)
      → AreBelow w.table.next_id w.table.rows
      → sv.has_profile ≡ true
      → create_ovpn fl c now sv reconcile username quota expires w ≡ (w', err e)
      → w'.table.rows ≡ w.table.rows
  unfolding create_ovpn new_row
  create_ovpn_failed username expires e quota w w' b r h =
      let row : Peer = new_row username [] [] [] [] quota expires in
      let cfg : Config = ovpn_defaults sv.identity sv.file_cfg in
      elim (Bool-cases sv.has_ca) [
        | inr q ↦ sym (ap (λ x. x.0.table.rows) (rw (create_ovpn, q) at h))
        | inl q ↦ elim (Option-cases (insert_peer row w.table)) [
          | inl i ↦ sym (ap (λ x. x.0.table.rows) (rw (create_ovpn, q, i) at h))
          | inr (t, i) ↦
              let (p, g, name, back) = insert_peer-back row w.table t b i in
              let g' : get_peer t username ≡ some p = g in
              let w1 : World = record w { table = t } in
              let o : Outcome Text = ovpn_attach_new_user sv.attaching cfg p w1 in
              let k : with_profile fl c now sv reconcile o ≡ (w', err e) =
                rw (create_ovpn, q, i, g') at h in
              sym (ap (λ x. x.0.table.rows) k)
              ∙ ap (λ (x : World). x.table.rows) (with_profile-world o)
              ∙ attach_failed sv.attaching cfg p w1 e (with_profile-err o e r (ap (λ x. x.1) k))
              ∙ back
        ]
      ]
