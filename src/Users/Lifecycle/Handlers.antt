-- ===== src/Users/Lifecycle/Handlers.antt =====
-- The commands that add, attach and remove keep the table sound.
use wg_manager.Base.{Bool, true, false, [], ◌≡◌, refl, inl, inr}
use wg_manager.Base.{Text, ℤ, is_empty, Bool-cases, Option-cases, subst, sym}
use wg_manager.Store.{Peer, Table, get_peer, insert_peer, delete_peer, update_peer}
use wg_manager.Settings.{Config, ovpn_defaults}
use wg_manager.Enforce.{Clock}
use wg_manager.Recharge.{Floats, ok, err, Result-cases, ok_inj}
use wg_manager.WgConf.{next_free_ip}
use wg_manager.Users.{Outcome, World, remove_ccd, render, new_row, must_peer}
use wg_manager.Users.Ovpn.{
  Attaching, attach_plan, write_ccd, ccd_text, set_identity, ovpn_attach, ovpn_attach_new_user,
  ovpn_detach, clear_identity, ovpn_next_free_ip, ovpn_mask,
}
use wg_manager.Users.Panel.{
  Server, with_profile, create_ovpn, create_wg, delete_user, attach_user, ovpn_add, ovpn_remove,
}
use wg_manager.Users.Fresh.{write_ccd-table}
use wg_manager.Users.Removed.{render-table, remove_ccd-same_table}
use wg_manager.Users.Lifecycle.{
  IsSound, IsTame, update_peer-IsSound, delete_peer-IsSound, insert_peer-IsSound,
}
use wg_manager.Users.Lifecycle.Kept.{IsUnused, set_identity-IsSound, ovpn_next_free_ip-IsUnused}

-- The table of a world is sound.
abbrev pub Holds : World → Type 0
Holds w = IsSound w.table

-- Before attaching writes, it has found an address that nobody uses.
attach_plan-IsUnused :
    (k : Attaching) (cfg : Config) (p : Peer) (t : Table) (pair rest : Text × Text)
    → attach_plan k cfg p t ≡ ok (pair, rest)
    → IsUnused rest.0 t.rows
unfolding attach_plan
attach_plan-IsUnused k cfg p t pair rest h = elim (Result-cases (k.issue p.username)) [
  | inr (e, i) ↦ cc (rw (attach_plan, i) at h)
  | inl (made, i) ↦ elim (Result-cases (ovpn_next_free_ip t cfg.ovpn_subnet)) [
    | inr (e, q) ↦ cc (rw (attach_plan, i, q) at h)
    | inl (free, q) ↦ elim (Result-cases (ovpn_mask cfg.ovpn_subnet)) [
      | inr (e, m) ↦ cc (rw (attach_plan, i, q, m) at h)
      | inl (mask, m) ↦
          subst (λ (x : (Text × Text) × (Text × Text)). IsUnused x.1.0 t.rows)
            (ok_inj (rw (attach_plan, i, q, m) at h))
            (ovpn_next_free_ip-IsUnused t cfg.ovpn_subnet free q)
    ]
  ]
]

pub ovpn_attach-Holds :
    (k : Attaching) (cfg : Config) (p : Peer) (w : World)
    → Holds w
    → Holds (ovpn_attach k cfg p w).0
unfolding ovpn_attach
ovpn_attach-Holds k cfg p w s = elim (Result-cases (attach_plan k cfg p w.table)) [
  | inr (e, q) ↦ rw (ovpn_attach, q) s
  | inl ((pair, rest), q) ↦
      let text : Text = ccd_text rest.0 rest.1 in
      let same : (write_ccd k p.username text w).0.table ≡ w.table =
        write_ccd-table k p.username text w in
      elim (Result-cases (write_ccd k p.username text w).1) [
        | inr (e, c) ↦ rw (ovpn_attach, q, c) (subst IsSound (sym same) s)
        | inl (u, c) ↦ elim (Bool-cases k.takes_update) [
          | inr b ↦ rw (ovpn_attach, q, c, b) (subst IsSound (sym same) s)
          | inl b ↦
              rw (ovpn_attach, q, c, b)
                (subst
                  (λ (t : Table).
                    IsSound (update_peer p.id (set_identity p.username rest.0 pair.0 pair.1) t))
                  (sym same)
                  (set_identity-IsSound p.id p.username rest.0 pair.0 pair.1 w.table
                    (attach_plan-IsUnused k cfg p w.table pair rest q) s))
        ]
      ]
]

pub ovpn_attach_new_user-Holds :
    (k : Attaching) (cfg : Config) (p : Peer) (w : World)
    → Holds w
    → Holds (ovpn_attach_new_user k cfg p w).0
unfolding ovpn_attach_new_user
ovpn_attach_new_user-Holds k cfg p w s =
    let w' : World = (ovpn_attach k cfg p w).0 in
    elim (Result-cases (ovpn_attach k cfg p w).1) [
      | inl (ip, q) ↦ rw (ovpn_attach_new_user, q) (ovpn_attach-Holds k cfg p w s)
      | inr (e, q) ↦
          rw (ovpn_attach_new_user, q)
            (subst IsSound
              (sym (
                remove_ccd-same_table cfg p.username
                  (record w' { table = delete_peer p.id w'.table })))
              (delete_peer-IsSound p.id w'.table (ovpn_attach-Holds k cfg p w s)))
    ]

clear_identity-IsTame : IsTame clear_identity
unfolding clear_identity
clear_identity-IsTame = record { keys = λ p. (refl, refl, refl, refl); ovpn = λ p. inr refl }

pub ovpn_detach-Holds :
    (cfg : Config) (p : Peer) (w : World) → Holds w → Holds (ovpn_detach cfg p w)
unfolding ovpn_detach
ovpn_detach-Holds cfg p w s =
    update_peer-IsSound p.id clear_identity clear_identity-IsTame
      (remove_ccd cfg p.username w).table
      (subst IsSound (sym (remove_ccd-same_table cfg p.username w)) s)

pub render-Holds :
    (cfg : Config) (force : Bool) (w : World) → Holds w → Holds (render cfg force w).0
render-Holds cfg force w s = subst IsSound (sym (render-table cfg force w)) s

module _ (fl : Floats) (c : Clock) (now : c.Time) (sv : Server) (reconcile : World → World) where
  with_profile-Holds :
      (o : Outcome Text) → Holds o.0 → Holds (with_profile fl c now sv reconcile o).0
  unfolding with_profile
  with_profile-Holds (w, ok ip) s = s
  with_profile-Holds (w, err e) s = s

  pub create_ovpn-Holds :
      (username expires : Text) (quota : ℤ) (w : World)
      → Holds w
      → Holds (create_ovpn fl c now sv reconcile username quota expires w).0
  unfolding create_ovpn new_row
  create_ovpn-Holds username expires quota w s =
      let row : Peer = new_row username [] [] [] [] quota expires in
      elim (Bool-cases sv.has_ca) [
        | inr q ↦ rw (create_ovpn, q) s
        | inl q ↦ elim (Option-cases (insert_peer row w.table)) [
          | inl i ↦ rw (create_ovpn, q, i) s
          | inr (t, i) ↦
              let s' = insert_peer-IsSound row w.table {u = t} refl s i in
              elim (Option-cases (get_peer t username)) [
                | inl g ↦ rw (create_ovpn, q, i, g) s'
                | inr (p, g) ↦
                    rw (create_ovpn, q, i, g)
                      (with_profile-Holds _ (
                        ovpn_attach_new_user-Holds sv.attaching
                          (ovpn_defaults sv.identity sv.file_cfg) p (record w { table = t }) s'))
              ]
        ]
      ]

  pub create_wg-Holds :
      (username expires : Text) (quota : ℤ) (w : World)
      → Holds w
      → Holds (create_wg fl c now sv reconcile username quota expires w).0
  unfolding create_wg new_row
  create_wg-Holds username expires quota w s = elim (Result-cases (next_free_ip w.table w.conf)) [
    | inr (e, q) ↦ rw (create_wg, q) s
    | inl (ip, q) ↦
        let row : Peer = new_row username sv.public_key sv.private_key sv.psk ip quota expires in
        elim (Option-cases (insert_peer row w.table)) [
          | inl i ↦ rw (create_wg, q, i) s
          | inr (t, i) ↦
              rw (create_wg, q, i)
                (render-Holds sv.cfg false (record w { table = t })
                  (insert_peer-IsSound row w.table {u = t} refl s i))
        ]
  ]

  pub delete_user-Holds :
      (name : Text) (w : World) → Holds w → Holds (delete_user fl c now sv reconcile name w).0
  unfolding delete_user
  delete_user-Holds name w s = elim (Result-cases (must_peer name w)) [
    | inr (e, q) ↦ rw (delete_user, q) s
    | inl (p, q) ↦
        let w1 : World = remove_ccd sv.cfg p.username w in
        rw (delete_user, q)
          (render-Holds sv.cfg true (record w1 { table = delete_peer p.id w1.table })
            (delete_peer-IsSound p.id w1.table
              (subst IsSound (sym (remove_ccd-same_table sv.cfg p.username w)) s)))
  ]

  pub attach_user-Holds :
      (name : Text) (w : World) → Holds w → Holds (attach_user fl c now sv reconcile name w).0
  unfolding attach_user
  attach_user-Holds name w s = elim (Bool-cases sv.has_ca) [
    | inr q ↦ rw (attach_user, q) s
    | inl q ↦ elim (Result-cases (must_peer name w)) [
      | inr (e, r) ↦ rw (attach_user, q, r) s
      | inl (p, r) ↦ elim (Bool-cases (is_empty p.ovpn_cn)) [
        | inr n ↦ rw (attach_user, q, r, n) s
        | inl n ↦
            rw (attach_user, q, r, n)
              (ovpn_attach-Holds sv.attaching (ovpn_defaults sv.identity sv.file_cfg) p w s)
      ]
    ]
  ]

  pub ovpn_add-Holds :
      (name : Text) (w : World) → Holds w → Holds (ovpn_add fl c now sv reconcile name w).0
  unfolding ovpn_add
  ovpn_add-Holds name w s = with_profile-Holds _ (attach_user-Holds name w s)

  pub ovpn_remove-Holds :
      (name : Text) (w : World) → Holds w → Holds (ovpn_remove fl c now sv reconcile name w).0
  unfolding ovpn_remove
  ovpn_remove-Holds name w s = elim (Result-cases (must_peer name w)) [
    | inr (e, q) ↦ rw (ovpn_remove, q) s
    | inl (p, q) ↦
        rw (ovpn_remove, q) (ovpn_detach-Holds (ovpn_defaults sv.identity sv.file_cfg) p w s)
  ]
