-- ===== src/Users/Lifecycle/Sound.antt =====
-- Whatever is asked for, in any order, the table stays sound.
use wg_manager.Base.{Bool, false, ◌||◌, List, [], ◌∷◌, ◌≡◌, refl, inl, inr}
use wg_manager.Base.{Text, ℤ, is_empty, Bool-cases, Option-cases, Dict, trim, is_space, lit, subst}
use wg_manager.Store.{Peer, Table, get_peer, update_peer}
use wg_manager.Enforce.{Clock}
use wg_manager.Enforce.Firewall.{Firewall}
use wg_manager.Recharge.{
  Floats, Json, Result, ok, Result-cases, ok_inj, recharge_peer, ResetCounters, amount,
}
use wg_manager.Settings.Flags.{parse_flags}
use wg_manager.Users.{World, must_peer}
use wg_manager.Users.Panel.{
  create_peer, update_user, renew, renewed_expiry, set_quota_user, enable_user, recharge_user,
  text_or_empty, bool_field,
}
use wg_manager.Users.Cli.{
  cmd_add, cmd_remove, set_field, checked_add, first_add, cli_set_quota, cli_renew, cli_enable,
  cli_recharge_field, cmd_ovpn_add, cmd_ovpn_rm, cmd_render, add_quota_flag, add_expiry_flag,
  add_user, is_on, loaded,
}
use wg_manager.Users.Lifecycle.{IsSound, IsTame, update_peer-IsSound}
use wg_manager.Users.Lifecycle.Handlers.{
  Holds, create_ovpn-Holds, create_wg-Holds, delete_user-Holds, attach_user-Holds, ovpn_add-Holds,
  ovpn_remove-Holds, render-Holds,
}
use wg_manager.Users.Lifecycle.Accounts.{
  fixed-IsTame, enforce_tick-IsSound, recharge_peer-IsSound, ghosts_command-IsSound,
}
use wg_manager.Users.Lifecycle.Imported.{import_migration-IsValid, flush-IsSound}
use wg_manager.Users.Lifecycle.Fields.{
  cli_set_quota-IsSound, cli_renew-IsSound, cli_enable-IsSound, cli_recharge_field-IsSound,
}
use wg_manager.Users.Lifecycle.Reach.{
  Moment, reconcile, Step, create, delete, renewal, quota, enable, recharge, attach, detach,
  cli_add, cli_remove, cli_quota, cli_renewal, cli_switch, cli_refill, cli_attach, cli_detach,
  rewrite, ghosts, import_users, import_section, tick, Reach, here, next,
}

module _ (fl : Floats) (c : Clock) (fw : Firewall) where
  reconcile-Holds : (m : Moment fl c fw) (w : World) → Holds w → Holds (reconcile fl c fw m w)
  unfolding reconcile
  reconcile-Holds m w h = enforce_tick-IsSound c fw m.readings m.now w.table m.rules h

  update_user-Holds :
      (m : Moment fl c fw) (name : Text) (change : Peer → Result (Peer → Peer)) (w : World)
      → ((p : Peer) (f : Peer → Peer) → change p ≡ ok f → IsTame f)
      → Holds w
      → Holds (update_user fl c m.now m.server (reconcile fl c fw m) name change w).0
  unfolding update_user
  update_user-Holds m name change w k h = elim (Result-cases (must_peer name w)) [
    | inr (e, q) ↦ rw (update_user, q) h
    | inl (p, q) ↦ elim (Result-cases (change p)) [
      | inr (e, r) ↦ rw (update_user, q, r) h
      | inl (f, r) ↦
          rw (update_user, q, r)
            (reconcile-Holds m (record w { table = update_peer p.id f w.table })
              (update_peer-IsSound p.id f (k p f r) w.table h))
    ]
  ]

  create_peer-Holds :
      (m : Moment fl c fw) (b : Dict (Json fl.Float)) (w : World)
      → Holds w
      → Holds (create_peer fl c m.now m.server (reconcile fl c fw m) b w).0
  unfolding create_peer
  create_peer-Holds m b w h =
      let username : Text = trim is_space (text_or_empty (lit "username") b) in
      elim (Bool-cases (is_empty username)) [
        | inl e ↦ rw (create_peer, e) h
        | inr e ↦ elim (Option-cases (get_peer w.table username)) [
          | inr (p, g) ↦ rw (create_peer, e, g) h
          | inl g ↦
              elim (Bool-cases (bool_field (lit "ovpn_only") b || is_empty m.server.cfg.wg_conf)) [
                | inl o ↦
                    rw (create_peer, e, g, o)
                      (create_ovpn-Holds fl c m.now m.server (reconcile fl c fw m) username _ _ w h)
                | inr o ↦
                    rw (create_peer, e, g, o)
                      (create_wg-Holds fl c m.now m.server (reconcile fl c fw m) username _ _ w h)
              ]
        ]
      ]

  renew-Holds :
      (m : Moment fl c fw) (name : Text) (b : Dict (Json fl.Float)) (w : World)
      → Holds w
      → Holds (renew fl c m.now m.server (reconcile fl c fw m) name b w).0
  unfolding renew
  renew-Holds m name b w h =
      update_user-Holds m name _ w
        (λ p f q.
          elim (Result-cases (renewed_expiry fl c m.now m.server (reconcile fl c fw m) b p)) [
            | inr (e, r) ↦ cc (rw r at q)
            | inl (exp, r) ↦ subst IsTame (ok_inj (rw r at q)) (fixed-IsTame _ (λ x. refl))
          ])
        h

  set_quota_user-Holds :
      (m : Moment fl c fw) (name : Text) (b : Dict (Json fl.Float)) (w : World)
      → Holds w
      → Holds (set_quota_user fl c m.now m.server (reconcile fl c fw m) name b w).0
  unfolding set_quota_user
  set_quota_user-Holds m name b w h =
      update_user-Holds m name _ w
        (λ p f q. elim (Option-cases (amount fl (lit "quota_gb") b)) [
          | inl r ↦ cc (rw r at q)
          | inr (v, r) ↦ subst IsTame (ok_inj (rw r at q)) (fixed-IsTame _ (λ x. refl))
        ])
        h

  enable_user-Holds :
      (m : Moment fl c fw) (on : Bool) (name : Text) (w : World)
      → Holds w
      → Holds (enable_user fl c m.now m.server (reconcile fl c fw m) on name w).0
  unfolding enable_user
  enable_user-Holds m on name w h =
      update_user-Holds m name _ w (λ p f q. subst IsTame (ok_inj q) (fixed-IsTame _ (λ x. refl))) h

  recharge_user-Holds :
      (m : Moment fl c fw) (commits : Bool) (snapshot : Peer → Result ResetCounters) (name : Text)
      (b : Dict (Json fl.Float)) (w : World)
      → Holds w
      → Holds (recharge_user fl c m.now m.server (reconcile fl c fw m) commits snapshot name b w).0
  unfolding recharge_user
  recharge_user-Holds m commits snapshot name b w h =
      elim (Result-cases (recharge_peer fl commits snapshot name b w.table)) [
        | inr (e, q) ↦ rw (recharge_user, q) h
        | inl (t, q) ↦
            rw (recharge_user, q)
              (reconcile-Holds m (record w { table = t })
                (recharge_peer-IsSound fl commits snapshot name b w.table t h q))
      ]

  set_field-Holds :
      (m : Moment fl c fw) (apply : List Text → Peer → Table → Result Table) (args : List Text)
      (w : World)
      → ((rest : List Text) (p : Peer) (t u : Table)
          → IsSound t
          → apply rest p t ≡ ok u
          → IsSound u)
      → Holds w
      → Holds (set_field fl c m.now m.server apply args w).0
  unfolding set_field
  set_field-Holds m apply [] w k h = h
  set_field-Holds m apply (name ∷ args) w k h = elim (Result-cases (must_peer name w)) [
    | inr (e, q) ↦ rw (set_field, q) h
    | inl (p, q) ↦ elim (Result-cases (apply args p w.table)) [
      | inr (e, r) ↦ rw (set_field, q, r) h
      | inl (t, r) ↦ rw (set_field, q, r) (k args p w.table t h r)
    ]
  ]

  add_user-Holds :
      (m : Moment fl c fw) (username expires : Text) (flags : Dict Text) (bytes : ℤ) (w : World)
      → Holds w
      → Holds (add_user fl c m.now m.server username flags bytes expires w).0
  unfolding add_user
  add_user-Holds m username expires flags bytes w h =
      elim (Bool-cases (is_on (lit "ovpn-only") flags)) [
        | inl o ↦
            rw (add_user, o)
              (create_ovpn-Holds fl c m.now (loaded m.server) (λ x. x) username expires bytes w h)
        | inr o ↦ elim (Bool-cases (is_empty m.server.file_cfg.wg_conf)) [
          | inl e ↦ rw (add_user, o, e) h
          | inr e ↦
              rw (add_user, o, e)
                (create_wg-Holds fl c m.now (loaded m.server) (λ x. x) username expires bytes w h)
        ]
      ]

  checked_add-Holds :
      (m : Moment fl c fw) (username : Text) (flags : Dict Text) (w : World)
      → Holds w
      → Holds (checked_add fl c m.now m.server username flags w).0
  unfolding checked_add
  checked_add-Holds m username flags w h = elim (Option-cases (get_peer w.table username)) [
    | inr (p, g) ↦ rw (checked_add, g) h
    | inl g ↦ elim (Result-cases (add_quota_flag fl c m.now m.server flags)) [
      | inr (e, q) ↦ rw (checked_add, g, q) h
      | inl (bytes, q) ↦ elim (Result-cases (add_expiry_flag fl c m.now m.server flags)) [
        | inr (e, r) ↦ rw (checked_add, g, q, r) h
        | inl (expires, r) ↦
            rw (checked_add, g, q, r) (add_user-Holds m username expires flags bytes w h)
      ]
    ]
  ]

  first_add-Holds :
      (m : Moment fl c fw) (names : List Text) (flags : Dict Text) (w : World)
      → Holds w
      → Holds (first_add fl c m.now m.server names flags w).0
  unfolding first_add
  first_add-Holds m [] flags w h = h
  first_add-Holds m (username ∷ more) flags w h = checked_add-Holds m username flags w h

  cmd_add-Holds :
      (m : Moment fl c fw) (args : List Text) (w : World)
      → Holds w
      → Holds (cmd_add fl c m.now m.server args w).0
  unfolding cmd_add
  cmd_add-Holds m args w h =
      first_add-Holds m (parse_flags args).positional (parse_flags args).flags w h

  Step-Holds : {w u : World} → Step fl c fw w u → Holds w → Holds u
  unfolding cmd_remove cmd_ovpn_add cmd_ovpn_rm cmd_render cli_set_quota cli_renew cli_enable
      cli_recharge_field
  Step-Holds {w} (create m b) h = create_peer-Holds m b w h
  Step-Holds {w} (delete m name) h =
      delete_user-Holds fl c m.now m.server (reconcile fl c fw m) name w h
  Step-Holds {w} (renewal m name b) h = renew-Holds m name b w h
  Step-Holds {w} (quota m name b) h = set_quota_user-Holds m name b w h
  Step-Holds {w} (enable m on name) h = enable_user-Holds m on name w h
  Step-Holds {w} (recharge m commits snapshot name b) h =
      recharge_user-Holds m commits snapshot name b w h
  Step-Holds {w} (attach m name) h =
      ovpn_add-Holds fl c m.now m.server (reconcile fl c fw m) name w h
  Step-Holds {w} (detach m name) h =
      ovpn_remove-Holds fl c m.now m.server (reconcile fl c fw m) name w h
  Step-Holds {w} (cli_add m args) h = cmd_add-Holds m args w h
  Step-Holds {w} (cli_remove m []) h = h
  Step-Holds {w} (cli_remove m (name ∷ args)) h =
      delete_user-Holds fl c m.now (loaded m.server) (λ x. x) name w h
  Step-Holds {w} (cli_quota m args) h =
      set_field-Holds m _ args w (cli_set_quota-IsSound fl c m.now m.server) h
  Step-Holds {w} (cli_renewal m args) h =
      set_field-Holds m _ args w (cli_renew-IsSound fl c m.now m.server) h
  Step-Holds {w} (cli_switch m on args) h =
      set_field-Holds m _ args w (cli_enable-IsSound fl c m.now m.server on) h
  Step-Holds {w} (cli_refill m args) h =
      set_field-Holds m _ args w (cli_recharge_field-IsSound fl c m.now m.server) h
  Step-Holds {w} (cli_attach m []) h = h
  Step-Holds {w} (cli_attach m (name ∷ args)) h =
      attach_user-Holds fl c m.now (loaded m.server) (λ x. x) name w h
  Step-Holds {w} (cli_detach m []) h = h
  Step-Holds {w} (cli_detach m (name ∷ args)) h =
      ovpn_remove-Holds fl c m.now (loaded m.server) (λ x. x) name w h
  Step-Holds {w} (rewrite cfg) h = render-Holds cfg false w h
  Step-Holds {w} (ghosts on) h = ghosts_command-IsSound on w.table h
  Step-Holds {w} (import_users ms a) h = record {
    valid = import_migration-IsValid ms w.table h.valid;
    apart = a;
  }
  Step-Holds {w} (import_section legacy s t e) h = flush-IsSound legacy s w.table t h e
  Step-Holds {w} (tick m) h = reconcile-Holds m w h

  -- From a table whose rows share no id, username, key, address and OpenVPN address, whatever the
  -- panel and the command line are asked for, in any order and with passes in between, ends in such
  -- a table, provided that each import of a migration leaves no two users with one OpenVPN address.
  pub Reach-IsSound : {w u : World} → Reach fl c fw w u → IsSound w.table → IsSound u.table
  Reach-IsSound here h = h
  Reach-IsSound (next r s) h = Step-Holds s (Reach-IsSound r h)
