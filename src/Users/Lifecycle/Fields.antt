-- ===== src/Users/Lifecycle/Fields.antt =====
-- The commands that change one user keep the table sound.
use wg_manager.Base.{Bool, List, [], ◌∷◌, ◌≡◌, refl, inl, inr, Text, Bool-cases, parse_int, subst}
use wg_manager.Store.{Peer, Table}
use wg_manager.Settings.Flags.{parse_flags}
use wg_manager.Enforce.{Clock}
use wg_manager.Recharge.{Floats, ok, ok_inj}
use wg_manager.Users.Panel.{Server}
use wg_manager.Users.Cli.{cli_set_quota, cli_renew, cli_enable, cli_recharge_field}
use wg_manager.Users.Lifecycle.{IsSound, update_peer-IsSound}
use wg_manager.Users.Lifecycle.Accounts.{fixed-IsTame, cli_recharge-IsSound}

module _ (fl : Floats) (c : Clock) (now : c.Time) (sv : Server) where
  pub cli_set_quota-IsSound :
      (args : List Text) (p : Peer) (t u : Table)
      → IsSound t
      → cli_set_quota fl c now sv args p t ≡ ok u
      → IsSound u
  unfolding cli_set_quota
  cli_set_quota-IsSound [] p t u s q = cc
  cli_set_quota-IsSound (v ∷ args) p t u s q = elim (Bool-cases ((fl.parse v).1)) [
    | inr e ↦ cc (rw e at q)
    | inl e ↦
        subst IsSound (ok_inj (rw e at q))
          (update_peer-IsSound p.id _ (fixed-IsTame _ (λ x. refl)) t s)
  ]

  pub cli_renew-IsSound :
      (args : List Text) (p : Peer) (t u : Table)
      → IsSound t
      → cli_renew fl c now sv args p t ≡ ok u
      → IsSound u
  unfolding cli_renew
  cli_renew-IsSound [] p t u s q = cc
  cli_renew-IsSound (v ∷ args) p t u s q = elim (Bool-cases ((parse_int v).1)) [
    | inr e ↦ cc (rw e at q)
    | inl e ↦
        subst IsSound (ok_inj (rw e at q))
          (update_peer-IsSound p.id _ (fixed-IsTame _ (λ x. refl)) t s)
  ]

  pub cli_enable-IsSound :
      (on : Bool) (args : List Text) (p : Peer) (t u : Table)
      → IsSound t
      → cli_enable fl c now sv on args p t ≡ ok u
      → IsSound u
  unfolding cli_enable
  cli_enable-IsSound on args p t u s q =
      subst IsSound (ok_inj q) (update_peer-IsSound p.id _ (fixed-IsTame _ (λ x. refl)) t s)

  pub cli_recharge_field-IsSound :
      (args : List Text) (p : Peer) (t u : Table)
      → IsSound t
      → cli_recharge_field fl c now sv args p t ≡ ok u
      → IsSound u
  unfolding cli_recharge_field
  cli_recharge_field-IsSound args p t u s q =
      subst IsSound (ok_inj q) (cli_recharge-IsSound fl (parse_flags args).flags p t s)
