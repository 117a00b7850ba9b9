-- ===== src/Users/Cli.antt =====
-- The commands of the command line on users (main.go, ovpn_pki.go). Each reads the settings from their
-- file, and none is followed by an enforcement pass.
use wg_manager.Base.{Bool, false, ◌||◌, none, some, List, [], ◌∷◌, Text, lit, text_eq, ◌==◌}
use wg_manager.Base.{if◌then◌else◌, is_empty, ℤ, pos, Dict, lookup_or, parse_int}
use wg_manager.Store.{Peer, Table, get_peer, update_peer}
use wg_manager.Settings.{Config, ovpn_defaults}
use wg_manager.Settings.Flags.{parse_flags}
use wg_manager.Enforce.{Clock}
use wg_manager.Recharge.{Floats, Result, ok, err, cli_recharge}
use wg_manager.Profiles.{client_config, ovpn_config_for_peer}
use wg_manager.Users.{World, Outcome, render, must_peer}
use wg_manager.Users.Panel.{Server, create_ovpn, create_wg, delete_user, attach_user, ovpn_remove}

-- `flags[name] == "true"`
unfoldable pub is_on : Text → Dict Text → Bool
unfolding lookup_or
is_on name flags = lookup_or [] name flags == lit "true"

-- What the commands find around them: the settings in memory are those of the file.
abbrev pub loaded : Server → Server
loaded sv = record sv { cfg = sv.file_cfg }

module _ (fl : Floats) (c : Clock) (now : c.Time) (sv : Server) where
  -- The quota of `add`
  unfoldable pub add_quota_flag : Dict Text → Result ℤ
  unfolding lookup_or
  add_quota_flag flags =
      let v = lookup_or [] (lit "quota-gb") flags in
      if is_empty v
      then ok (pos 0)
      else let (f, fine) = fl.parse v in
        if fine then ok (fl.to_bytes f) else err (lit "bad --quota-gb")

  -- The expiry of `add`
  unfoldable pub add_expiry_flag : Dict Text → Result Text
  unfolding lookup_or
  add_expiry_flag flags =
      let v = lookup_or [] (lit "days") flags in
      if is_empty v
      then ok []
      else let (d, fine) = parse_int v in
        if fine then ok (c.format (c.add_days now d)) else err (lit "bad --days")

  -- `cmdAdd` behind the checks: with OpenVPN only, or with WireGuard.
  unfoldable pub add_user : Text → Dict Text → ℤ → Text → World → Outcome Text
  unfolding is_on
  add_user username flags quota expires w =
      if is_on (lit "ovpn-only") flags
      then create_ovpn fl c now (loaded sv) (λ x. x) username quota expires w
      else if is_empty sv.file_cfg.wg_conf
      then (w, err (lit "this is an OpenVPN-only install"))
      else create_wg fl c now (loaded sv) (λ x. x) username quota expires w

  -- `cmdAdd` with its name and its flags
  unfoldable pub checked_add : Text → Dict Text → World → Outcome Text
  unfolding add_quota_flag add_expiry_flag add_user
  checked_add username flags w = elim (get_peer w.table username) [
    | some p ↦ (w, err (lit "user already exists"))
    | none ↦ elim (add_quota_flag flags) [
      | err e ↦ (w, err e)
      | ok quota ↦ elim (add_expiry_flag flags) [
        | err e ↦ (w, err e)
        | ok expires ↦ add_user username flags quota expires w
      ]
    ]
  ]

  unfoldable pub first_add : List Text → Dict Text → World → Outcome Text
  unfolding checked_add
  first_add [] flags w = (w, err (lit "usage: wgmgr add <username>"))
  first_add (username ∷ more) flags w = checked_add username flags w

  -- `cmdAdd`
  unfoldable pub cmd_add : List Text → World → Outcome Text
  unfolding parse_flags first_add
  cmd_add args w = let a = parse_flags args in first_add a.positional a.flags w

  -- `cmdRemove`
  unfoldable pub cmd_remove : List Text → World → Outcome (Unit {0})
  unfolding delete_user
  cmd_remove [] w = (w, err (lit "usage: wgmgr rm <username>"))
  cmd_remove (name ∷ args) w = delete_user fl c now (loaded sv) (λ x. x) name w

  -- `setField`: `apply` gets the arguments behind the name, and gives the new table.
  unfoldable pub set_field :
      (List Text → Peer → Table → Result Table) → List Text → World → Outcome (Unit {0})
  unfolding must_peer
  set_field apply [] w = (w, err (lit "usage"))
  set_field apply (name ∷ args) w = elim (must_peer name w) [
    | err e ↦ (w, err e)
    | ok p ↦ elim (apply args p w.table) [
      | err e ↦ (w, err e)
      | ok t ↦ (record w { table = t }, ok tt)
    ]
  ]

  -- `set-quota`
  unfoldable pub cli_set_quota : List Text → Peer → Table → Result Table
  cli_set_quota [] p t = err (lit "usage: wgmgr set-quota <username> <GB>")
  cli_set_quota (v ∷ args) p t =
      let (f, fine) = fl.parse v in
      if fine
      then ok (update_peer p.id (λ q. record q { quota_bytes = fl.to_bytes f }) t)
      else err (lit "bad GB value")

  -- `renew`
  unfoldable pub cli_renew : List Text → Peer → Table → Result Table
  cli_renew [] p t = err (lit "usage: wgmgr renew <username> <days-from-now>")
  cli_renew (v ∷ args) p t =
      let (d, fine) = parse_int v in
      if fine
      then ok (update_peer p.id (λ q. record q { expires_at = c.format (c.add_days now d) }) t)
      else err (lit "bad days")

  -- `enable` and `disable`
  unfoldable pub cli_enable : Bool → List Text → Peer → Table → Result Table
  cli_enable on args p t = ok (update_peer p.id (λ q. record q { enabled = on }) t)

  -- `recharge`
  unfoldable pub cli_recharge_field : List Text → Peer → Table → Result Table
  unfolding cli_recharge parse_flags
  cli_recharge_field args p t = ok (cli_recharge fl (parse_flags args).flags p t)

  -- `cmdOvpnAdd`; it prints the address, and no profile.
  unfoldable pub cmd_ovpn_add : List Text → World → Outcome Text
  unfolding attach_user
  cmd_ovpn_add [] w = (w, err (lit "usage: wgmgr ovpn-add <username>"))
  cmd_ovpn_add (name ∷ args) w = attach_user fl c now (loaded sv) (λ x. x) name w

  -- `cmdOvpnRm`
  unfoldable pub cmd_ovpn_rm : List Text → World → Outcome (Unit {0})
  unfolding ovpn_remove
  cmd_ovpn_rm [] w = (w, err (lit "usage: wgmgr ovpn-rm <username>"))
  cmd_ovpn_rm (name ∷ args) w = ovpn_remove fl c now (loaded sv) (λ x. x) name w

-- `render`, and what it reports
unfoldable pub cmd_render : Config → World → Outcome Text
unfolding render
cmd_render cfg w =
    let (w', r) = render cfg false w in
    (
      w',
      elim r [
        | err e ↦ err e
        | ok u ↦ ok (
            if is_empty cfg.wg_conf
            then lit "OpenVPN-only install — no WireGuard config to render."
            else lit "rendered wg0.conf peer section from DB and applied (wg syncconf)")
      ],
    )

-- `cmdConfig`; `pm` is the file of parameters.
unfoldable pub cmd_config : Dict Text → List Text → World → Result Text
unfolding must_peer client_config
cmd_config pm [] w = err (lit "usage: wgmgr config <username>")
cmd_config pm (name ∷ args) w = elim (must_peer name w) [
  | err e ↦ err e
  | ok p ↦
      if is_empty p.private_key then err (lit "no stored private key") else ok (client_config pm p)
]

-- `cmdOvpnConfig`; `ca` and `tc` are the texts of `ca.crt` and `tc.key`.
unfoldable pub cmd_ovpn_config :
    Text × Text → Text → Text → Config → List Text → World → Result Text
unfolding must_peer ovpn_config_for_peer ovpn_defaults
cmd_ovpn_config identity ca tc cfg [] w = err (lit "usage: wgmgr ovpn-config <username>")
cmd_ovpn_config identity ca tc cfg (name ∷ args) w = elim (must_peer name w) [
  | err e ↦ err e
  | ok p ↦
      if is_empty p.ovpn_cn || is_empty p.ovpn_cert
      then err (lit "user has no OpenVPN identity")
      else ok (ovpn_config_for_peer ca tc (ovpn_defaults identity cfg) p)
]
