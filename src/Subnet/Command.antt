-- ===== src/Subnet/Command.antt =====
-- The command `expand-subnet` (subnet.go): `ovpnConfigured` and `expandSubnet`.
pub mod Untouched
use wg_manager.Base.{
  ℕ, ℤ, pos, Bool, true, false, not, ◌&&◌, ◌||◌, Option, none, some, List, [], ◌∷◌, ◌++◌,
}
use wg_manager.Base.{
  Text, lit, text_eq, ◌==◌, if◌then◌else◌, is_empty, trim_prefix, Dict, lookup, lookup_or,
  parse_int,
}
use wg_manager.Net.{IpNet}
use wg_manager.Settings.{Config, ovpn_defaults}
use wg_manager.Recharge.{Result, ok, err}
use wg_manager.WgConf.{interface_head}
use wg_manager.Subnet.Plan.{ExpandPlan, plan_is_empty, build_expand_plan}
use wg_manager.Subnet.Expand.{
  Host, Tools, Outcome, host_net_entries, expand_wireguard, expand_openvpn,
}

-- How the command ends, when it does not stop with an error.
pub data Ending : Type 0 where
  nothing_to_do skipped dry_run cancelled done : Ending

-- What comes from outside: the runtime identity of OpenVPN, and the answer to `Apply?`, which is
-- `none` where nobody can be asked.
pub record Request : Type 0 where
  pub flags : Dict Text
  pub identity : Text × Text
  pub answer : Option Bool

-- `flags[name] == "true"`
unfoldable pub is_flag : Text → Dict Text → Bool
unfolding lookup_or
is_flag name flags = lookup_or [] name flags == lit "true"

-- The prefix length: 16, or the number of the flag.
unfoldable pub wanted_prefix : Dict Text → Result ℤ
wanted_prefix flags = elim (lookup (lit "prefix") flags) [
  | none ↦ ok (pos 16)
  | some v ↦
      let (n, fine) = parse_int (trim_prefix v (lit "/")) in
      if fine then ok n else err (lit "bad --prefix")
]

-- `ovpnConfigured`; the model holds the file of the configured directory.
unfoldable pub ovpn_configured : Config → Host → Bool
ovpn_configured cfg h =
    if is_empty cfg.ovpn_subnet
    then false
    else elim h.server_conf [ none ↦ false | some text ↦ true ]

-- The server's address and network, if there is a WireGuard file.
unfoldable pub wg_pool : Config → Host → Result (Option (ℕ × IpNet))
unfolding interface_head
wg_pool cfg h =
    if is_empty cfg.wg_conf || not h.has_conf
    then ok none
    else elim (interface_head h.world.conf) [ err e ↦ err e | ok (head, ip, n) ↦ ok (some (ip, n)) ]

-- The plan of the command, for the settings that it goes on with.
unfoldable pub command_plan : Tools → Config → Bool → ℤ → Host → Result ExpandPlan
unfolding wg_pool build_expand_plan host_net_entries
command_plan k cfg ovpn_on prefix h = elim (wg_pool cfg h) [
  | err e ↦ err e
  | ok wg ↦
      build_expand_plan cfg.interface wg (if ovpn_on then some cfg.ovpn_subnet else none) prefix
        (host_net_entries k)
]

-- `--auto` leaves out the protocols that have a conflict.
unfoldable pub without_conflicts : ExpandPlan → ExpandPlan
without_conflicts p = record p {
  wg_old_addr = if is_empty p.wg_conflicts then p.wg_old_addr else [];
  wg_new_addr = if is_empty p.wg_conflicts then p.wg_new_addr else [];
  ov_old_net = if is_empty p.ov_conflicts then p.ov_old_net else [];
  ov_new_net = if is_empty p.ov_conflicts then p.ov_new_net else [];
}

-- The two expansions and the restart of the panel.
unfoldable pub apply_plan : Tools → Config → Bool → ExpandPlan → Host → Outcome Ending
unfolding expand_wireguard expand_openvpn
apply_plan k cfg auto p h =
    let (h1, r1) : Outcome (Unit {0}) =
      if is_empty p.wg_new_addr
      then (h, ok tt)
      else expand_wireguard k p.wg_old_addr p.wg_new_addr h in
    elim r1 [
      | err e ↦ (h1, err e)
      | ok u ↦
          let (h2, r2) : Outcome (Unit {0}) =
            if is_empty p.ov_new_net
            then (h1, ok tt)
            else expand_openvpn k cfg p.ov_old_net p.ov_new_net h1 in
          elim r2 [
            | err e ↦ (h2, err e)
            | ok v ↦
                if not auto && k.panel_active
                then (record h2 { restarts = lit "wgmgr.service" ∷ h2.restarts }, ok done)
                else (h2, ok done)
          ]
    ]

-- The dry run, the question, and the work.
unfoldable pub confirm_plan : Tools → Config → Request → Bool → ExpandPlan → Host → Outcome Ending
unfolding apply_plan is_flag
confirm_plan k cfg q auto p h =
    if is_flag (lit "dry-run") q.flags
    then (h, ok dry_run)
    else if not auto && not (is_flag (lit "yes") q.flags)
    then elim q.answer [
      | none ↦ (h, err (lit "expand-subnet requires --yes"))
      | some b ↦ if b then apply_plan k cfg auto p h else (h, ok cancelled)
    ]
    else apply_plan k cfg auto p h

-- The conflicts of the plan.
unfoldable pub settle_plan : Tools → Config → Request → Bool → ExpandPlan → Host → Outcome Ending
unfolding without_conflicts confirm_plan plan_is_empty
settle_plan k cfg q auto p h =
    if plan_is_empty p
    then (h, ok nothing_to_do)
    else if is_empty p.wg_conflicts && is_empty p.ov_conflicts
    then confirm_plan k cfg q auto p h
    else if not auto
    then (h, err (lit "refusing to expand"))
    else if plan_is_empty (without_conflicts p)
    then (h, ok skipped)
    else confirm_plan k cfg q auto (without_conflicts p) h

-- `expandSubnet`
unfoldable pub expand_subnet : Tools → Request → Host → Outcome Ending
unfolding wanted_prefix ovpn_configured command_plan settle_plan is_flag ovpn_defaults
expand_subnet k q h = elim (wanted_prefix q.flags) [
  | err e ↦ (h, err e)
  | ok prefix ↦
      let ovpn_on = ovpn_configured h.config h in
      let cfg : Config = if ovpn_on then ovpn_defaults q.identity h.config else h.config in
      elim (command_plan k cfg ovpn_on prefix h) [
        | err e ↦ (h, err e)
        | ok p ↦ settle_plan k cfg q (is_flag (lit "auto") q.flags) p h
      ]
]
