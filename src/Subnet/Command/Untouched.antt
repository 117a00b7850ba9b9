-- ===== src/Subnet/Command/Untouched.antt =====
-- What the command leaves alone.
use wg_manager.Base.{true, false, inl, inr, ◌≡◌, ◌≢◌, arith}
use wg_manager.Base.{◌⊎◌, some, lit, text_eq, Text, ℤ, ap, ◌∙◌, if◌then◌else◌}
use wg_manager.Settings.{Config, ovpn_defaults}
use wg_manager.Recharge.{ok, err, Result-cases}
use wg_manager.Subnet.Plan.{ExpandPlan}
use wg_manager.Subnet.Expand.{Host, Tools, Outcome}
use wg_manager.Subnet.Command.{
  Ending, Request, expand_subnet, settle_plan, confirm_plan, is_flag, wanted_prefix,
  ovpn_configured, command_plan, without_conflicts,
}

-- Nobody has agreed to the work: a dry run, or neither a flag nor an answer says yes.
abbrev pub IsUnconfirmed : Request → Type 0
IsUnconfirmed q =
    (is_flag (lit "dry-run") q.flags ≡ true)
    ⊎ ((is_flag (lit "auto") q.flags ≡ false)
        × (is_flag (lit "yes") q.flags ≡ false)
        × (q.answer ≢ some true))

confirm_plan-unconfirmed :
    (k : Tools) (cfg : Config) (q : Request) (p : ExpandPlan) (h : Host)
    → IsUnconfirmed q
    → (confirm_plan k cfg q (is_flag (lit "auto") q.flags) p h).0 ≡ h
unfolding confirm_plan
confirm_plan-unconfirmed k cfg q p h (inl d) = rw d
confirm_plan-unconfirmed k cfg q p h (inr (a, y, n)) = ground (arith, a, y, n)

settle_plan-unconfirmed :
    (k : Tools) (cfg : Config) (q : Request) (p : ExpandPlan) (h : Host)
    → IsUnconfirmed q
    → (settle_plan k cfg q (is_flag (lit "auto") q.flags) p h).0 ≡ h
unfolding settle_plan
settle_plan-unconfirmed k cfg q p h u = ground (
  arith,
  confirm_plan-unconfirmed k cfg q p h u,
  confirm_plan-unconfirmed k cfg q (without_conflicts p) h u,
)

abbrev effective : Request → Host → Config
effective q h = if ovpn_configured h.config h then ovpn_defaults q.identity h.config else h.config

planned :
    (k : Tools) (q : Request) (h : Host) (prefix : ℤ) (plan : ExpandPlan)
    → wanted_prefix q.flags ≡ ok prefix
    → command_plan k (effective q h) (ovpn_configured h.config h) prefix h ≡ ok plan
    → expand_subnet k q h ≡ settle_plan k (effective q h) q (is_flag (lit "auto") q.flags) plan h
unfolding expand_subnet
planned k q h prefix plan p r = rw (expand_subnet, p, r)

planned_err :
    (k : Tools) (q : Request) (h : Host) (prefix : ℤ) (e : Text)
    → wanted_prefix q.flags ≡ ok prefix
    → command_plan k (effective q h) (ovpn_configured h.config h) prefix h ≡ err e
    → expand_subnet k q h ≡ (h, err e)
unfolding expand_subnet
planned_err k q h prefix e p r = rw (expand_subnet, p, r)

-- Without an agreement the command changes nothing, however it ends.
pub expand_subnet-unconfirmed :
    (k : Tools) (q : Request) (h : Host) → IsUnconfirmed q → (expand_subnet k q h).0 ≡ h
unfolding expand_subnet
expand_subnet-unconfirmed k q h u = elim (Result-cases (wanted_prefix q.flags)) [
  | inr (e, p) ↦ rw (expand_subnet, p)
  | inl (prefix, p) ↦
      elim (Result-cases (command_plan k (effective q h) (ovpn_configured h.config h) prefix h)) [
        | inr (e, r) ↦ ap (λ (x : Outcome Ending). x.0) (planned_err k q h prefix e p r)
        | inl (plan, r) ↦
            ap (λ (x : Outcome Ending). x.0) (planned k q h prefix plan p r)
            ∙ settle_plan-unconfirmed k (effective q h) q plan h u
      ]
]
