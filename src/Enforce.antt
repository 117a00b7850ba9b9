-- ===== src/Enforce.antt =====
-- Usage accounting and blocking (enforce.go).
pub mod Firewall
pub mod Tick
pub mod Usage
use wg_manager.Base.{ℕ, ◌+◌, Bool, true, false, not, ◌&&◌, ◌||◌, Option, none, some, List, [], ◌∷◌}
use wg_manager.Base.{Text, lit, text_eq, ◌==◌, if◌then◌else◌, is_empty, elem, keep, split, fields}
use wg_manager.Base.{trim, is_space, ℤ, pos, ltb_ℤ, leb_ℤ, add64, sub64, parse_int, leb, length}
use wg_manager.Base.{Dict, insert}
use wg_manager.Store.{Peer}

-- Package `time`, as far as the source uses it. `after t u` is `t.After(u)`.
pub record Clock : Type 1 where
  pub Time : Type 0
  pub parse : Text → Option Time
  pub format : Time → Text
  pub after : Time → Time → Bool
  pub add_days : Time → ℤ → Time

-- One line of `wg show <iface> transfer`
abbrev transfer_line : List Text → Dict (ℤ × ℤ) → Dict (ℤ × ℤ)
transfer_line (key ∷ rx ∷ tx ∷ []) m = insert key ((parse_int rx).0, (parse_int tx).0) m
transfer_line _ m = m

transfer_lines : List Text → Dict (ℤ × ℤ) → Dict (ℤ × ℤ)
transfer_lines [] m = m
transfer_lines (line ∷ lines) m = transfer_lines lines (transfer_line (fields line) m)

-- `wgTransfer`; `none` is a failed command
unfoldable pub wg_transfer : Option Text → Dict (ℤ × ℤ)
unfolding transfer_lines
wg_transfer none = []
wg_transfer (some out) = transfer_lines (split b'\n' (trim is_space out)) []

-- `usedTotal`
unfoldable pub used_total : Peer → ℤ
used_total p = add64 p.used_bytes p.used_ovpn_bytes

-- What a counter has grown by since the last reading; a counter below it has been reset.
unfoldable pub counter_delta : ℤ → ℤ → ℤ
counter_delta cur last = if ltb_ℤ cur last then cur else sub64 cur last

-- `effectiveBlocked`
module _ (c : Clock) where
  unfoldable pub is_expired : Peer → c.Time → Bool
  is_expired p now =
      not (is_empty p.expires_at)
      && elim (c.parse p.expires_at) [ none ↦ false | some t ↦ c.after now t ]

  unfoldable pub effective_blocked : Peer → c.Time → Bool
  unfolding is_expired used_total
  effective_blocked p now =
      if not p.enabled
      then true
      else if is_expired p now
      then true
      else if ltb_ℤ (pos 0) p.quota_bytes && leb_ℤ p.quota_bytes (used_total p)
      then true
      else false

-- One line of `ipset list -o save`
unfoldable pub save_line : Text → List Text → List Text
save_line set_name (word ∷ name ∷ ip ∷ more) =
    if word == lit "add" && name == set_name then ip ∷ [] else []
save_line set_name _ = []

unfoldable pub save_lines : Text → List Text → List Text
save_lines set_name [] = []
save_lines set_name (line ∷ lines) = elim (save_line set_name (fields line)) [
  | [] ↦ save_lines set_name lines
  | ip ∷ _ ↦ ip ∷ save_lines set_name lines
]

-- `parseIpsetSave`
unfoldable pub parse_ipset_save : Text → Text → List Text
unfolding save_lines save_line
parse_ipset_save set_name out = save_lines set_name (split b'\n' out)

-- `staleIPs`
unfoldable pub stale_ips : List Text → List Text → List Text
stale_ips have want = keep (λ ip. not (elem ip want)) have
