-- ===== src/Recharge/Baseline.antt =====
-- After a recharge with a reset, the next pass bills only what has been used since.
use wg_manager.Base.{ℕ, ◌+◌, ◌≤◌, ◌≡◌}
use wg_manager.Base.{arith, ap, pos, max_int64}
use wg_manager.Base.{add64_pos}
use wg_manager.Store.{Peer}
use wg_manager.Enforce.{used_total}
use wg_manager.Enforce.Tick.{add_wg, add_ovpn}
use wg_manager.Enforce.Usage.{growth, counter_delta_lem}
use wg_manager.Recharge.{Floats, ResetCounters}
use wg_manager.Recharge.{set_baseline}
use wg_manager.Recharge.{cli_reset}

abbrev pub counters_at : ℕ → ℕ → ℕ → ResetCounters
counters_at rx tx ovpn = record { rx = pos rx; tx = pos tx; ovpn = pos ovpn }

growth-add_self : (n d : ℕ) → growth (n + d) n ≡ d
growth-add_self n d = ground arith

growth-zero_base : (n : ℕ) → growth n 0 ≡ n
growth-zero_base n = ground arith

-- A pass that reads both tunnels.
abbrev pub pass : ℕ → ℕ → ℕ → Peer → Peer
pass rx tx ovpn p = add_ovpn (pos ovpn) (add_wg (pos rx, pos tx) p)

module _ (fl : Floats) (p : Peer) (rx tx ov drx dtx dov : ℕ) where
  -- Counters that stood at the snapshot and have grown since bill exactly the growth.
  pub used_total-set_baseline :
      rx + drx + (tx + dtx) + (ov + dov) ≤ max_int64
      → used_total
          (pass (rx + drx) (tx + dtx) (ov + dov) (set_baseline fl (counters_at rx tx ov) p))
        ≡ pos (drx + dtx + dov)
  unfolding used_total add_wg add_ovpn set_baseline
  used_total-set_baseline h =
      rw
        (
          counter_delta_lem (rx + drx) rx (omega arith),
          counter_delta_lem (tx + dtx) tx (omega arith),
          counter_delta_lem (ov + dov) ov (omega arith),
          growth-add_self rx drx,
          growth-add_self tx dtx,
          growth-add_self ov dov,
          add64_pos drx dtx (omega arith),
          add64_pos 0 (drx + dtx) (omega arith),
          add64_pos 0 dov (omega arith),
          add64_pos (0 + (drx + dtx)) (0 + dov) (omega arith),
        )
        (ap pos (omega arith))

  -- The command line's reset forgets the counters, so that the next pass bills them whole.
  pub cli_reset_rebills :
      rx + tx ≤ max_int64 → (add_wg (pos rx, pos tx) (cli_reset fl p)).used_bytes ≡ pos (rx + tx)
  unfolding add_wg cli_reset
  cli_reset_rebills h =
      rw
        (
          counter_delta_lem rx 0 (omega arith),
          counter_delta_lem tx 0 (omega arith),
          growth-zero_base rx,
          growth-zero_base tx,
          add64_pos rx tx h,
          add64_pos 0 (rx + tx) (omega arith),
        )
        (ap pos (omega arith))
