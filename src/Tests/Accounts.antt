-- ===== src/Tests/Accounts.antt =====
-- Passes, bills and recharges at concrete data.
use wg_manager.Base.{ℕ, ◌+◌, ◌≡◌, ◌&&◌, Bool, true, false, some, List, [], ◌∷◌, map, refl, arith}
use wg_manager.Base.{
  Text, lit, ltb, length, ℤ, pos, ◌≤ℤ◌, Dict, All, IsWord, HasNoSpace, is_space, elem, text_eq,
}
use wg_manager.Base.{lookup, add64, sub64, text_beq, Lacks}
use wg_manager.Store.{Peer, Table, insert_peer, clashes}
use wg_manager.Store.Laws.{IsValid}
use wg_manager.Enforce.{
  Clock, used_total, counter_delta, effective_blocked, is_expired, parse_ipset_save,
}
use wg_manager.Enforce.Firewall.{save_text}
use wg_manager.Enforce.Firewall.Save.{parse_ipset_save-save_text}
use wg_manager.Enforce.Tick.{Readings, enforce_tick, wg_reading, ovpn_reading, add_wg}
use wg_manager.Enforce.Tick.Rows.{settle, enforce_tick-rows, counted, count_wg, count_ovpn}
use wg_manager.Enforce.Tick.BlockSet.{last_verdict, elem-enforce_tick}
use wg_manager.Enforce.Usage.{
  Meter, Event, traffic, restart, poll, observe, observe_all, IsFair, IsExact,
}
use wg_manager.Enforce.Usage.{observe_all_fair, observe_all_exact, has_restart}
use wg_manager.Recharge.{
  Floats, Json, bool, number, ResetCounters, Result, ok, cli_reset, set_baseline,
}
use wg_manager.Recharge.{amount, recharged}
use wg_manager.Recharge.{set_quota, add_quota}
use wg_manager.Recharge.Baseline.{pass, counters_at, used_total-set_baseline, cli_reset_rebills}
use wg_manager.Tests.Memory.{memory, memory-IsLawful, no_sets}

-- A time is a number of days, and a text stands for the day of its length.
abbrev days : Clock
days = record {
  Time = ℕ;
  parse = λ s. some (length s);
  format = λ t. [];
  after = λ t u. ltb u t;
  add_days = λ t n. t;
}

abbrev row : ℕ → Text → Text → Text → Peer
row i name key ip = record {
  id = i;
  username = name;
  public_key = key;
  private_key = [];
  psk = [];
  address = ip;
  quota_bytes = pos 100;
  used_bytes = pos 40;
  last_rx = pos 10;
  last_tx = pos 20;
  expires_at = [];
  enabled = true;
  blocked = false;
  ovpn_cn = [];
  ovpn_ip = [];
  ovpn_enabled = false;
  used_ovpn_bytes = pos 0;
  last_ovpn_bytes = pos 0;
  ovpn_cert = [];
  ovpn_key = [];
}

abbrev ann : Peer
ann = row 1 (b'a' ∷ []) (b'K' ∷ []) (b'7' ∷ [])

abbrev bob : Peer
bob = row 2 (b'b' ∷ []) (b'L' ∷ []) (b'8' ∷ [])

abbrev users : Table
users = record { rows = ann ∷ bob ∷ []; next_id = 3 }

users-IsValid : IsValid users
unfolding clashes text_beq
users-IsValid = record { distinct = ground arith; below = ground arith }

abbrev readings : Readings
readings = record { ipset = b's' ∷ []; transfer = ((b'K' ∷ []), (pos 60, pos 30)) ∷ []; ovpn = [] }

enforce_tick-rows_example :
    (enforce_tick days memory readings 5 (users, no_sets)).0.rows
    ≡ map (settle days readings 5) users.rows
enforce_tick-rows_example = enforce_tick-rows days memory readings 5 users no_sets users-IsValid

-- Ann is over her quota after the pass, and Bob is not.
abbrev account : Peer → ℤ × Bool
account p = (p.used_bytes, p.blocked)

after_pass :
    map {B = ℤ × Bool} account (map (settle days readings 5) users.rows)
    ≡ (pos 100, true) ∷ (pos 40, false) ∷ []
unfolding settle counted count_wg count_ovpn wg_reading ovpn_reading effective_blocked is_expired
    lookup text_beq add_wg used_total counter_delta add64 sub64
after_pass = refl

letter-IsWord : (c : ℕ) → is_space c ≡ false → IsWord (c ∷ [])
letter-IsWord c h = ((λ q. cc), (h, tt))

set-IsWord : IsWord (b's' ∷ [])
unfolding is_space
set-IsWord = letter-IsWord b's' refl

plain_ips : All (λ p. HasNoSpace p.address × HasNoSpace p.ovpn_ip) users.rows
unfolding is_space
plain_ips = ground arith

elem-enforce_tick_example :
    elem (b'7' ∷ []) (
      memory-IsLawful.members readings.ipset
        (enforce_tick days memory readings 5 (users, no_sets)).1)
    ≡ (memory-IsLawful.takes (b'7' ∷ [])
        && last_verdict days readings 5 (b'7' ∷ []) users.rows false)
elem-enforce_tick_example =
    elem-enforce_tick days memory readings 5 memory-IsLawful (b'7' ∷ []) users no_sets set-IsWord
      plain_ips

-- A tunnel before its first packet.
abbrev idle : Peer
idle = record ann { used_bytes = pos 0; last_rx = pos 0; last_tx = pos 0 }

abbrev meter : Meter
meter = record { rx = 0; tx = 0; total = 0; peer = idle }

meter-IsFair : IsFair meter
meter-IsFair = record {
  used = 0;
  last_rx = 0;
  last_tx = 0;
  bills = record { used_is = refl; rx_is = refl; tx_is = refl };
  bound = ground arith;
  counters = omega arith;
}

meter-IsExact : IsExact meter
meter-IsExact = record {
  used = 0;
  last_rx = 0;
  last_tx = 0;
  bills = record { used_is = refl; rx_is = refl; tx_is = refl };
  rx_le = omega arith;
  tx_le = omega arith;
  balance = omega arith;
  counters = omega arith;
}

-- A restart between two passes, with traffic that no pass has read before it.
abbrev restarted : List Event
restarted = traffic 5 6 ∷ poll ∷ traffic 7 8 ∷ restart ∷ traffic 1 2 ∷ poll ∷ []

total_restarted : (observe_all restarted meter).total ≡ 29
unfolding observe_all observe
total_restarted = refl

billed_restarted : (observe_all restarted meter).peer.used_bytes ≡ pos 14
unfolding observe_all observe add_wg counter_delta add64 sub64
billed_restarted = refl

observe_all_fair_example :
    (observe_all restarted meter).peer.used_bytes ≤ℤ pos (observe_all restarted meter).total
observe_all_fair_example =
    observe_all_fair restarted meter (omega (arith, total_restarted)) meter-IsFair

abbrev steady : List Event
steady = traffic 5 6 ∷ poll ∷ traffic 7 8 ∷ []

total_steady : (observe_all steady meter).total ≡ 26
unfolding observe_all observe
total_steady = refl

no_restart : has_restart steady ≡ false
unfolding has_restart
no_restart = refl

observe_all_exact_example :
    (observe poll (observe_all steady meter)).peer.used_bytes ≡ pos (observe_all steady meter).total
observe_all_exact_example =
    observe_all_exact steady meter no_restart (omega (arith, total_steady)) meter-IsExact

-- Amounts that are whole numbers.
abbrev whole : Floats
whole = record {
  Float = ℕ;
  is_negative = λ v. false;
  is_nan = λ v. false;
  is_inf = λ v. false;
  reaches_max = λ v. ltb 1000 v;
  to_bytes = λ v. pos v;
  is_positive = λ v. ltb 0 v;
  to_int = λ v. pos v;
  real_sum = λ a b. a;
  parse = λ s. (0, true);
}

used_total-set_baseline_example :
    used_total (pass (10 + 3) (20 + 4) (30 + 5) (set_baseline whole (counters_at 10 20 30) ann))
    ≡ pos 12
used_total-set_baseline_example = used_total-set_baseline whole ann 10 20 30 3 4 5 (omega arith)

cli_reset_rebills_example : (add_wg (pos 10, pos 20) (cli_reset whole ann)).used_bytes ≡ pos 30
cli_reset_rebills_example = cli_reset_rebills whole ann 10 20 0 0 0 0 (omega arith)

abbrev snapshot : Peer → Result ResetCounters
snapshot p = ok (counters_at 10 20 0)

abbrev body : Dict (Json ℕ)
unfolding lit
body = (lit "reset", bool true) ∷ (lit "set_gb", number 9) ∷ []

recharged_users : Table
unfolding recharged set_baseline set_quota add_quota amount lookup lit text_beq
recharged_users = record {
  rows = recharged whole true (counters_at 10 20 0) body ann ∷ bob ∷ [];
  next_id = 3;
}

no_newline : Lacks b'\n' (b'o' ∷ [])
no_newline = ground arith

ip_words : All IsWord ((b'7' ∷ []) ∷ (b'8' ∷ []) ∷ [])
unfolding is_space
ip_words = (letter-IsWord b'7' refl, (letter-IsWord b'8' refl, tt))

parse_ipset_save-save_text_example :
    parse_ipset_save
      (b's' ∷ [])
      (save_text (b'o' ∷ []) (b's' ∷ []) ((b'7' ∷ []) ∷ (b'8' ∷ []) ∷ []))
    ≡ (b'7' ∷ []) ∷ (b'8' ∷ []) ∷ []
parse_ipset_save-save_text_example =
    parse_ipset_save-save_text (b'o' ∷ []) (b's' ∷ []) ((b'7' ∷ []) ∷ (b'8' ∷ []) ∷ []) no_newline
      set-IsWord ip_words

abbrev cid : Peer
cid = row 0 (b'c' ∷ []) (b'M' ∷ []) (b'9' ∷ [])

abbrev three_users : Table
three_users = record { rows = ann ∷ bob ∷ record cid { id = 3 } ∷ []; next_id = 4 }

cid_inserted : insert_peer cid users ≡ some three_users
unfolding insert_peer clashes text_beq
cid_inserted = refl
