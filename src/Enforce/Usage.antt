-- ===== src/Enforce/Usage.antt =====
-- Billing from cumulative counters: what the accounts make of traffic, restarts of the interface
-- and passes in any order.
use wg_manager.Base.{ℕ, ◌+◌, ◌-◌, ◌≤◌, ◌≡◌, Bool, true, false, List, [], ◌∷◌, arith, refl, ap, ◌∙◌}
use wg_manager.Base.{pos, add64_pos, sub64_pos, max_int64, if◌then◌else◌}
use wg_manager.Base.{ltb, ◌≤ℤ◌}
use wg_manager.Store.{Peer}
use wg_manager.Enforce.{counter_delta}
use wg_manager.Enforce.Tick.{add_wg}

-- What a counter that may have restarted adds to the bill.
abbrev pub growth : ℕ → ℕ → ℕ
growth cur last = if ltb cur last then cur else cur - last

pub counter_delta_lem :
    (cur last : ℕ) → cur ≤ max_int64 → counter_delta (pos cur) (pos last) ≡ pos (growth cur last)
unfolding counter_delta
counter_delta_lem cur last h = ground (arith, sub64_pos cur last)

-- A tunnel with its counters, all traffic since it was set up, and the row of its user.
pub record Meter : Type 0 where
  pub rx : ℕ
  pub tx : ℕ
  pub total : ℕ
  pub peer : Peer

pub data Event : Type 0 where
  traffic : ℕ → ℕ → Event
  restart poll : Event

unfoldable pub observe : Event → Meter → Meter
observe (traffic r t) m = record m { rx = m.rx + r; tx = m.tx + t; total = m.total + r + t }
observe restart m = record m { rx = 0; tx = 0 }
observe poll m = record m { peer = add_wg (pos m.rx, pos m.tx) m.peer }

unfoldable pub observe_all : List Event → Meter → Meter
unfolding observe
observe_all [] m = m
observe_all (e ∷ es) m = observe_all es (observe e m)

-- The row bills `used`, with the counters last read at `rx` and `tx`.
pub record Bills (p : Peer) (used rx tx : ℕ) : Type 0 where
  pub used_is : p.used_bytes ≡ pos used
  pub rx_is : p.last_rx ≡ pos rx
  pub tx_is : p.last_tx ≡ pos tx

pub add_wg-Bills :
    (p : Peer) (used lrx ltx rx tx : ℕ)
    → Bills p used lrx ltx
    → used + growth rx lrx + growth tx ltx ≤ max_int64
    → rx ≤ max_int64
    → tx ≤ max_int64
    → Bills (add_wg (pos rx, pos tx) p) (used + (growth rx lrx + growth tx ltx)) rx tx
unfolding add_wg
add_wg-Bills p used lrx ltx rx tx b h hr ht = record {
  used_is =
      rw
        (
          b.used_is,
          b.rx_is,
          b.tx_is,
          counter_delta_lem rx lrx hr,
          counter_delta_lem tx ltx ht,
          add64_pos (growth rx lrx) (growth tx ltx) (omega arith),
          add64_pos used (growth rx lrx + growth tx ltx) (omega arith),
        )
        refl;
  rx_is = refl;
  tx_is = refl;
}

-- The bill and what the next pass would add stay within the traffic.
pub record IsFair (m : Meter) : Type 0 where
  pub used : ℕ
  pub last_rx : ℕ
  pub last_tx : ℕ
  pub bills : Bills m.peer used last_rx last_tx
  pub bound : used + growth m.rx last_rx + growth m.tx last_tx ≤ m.total
  pub counters : m.rx + m.tx ≤ m.total

total-observe : (e : Event) (m : Meter) → m.total ≤ (observe e m).total
unfolding observe
total-observe (traffic r t) m = omega arith
total-observe restart m = omega arith
total-observe poll m = omega arith

total-observe_all : (es : List Event) (m : Meter) → m.total ≤ (observe_all es m).total
unfolding observe_all
total-observe_all [] m = omega arith
total-observe_all (e ∷ es) m = omega (arith, total-observe e m, total-observe_all es (observe e m))

growth-add : (cur last n : ℕ) → growth (cur + n) last ≤ growth cur last + n
growth-add cur last n = ground arith

growth-zero : (last : ℕ) → growth 0 last ≡ 0
growth-zero last = ground arith

growth_self : (n : ℕ) → growth n n ≡ 0
growth_self n = ground arith

observe-IsFair :
    (e : Event) (m : Meter) → (observe e m).total ≤ max_int64 → IsFair m → IsFair (observe e m)
unfolding observe
observe-IsFair (traffic r t) m h f = record {
  used = f.used;
  last_rx = f.last_rx;
  last_tx = f.last_tx;
  bills = f.bills;
  bound = omega (arith, f.bound, growth-add m.rx f.last_rx r, growth-add m.tx f.last_tx t);
  counters = omega (arith, f.counters);
}
observe-IsFair restart m h f = record {
  used = f.used;
  last_rx = f.last_rx;
  last_tx = f.last_tx;
  bills = f.bills;
  bound = omega (arith, f.bound, growth-zero f.last_rx, growth-zero f.last_tx);
  counters = omega arith;
}
observe-IsFair poll m h f = record {
  used = f.used + (growth m.rx f.last_rx + growth m.tx f.last_tx);
  last_rx = m.rx;
  last_tx = m.tx;
  bills =
      add_wg-Bills m.peer f.used f.last_rx f.last_tx m.rx m.tx f.bills (omega (arith, f.bound))
        (omega (arith, f.counters)) (omega (arith, f.counters));
  bound = omega (arith, f.bound, growth_self m.rx, growth_self m.tx);
  counters = f.counters;
}

observe_all-IsFair :
    (es : List Event) (m : Meter)
    → (observe_all es m).total ≤ max_int64
    → IsFair m
    → IsFair (observe_all es m)
unfolding observe_all
observe_all-IsFair [] m h f = f
observe_all-IsFair (e ∷ es) m h f =
    observe_all-IsFair es (observe e m) h
      (observe-IsFair e m (omega (arith, total-observe_all es (observe e m))) f)

-- Whatever the order of traffic, restarts and passes, a user is never billed for more than the
-- traffic that there was.
pub observe_all_fair :
    (es : List Event) (m : Meter)
    → (observe_all es m).total ≤ max_int64
    → IsFair m
    → (observe_all es m).peer.used_bytes ≤ℤ pos (observe_all es m).total
observe_all_fair es m h f =
    let g = observe_all-IsFair es m h f in rw g.bills.used_is (omega (arith, g.bound))

unfoldable pub has_restart : List Event → Bool
has_restart [] = false
has_restart (restart ∷ es) = true
has_restart (_ ∷ es) = has_restart es

-- Every byte is billed or waits for the next pass.
pub record IsExact (m : Meter) : Type 0 where
  pub used : ℕ
  pub last_rx : ℕ
  pub last_tx : ℕ
  pub bills : Bills m.peer used last_rx last_tx
  pub rx_le : last_rx ≤ m.rx
  pub tx_le : last_tx ≤ m.tx
  pub balance : used + (m.rx - last_rx) + (m.tx - last_tx) ≡ m.total
  pub counters : m.rx + m.tx ≤ m.total

growth_le : (cur last : ℕ) → last ≤ cur → growth cur last ≡ cur - last
growth_le cur last h = ground arith

observe_all-IsExact :
    (es : List Event) (m : Meter)
    → has_restart es ≡ false
    → (observe_all es m).total ≤ max_int64
    → IsExact m
    → IsExact (observe_all es m)
unfolding observe_all observe has_restart
observe_all-IsExact [] m q h f = f
observe_all-IsExact (traffic r t ∷ es) m q h f = observe_all-IsExact es _ q h (record {
  used = f.used;
  last_rx = f.last_rx;
  last_tx = f.last_tx;
  bills = f.bills;
  rx_le = omega (arith, f.rx_le);
  tx_le = omega (arith, f.tx_le);
  balance = omega (arith, f.balance, f.rx_le, f.tx_le);
  counters = omega (arith, f.counters);
})
observe_all-IsExact (restart ∷ es) m q h f = cc
observe_all-IsExact (poll ∷ es) m q h f =
    let e = growth_le m.rx f.last_rx f.rx_le in
    let e' = growth_le m.tx f.last_tx f.tx_le in
    let t = total-observe_all es (observe poll m) in
    observe_all-IsExact es _ q h (record {
      used = f.used + (growth m.rx f.last_rx + growth m.tx f.last_tx);
      last_rx = m.rx;
      last_tx = m.tx;
      bills =
          add_wg-Bills m.peer f.used f.last_rx f.last_tx m.rx m.tx f.bills
            (omega (arith, f.balance)) (omega (arith, f.counters)) (omega (arith, f.counters));
      rx_le = omega arith;
      tx_le = omega arith;
      balance = omega (arith, f.balance);
      counters = f.counters;
    })

-- While the interface is not restarted, a pass at the end bills exactly the traffic.
pub observe_all_exact :
    (es : List Event) (m : Meter)
    → has_restart es ≡ false
    → (observe_all es m).total ≤ max_int64
    → IsExact m
    → (observe poll (observe_all es m)).peer.used_bytes ≡ pos (observe_all es m).total
unfolding observe
observe_all_exact es m q h f =
    let g = observe_all-IsExact es m q h f in
    let n = observe_all es m in
    let e = growth_le n.rx g.last_rx g.rx_le in
    let e' = growth_le n.tx g.last_tx g.tx_le in
    let b =
      add_wg-Bills n.peer g.used g.last_rx g.last_tx n.rx n.tx g.bills (omega (arith, g.balance, h))
        (omega (arith, g.counters, h)) (omega (arith, g.counters, h)) in
    b.used_is ∙ ap pos (omega (arith, g.balance))
