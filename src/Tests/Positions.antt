-- ===== src/Tests/Positions.antt =====
-- The theorems on portfolio/src/lib.rs at concrete fills.
use orderbook_replay_lab.Base.{
  ℕ, ◌≡◌, refl, none, some, [], ◌∷◌, ◌++◌, map, arith, ◌==◌, if◌then◌else◌, pos, negsuc, ◌+ℤ◌, ◌-ℤ◌,
  ◌*ℤ◌, eq_ℤ, nat_eq, text_eq,
}
use orderbook_replay_lab.Base.Assoc.{lookup}
use orderbook_replay_lab.Core.Types.{Side}
use orderbook_replay_lab.Trading.{OrderStatus, ExecutionReport}
use orderbook_replay_lab.Portfolio.Defs.{
  Position, Portfolio, fill_position, filled_so_far, on_execution_report, position_lots,
}
use orderbook_replay_lab.Portfolio.Position.{IsFlatOrPriced, fill_position-IsFlatOrPriced}
use orderbook_replay_lab.Portfolio.Profit.{fill_position-reduce, round_trip, partial_close}
use orderbook_replay_lab.Portfolio.Reports.{new_lots, signed, position-report, filled_twice}
use orderbook_replay_lab.Portfolio.Orders.{Fill, fill_report, deliver, position-order}

abbrev fill : ℕ → Fill
fill n = record { qty = pos n; price = pos 100; fee_ticks = pos 1; ts_ns = 3 }

abbrev filled : ExecutionReport
filled = fill_report 1 7 Side.ask OrderStatus.filled (fill 5)

-- Ten lots that were bought at 100.
abbrev ten : Position
ten = record {
  position_lots = pos 10;
  realized_pnl_ticks = pos 0;
  fees_paid_ticks = pos 0;
  avg_entry_price_ticks = some (pos 100);
}

abbrev flat : Position
flat = record {
  position_lots = pos 0;
  realized_pnl_ticks = pos 0;
  fees_paid_ticks = pos 0;
  avg_entry_price_ticks = none;
}

abbrev holding : Portfolio
holding = record { positions = (7, ten) ∷ []; filled_by_order = [] }

holding-lots : position_lots holding 7 ≡ pos 10
unfolding position_lots lookup
holding-lots = refl

holding-fresh : filled_so_far holding 1 ≡ pos 0
unfolding lookup
holding-fresh = refl

position-order_example :
    let f' =
      deliver
        (map (fill_report 1 7 Side.bid OrderStatus.partially_filled) (fill 3 ∷ fill 2 ∷ [])
          ++ fill_report 1 7 Side.bid OrderStatus.filled (fill 5) ∷ [])
        holding in
    (position_lots f' 7 ≡ position_lots holding 7 +ℤ pos 5) × (filled_so_far f' 1 ≡ pos 0)
unfolding position_lots lookup ◌+ℤ◌
position-order_example =
    position-order 1 7 Side.bid (fill 3 ∷ fill 2 ∷ []) (fill 5) holding holding-fresh
      (((omega arith, omega arith), omega arith), (((omega arith, omega arith), omega arith), tt))
      (omega arith, omega arith) (omega arith) (omega arith, omega arith) (omega arith, omega arith)

fill_position-reduce_example :
    let p' = fill_position ten (pos 103) (negsuc 3) (pos 1) in
    (p'.position_lots ≡ ten.position_lots +ℤ negsuc 3)
    × (p'.realized_pnl_ticks ≡ ten.realized_pnl_ticks -ℤ (pos 103 -ℤ pos 100) *ℤ negsuc 3)
    × (p'.avg_entry_price_ticks
        ≡ (if eq_ℤ (ten.position_lots +ℤ negsuc 3) (pos 0) then none else some (pos 103)))
unfolding ◌+ℤ◌ ◌-ℤ◌ ◌*ℤ◌
fill_position-reduce_example =
    fill_position-reduce ten (pos 100) (pos 103) (negsuc 3) (pos 1) refl (omega arith) (omega arith)
      (omega arith) (refl, omega arith) (refl, omega arith) (omega arith, omega arith)

round_trip_example :
    let p' =
      fill_position
        (fill_position flat (pos 100) (pos 5) (pos 1))
        (pos 103)
        (pos 0 -ℤ pos 5)
        (pos 1) in
    (p'.position_lots ≡ pos 0)
    × (p'.realized_pnl_ticks ≡ flat.realized_pnl_ticks +ℤ (pos 103 -ℤ pos 100) *ℤ pos 5)
    × (p'.avg_entry_price_ticks ≡ none)
unfolding ◌+ℤ◌ ◌-ℤ◌ ◌*ℤ◌
round_trip_example =
    round_trip flat (pos 100) (pos 103) (pos 5) (pos 1) (pos 1) refl
      (λ e. absurd (ground (arith, e))) (omega arith) (omega arith) (refl, omega arith)
      (refl, omega arith) (omega arith, omega arith)

partial_close_example :
    let rest = ten.position_lots +ℤ negsuc 3 in
    let p' =
      fill_position
        (fill_position ten (pos 103) (negsuc 3) (pos 1))
        (pos 105)
        (pos 0 -ℤ rest)
        (pos 1) in
    (p'.position_lots ≡ pos 0)
    × (p'.realized_pnl_ticks
        ≡ ten.realized_pnl_ticks
          -ℤ (pos 103 -ℤ pos 100) *ℤ negsuc 3
          +ℤ (pos 105 -ℤ pos 103) *ℤ rest)
unfolding ◌+ℤ◌ ◌-ℤ◌ ◌*ℤ◌
partial_close_example =
    partial_close ten (pos 100) (pos 103) (pos 105) (negsuc 3) (pos 1) (pos 1) refl (omega arith)
      (λ e. absurd (ground (arith, e))) (omega arith) (omega arith) (refl, omega arith)
      (refl, omega arith) (refl, omega arith) (omega arith, omega arith) (omega arith, omega arith)

position-report_example : position_lots (on_execution_report holding filled) 7 ≡ (
    if 7 == 7
    then position_lots holding 7 +ℤ signed Side.ask (new_lots holding filled)
    else position_lots holding 7)
unfolding position_lots lookup ◌+ℤ◌ ◌-ℤ◌
position-report_example =
    position-report holding filled 7 (omega arith) (omega arith, omega arith)
      (omega arith, omega arith)

filled_twice_example :
    position_lots (on_execution_report (on_execution_report holding filled) filled) 7
    ≡ position_lots holding 7 +ℤ signed Side.ask (pos 5) +ℤ signed Side.ask (pos 5)
unfolding position_lots lookup ◌+ℤ◌ ◌-ℤ◌
filled_twice_example =
    filled_twice holding filled refl holding-fresh (omega arith) (omega arith, omega arith)
      (omega arith, omega arith) (omega arith, omega arith)

fill_position-IsFlatOrPriced_example :
    IsFlatOrPriced (fill_position ten (pos 103) (negsuc 9) (pos 1))
fill_position-IsFlatOrPriced_example = fill_position-IsFlatOrPriced ten (pos 103) (negsuc 9) (pos 1)
