-- ===== src/Tests/Orders.antt =====
-- The theorems on oms/src/lib.rs at concrete orders and reports.
use orderbook_replay_lab.Base.{
  ◌+◌, ◌≡◌, refl, none, some, List, [], ◌∷◌, arith, ℤ, pos, nat_eq, text_eq,
}
use orderbook_replay_lab.Base.Assoc.{lookup, count}
use orderbook_replay_lab.Core.Types.{Side}
use orderbook_replay_lab.Trading.{TimeInForce, OrderStatus, ExecutionReport, Intent}
use orderbook_replay_lab.Oms.Defs.{
  OrderState, OrderEntry, Oms, new, on_execution_report, open_orders,
}
use orderbook_replay_lab.Oms.Invariant.{IsValid, is_open}
use orderbook_replay_lab.Oms.Runs.{Call, intends, reports, step, run, open_orders-run}
use orderbook_replay_lab.Oms.Reports.{Keeps, step-Keeps, terminal_reopened}

abbrev place : Intent
place = Intent.place_limit 7 Side.bid (pos 100) (pos 5) TimeInForce.gtc none

abbrev report : OrderStatus → ℤ → ExecutionReport
report status qty = record {
  client_order_id = 1;
  status = status;
  filled_qty = qty;
  last_fill_price = pos 100;
  fee_ticks = pos 1;
  ts_ns = 3;
  symbol = 7;
  side = Side.bid;
}

abbrev calls : List Call
calls =
    intends place 1
    ∷ intends place 2
    ∷ reports (report OrderStatus.filled (pos 5))
    ∷ intends (Intent.cancel 2) 4
    ∷ []

open_orders-run_example : open_orders (run new calls) ≡ count is_open (run new calls).orders
open_orders-run_example = open_orders-run calls (omega arith)

-- One order that has filled five lots.
abbrev filled_entry : OrderEntry
filled_entry = record { state = OrderState.filled; filled_qty = pos 5 }

abbrev one_filled : Oms
one_filled = record {
  next_id = 2;
  orders = (1, filled_entry) ∷ [];
  open_orders_count = 0;
  orphan_reports = 0;
}

one_filled-lookup : lookup 1 one_filled.orders ≡ some filled_entry
unfolding lookup
one_filled-lookup = refl

one_filled-IsValid : IsValid one_filled
unfolding lookup count
one_filled-IsValid = record {
  unique = (refl, tt);
  fresh = (omega arith, tt);
  sized = omega arith;
  counted = refl;
}

step-Keeps_example :
    Keeps
      (lookup 1 (step one_filled (reports (report OrderStatus.canceled (pos 4)))).orders)
      (pos 5)
step-Keeps_example =
    step-Keeps one_filled (reports (report OrderStatus.canceled (pos 4))) 1 filled_entry
      one_filled-IsValid one_filled-lookup

terminal_reopened_example :
    let o' = on_execution_report one_filled (report OrderStatus.accepted (pos 5)) in
    (lookup 1 o'.orders ≡ some (record { state = OrderState.live; filled_qty = pos 5 }))
    × (open_orders o' ≡ open_orders one_filled + 1)
terminal_reopened_example =
    terminal_reopened one_filled (report OrderStatus.accepted (pos 5)) filled_entry
      one_filled-lookup refl refl (omega arith) (omega arith)
