-- ===== src/Api.antt =====
-- strategy-api/src/lib.rs and venue/src/lib.rs: the context snapshot, and the two traits as records
-- of functions that pass the implementor's state and the output vector on.
use orderbook_replay_lab.Base.{ℕ, Option, none, some, List, ℤ, quot_ℤ, add_i64, nat_eq, text_eq}
use orderbook_replay_lab.Base.Result.{to_option}
use orderbook_replay_lab.Core.Types.{SymbolId, Price, Qty, new_price, MarketEvent}
use orderbook_replay_lab.Trading.{ExecutionReport, Intent}

pub record ContextSnapshot : Type 0 where
  pub ts_ns : ℕ
  pub symbol : SymbolId
  pub best_bid : Option (Price × Qty)
  pub best_ask : Option (Price × Qty)
  pub position_lots : ℤ
  pub open_orders : ℕ
  pub mid_price : Option Price

-- `(bid_ticks + ask_ticks) / 2` of two best levels.
abbrev pub mid_ticks : ℤ → ℤ → ℤ
mid_ticks b a = quot_ℤ (add_i64 b a) 2

abbrev pub mid_of : Option (Price × Qty) → Option (Price × Qty) → Option Price
mid_of (some (b, _)) (some (a, _)) = to_option (new_price (mid_ticks b a))
mid_of (some _) none = none
mid_of none _ = none

unfoldable pub context :
    ℕ → SymbolId → Option (Price × Qty) → Option (Price × Qty) → ℤ → ℕ → ContextSnapshot
context ts_ns symbol best_bid best_ask position_lots open_orders = record {
  ts_ns = ts_ns;
  symbol = symbol;
  best_bid = best_bid;
  best_ask = best_ask;
  position_lots = position_lots;
  open_orders = open_orders;
  mid_price = mid_of best_bid best_ask;
}

-- The trait `Strategy`: an implementor's state and its three callbacks.
pub record Strategy : Type 1 where
  pub State : Type 0
  pub on_market_event : ContextSnapshot → MarketEvent → State → List Intent → State × List Intent
  pub on_timer : ContextSnapshot → State → List Intent → State × List Intent
  pub on_execution_report :
      ContextSnapshot → ExecutionReport → State → List Intent → State × List Intent
