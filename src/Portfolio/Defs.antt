-- ===== src/Portfolio/Defs.antt =====
-- portfolio/src/lib.rs: positions, realised profit and fees from execution reports.
use orderbook_replay_lab.Base.{
  suc, Bool, true, false, not, ◌&&◌, ◌||◌, Option, none, some, [], if◌then◌else◌, ℤ, pos, negsuc,
  ◌-ℤ◌, ltb_ℤ, leb_ℤ, eq_ℤ, signum, min_ℤ, quot_ℤ, add_i64, sub_i64, neg_i64, abs_i64, add_i128,
  mul_i128, as_i64, nat_eq, text_eq,
}
use orderbook_replay_lab.Core.Types.{Side, SymbolId, Price, Qty}
use orderbook_replay_lab.Trading.{ClientOrderId, OrderStatus, ExecutionReport}
use orderbook_replay_lab.Base.Assoc.{Assoc, lookup, erase, insert}

pub record Position : Type 0 where
  pub position_lots : ℤ
  pub realized_pnl_ticks : ℤ
  pub fees_paid_ticks : ℤ
  pub avg_entry_price_ticks : Option ℤ

unfoldable pub default_position : Position
default_position = record {
  position_lots = pos 0;
  realized_pnl_ticks = pos 0;
  fees_paid_ticks = pos 0;
  avg_entry_price_ticks = none;
}

pub record Portfolio : Type 0 where
  pub positions : Assoc SymbolId Position
  pub filled_by_order : Assoc ClientOrderId ℤ

unfoldable pub new : Portfolio
new = record { positions = []; filled_by_order = [] }

-- `/` on `i128`; the divisor here is a total quantity, which is positive.
abbrev pub div_i128 : ℤ → ℤ → ℤ
div_i128 a (pos d) = quot_ℤ a d
div_i128 a (negsuc d) = pos 0 -ℤ quot_ℤ a (suc d)

abbrev pub get_or : ℤ → Option ℤ → ℤ
get_or d none = d
get_or d (some a) = a

-- `delta_qty` bought or `-delta_qty` sold.
abbrev pub signed_qty : Side → ℤ → ℤ
signed_qty Side.bid delta_qty = delta_qty
signed_qty Side.ask delta_qty = neg_i64 delta_qty

-- The realised profit of a fill that closes some of the position.
unfoldable pub closing_pnl : Position → ℤ → ℤ → ℤ → ℤ
closing_pnl p avg_entry fill_price qty =
    let close_qty = min_ℤ (abs_i64 qty) (abs_i64 p.position_lots) in
    let pnl_per_lot =
      if ltb_ℤ (pos 0) p.position_lots
      then sub_i64 fill_price avg_entry
      else sub_i64 avg_entry fill_price in
    mul_i128 pnl_per_lot close_qty

-- Realised profit after a fill of `qty` signed lots.
unfoldable pub realized_after : Position → ℤ → ℤ → ℤ
realized_after p fill_price qty =
    if not (eq_ℤ p.position_lots (pos 0)) && not (eq_ℤ (signum p.position_lots) (signum qty))
    then elim p.avg_entry_price_ticks [
      | none ↦ p.realized_pnl_ticks
      | some avg_entry ↦ add_i128 p.realized_pnl_ticks (closing_pnl p avg_entry fill_price qty)
    ]
    else p.realized_pnl_ticks

unfoldable pub weighted_avg : Position → ℤ → ℤ → ℤ
weighted_avg p fill_price qty =
    let old_qty = abs_i64 p.position_lots in
    let add_qty = abs_i64 qty in
    let total_qty = add_i128 old_qty add_qty in
    let old_avg = get_or fill_price p.avg_entry_price_ticks in
    as_i64 (div_i128 (add_i128 (mul_i128 old_avg old_qty) (mul_i128 fill_price add_qty)) total_qty)

-- The entry price after a fill, given the new position.
unfoldable pub avg_after : Position → ℤ → ℤ → ℤ → Option ℤ
avg_after p fill_price qty new_position =
    if eq_ℤ new_position (pos 0)
    then none
    else if eq_ℤ p.position_lots (pos 0) || eq_ℤ (signum p.position_lots) (signum qty)
    then some (weighted_avg p fill_price qty)
    else some fill_price

unfoldable pub fill_position : Position → ℤ → ℤ → ℤ → Position
fill_position p fill_price qty fee_ticks =
    let new_position = add_i64 p.position_lots qty in
    record {
      position_lots = new_position;
      realized_pnl_ticks = realized_after p fill_price qty;
      fees_paid_ticks = add_i128 p.fees_paid_ticks fee_ticks;
      avg_entry_price_ticks = avg_after p fill_price qty new_position;
    }

abbrev pub position_of : Option Position → Position
unfolding default_position
position_of none = default_position
position_of (some p) = p

abbrev pub is_done : OrderStatus → Bool
is_done OrderStatus.canceled = true
is_done OrderStatus.rejected = true
is_done OrderStatus.expired = true
is_done OrderStatus.new = false
is_done OrderStatus.accepted = false
is_done OrderStatus.working = false
is_done OrderStatus.partially_filled = false
is_done OrderStatus.filled = false

abbrev pub is_filled : OrderStatus → Bool
is_filled OrderStatus.filled = true
is_filled OrderStatus.partially_filled = false
is_filled OrderStatus.new = false
is_filled OrderStatus.accepted = false
is_filled OrderStatus.working = false
is_filled OrderStatus.canceled = false
is_filled OrderStatus.rejected = false
is_filled OrderStatus.expired = false

abbrev pub is_partially_filled : OrderStatus → Bool
is_partially_filled OrderStatus.partially_filled = true
is_partially_filled OrderStatus.new = false
is_partially_filled OrderStatus.accepted = false
is_partially_filled OrderStatus.working = false
is_partially_filled OrderStatus.filled = false
is_partially_filled OrderStatus.canceled = false
is_partially_filled OrderStatus.rejected = false
is_partially_filled OrderStatus.expired = false

-- The cumulative quantity of an order that is counted so far.
abbrev pub filled_so_far : Portfolio → ClientOrderId → ℤ
filled_so_far f id = get_or (pos 0) (lookup id f.filled_by_order)

-- A filled order is forgotten.
abbrev pub forget_if_filled : ExecutionReport → Assoc ClientOrderId ℤ → Assoc ClientOrderId ℤ
forget_if_filled report m = if is_filled report.status then erase report.client_order_id m else m

-- The part of `on_execution_report` behind its early returns.
unfoldable pub record_fill : Portfolio → ExecutionReport → ℤ → Portfolio
record_fill f report delta_qty = record {
  positions =
      insert report.symbol
        (fill_position (position_of (lookup report.symbol f.positions)) report.last_fill_price
          (signed_qty report.side delta_qty) report.fee_ticks)
        f.positions;
  filled_by_order =
      forget_if_filled report (insert report.client_order_id report.filled_qty f.filled_by_order);
}

unfoldable pub on_execution_report : Portfolio → ExecutionReport → Portfolio
on_execution_report f report =
    if is_done report.status
    then record f { filled_by_order = erase report.client_order_id f.filled_by_order }
    else if not (is_filled report.status) && not (is_partially_filled report.status)
    then f
    else (let prev = filled_so_far f report.client_order_id in
        if leb_ℤ report.filled_qty prev
        then record f { filled_by_order = forget_if_filled report f.filled_by_order }
        else record_fill f report (sub_i64 report.filled_qty prev))

abbrev value_at : Position → ℤ → Option ℤ → Option ℤ
value_at p mid none = none
value_at p mid (some avg_entry) = some (mul_i128 (sub_i64 mid avg_entry) p.position_lots)

abbrev unrealized : Position → Option (Price × Qty) → Option (Price × Qty) → Option ℤ
unrealized p (some (b, _)) (some (a, _)) =
    value_at p (quot_ℤ (add_i64 b a) 2) p.avg_entry_price_ticks
unrealized p (some _) none = none
unrealized p none _ = none

-- The value of the open position at the middle of the best levels.
unfoldable pub mark_to_mid :
    Portfolio → SymbolId → Option (Price × Qty) → Option (Price × Qty) → Option ℤ
mark_to_mid f symbol best_bid best_ask = elim (lookup symbol f.positions) [
  | none ↦ none
  | some p ↦ unrealized p best_bid best_ask
]

abbrev lots_of : Option Position → ℤ
lots_of none = pos 0
lots_of (some p) = p.position_lots

abbrev pnl_of : Option Position → ℤ
pnl_of none = pos 0
pnl_of (some p) = p.realized_pnl_ticks

abbrev fees_of : Option Position → ℤ
fees_of none = pos 0
fees_of (some p) = p.fees_paid_ticks

unfoldable pub position_lots : Portfolio → SymbolId → ℤ
position_lots f symbol = lots_of (lookup symbol f.positions)

unfoldable pub realized_pnl_ticks : Portfolio → SymbolId → ℤ
realized_pnl_ticks f symbol = pnl_of (lookup symbol f.positions)

unfoldable pub fees_paid_ticks : Portfolio → SymbolId → ℤ
fees_paid_ticks f symbol = fees_of (lookup symbol f.positions)
