-- ===== src/Strategies/Mm.antt =====
-- strategies/src/lib.rs: the market maker, which quotes both sides around the mid price.
use orderbook_replay_lab.Base.{
  Bool, true, false, not, ◌&&◌, Option, none, some, List, [], ◌∷◌, ◌++◌, if◌then◌else◌, ℤ, pos,
  ltb_ℤ, leb_ℤ, eq_ℤ, max_ℤ, add_i64, sub_i64, abs_i64, mul_i128, clamp_i64, nat_eq, text_eq,
}
use orderbook_replay_lab.Base.Result.{Result, ok, err}
use orderbook_replay_lab.Core.Types.{CoreError, Side, is_bid, Price, Qty, new_price, new_qty}
use orderbook_replay_lab.Trading.{ClientOrderId, TimeInForce, OrderStatus, ExecutionReport, Intent}
use orderbook_replay_lab.Api.{ContextSnapshot, Strategy}

pub record MmStrategy : Type 0 where
  pub half_spread_ticks : ℤ
  pub quote_qty_lots : ℤ
  pub skew_per_lot_ticks : ℤ
  pub bid_order_id : Option ClientOrderId
  pub ask_order_id : Option ClientOrderId
  pub bid_price : Option Price
  pub ask_price : Option Price
  pub pending_bid : Bool
  pub pending_ask : Bool

unfoldable pub new : ℤ → ℤ → ℤ → MmStrategy
new half_spread_ticks quote_qty_lots skew_per_lot_ticks = record {
  half_spread_ticks = max_ℤ (abs_i64 half_spread_ticks) (pos 1);
  quote_qty_lots = max_ℤ (abs_i64 quote_qty_lots) (pos 1);
  skew_per_lot_ticks = skew_per_lot_ticks;
  bid_order_id = none;
  ask_order_id = none;
  bid_price = none;
  ask_price = none;
  pending_bid = false;
  pending_ask = false;
}

abbrev pub cancel_of : Option ClientOrderId → List Intent
cancel_of none = []
cancel_of (some id) = Intent.cancel id ∷ []

unfoldable pub cancel_all : MmStrategy → List Intent → MmStrategy × List Intent
cancel_all s out = (
  record s {
    bid_order_id = none;
    ask_order_id = none;
    bid_price = none;
    ask_price = none;
    pending_bid = false;
    pending_ask = false;
  },
  (out ++ cancel_of s.bid_order_id) ++ cancel_of s.ask_order_id,
)

abbrev pub skew : MmStrategy → ContextSnapshot → ℤ
skew s ctx = clamp_i64 (mul_i128 ctx.position_lots s.skew_per_lot_ticks)

abbrev pub at_least_one : ℤ → ℤ
at_least_one a = if ltb_ℤ a (pos 1) then pos 1 else a

unfoldable pub bid_ticks : MmStrategy → ContextSnapshot → ℤ → ℤ
bid_ticks s ctx mid = at_least_one (sub_i64 (sub_i64 mid s.half_spread_ticks) (skew s ctx))

unfoldable pub ask_ticks : MmStrategy → ContextSnapshot → ℤ → ℤ
ask_ticks s ctx mid =
    let a = at_least_one (sub_i64 (add_i64 mid s.half_spread_ticks) (skew s ctx)) in
    if leb_ℤ a (bid_ticks s ctx mid) then add_i64 (bid_ticks s ctx mid) (pos 1) else a

-- `self.bid_price != Some(bid_price)` and the same of the ask.
abbrev pub differs : Option Price → Price → Bool
differs none p = true
differs (some q) p = not (eq_ℤ q p)

unfoldable pub quote_bid :
    MmStrategy → ContextSnapshot → Price → Qty → List Intent → MmStrategy × List Intent
quote_bid s ctx price qty out = elim s.bid_order_id [
  | some id ↦
      if not s.pending_bid && differs s.bid_price price
      then (
        record s { pending_bid = true; bid_price = some price },
        out ++ Intent.replace id price qty ∷ [],
      )
      else (s, out)
  | none ↦
      if not s.pending_bid
      then (
        record s { pending_bid = true },
        out ++ Intent.place_limit ctx.symbol Side.bid price qty TimeInForce.gtc none ∷ [],
      )
      else (s, out)
]

unfoldable pub quote_ask :
    MmStrategy → ContextSnapshot → Price → Qty → List Intent → MmStrategy × List Intent
quote_ask s ctx price qty out = elim s.ask_order_id [
  | some id ↦
      if not s.pending_ask && differs s.ask_price price
      then (
        record s { pending_ask = true; ask_price = some price },
        out ++ Intent.replace id price qty ∷ [],
      )
      else (s, out)
  | none ↦
      if not s.pending_ask
      then (
        record s { pending_ask = true },
        out ++ Intent.place_limit ctx.symbol Side.ask price qty TimeInForce.gtc none ∷ [],
      )
      else (s, out)
]

-- Both quotes, once the prices and the quantity are known to be valid.
unfoldable pub quote_both :
    MmStrategy
    → ContextSnapshot
    → List Intent
    → Result CoreError Price
    → Result CoreError Price
    → Result CoreError Qty
    → MmStrategy × List Intent
unfolding quote_bid quote_ask
quote_both s ctx out (ok bid_price) (ok ask_price) (ok qty) =
    let (s', out') = quote_bid s ctx bid_price qty out in quote_ask s' ctx ask_price qty out'
quote_both s ctx out (ok bid_price) (ok ask_price) (err e) = (s, out)
quote_both s ctx out (ok bid_price) (err e) q = (s, out)
quote_both s ctx out (err e) a q = (s, out)

unfoldable pub quote : MmStrategy → ContextSnapshot → List Intent → MmStrategy × List Intent
unfolding quote_both
quote s ctx out = elim ctx.mid_price [
  | none ↦ cancel_all s out
  | some mid ↦
      quote_both s ctx out (new_price (bid_ticks s ctx mid)) (new_price (ask_ticks s ctx mid))
        (new_qty s.quote_qty_lots)
]

-- What a report does to the slot of its side: the order id, the price and whether it is pending.
abbrev pub Slot : Type 0
Slot = Option ClientOrderId × Option Price × Bool

abbrev pub slot_after : ExecutionReport → OrderStatus → Slot → Slot
slot_after r OrderStatus.accepted s = (some r.client_order_id, some r.last_fill_price, false)
slot_after r OrderStatus.working s = (some r.client_order_id, some r.last_fill_price, false)
slot_after r OrderStatus.partially_filled s =
    (some r.client_order_id, some r.last_fill_price, false)
slot_after r OrderStatus.filled s = (none, none, false)
slot_after r OrderStatus.canceled s = (none, none, false)
slot_after r OrderStatus.rejected s = (none, none, false)
slot_after r OrderStatus.expired s = (none, none, false)
slot_after r OrderStatus.new s = s

unfoldable pub apply_report_side : MmStrategy → ExecutionReport → Bool → MmStrategy
apply_report_side s report true =
    let (id, price, pending) =
      slot_after report report.status (s.bid_order_id, s.bid_price, s.pending_bid) in
    record s { bid_order_id = id; bid_price = price; pending_bid = pending }
apply_report_side s report false =
    let (id, price, pending) =
      slot_after report report.status (s.ask_order_id, s.ask_price, s.pending_ask) in
    record s { ask_order_id = id; ask_price = price; pending_ask = pending }

unfoldable pub on_report : MmStrategy → ExecutionReport → MmStrategy
on_report s report = apply_report_side s report (is_bid report.side)

abbrev pub mm_strategy : Strategy
mm_strategy = record {
  State = MmStrategy;
  on_market_event = λ ctx event s out. quote s ctx out;
  on_timer = λ ctx s out. quote s ctx out;
  on_execution_report = λ ctx report s out. (on_report s report, out);
}
