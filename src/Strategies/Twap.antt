-- ===== src/Strategies/Twap.antt =====
-- strategies/src/lib.rs: the strategy that does nothing, and the time-weighted one.
use Prim.Native.Nat.{max}
use mathlib.Core.Option
use orderbook_replay_lab.Base.{
  ℕ, ◌+◌, ◌-◌, ◌/◌, Bool, true, false, not, ◌&&◌, ◌||◌, Option, none, some, List, [], ◌∷◌, ◌++◌,
  ltb, ◌==◌, if◌then◌else◌, ℤ, pos, pos_part, neg_part, ltb_ℤ, leb_ℤ, eq_ℤ, min_ℤ, max_ℤ, add_i64,
  sub_i64, abs_i64, saturating_sub_i64, saturating_add_u64, saturating_mul_u64, nat_eq, text_eq,
}
use orderbook_replay_lab.Base.Result.{Result, ok, err}
use orderbook_replay_lab.Core.Types.{CoreError, Side, is_bid, Price, Qty, new_qty}
use orderbook_replay_lab.Trading.{TimeInForce, ExecutionReport, Intent}
use orderbook_replay_lab.Api.{ContextSnapshot, Strategy}
use orderbook_replay_lab.Portfolio.Defs.{is_done, is_filled, is_partially_filled}

abbrev pub noop_strategy : Strategy
noop_strategy = record {
  State = Unit {0};
  on_market_event = λ ctx event s out. (s, out);
  on_timer = λ ctx s out. (s, out);
  on_execution_report = λ ctx report s out. (s, out);
}

pub record TwapStrategy : Type 0 where
  pub target_qty_lots : ℤ
  pub slice_qty_lots : ℤ
  pub remaining_qty_lots : ℤ
  pub next_ts_ns : Option ℕ
  pub interval_ns : ℕ
  pub in_flight : Bool
  pub last_reported_qty : ℤ

-- `unsigned_abs`
abbrev pub unsigned_abs : ℤ → ℕ
unsigned_abs a = pos_part a + neg_part a

abbrev pub div_ceil : ℕ → ℕ → ℕ
div_ceil a d = (a + d - 1) / d

-- The slice as a positive number of lots, `slice_qty_lots.abs().max(1)`.
abbrev pub slice_lots : ℤ → ℤ
slice_lots slice = max_ℤ (abs_i64 slice) (pos 1)

abbrev pub total_slices : ℤ → ℤ → ℕ
total_slices target slice =
    let abs_target = unsigned_abs target in
    if abs_target == 0 then 0 else div_ceil abs_target (pos_part slice)

abbrev pub interval : ℤ → ℕ → ℤ → ℕ
interval target horizon_secs slice =
    let slices = total_slices target slice in
    let horizon_ns = saturating_mul_u64 horizon_secs 1_000_000_000 in
    let interval_ns = if slices == 0 then 0 else horizon_ns / slices in
    if ltb 0 slices && interval_ns == 0 then 1 else interval_ns

unfoldable pub new : ℤ → ℕ → ℤ → TwapStrategy
new target_qty_lots horizon_secs slice_qty_lots = record {
  target_qty_lots = target_qty_lots;
  slice_qty_lots = slice_lots slice_qty_lots;
  remaining_qty_lots = target_qty_lots;
  next_ts_ns = none;
  interval_ns = interval target_qty_lots horizon_secs (slice_lots slice_qty_lots);
  in_flight = false;
  last_reported_qty = pos 0;
}

-- The side to trade, with the price of the best opposite level.
abbrev pub side_and_price : ℤ → ContextSnapshot → Side × Option Price
side_and_price remaining ctx =
    if ltb_ℤ (pos 0) remaining
    then (Side.bid, Option.map (λ l. l.0) ctx.best_ask)
    else (Side.ask, Option.map (λ l. l.0) ctx.best_bid)

abbrev pub slice_intent : ContextSnapshot → Side → Price → Qty → Intent
slice_intent ctx side price qty = Intent.place_limit ctx.symbol side price qty TimeInForce.gtc none

-- Sending a slice, once its price and its quantity are known.
unfoldable pub send_slice :
    TwapStrategy
    → ContextSnapshot
    → List Intent
    → Side
    → Option Price
    → Result CoreError Qty
    → TwapStrategy × List Intent
send_slice s ctx out side none q = (s, out)
send_slice s ctx out side (some price) (err e) = (s, out)
send_slice s ctx out side (some price) (ok qty) = (
  record s {
    in_flight = true;
    last_reported_qty = pos 0;
    next_ts_ns = some (saturating_add_u64 ctx.ts_ns (max s.interval_ns 1));
  },
  out ++ slice_intent ctx side price qty ∷ [],
)

-- `next_ts_ns.get_or_insert(ctx.ts_ns)`
abbrev pub due : TwapStrategy → ContextSnapshot → ℕ
due s ctx = elim s.next_ts_ns [ none ↦ ctx.ts_ns | some t ↦ t ]

abbrev pub next_slice : TwapStrategy → ℤ
next_slice s = min_ℤ (abs_i64 s.remaining_qty_lots) s.slice_qty_lots

unfoldable pub maybe_place :
    TwapStrategy → ContextSnapshot → List Intent → TwapStrategy × List Intent
unfolding send_slice
maybe_place s ctx out =
    if eq_ℤ s.remaining_qty_lots (pos 0) || s.in_flight
    then (s, out)
    else (let next_ts = due s ctx in
        let s' = record s { next_ts_ns = some next_ts } in
        if ltb ctx.ts_ns next_ts
        then (s', out)
        else if eq_ℤ (next_slice s) (pos 0)
        then (s', out)
        else (let (side, price) = side_and_price s.remaining_qty_lots ctx in
            send_slice s' ctx out side price (new_qty (next_slice s))))

-- The fill part of `on_report`: lots reported beyond the last report leave the remainder.
unfoldable pub count_fill : TwapStrategy → ExecutionReport → TwapStrategy
count_fill s report =
    let delta = saturating_sub_i64 report.filled_qty s.last_reported_qty in
    if ltb_ℤ (pos 0) delta
    then record s {
      remaining_qty_lots =
          if is_bid report.side
          then sub_i64 s.remaining_qty_lots delta
          else add_i64 s.remaining_qty_lots delta;
      last_reported_qty = report.filled_qty;
    }
    else s

abbrev pub land : TwapStrategy → TwapStrategy
land s = record s { in_flight = false; last_reported_qty = pos 0 }

-- The match on the status.
unfoldable pub take_report : TwapStrategy → ExecutionReport → TwapStrategy
take_report s report =
    if is_filled report.status
    then land (count_fill s report)
    else if is_partially_filled report.status
    then count_fill s report
    else if is_done report.status
    then land s
    else s

-- The last step of `on_report`: a remainder that reached or passed zero is zero.
unfoldable pub stop_at_target : TwapStrategy → TwapStrategy
stop_at_target s =
    if (leb_ℤ (pos 0) s.target_qty_lots && leb_ℤ s.remaining_qty_lots (pos 0))
      || (leb_ℤ s.target_qty_lots (pos 0) && leb_ℤ (pos 0) s.remaining_qty_lots)
    then land (record s { remaining_qty_lots = pos 0 })
    else s

unfoldable pub on_report : TwapStrategy → ExecutionReport → TwapStrategy
on_report s report = if not s.in_flight then s else stop_at_target (take_report s report)

abbrev pub twap_strategy : Strategy
twap_strategy = record {
  State = TwapStrategy;
  on_market_event = λ ctx event s out. maybe_place s ctx out;
  on_timer = λ ctx s out. maybe_place s ctx out;
  on_execution_report = λ ctx report s out. (on_report s report, out);
}
