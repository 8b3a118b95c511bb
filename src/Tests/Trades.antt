-- ===== src/Tests/Trades.antt =====
-- The theorems on strategies/src/lib.rs and risk/src/lib.rs at concrete contexts.
use orderbook_replay_lab.Base.{
  ◌+◌, ◌<◌, ◌≡◌, refl, inl, true, false, none, some, List, [], ◌∷◌, arith, length, pos, pos_part,
  ◌-ℤ◌, ◌*ℤ◌, ◌≤ℤ◌, ◌<ℤ◌, half_i64, sub_i64, mul_i128, nat_eq, text_eq, inr, add_i64, abs_i64, abs,
  ◌+ℤ◌,
}
use orderbook_replay_lab.Core.Types.{Side}
use orderbook_replay_lab.Trading.{OrderStatus, ExecutionReport, Intent, TimeInForce}
use orderbook_replay_lab.Base.Int.{wrap}
use orderbook_replay_lab.Api.{ContextSnapshot}
use orderbook_replay_lab.Strategies.Twap.{TwapStrategy, maybe_place, on_report}
use orderbook_replay_lab.Strategies.TwapProgress.{OnTrack, on_report-OnTrack}
use orderbook_replay_lab.Strategies.TwapOrders.{Sends, maybe_place-Sends}
use orderbook_replay_lab.Strategies.Mm.{MmStrategy, bid_ticks, ask_ticks, quote}
use orderbook_replay_lab.Strategies.MmQuotes.{bid_ticks-below_ask, quote_twice}
use orderbook_replay_lab.Risk.Defs.{
  new_rate_limit, RiskAction, Policy, policies, evaluate, evaluate_from, evaluate_policy,
  max_position, price_band, max_position_policy, price_band_policy,
}
use orderbook_replay_lab.Risk.Chain.{signed, evaluate-within_limit}
use orderbook_replay_lab.Risk.Limits.{Call, allowed, min_ℕ, allowed-in_second}

abbrev ctx : ContextSnapshot
ctx = record {
  ts_ns = 2_000_000_000;
  symbol = 7;
  best_bid = some (pos 100, pos 5);
  best_ask = some (pos 104, pos 3);
  position_lots = pos 2;
  open_orders = 0;
  mid_price = some (pos 102);
}

-- Seven lots of ten left to buy, in slices of four.
abbrev buying : TwapStrategy
buying = record {
  target_qty_lots = pos 10;
  slice_qty_lots = pos 4;
  remaining_qty_lots = pos 7;
  next_ts_ns = some 1_000_000_000;
  interval_ns = 1_000_000_000;
  in_flight = false;
  last_reported_qty = pos 0;
}

maybe_place-Sends_example : Sends buying ctx [] (maybe_place buying ctx [])
maybe_place-Sends_example =
    maybe_place-Sends buying ctx [] (omega arith) (omega arith) (omega arith)

abbrev sent : TwapStrategy
sent = record buying { in_flight = true }

abbrev report : ExecutionReport
report = record {
  client_order_id = 1;
  status = OrderStatus.filled;
  filled_qty = pos 9;
  last_fill_price = pos 104;
  fee_ticks = pos 1;
  ts_ns = 3;
  symbol = 7;
  side = Side.bid;
}

on_report-OnTrack_example : OnTrack (pos 7) (on_report sent report).remaining_qty_lots
on_report-OnTrack_example =
    on_report-OnTrack sent report (inl (omega arith, omega arith)) (omega arith, omega arith) refl

abbrev making : MmStrategy
making = record {
  half_spread_ticks = pos 2;
  quote_qty_lots = pos 5;
  skew_per_lot_ticks = pos 1;
  bid_order_id = some 4;
  ask_order_id = none;
  bid_price = some (pos 97);
  ask_price = none;
  pending_bid = false;
  pending_ask = false;
}

making-room : pos_part (bid_ticks making ctx (pos 102)) + 1 < half_i64
unfolding bid_ticks sub_i64 mul_i128 wrap ◌-ℤ◌ ◌*ℤ◌
making-room = omega arith

bid_ticks-below_ask_example :
    (pos 1 ≤ℤ bid_ticks making ctx (pos 102))
    × (bid_ticks making ctx (pos 102) <ℤ ask_ticks making ctx (pos 102))
bid_ticks-below_ask_example = bid_ticks-below_ask making ctx (pos 102) making-room

quote_twice_example : let s' = (quote making ctx []).0 in quote s' ctx [] ≡ (s', [])
quote_twice_example = quote_twice making ctx [] []

abbrev calls : List Call
calls = (ctx, Intent.cancel 1) ∷ (ctx, Intent.cancel 2) ∷ (ctx, Intent.cancel 3) ∷ []

allowed-in_second_example : allowed calls (new_rate_limit 2) ≡ min_ℕ (length calls) 2
allowed-in_second_example = allowed-in_second calls 2 2 (refl, (refl, (refl, tt))) (omega arith)

abbrev chain : List Policy
chain = price_band_policy (pos 10) ∷ max_position_policy (pos 8) ∷ []

abbrev place : Intent
place = Intent.place_limit 7 Side.bid (pos 101) (pos 5) TimeInForce.gtc none

place-allowed : (evaluate policies ctx place chain).0 ≡ RiskAction.allow place
unfolding evaluate evaluate_from evaluate_policy max_position price_band add_i64 sub_i64 abs_i64
    wrap ◌+ℤ◌ ◌-ℤ◌
place-allowed = refl

evaluate-within_limit_example : abs (ctx.position_lots +ℤ signed Side.bid (pos 5)) ≤ℤ abs (pos 8)
unfolding ◌+ℤ◌
evaluate-within_limit_example =
    evaluate-within_limit ctx 7 Side.bid (pos 101) (pos 5) TimeInForce.gtc none chain (pos 8) place
      (inr (inl refl)) place-allowed (omega arith, omega arith) (omega arith, omega arith)
      (omega arith, omega arith)
