-- ===== src/Strategies/TwapProgress.antt =====
-- The time-weighted strategy of strategies/src/lib.rs: what is left to trade only shrinks, and a
-- slice never asks for more than is left.
use orderbook_replay_lab.Base.{
  ℕ, ◌≡◌, ◌⊎◌, inl, inr, true, false, arith, if◌then◌else◌, Bool-cases, ℤ, pos, negsuc, ◌+ℤ◌, ◌-ℤ◌,
  ◌≤ℤ◌, ◌<ℤ◌, ltb_ℤ, +ℤ_parts, -ℤ_parts, FitsI64, add_i64, sub_i64, saturating_sub_i64, clamp_i64,
  add_i64-eq, sub_i64-eq, nat_eq, text_eq,
}
use orderbook_replay_lab.Core.Types.{Side, is_bid}
use orderbook_replay_lab.Trading.{ExecutionReport}
use orderbook_replay_lab.Strategies.Twap.{
  TwapStrategy, new, count_fill, take_report, stop_at_target, on_report,
}

-- The remainder lies between zero and the target, on the target's side.
abbrev pub OnTrack : ℤ → ℤ → Type 0
OnTrack target remaining =
    ((pos 0 ≤ℤ remaining) × (remaining ≤ℤ target)) ⊎ ((target ≤ℤ remaining) × (remaining ≤ℤ pos 0))

-- The side that a strategy with this target trades on.
abbrev pub trade_side : ℤ → Side
trade_side target = if ltb_ℤ (pos 0) target then Side.bid else Side.ask

pub new-OnTrack :
    (target : ℤ) (horizon : ℕ) (slice : ℤ)
    → let s = new target horizon slice in OnTrack s.target_qty_lots s.remaining_qty_lots
unfolding new
new-OnTrack (pos n) horizon slice = inl (omega arith, omega arith)
new-OnTrack (negsuc n) horizon slice = inr (omega arith, omega arith)

clamp-FitsI64 : (z : ℤ) → FitsI64 (clamp_i64 z)
clamp-FitsI64 (pos n) = (omega arith, omega arith)
clamp-FitsI64 (negsuc n) = (omega arith, omega arith)

delta-FitsI64 : (a b : ℤ) → FitsI64 (saturating_sub_i64 a b)
unfolding saturating_sub_i64
delta-FitsI64 a b = clamp-FitsI64 (a -ℤ b)

opposite-FitsI64 : (a b : ℤ) → pos 0 ≤ℤ a → pos 0 ≤ℤ b → FitsI64 a → FitsI64 b → FitsI64 (a -ℤ b)
unfolding ◌-ℤ◌
opposite-FitsI64 a b h k fa fb = ground arith

mixed-FitsI64 : (a b : ℤ) → a ≤ℤ pos 0 → pos 0 ≤ℤ b → FitsI64 a → FitsI64 b → FitsI64 (a +ℤ b)
unfolding ◌+ℤ◌
mixed-FitsI64 a b h k fa fb = ground arith

count_fill-bid :
    (s : TwapStrategy) (r : ExecutionReport)
    → is_bid r.side ≡ true
    → pos 0 ≤ℤ s.remaining_qty_lots
    → FitsI64 s.remaining_qty_lots
    → (count_fill s r).remaining_qty_lots ≤ℤ s.remaining_qty_lots
unfolding count_fill
count_fill-bid s r side h k =
    let delta = saturating_sub_i64 r.filled_qty s.last_reported_qty in
    elim (Bool-cases (ltb_ℤ (pos 0) delta)) [
      | inl more ↦
          (let bought : sub_i64 s.remaining_qty_lots delta ≡ s.remaining_qty_lots -ℤ delta =
              sub_i64-eq s.remaining_qty_lots delta (
                opposite-FitsI64 s.remaining_qty_lots delta h (ground arith) k
                  (delta-FitsI64 r.filled_qty s.last_reported_qty)) in
            ground (arith, more, side, bought, -ℤ_parts s.remaining_qty_lots delta))
      | inr same ↦ ground (arith, same)
    ]

count_fill-ask :
    (s : TwapStrategy) (r : ExecutionReport)
    → is_bid r.side ≡ false
    → s.remaining_qty_lots ≤ℤ pos 0
    → FitsI64 s.remaining_qty_lots
    → s.remaining_qty_lots ≤ℤ (count_fill s r).remaining_qty_lots
unfolding count_fill
count_fill-ask s r side h k =
    let delta = saturating_sub_i64 r.filled_qty s.last_reported_qty in
    elim (Bool-cases (ltb_ℤ (pos 0) delta)) [
      | inl more ↦
          (let sold : add_i64 s.remaining_qty_lots delta ≡ s.remaining_qty_lots +ℤ delta =
              add_i64-eq s.remaining_qty_lots delta (
                mixed-FitsI64 s.remaining_qty_lots delta h (ground arith) k
                  (delta-FitsI64 r.filled_qty s.last_reported_qty)) in
            ground (arith, more, side, sold, +ℤ_parts s.remaining_qty_lots delta))
      | inr same ↦ ground (arith, same)
    ]

remaining-take_report :
    (s : TwapStrategy) (r : ExecutionReport)
    → ((take_report s r).remaining_qty_lots ≡ (count_fill s r).remaining_qty_lots)
      ⊎ ((take_report s r).remaining_qty_lots ≡ s.remaining_qty_lots)
unfolding take_report
remaining-take_report s r = ground arith

target-take_report :
    (s : TwapStrategy) (r : ExecutionReport) → (take_report s r).target_qty_lots ≡ s.target_qty_lots
unfolding take_report count_fill
target-take_report s r = ground arith

-- A remainder that moved towards zero, or past it, is set to zero if it is past.
stop-buy :
    (s : TwapStrategy) (old : ℤ)
    → pos 0 <ℤ s.target_qty_lots
    → pos 0 ≤ℤ old
    → s.remaining_qty_lots ≤ℤ old
    → let left = (stop_at_target s).remaining_qty_lots in (pos 0 ≤ℤ left) × (left ≤ℤ old)
unfolding stop_at_target
stop-buy s old h k m = ground arith

stop-sell :
    (s : TwapStrategy) (old : ℤ)
    → s.target_qty_lots ≤ℤ pos 0
    → old ≤ℤ pos 0
    → old ≤ℤ s.remaining_qty_lots
    → let left = (stop_at_target s).remaining_qty_lots in (old ≤ℤ left) × (left ≤ℤ pos 0)
unfolding stop_at_target
stop-sell s old h k m = ground arith

buys : (target old : ℤ) → OnTrack target old → pos 0 <ℤ target → pos 0 ≤ℤ old
buys target old (inl h) k = h.0
buys target old (inr h) k = omega arith

sells : (target old : ℤ) → OnTrack target old → target ≤ℤ pos 0 → old ≤ℤ pos 0
sells target old (inl h) k = omega arith
sells target old (inr h) k = h.1

report-buy :
    (s : TwapStrategy) (r : ExecutionReport)
    → pos 0 <ℤ s.target_qty_lots
    → pos 0 ≤ℤ s.remaining_qty_lots
    → FitsI64 s.remaining_qty_lots
    → is_bid r.side ≡ true
    → let left = (on_report s r).remaining_qty_lots in
      (pos 0 ≤ℤ left) × (left ≤ℤ s.remaining_qty_lots)
unfolding on_report
report-buy s r h k fits side =
    let t = take_report s r in
    ground (
      arith,
      count_fill-bid s r side k fits,
      remaining-take_report s r,
      target-take_report s r,
      stop-buy t s.remaining_qty_lots,
    )

report-sell :
    (s : TwapStrategy) (r : ExecutionReport)
    → s.target_qty_lots ≤ℤ pos 0
    → s.remaining_qty_lots ≤ℤ pos 0
    → FitsI64 s.remaining_qty_lots
    → is_bid r.side ≡ false
    → let left = (on_report s r).remaining_qty_lots in
      (s.remaining_qty_lots ≤ℤ left) × (left ≤ℤ pos 0)
unfolding on_report
report-sell s r h k fits side =
    let t = take_report s r in
    ground (
      arith,
      count_fill-ask s r side k fits,
      remaining-take_report s r,
      target-take_report s r,
      stop-sell t s.remaining_qty_lots,
    )

-- A report on the strategy's own side leaves a remainder between zero and the one before, so between
-- zero and the target: lots are never counted past the target, nor added back. The target and the
-- remainder are in range.
pub on_report-OnTrack :
    (s : TwapStrategy) (r : ExecutionReport)
    → OnTrack s.target_qty_lots s.remaining_qty_lots
    → FitsI64 s.remaining_qty_lots
    → r.side ≡ trade_side s.target_qty_lots
    → OnTrack s.remaining_qty_lots (on_report s r).remaining_qty_lots
on_report-OnTrack s r h k side = elim (Bool-cases (ltb_ℤ (pos 0) s.target_qty_lots)) [
  | inl buying ↦ inl (
      report-buy s r (ground (arith, buying))
        (buys s.target_qty_lots s.remaining_qty_lots h (ground (arith, buying))) k
        (ground (arith, buying, side)))
  | inr selling ↦ inr (
      report-sell s r (ground (arith, selling))
        (sells s.target_qty_lots s.remaining_qty_lots h (ground (arith, selling))) k
        (ground (arith, selling, side)))
]
