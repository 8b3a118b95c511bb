-- ===== src/Risk/Defs.antt =====
-- risk/src/lib.rs: the policy chain and its three policies.
use Prim.Native.String.{String}
use orderbook_replay_lab.Base.{
  ℕ, ◌-◌, ◌/◌, Bool, true, not, Option, none, some, List, [], ◌∷◌, ltb, ◌==◌, if◌then◌else◌, ℤ, pos,
  ltb_ℤ, eq_ℤ, add_i64, sub_i64, abs_i64, u64_mod, add_u64, nat_eq, text_eq,
}
use orderbook_replay_lab.Core.Types.{Side, is_bid, Price, Qty}
use orderbook_replay_lab.Trading.{Intent}
use orderbook_replay_lab.Api.{ContextSnapshot}

pub data RiskAction : Type 0 where
  allow : Intent → RiskAction
  reject : (reason : String) → RiskAction
  transform : Intent → RiskAction

-- The trait `RiskPolicy`: an implementor may change its own cells while it evaluates, so the
-- evaluation returns the policy afterwards.
pub record RiskPolicy : Type 1 where
  pub State : Type 0
  pub evaluate : ContextSnapshot → Intent → State → RiskAction × State

module _ (P : RiskPolicy) where
  -- The loop over the policies, on the current intent.
  unfoldable pub evaluate_from : ContextSnapshot → List P.State → Intent → RiskAction × List P.State
  evaluate_from ctx [] current = (RiskAction.allow current, [])
  evaluate_from ctx (policy ∷ policies) current =
      let (action, policy') = P.evaluate ctx current policy in
      elim action [
        | RiskAction.allow next ↦
            (let (decision, rest) = evaluate_from ctx policies next in (decision, policy' ∷ rest))
        | RiskAction.transform next ↦
            (let (decision, rest) = evaluate_from ctx policies next in (decision, policy' ∷ rest))
        | RiskAction.reject reason ↦ (RiskAction.reject reason, policy' ∷ policies)
      ]

  -- `RiskEngine::evaluate`.
  unfoldable pub evaluate : ContextSnapshot → Intent → List P.State → RiskAction × List P.State
  evaluate ctx intent policies = evaluate_from ctx policies intent

pub record RateLimitPolicy : Type 0 where
  pub max_per_sec : ℕ
  pub window_bucket : ℕ
  pub count : ℕ

unfoldable pub new_rate_limit : ℕ → RateLimitPolicy
new_rate_limit max_per_sec = record {
  max_per_sec = max_per_sec;
  window_bucket = u64_mod - 1;
  count = 0;
}

-- The side, price and quantity of an intent that places an order.
abbrev pub placed : Intent → Option (Side × Price × Qty)
placed (Intent.place_limit symbol side price qty tif tag) = some (side, price, qty)
placed (Intent.cancel id) = none
placed (Intent.replace id p q) = none

-- The position if the order were filled.
abbrev pub projected : ContextSnapshot → Side → Qty → ℤ
projected ctx side qty =
    if is_bid side then add_i64 ctx.position_lots qty else sub_i64 ctx.position_lots qty

unfoldable pub max_position : ℤ → ContextSnapshot → Intent → RiskAction
max_position limit_lots ctx intent =
    let limit = abs_i64 limit_lots in
    if eq_ℤ limit (pos 0)
    then RiskAction.reject "position limit is zero"
    else elim (placed intent) [
      | none ↦ RiskAction.allow intent
      | some (side, price, qty) ↦
          if ltb_ℤ limit (abs_i64 (projected ctx side qty))
          then RiskAction.reject "max position exceeded"
          else RiskAction.allow intent
    ]

-- The test of the band around a known mid price.
abbrev pub within_band : ℤ → Intent → Price → Option Price → RiskAction
within_band max_distance intent price none = RiskAction.allow intent
within_band max_distance intent price (some mid) =
    if ltb_ℤ max_distance (abs_i64 (sub_i64 price mid))
    then RiskAction.reject "price outside band"
    else RiskAction.allow intent

unfoldable pub price_band : ℤ → ContextSnapshot → Intent → RiskAction
price_band max_distance_ticks ctx intent = elim (placed intent) [
  | none ↦ RiskAction.allow intent
  | some (side, price, qty) ↦ within_band (abs_i64 max_distance_ticks) intent price ctx.mid_price
]

abbrev pub is_order_intent : Intent → Bool
is_order_intent (Intent.place_limit symbol side price qty tif tag) = true
is_order_intent (Intent.cancel id) = true
is_order_intent (Intent.replace id p q) = true

-- The cells at the bucket of the call: a new bucket starts at zero.
abbrev pub roll_window : ℕ → RateLimitPolicy → RateLimitPolicy
roll_window bucket r =
    if r.window_bucket == bucket then r else record r { window_bucket = bucket; count = 0 }

-- The order that is counted, in the cells of its bucket.
unfoldable pub charge : Intent → RateLimitPolicy → RiskAction × RateLimitPolicy
charge intent w =
    if ltb w.max_per_sec (add_u64 w.count 1)
    then (RiskAction.reject "rate limit exceeded", w)
    else (RiskAction.allow intent, record w { count = add_u64 w.count 1 })

unfoldable pub rate_limit :
    ContextSnapshot → Intent → RateLimitPolicy → RiskAction × RateLimitPolicy
rate_limit ctx intent r =
    if not (is_order_intent intent)
    then (RiskAction.allow intent, r)
    else if r.max_per_sec == 0
    then (RiskAction.reject "rate limit exceeded", r)
    else charge intent (roll_window (ctx.ts_ns / 1_000_000_000) r)

-- The three implementors of the trait.
pub data Policy : Type 0 where
  max_position_policy : (limit_lots : ℤ) → Policy
  price_band_policy : (max_distance_ticks : ℤ) → Policy
  rate_limit_policy : RateLimitPolicy → Policy

unfoldable pub evaluate_policy : ContextSnapshot → Intent → Policy → RiskAction × Policy
evaluate_policy ctx intent (max_position_policy limit_lots) =
    (max_position limit_lots ctx intent, max_position_policy limit_lots)
evaluate_policy ctx intent (price_band_policy max_distance_ticks) =
    (price_band max_distance_ticks ctx intent, price_band_policy max_distance_ticks)
evaluate_policy ctx intent (rate_limit_policy r) =
    let (action, r') = rate_limit ctx intent r in (action, rate_limit_policy r')

abbrev pub policies : RiskPolicy
policies = record { State = Policy; evaluate = evaluate_policy }
