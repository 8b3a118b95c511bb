-- ===== src/Risk/Chain.antt =====
-- What the risk engine of risk/src/lib.rs guarantees of an intent that it lets through.
use orderbook_replay_lab.Base.{
  ◌/◌, ◌≡◌, refl, sym, ap, subst, ◌∙◌, ◌⊎◌, inl, inr, Option, none, some, List, [], ◌∷◌, arith, ltb,
  ◌==◌, Bool-cases, ℤ, pos, ◌+ℤ◌, ◌-ℤ◌, ◌≤ℤ◌, ltb_ℤ, eq_ℤ, int_laws, FitsI64, abs, sub_i64, abs_i64,
  add_u64, add_i64-eq, sub_i64-eq, abs_i64-eq, nat_eq, Text, text_eq,
}
use orderbook_replay_lab.Core.Types.{Side, SymbolId, Price, Qty}
use orderbook_replay_lab.Trading.{TimeInForce, Intent}
use Prim.Native.String.{String}
use orderbook_replay_lab.Risk.Limits.{is_allow}
use orderbook_replay_lab.Api.{ContextSnapshot}
use orderbook_replay_lab.Risk.Defs.{
  RiskAction, RateLimitPolicy, charge, roll_window, is_order_intent, rate_limit, Policy,
  evaluate_policy, policies, evaluate_from, evaluate, max_position_policy, price_band_policy,
  rate_limit_policy, max_position, within_band, price_band, projected,
}

-- A policy allows the intent as it is, or rejects it.
abbrev AllowsOrRejects : Intent → RiskAction → Type 0
AllowsOrRejects i a =
    (a ≡ RiskAction.allow i) ⊎ ((reason : String) × (a ≡ RiskAction.reject reason))

charge-cases : (i : Intent) (w : RateLimitPolicy) → AllowsOrRejects i (charge i w).0
unfolding charge
charge-cases i w = elim (Bool-cases (ltb w.max_per_sec (add_u64 w.count 1))) [
  | inl full ↦ rw full (inr ("rate limit exceeded", refl))
  | inr room ↦ rw room (inl refl)
]

limit-cases :
    (limit : ℤ) (ctx : ContextSnapshot) (i : Intent) → AllowsOrRejects i (max_position limit ctx i)
unfolding max_position
limit-cases limit ctx (Intent.cancel id) = elim (Bool-cases (eq_ℤ (abs_i64 limit) (pos 0))) [
  | inl nil ↦ rw nil (inr ("position limit is zero", refl))
  | inr some_room ↦ rw some_room (inl refl)
]
limit-cases limit ctx (Intent.replace id p q) = elim (Bool-cases (eq_ℤ (abs_i64 limit) (pos 0))) [
  | inl nil ↦ rw nil (inr ("position limit is zero", refl))
  | inr some_room ↦ rw some_room (inl refl)
]
limit-cases limit ctx (Intent.place_limit symbol side price qty tif tag) =
    elim (Bool-cases (eq_ℤ (abs_i64 limit) (pos 0))) [
      | inl nil ↦ rw nil (inr ("position limit is zero", refl))
      | inr some_room ↦
          elim (Bool-cases (ltb_ℤ (abs_i64 limit) (abs_i64 (projected ctx side qty)))) [
            | inl over ↦ rw (some_room, over) (inr ("max position exceeded", refl))
            | inr under ↦ rw (some_room, under) (inl refl)
          ]
    ]

within_band-cases :
    (distance : ℤ) (i : Intent) (price : Price) (mid : Option Price)
    → AllowsOrRejects i (within_band distance i price mid)
within_band-cases distance i price none = inl refl
within_band-cases distance i price (some mid) =
    elim (Bool-cases (ltb_ℤ distance (abs_i64 (sub_i64 price mid)))) [
      | inl far ↦ rw far (inr ("price outside band", refl))
      | inr near ↦ rw near (inl refl)
    ]

band-cases :
    (distance : ℤ) (ctx : ContextSnapshot) (i : Intent)
    → AllowsOrRejects i (price_band distance ctx i)
unfolding price_band
band-cases distance ctx (Intent.cancel id) = inl refl
band-cases distance ctx (Intent.replace id p q) = inl refl
band-cases distance ctx (Intent.place_limit symbol side price qty tif tag) =
    within_band-cases (abs_i64 distance) (Intent.place_limit symbol side price qty tif tag) price
      ctx.mid_price

rate-cases :
    (ctx : ContextSnapshot) (i : Intent) (r : RateLimitPolicy)
    → AllowsOrRejects i (rate_limit ctx i r).0
unfolding rate_limit
rate-cases ctx i r = elim (Bool-cases (is_order_intent i)) [
  | inl order ↦ elim (Bool-cases (r.max_per_sec == 0)) [
    | inl nil ↦ rw (order, nil) (inr ("rate limit exceeded", refl))
    | inr some_room ↦
        rw (order, some_room) (charge-cases i (roll_window (ctx.ts_ns / 1_000_000_000) r))
  ]
  | inr other ↦ rw other (inl refl)
]

policy-cases :
    (ctx : ContextSnapshot) (i : Intent) (p : Policy)
    → AllowsOrRejects i (evaluate_policy ctx i p).0
unfolding evaluate_policy
policy-cases ctx i (max_position_policy limit) = limit-cases limit ctx i
policy-cases ctx i (price_band_policy distance) = band-cases distance ctx i
policy-cases ctx i (rate_limit_policy r) = rate-cases ctx i r

-- The policy is one of the list.
abbrev pub IsIn : Policy → List Policy → Type 0
IsIn p [] = ⊥
IsIn p (q ∷ ps) = (p ≡ q) ⊎ IsIn p ps

evaluate_from-allows :
    (ctx : ContextSnapshot) (i : Intent) (q : Policy) (ps : List Policy)
    → (evaluate_policy ctx i q).0 ≡ RiskAction.allow i
    → (evaluate_from policies ctx (q ∷ ps) i).0 ≡ (evaluate_from policies ctx ps i).0
unfolding evaluate_from
evaluate_from-allows ctx i q ps allows = rw (allows, evaluate_from) refl

evaluate_from-rejects :
    (ctx : ContextSnapshot) (i : Intent) (q : Policy) (ps : List Policy) (reason : String)
    → (evaluate_policy ctx i q).0 ≡ RiskAction.reject reason
    → (evaluate_from policies ctx (q ∷ ps) i).0 ≡ RiskAction.reject reason
unfolding evaluate_from
evaluate_from-rejects ctx i q ps reason rejects = rw (rejects, evaluate_from) refl

reject_not_allow :
    (reason : String) (i : Intent) → RiskAction.reject reason ≡ RiskAction.allow i → ⊥
reject_not_allow reason i e = ground (arith, ap is_allow e)

evaluate_from-allow :
    (ctx : ContextSnapshot) (i j : Intent) (p : Policy) (ps : List Policy)
    → IsIn p ps
    → (evaluate_from policies ctx ps i).0 ≡ RiskAction.allow j
    → (evaluate_policy ctx i p).0 ≡ RiskAction.allow i
evaluate_from-allow ctx i j p [] h e = absurd h
evaluate_from-allow ctx i j p (q ∷ ps) h e = elim (policy-cases ctx i q) [
  | inl allows ↦ elim h [
    | inl same ↦ subst (λ x. (evaluate_policy ctx i x).0 ≡ RiskAction.allow i) (sym same) allows
    | inr later ↦
        evaluate_from-allow ctx i j p ps later (sym (evaluate_from-allows ctx i q ps allows) ∙ e)
  ]
  | inr (reason, rejects) ↦
      absurd (reject_not_allow reason j (sym (evaluate_from-rejects ctx i q ps reason rejects) ∙ e))
]

-- Bought lots count up, sold lots down.
abbrev pub signed : Side → ℤ → ℤ
signed Side.bid q = q
signed Side.ask q = pos 0 -ℤ q

minus_signed : (a q : ℤ) → a -ℤ q ≡ a +ℤ (pos 0 -ℤ q)
minus_signed a q = omega int_laws

projected-eq :
    (ctx : ContextSnapshot) (side : Side) (qty : Qty)
    → FitsI64 (ctx.position_lots +ℤ signed side qty)
    → projected ctx side qty ≡ ctx.position_lots +ℤ signed side qty
projected-eq ctx Side.bid qty h = add_i64-eq ctx.position_lots qty h
projected-eq ctx Side.ask qty h =
    let same = minus_signed ctx.position_lots qty in
    sub_i64-eq ctx.position_lots qty (subst FitsI64 (sym same) h) ∙ same

max_position-bound :
    (limit : ℤ) (ctx : ContextSnapshot) (symbol : SymbolId) (side : Side) (price : Price)
    (qty : Qty) (tif : TimeInForce) (tag : Option Text)
    → let i = Intent.place_limit symbol side price qty tif tag in
      max_position limit ctx i ≡ RiskAction.allow i
      → abs_i64 (projected ctx side qty) ≤ℤ abs_i64 limit
unfolding max_position
max_position-bound limit ctx symbol side price qty tif tag e =
    elim (Bool-cases (eq_ℤ (abs_i64 limit) (pos 0))) [
      | inl nil ↦ absurd (reject_not_allow _ _ (rw nil at e))
      | inr some_room ↦
          elim (Bool-cases (ltb_ℤ (abs_i64 limit) (abs_i64 (projected ctx side qty)))) [
            | inl over ↦ absurd (reject_not_allow _ _ (rw (some_room, over) at e))
            | inr under ↦ ground (arith, under)
          ]
    ]

-- Where the risk engine lets the placing of an order through, the position after a fill of the whole
-- order would be within the limit of every position policy in the chain, long and short. That
-- position, its magnitude and that of the limit are in range.
pub evaluate-within_limit :
    (ctx : ContextSnapshot) (symbol : SymbolId) (side : Side) (price : Price) (qty : Qty)
    (tif : TimeInForce) (tag : Option Text) (ps : List Policy) (limit : ℤ) (j : Intent)
    → IsIn (max_position_policy limit) ps
    → (evaluate policies ctx (Intent.place_limit symbol side price qty tif tag) ps).0
      ≡ RiskAction.allow j
    → FitsI64 (ctx.position_lots +ℤ signed side qty)
    → FitsI64 (abs (ctx.position_lots +ℤ signed side qty))
    → FitsI64 (abs limit)
    → abs (ctx.position_lots +ℤ signed side qty) ≤ℤ abs limit
unfolding evaluate evaluate_policy
evaluate-within_limit ctx symbol side price qty tif tag ps limit j member allowed sum size size' =
    let i = Intent.place_limit symbol side price qty tif tag in
    let bound =
      max_position-bound limit ctx symbol side price qty tif tag
        (evaluate_from-allow ctx i j (max_position_policy limit) ps member allowed) in
    let exact : projected ctx side qty ≡ ctx.position_lots +ℤ signed side qty =
      projected-eq ctx side qty sum in
    let small : abs_i64 (projected ctx side qty) ≡ abs (ctx.position_lots +ℤ signed side qty) =
      ap abs_i64 exact ∙ abs_i64-eq (ctx.position_lots +ℤ signed side qty) size in
    ground (arith, bound, small, abs_i64-eq limit size')
