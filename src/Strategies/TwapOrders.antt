-- ===== src/Strategies/TwapOrders.antt =====
-- The orders that the time-weighted strategy of strategies/src/lib.rs sends.
use orderbook_replay_lab.Base.{
  ◌<◌, ◌≡◌, refl, ◌⊎◌, inl, inr, true, false, ◌||◌, Option, none, some, List, [], ◌∷◌, ◌++◌, arith,
  ltb, Bool-cases, ℤ, pos, negsuc, pos_part, neg_part, ◌≤ℤ◌, ◌<ℤ◌, ltb_ℤ, eq_ℤ, eq_ℤ_iff, ◌≤◌,
  half_i64, abs, abs_i64, abs_i64-eq, nat_eq, text_eq,
}
use mathlib.Core.Option
use orderbook_replay_lab.Base.Result.{ok}
use orderbook_replay_lab.Core.Types.{Side, Price, Qty, new_qty}
use orderbook_replay_lab.Trading.{Intent, TimeInForce}
use orderbook_replay_lab.Api.{ContextSnapshot}
use orderbook_replay_lab.Strategies.Twap.{
  TwapStrategy, side_and_price, slice_intent, send_slice, due, next_slice, maybe_place,
}

-- The side that lowers a remainder: a bid if lots are left to buy, an ask if lots are left to sell.
abbrev pub Lowers : ℤ → Side → Type 0
Lowers remaining Side.bid = pos 0 <ℤ remaining
Lowers remaining Side.ask = remaining <ℤ pos 0

-- The level that an order on a side would trade with: the best ask for a bid, the best bid for an ask.
abbrev pub opposite : ContextSnapshot → Side → Option (Price × Qty)
opposite ctx Side.bid = ctx.best_ask
opposite ctx Side.ask = ctx.best_bid

-- What a slice is: an order for the context's symbol, good till cancelled and without a tag, on the
-- side that lowers the remainder, at the price of the best opposite level, of at least one lot and no
-- more than the slice or the remainder.
pub record IsSlice (s : TwapStrategy) (ctx : ContextSnapshot) (i : Intent) : Type 0 where
  pub side : Side
  pub price : Price
  pub depth : Qty
  pub qty : Qty
  pub intent : i ≡ Intent.place_limit ctx.symbol side price qty TimeInForce.gtc none
  pub sided : Lowers s.remaining_qty_lots side
  pub priced : opposite ctx side ≡ some (price, depth)
  pub positive : pos 1 ≤ℤ qty
  pub sliced : qty ≤ℤ s.slice_qty_lots
  pub covered : qty ≤ℤ abs s.remaining_qty_lots

-- Why nothing is sent: nothing is left, an order is in flight, the next time is not reached, or there
-- is no level to trade with.
abbrev pub Holds : TwapStrategy → ContextSnapshot → Type 0
Holds s ctx =
    (s.remaining_qty_lots ≡ pos 0)
    ⊎ (s.in_flight ≡ true)
    ⊎ (ctx.ts_ns < due s ctx)
    ⊎ ((side : Side) × Lowers s.remaining_qty_lots side × (opposite ctx side ≡ none))

-- A call of `maybe_place` sends nothing for a reason and is not in flight unless it was, or sends one
-- slice.
abbrev pub Sends :
    TwapStrategy → ContextSnapshot → List Intent → TwapStrategy × List Intent → Type 0
Sends s ctx out (s', out') =
    (Holds s ctx × (out' ≡ out) × (s'.in_flight ≡ s.in_flight))
    ⊎ ((i : Intent) × (out' ≡ out ++ i ∷ [])
        × IsSlice s ctx i
        × (s.in_flight ≡ false)
        × (s'.in_flight ≡ true)
        × (due s ctx ≤ ctx.ts_ns))

-- The side and the price that the code takes are those of the level to trade with.
side_and_price_lem :
    (s : TwapStrategy) (ctx : ContextSnapshot)
    → eq_ℤ s.remaining_qty_lots (pos 0) ≡ false
    → let side = (side_and_price s.remaining_qty_lots ctx).0 in
      Lowers s.remaining_qty_lots side
      × ((side_and_price s.remaining_qty_lots ctx).1 ≡ Option.map (λ l. l.0) (opposite ctx side))
side_and_price_lem s ctx left = elim (Bool-cases (ltb_ℤ (pos 0) s.remaining_qty_lots)) [
  | inl buys ↦ rw buys (ground (arith, buys), refl)
  | inr sells ↦ rw sells (ground (arith, sells, left), refl)
]

send_slice-Sends :
    (s t : TwapStrategy) (ctx : ContextSnapshot) (out : List Intent) (side : Side)
    (level : Option (Price × Qty)) (price : Option Price) (qty : Qty)
    → t.in_flight ≡ s.in_flight
    → s.in_flight ≡ false
    → due s ctx ≤ ctx.ts_ns
    → Lowers s.remaining_qty_lots side
    → opposite ctx side ≡ level
    → price ≡ Option.map (λ l. l.0) level
    → pos 1 ≤ℤ qty
    → qty ≤ℤ s.slice_qty_lots
    → qty ≤ℤ abs s.remaining_qty_lots
    → Sends s ctx out (send_slice t ctx out side price (ok qty))
unfolding send_slice
send_slice-Sends s t ctx out side none price qty same idle time sided at e p1 p2 p3 =
    rw e (inl (inr (inr (inr (side, sided, at))), refl, same))
send_slice-Sends s t ctx out side (some (price, depth)) p qty same idle time sided at e p1 p2 p3 =
    rw e (
      inr (
        slice_intent ctx side price qty,
        refl,
        record {
          side = side;
          price = price;
          depth = depth;
          qty = qty;
          intent = refl;
          sided = sided;
          priced = at;
          positive = p1;
          sliced = p2;
          covered = p3;
        },
        idle,
        refl,
        time,
      ))

abs-exact : (a : ℤ) → pos_part a < half_i64 → neg_part a < half_i64 → abs_i64 a ≡ abs a
abs-exact (pos n) h k = abs_i64-eq (pos n) (omega arith)
abs-exact (negsuc n) h k = abs_i64-eq (negsuc n) (omega arith)

abs-positive : (a : ℤ) → eq_ℤ a (pos 0) ≡ false → pos 1 ≤ℤ abs a
abs-positive (pos n) h = ground arith
abs-positive (negsuc n) h = omega arith

next_slice-bounds :
    (s : TwapStrategy)
    → pos_part s.remaining_qty_lots < half_i64
    → neg_part s.remaining_qty_lots < half_i64
    → pos 1 ≤ℤ s.slice_qty_lots
    → eq_ℤ s.remaining_qty_lots (pos 0) ≡ false
    → (pos 1 ≤ℤ next_slice s)
      × (next_slice s ≤ℤ s.slice_qty_lots)
      × (next_slice s ≤ℤ abs s.remaining_qty_lots)
next_slice-bounds s h k one left =
    let least : pos 1 ≤ℤ abs s.remaining_qty_lots = abs-positive s.remaining_qty_lots left in
    rw (abs-exact s.remaining_qty_lots h k) (ground (arith, least))

new_qty-ok : (q : ℤ) → pos 1 ≤ℤ q → new_qty q ≡ ok q
unfolding new_qty
new_qty-ok q h = ground arith

not_zero : (q : ℤ) → pos 1 ≤ℤ q → eq_ℤ q (pos 0) ≡ false
not_zero q h = ground arith

rest_or_flight :
    (s : TwapStrategy) (ctx : ContextSnapshot)
    → (eq_ℤ s.remaining_qty_lots (pos 0) || s.in_flight) ≡ true
    → Holds s ctx
rest_or_flight s ctx h = elim (Bool-cases (eq_ℤ s.remaining_qty_lots (pos 0))) [
  | inl done ↦ inl ((eq_ℤ_iff s.remaining_qty_lots (pos 0)).0 done)
  | inr left ↦ inr (inl (ground (arith, h, left)))
]

-- The strategy sends nothing and is in flight only if it was, since nothing is left, an order is in
-- flight, the next time is not reached or there is no level to trade with; or the time is reached, it
-- was not in flight, now is, and has sent one order: a bid at the best ask's price if lots are left to
-- buy, an ask at the best bid's price if lots are left to sell, of at least one lot and of no more than
-- the slice or the remainder. The slice is at least one lot, and the remainder is a number of the
-- machine that can be negated.
pub maybe_place-Sends :
    (s : TwapStrategy) (ctx : ContextSnapshot) (out : List Intent)
    → pos 1 ≤ℤ s.slice_qty_lots
    → pos_part s.remaining_qty_lots < half_i64
    → neg_part s.remaining_qty_lots < half_i64
    → Sends s ctx out (maybe_place s ctx out)
unfolding maybe_place
maybe_place-Sends s ctx out one h k =
    elim (Bool-cases (eq_ℤ s.remaining_qty_lots (pos 0) || s.in_flight)) [
      | inl idle ↦ rw idle (inl (rest_or_flight s ctx idle, refl, refl))
      | inr ready ↦
          (let q = next_slice s in
            let bounds = next_slice-bounds s h k one (ground (arith, ready)) in
            let chosen = side_and_price_lem s ctx (ground (arith, ready)) in
            let side = (side_and_price s.remaining_qty_lots ctx).0 in
            elim (Bool-cases (ltb ctx.ts_ns (due s ctx))) [
              | inl early ↦
                  rw (ready, early) (inl (inr (inr (inl (ground (arith, early)))), refl, refl))
              | inr on_time ↦
                  rw (ready, on_time, not_zero q bounds.0, new_qty-ok q bounds.0)
                    (send_slice-Sends s (record s { next_ts_ns = some (due s ctx) }) ctx out side
                      (opposite ctx side) (side_and_price s.remaining_qty_lots ctx).1 q refl
                      (ground (arith, ready)) (ground (arith, on_time)) chosen.0 refl chosen.1
                      bounds.0 bounds.1 bounds.2)
            ])
    ]
