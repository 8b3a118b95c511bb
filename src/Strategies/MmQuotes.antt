-- ===== src/Strategies/MmQuotes.antt =====
-- The quotes of the market making strategy of strategies/src/lib.rs.
use orderbook_replay_lab.Base.{
  ◌+◌, ◌<◌, ◌≡◌, refl, ap, ◌∙◌, inl, inr, some, List, [], ◌∷◌, ◌++◌, arith, if◌then◌else◌,
  Bool-cases, Option-cases, ℤ, pos, negsuc, pos_part, ◌+ℤ◌, ◌≤ℤ◌, ◌<ℤ◌, ltb_ℤ, leb_ℤ, int_laws,
  FitsI64, half_i64, add_i64, sub_i64, add_i64-eq, nat_eq, text_eq,
}
use orderbook_replay_lab.Base.Result.{Result, ok, err}
use orderbook_replay_lab.Core.Types.{CoreError, Price, Qty, new_price, new_qty}
use orderbook_replay_lab.Trading.{Intent}
use orderbook_replay_lab.Api.{ContextSnapshot}
use orderbook_replay_lab.Strategies.Mm.{
  MmStrategy, cancel_all, bid_ticks, ask_ticks, at_least_one, skew, quote_bid, quote_ask,
  quote_both, quote,
}

at_least_one-positive : (a : ℤ) → pos 1 ≤ℤ at_least_one a
at_least_one-positive a = elim (Bool-cases (ltb_ℤ a (pos 1))) [
  | inl low ↦ rw low (omega arith)
  | inr fine ↦ rw fine (ground (arith, fine))
]

sum_fits : (b : ℤ) → pos 1 ≤ℤ b → pos_part b + 1 < half_i64 → FitsI64 (b +ℤ pos 1)
unfolding ◌+ℤ◌
sum_fits (pos n) one h = ground arith
sum_fits (negsuc n) one h = omega arith

plus_one : (b : ℤ) → pos 1 ≤ℤ b → b <ℤ b +ℤ pos 1
plus_one b one = omega int_laws

above :
    (a b : ℤ)
    → pos 1 ≤ℤ b
    → pos_part b + 1 < half_i64
    → b <ℤ (if leb_ℤ a b then add_i64 b (pos 1) else a)
above a b one h = elim (Bool-cases (leb_ℤ a b)) [
  | inl crossed ↦ rw (crossed, add_i64-eq b (pos 1) (sum_fits b one h)) (plus_one b one)
  | inr fine ↦ rw fine (ground (arith, fine))
]

-- The quoted bid is at least one tick and below the quoted ask, whatever the skew, as long as the bid
-- is not the largest number of the machine.
pub bid_ticks-below_ask :
    (s : MmStrategy) (ctx : ContextSnapshot) (mid : ℤ)
    → pos_part (bid_ticks s ctx mid) + 1 < half_i64
    → (pos 1 ≤ℤ bid_ticks s ctx mid) × (bid_ticks s ctx mid <ℤ ask_ticks s ctx mid)
unfolding bid_ticks ask_ticks
bid_ticks-below_ask s ctx mid h =
    let one = at_least_one-positive (sub_i64 (sub_i64 mid s.half_spread_ticks) (skew s ctx)) in
    (
      one,
      above (at_least_one (sub_i64 (add_i64 mid s.half_spread_ticks) (skew s ctx)))
          (bid_ticks s ctx mid) one h,
    )

append-nil : {A : Type 0} → (xs : List A) → xs ++ [] ≡ xs
append-nil [] = refl
append-nil (x ∷ xs) = ap (x ∷◌) (append-nil xs)

bid_twice :
    (s t : MmStrategy) (ctx : ContextSnapshot) (price : Price) (qty : Qty) (out out' : List Intent)
    → t.bid_order_id ≡ (quote_bid s ctx price qty out).0.bid_order_id
    → t.bid_price ≡ (quote_bid s ctx price qty out).0.bid_price
    → t.pending_bid ≡ (quote_bid s ctx price qty out).0.pending_bid
    → quote_bid t ctx price qty out' ≡ (t, out')
unfolding quote_bid
bid_twice s t ctx price qty out out' h k l = ground arith

ask_twice :
    (s t : MmStrategy) (ctx : ContextSnapshot) (price : Price) (qty : Qty) (out out' : List Intent)
    → t ≡ (quote_ask s ctx price qty out).0
    → quote_ask t ctx price qty out' ≡ (t, out')
unfolding quote_ask
ask_twice s t ctx price qty out out' h = ground arith

-- What both quotes leave as it was.
abbrev SetUp : MmStrategy → MmStrategy → Type 0
SetUp s t =
    (t.half_spread_ticks ≡ s.half_spread_ticks)
    × (t.quote_qty_lots ≡ s.quote_qty_lots)
    × (t.skew_per_lot_ticks ≡ s.skew_per_lot_ticks)

ask-bid_fields :
    (s : MmStrategy) (ctx : ContextSnapshot) (price : Price) (qty : Qty) (out : List Intent)
    → let t = (quote_ask s ctx price qty out).0 in
      (t.bid_order_id ≡ s.bid_order_id)
      × (t.bid_price ≡ s.bid_price)
      × (t.pending_bid ≡ s.pending_bid)
      × SetUp s t
unfolding quote_ask
ask-bid_fields s ctx price qty out = ground arith

bid-SetUp :
    (s : MmStrategy) (ctx : ContextSnapshot) (price : Price) (qty : Qty) (out : List Intent)
    → SetUp s (quote_bid s ctx price qty out).0
unfolding quote_bid
bid-SetUp s ctx price qty out = ground arith

both_twice :
    (s : MmStrategy) (ctx : ContextSnapshot) (out out' : List Intent) (b a : Result CoreError Price)
    (q : Result CoreError Qty)
    → let s' = (quote_both s ctx out b a q).0 in
      (quote_both s' ctx out' b a q ≡ (s', out')) × SetUp s s'
unfolding quote_both
both_twice s ctx out out' (ok b) (ok a) (ok q) =
    let one = quote_bid s ctx b q out in
    let two = quote_ask one.0 ctx a q one.1 in
    let kept = ask-bid_fields one.0 ctx a q one.1 in
    let set_up = bid-SetUp s ctx b q out in
    (
      rw (bid_twice s two.0 ctx b q out out' kept.0 kept.1 kept.2)
          (ask_twice one.0 two.0 ctx a q one.1 out' refl),
      (kept.3.0 ∙ set_up.0, kept.3.1 ∙ set_up.1, kept.3.2 ∙ set_up.2),
    )
both_twice s ctx out out' (ok b) (ok a) (err e) = (refl, (refl, refl, refl))
both_twice s ctx out out' (ok b) (err e) q = (refl, (refl, refl, refl))
both_twice s ctx out out' (err e) a q = (refl, (refl, refl, refl))

quote_mid_twice :
    (s : MmStrategy) (ctx : ContextSnapshot) (out out' : List Intent) (mid : Price)
    → let b = λ (t : MmStrategy). new_price (bid_ticks t ctx mid) in
      let a = λ (t : MmStrategy). new_price (ask_ticks t ctx mid) in
      let q = λ (t : MmStrategy). new_qty t.quote_qty_lots in
      let s' = (quote_both s ctx out (b s) (a s) (q s)).0 in
      quote_both s' ctx out' (b s') (a s') (q s') ≡ (s', out')
unfolding bid_ticks ask_ticks
quote_mid_twice s ctx out out' mid =
    let twice =
      both_twice s ctx out out' (new_price (bid_ticks s ctx mid)) (new_price (ask_ticks s ctx mid))
        (new_qty s.quote_qty_lots) in
    rw (twice.1.0, twice.1.1, twice.1.2) twice.0

-- To quote again in the same context sends nothing more and changes nothing more.
pub quote_twice :
    (s : MmStrategy) (ctx : ContextSnapshot) (out out' : List Intent)
    → let s' = (quote s ctx out).0 in quote s' ctx out' ≡ (s', out')
unfolding quote cancel_all
quote_twice s ctx out out' = elim (Option-cases ctx.mid_price) [
  | inl unknown ↦ rw unknown (ap (λ ys. (_, ys)) (append-nil _ ∙ append-nil out'))
  | inr (mid, known) ↦
      rw known (quote_mid_twice s (record ctx { mid_price = some mid }) out out' mid)
]
