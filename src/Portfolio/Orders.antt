-- ===== src/Portfolio/Orders.antt =====
-- The life of one order in portfolio/src/lib.rs: partial fills in any order, then the final fill.
use mathlib.Core.Path.{ap₂}
use orderbook_replay_lab.Base.{
  ℕ, ◌≡◌, refl, sym, ap, ◌∙◌, inl, inr, true, List, [], ◌∷◌, ◌++◌, map, arith, ==_iff,
  if◌then◌else◌, Bool-cases, All, ℤ, pos, negsuc, ◌+ℤ◌, ◌-ℤ◌, ◌≤ℤ◌, ltb_ℤ, eq_of_parts, int_laws,
  FitsI64, nat_eq, text_eq,
}
use orderbook_replay_lab.Core.Types.{Side, SymbolId, Price, Qty}
use orderbook_replay_lab.Trading.{ClientOrderId, OrderStatus, ExecutionReport}
use orderbook_replay_lab.Portfolio.Defs.{
  Portfolio, filled_so_far, on_execution_report, position_lots,
}
use orderbook_replay_lab.Portfolio.Reports.{
  counts, new_lots, signed, position-report, filled-partial, filled-final, signed-zero,
  position-skips,
}

-- `on_execution_report` for each report in turn.
unfoldable pub deliver : List ExecutionReport → Portfolio → Portfolio
deliver [] f = f
deliver (r ∷ rs) f = deliver rs (on_execution_report f r)

-- What differs between the reports of one order: the cumulative quantity, the price, the fee, the
-- time.
pub record Fill : Type 0 where
  pub qty : Qty
  pub price : Price
  pub fee_ticks : ℤ
  pub ts_ns : ℕ

abbrev pub fill_report : ClientOrderId → SymbolId → Side → OrderStatus → Fill → ExecutionReport
fill_report id symbol side status x = record {
  client_order_id = id;
  status = status;
  filled_qty = x.qty;
  last_fill_price = x.price;
  fee_ticks = x.fee_ticks;
  ts_ns = x.ts_ns;
  symbol = symbol;
  side = side;
}

-- A quantity in range and not above the total.
abbrev pub IsWithin : ℤ → Fill → Type 0
IsWithin total x = FitsI64 x.qty × (x.qty ≤ℤ total)

sum-signed :
    (side : Side) (start c d : ℤ)
    → start +ℤ signed side c +ℤ signed side (d -ℤ c) ≡ start +ℤ signed side d
sum-signed Side.bid start c d = omega int_laws
sum-signed Side.ask start c d = omega int_laws

fits-between : (a z b : ℤ) → FitsI64 a → FitsI64 b → a ≤ℤ z → z ≤ℤ b → FitsI64 z
fits-between a (pos n) b ha hb h k = (omega arith, omega arith)
fits-between a (negsuc n) b ha hb h k = (omega arith, omega arith)

between :
    (side : Side) (total start c : ℤ)
    → FitsI64 start
    → FitsI64 (start +ℤ signed side total)
    → pos 0 ≤ℤ c
    → c ≤ℤ total
    → FitsI64 (start +ℤ signed side c)
between Side.bid total start c fits end_fits h k =
    fits-between start (start +ℤ c) (start +ℤ total) fits end_fits (omega int_laws) (omega int_laws)
between Side.ask total start c fits end_fits h k =
    fits-between (start +ℤ (pos 0 -ℤ total)) (start +ℤ (pos 0 -ℤ c)) start end_fits fits
      (omega int_laws) (omega int_laws)

module _ (id : ClientOrderId) (symbol : SymbolId) (side : Side) (total : ℤ) (start : ℤ)
    (fits : FitsI64 start) (end_fits : FitsI64 (start +ℤ signed side total)) where
  -- What was counted of the order is what the position has moved.
  abbrev Progress : Portfolio → Type 0
  Progress f =
      (pos 0 ≤ℤ filled_so_far f id)
      × (filled_so_far f id ≤ℤ total)
      × (position_lots f symbol ≡ start +ℤ signed side (filled_so_far f id))

  -- The count after a fill: the reported quantity, if it is higher.
  abbrev reached : Portfolio → OrderStatus → Fill → ℤ
  reached f status x =
      if counts f (fill_report id symbol side status x) then x.qty else filled_so_far f id

  moved_new :
      (f : Portfolio) (status : OrderStatus) (x : Fill)
      → IsWithin total x
      → Progress f
      → counts f (fill_report id symbol side status x) ≡ true
      → position_lots (on_execution_report f (fill_report id symbol side status x)) symbol
        ≡ start +ℤ signed side x.qty
  moved_new f status x o g new =
      let r = fill_report id symbol side status x in
      let lots : new_lots f r ≡ x.qty -ℤ filled_so_far f id = rw new refl in
      let there : position_lots f symbol +ℤ signed side (new_lots f r)
          ≡ start +ℤ signed side x.qty =
        ap₂ (λ p d. p +ℤ signed side d) g.2 lots
        ∙ sum-signed side start (filled_so_far f id) x.qty in
      let inside : FitsI64 (start +ℤ signed side x.qty) =
        between side total start x.qty fits end_fits (ground (arith, g.0, new)) o.1 in
      ground (
        arith,
        there,
        position-report f r symbol g.0 o.0 (rw there inside),
        (==_iff symbol symbol).1 refl,
      )

  moved :
      (f : Portfolio) (status : OrderStatus) (x : Fill)
      → IsWithin total x
      → Progress f
      → position_lots (on_execution_report f (fill_report id symbol side status x)) symbol
        ≡ start +ℤ signed side (reached f status x)
  moved f status x o g =
      let r = fill_report id symbol side status x in
      elim (Bool-cases (counts f r)) [
        | inl new ↦ rw new (moved_new f status x o g new)
        | inr old ↦ rw old (position-skips f r symbol old ∙ g.2)
      ]

  partial-Progress :
      (f : Portfolio) (x : Fill)
      → IsWithin total x
      → Progress f
      → Progress (on_execution_report f (fill_report id symbol side OrderStatus.partially_filled x))
  partial-Progress f x o g =
      let r = fill_report id symbol side OrderStatus.partially_filled x in
      rw (filled-partial f r refl)
        (ground arith, ground arith, moved f OrderStatus.partially_filled x o g)

  partials-Progress :
      (xs : List Fill) (f : Portfolio)
      → All (IsWithin total) xs
      → Progress f
      → Progress (deliver (map (fill_report id symbol side OrderStatus.partially_filled) xs) f)
  unfolding deliver
  partials-Progress [] f o g = g
  partials-Progress (x ∷ xs) f o g =
      partials-Progress xs
        (on_execution_report f (fill_report id symbol side OrderStatus.partially_filled x)) o.1
        (partial-Progress f x o.0 g)

largest : (a b : ℤ) → a ≤ℤ b → (if ltb_ℤ a b then b else a) ≡ b
largest a b h = ground (arith, eq_of_parts a b)

deliver-append :
    (rs ss : List ExecutionReport) (f : Portfolio)
    → deliver (rs ++ ss) f ≡ deliver ss (deliver rs f)
unfolding deliver
deliver-append [] ss f = refl
deliver-append (r ∷ rs) ss f = deliver-append rs ss (on_execution_report f r)

-- Deliver any partial fills of one order, in any order and any number of times, and then its final
-- fill. The position has then moved by the quantity of the final fill, up for a bid and down for an
-- ask, and the order is no longer counted. Before the reports nothing was counted of the order; no
-- partial fill is above the final one, which is not negative; all quantities, and the position before
-- and after, are in range.
pub position-order :
    (id : ClientOrderId) (symbol : SymbolId) (side : Side) (partials : List Fill) (last : Fill)
    (f : Portfolio)
    → filled_so_far f id ≡ pos 0
    → All (IsWithin last.qty) partials
    → FitsI64 last.qty
    → pos 0 ≤ℤ last.qty
    → FitsI64 (position_lots f symbol)
    → FitsI64 (position_lots f symbol +ℤ signed side last.qty)
    → let reports = map (fill_report id symbol side OrderStatus.partially_filled) partials in
      let f' = deliver (reports ++ fill_report id symbol side OrderStatus.filled last ∷ []) f in
      (position_lots f' symbol ≡ position_lots f symbol +ℤ signed side last.qty)
      × (filled_so_far f' id ≡ pos 0)
unfolding deliver
position-order id symbol side partials last f fresh o fits last_pos before after =
    let reports = map (fill_report id symbol side OrderStatus.partially_filled) partials in
    let r = fill_report id symbol side OrderStatus.filled last in
    let g = deliver reports f in
    let start = position_lots f symbol in
    let progress =
      partials-Progress id symbol side last.qty start before after partials f o
        (rw fresh (omega arith, last_pos, sym (signed-zero start side))) in
    rw (deliver-append reports (r ∷ []) f) (
      moved id symbol side last.qty start before after g OrderStatus.filled last (fits, omega arith)
            progress
          ∙ ap (λ z. start +ℤ signed side z) (largest (filled_so_far g id) last.qty progress.1),
      filled-final g r refl,
    )
