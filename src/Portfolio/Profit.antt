-- ===== src/Portfolio/Profit.antt =====
-- The realised profit of portfolio/src/lib.rs over whole trades.
use orderbook_replay_lab.Base.{
  ℕ, zero, suc, ◌+◌, ◌≤◌, ◌<◌, ◌≡◌, refl, sym, ap, ◌∙◌, ◌≢◌, false, ◌||◌, none, some, arith,
  if◌then◌else◌, ℤ, pos, negsuc, pos_part, neg_part, ◌+ℤ◌, ◌-ℤ◌, ◌*ℤ◌, eq_ℤ, eq_of_parts, int_laws,
  eq_ℤ_iff, FitsI64, FitsI128, half_i64, abs, signum, add_i64, abs_i64, add_i128, mul_i128,
  add_i64-eq, sub_i64-eq, abs_i64-eq, add_i128-eq, mul_i128-eq, nat_eq, text_eq,
}
use orderbook_replay_lab.Portfolio.Defs.{
  Position, closing_pnl, realized_after, weighted_avg, avg_after, fill_position,
}
use orderbook_replay_lab.Portfolio.Position.{weighted_avg-flat, product-FitsI128, zero-+ℤ}

-- A price that `Price::new` accepts.
abbrev pub IsPrice : ℤ → Type 0
IsPrice x = (neg_part x ≡ 0) × (pos_part x < half_i64)

-- A fill that takes lots off a position, all of them at most.
abbrev pub Reduces : ℤ → ℤ → Type 0
Reduces (pos n) (negsuc m) = m < n
Reduces (negsuc n) (pos m) = (0 < m) × (m ≤ suc n)
Reduces (pos n) (pos m) = ⊥
Reduces (negsuc n) (negsuc m) = ⊥

diff-FitsI64 : (x a : ℤ) → IsPrice x → IsPrice a → FitsI64 (x -ℤ a)
unfolding ◌-ℤ◌
diff-FitsI64 x a h k = ground arith

-- The profit of the lots that a fill takes off, in exact arithmetic.
minus_product_neg : (r d : ℤ) (m : ℕ) → r -ℤ d *ℤ negsuc m ≡ r +ℤ d *ℤ pos (suc m)
unfolding ◌-ℤ◌ ◌+ℤ◌ ◌*ℤ◌
minus_product_neg r d m = ground arith

minus_product_swap : (r x a : ℤ) (m : ℕ) → r -ℤ (x -ℤ a) *ℤ pos m ≡ r +ℤ (a -ℤ x) *ℤ pos m
unfolding ◌-ℤ◌ ◌+ℤ◌ ◌*ℤ◌
minus_product_swap r x a m = ground arith

closing-long :
    (p : Position) (a x : ℤ) (n m : ℕ)
    → p.position_lots ≡ pos n
    → m < n
    → n < half_i64
    → IsPrice a
    → IsPrice x
    → closing_pnl p a x (negsuc m) ≡ (x -ℤ a) *ℤ pos (suc m)
unfolding closing_pnl
closing-long p a x n m e h k ha hx =
    let size : abs_i64 (pos n) ≡ pos n = abs_i64-eq (pos n) (omega arith) in
    let size' : abs_i64 (negsuc m) ≡ pos (suc m) = abs_i64-eq (negsuc m) (omega arith) in
    let product : mul_i128 (x -ℤ a) (pos (suc m)) ≡ (x -ℤ a) *ℤ pos (suc m) =
      mul_i128-eq (x -ℤ a) (pos (suc m))
        (product-FitsI128 (x -ℤ a) (suc m) (diff-FitsI64 x a hx ha) (omega arith)) in
    ground (arith, size, size', product, sub_i64-eq x a (diff-FitsI64 x a hx ha))

closing-short :
    (p : Position) (a x : ℤ) (n m : ℕ)
    → p.position_lots ≡ negsuc n
    → m ≤ suc n
    → suc n < half_i64
    → IsPrice a
    → IsPrice x
    → closing_pnl p a x (pos m) ≡ (a -ℤ x) *ℤ pos m
unfolding closing_pnl
closing-short p a x n m e h k ha hx =
    let size : abs_i64 (negsuc n) ≡ pos (suc n) = abs_i64-eq (negsuc n) (omega arith) in
    let size' : abs_i64 (pos m) ≡ pos m = abs_i64-eq (pos m) (omega arith) in
    let product : mul_i128 (a -ℤ x) (pos m) ≡ (a -ℤ x) *ℤ pos m =
      mul_i128-eq (a -ℤ x) (pos m)
        (product-FitsI128 (a -ℤ x) m (diff-FitsI64 a x ha hx) (omega arith)) in
    ground (arith, size, size', product, sub_i64-eq a x (diff-FitsI64 a x ha hx))

sum_neg :
    (r d : ℤ) (m : ℕ)
    → FitsI128 (r -ℤ d *ℤ negsuc m)
    → add_i128 r (d *ℤ pos (suc m)) ≡ r -ℤ d *ℤ negsuc m
sum_neg r d m h =
    add_i128-eq r (d *ℤ pos (suc m)) (rw (minus_product_neg r d m) at h)
    ∙ sym (minus_product_neg r d m)

sum_swap :
    (r x a : ℤ) (m : ℕ)
    → FitsI128 (r -ℤ (x -ℤ a) *ℤ pos m)
    → add_i128 r ((a -ℤ x) *ℤ pos m) ≡ r -ℤ (x -ℤ a) *ℤ pos m
sum_swap r x a m h =
    add_i128-eq r ((a -ℤ x) *ℤ pos m) (rw (minus_product_swap r x a m) at h)
    ∙ sym (minus_product_swap r x a m)

-- A fill that reduces a position realises the price difference on the lots that it takes off.
pub realized-reduce :
    (p : Position) (q a x d : ℤ)
    → p.position_lots ≡ q
    → p.avg_entry_price_ticks ≡ some a
    → Reduces q d
    → pos_part q < half_i64
    → neg_part q < half_i64
    → IsPrice a
    → IsPrice x
    → FitsI128 (p.realized_pnl_ticks -ℤ (x -ℤ a) *ℤ d)
    → realized_after p x d ≡ p.realized_pnl_ticks -ℤ (x -ℤ a) *ℤ d
unfolding realized_after
realized-reduce p (pos n) a x (negsuc m) e g h k k' ha hx fits =
    rw (e, g, closing-long p a x n m e h k ha hx)
      (ground (arith, sum_neg p.realized_pnl_ticks (x -ℤ a) m fits))
realized-reduce p (negsuc n) a x (pos m) e g h k k' ha hx fits =
    rw (e, g, closing-short p a x n m e h.1 k' ha hx)
      (ground (arith, sum_swap p.realized_pnl_ticks x a m fits))
realized-reduce p (pos n) a x (pos m) e g h k k' ha hx fits = absurd h
realized-reduce p (negsuc n) a x (negsuc m) e g h k k' ha hx fits = absurd h

-- The sign of a fill that reduces is not that of the position.
signs_differ : (q d : ℤ) → Reduces q d → ((eq_ℤ q (pos 0) || eq_ℤ (signum q) (signum d)) ≡ false)
signs_differ (pos n) (negsuc m) h = ground arith
signs_differ (negsuc n) (pos m) h = ground arith
signs_differ (pos n) (pos m) h = absurd h
signs_differ (negsuc n) (negsuc m) h = absurd h

-- The entry price after a fill that reduces: none if nothing is left, else the price of the fill.
pub avg-reduce :
    (p : Position) (q d x new : ℤ)
    → p.position_lots ≡ q
    → Reduces q d
    → avg_after p x d new ≡ (if eq_ℤ new (pos 0) then none else some x)
unfolding avg_after
avg-reduce p q d x new e h = rw (e, signs_differ q d h) refl

sum-FitsI64 : (q d : ℤ) → Reduces q d → FitsI64 q → FitsI64 (q +ℤ d)
unfolding ◌+ℤ◌
sum-FitsI64 (pos n) (negsuc m) h k = ground arith
sum-FitsI64 (negsuc n) (pos m) h k = ground arith
sum-FitsI64 (pos n) (pos m) h k = absurd h
sum-FitsI64 (negsuc n) (negsuc m) h k = absurd h

-- A fill that takes some lots off a position, or all of them, at one price: the profit that is
-- realised is the difference to the entry price on the lots that go, the lots are counted off, and
-- the entry price afterwards is that of the fill, or none if nothing is left. The prices are as
-- `Price::new` accepts them, and the position and the new profit are in range.
pub fill_position-reduce :
    (p : Position) (a x d fee : ℤ)
    → p.avg_entry_price_ticks ≡ some a
    → Reduces p.position_lots d
    → pos_part p.position_lots < half_i64
    → neg_part p.position_lots < half_i64
    → IsPrice a
    → IsPrice x
    → FitsI128 (p.realized_pnl_ticks -ℤ (x -ℤ a) *ℤ d)
    → let p' = fill_position p x d fee in
      (p'.position_lots ≡ p.position_lots +ℤ d)
      × (p'.realized_pnl_ticks ≡ p.realized_pnl_ticks -ℤ (x -ℤ a) *ℤ d)
      × (p'.avg_entry_price_ticks ≡ (if eq_ℤ (p.position_lots +ℤ d) (pos 0) then none else some x))
unfolding fill_position
fill_position-reduce p a x d fee g h k k' ha hx fits =
    let moved : add_i64 p.position_lots d ≡ p.position_lots +ℤ d =
      add_i64-eq p.position_lots d (sum-FitsI64 p.position_lots d h (k, omega arith)) in
    (
      moved,
      realized-reduce p p.position_lots a x d refl g h k k' ha hx fits,
      avg-reduce p p.position_lots d x (add_i64 p.position_lots d) refl h
          ∙ ap (λ z. if eq_ℤ z (pos 0) then none else some x) moved,
    )

abs-parts : (q : ℤ) → abs q ≡ pos (pos_part q + neg_part q)
abs-parts (pos n) = ground arith
abs-parts (negsuc n) = ground arith

whole : (q : ℤ) → q +ℤ (pos 0 -ℤ q) ≡ pos 0
whole q = omega int_laws

Reduces-whole : (q : ℤ) → q ≢ pos 0 → Reduces q (pos 0 -ℤ q)
unfolding ◌-ℤ◌
Reduces-whole (pos zero) h = absurd (h refl)
Reduces-whole (pos (suc n)) h =
    let e : pos 0 -ℤ pos (suc n) ≡ negsuc n = ground arith in rw e (omega arith)
Reduces-whole (negsuc n) h =
    let e : pos 0 -ℤ negsuc n ≡ pos (suc n) = ground arith in rw e (omega arith, omega arith)

minus_product_minus : (r d q : ℤ) → r -ℤ d *ℤ (pos 0 -ℤ q) ≡ r +ℤ d *ℤ q
unfolding ◌-ℤ◌ ◌+ℤ◌ ◌*ℤ◌
minus_product_minus r d q = ground arith

-- Opening a position from none.
open-flat :
    (p : Position) (a q fee : ℤ)
    → p.position_lots ≡ pos 0
    → q ≢ pos 0
    → pos_part q < half_i64
    → neg_part q < half_i64
    → IsPrice a
    → let p' = fill_position p a q fee in
      (p'.position_lots ≡ q)
      × (p'.realized_pnl_ticks ≡ p.realized_pnl_ticks)
      × (p'.avg_entry_price_ticks ≡ some a)
unfolding fill_position realized_after avg_after
open-flat p a q fee flat h k k' ha =
    let moved : add_i64 p.position_lots q ≡ q =
      rw flat (add_i64-eq (pos 0) q (rw (zero-+ℤ q) (k, omega arith)) ∙ zero-+ℤ q) in
    let size : abs q ≡ pos (pos_part q + neg_part q) = abs-parts q in
    let avg : weighted_avg p a q ≡ a =
      weighted_avg-flat p a q (pos_part q + neg_part q) flat size
        (ground (arith, eq_of_parts q (pos 0))) (ground arith) (omega arith) in
    (moved, ground (arith, flat), ground (arith, moved, avg, flat, eq_of_parts q (pos 0)))

-- Buy or sell short from a flat position at one price, then take the whole position off at another:
-- the position is flat again, without an entry price, and the realised profit has grown by the price
-- difference times the signed lots. The prices are as `Price::new` accepts them, the lots are not
-- zero, and the lots and the new profit are in range.
pub round_trip :
    (p : Position) (a x q fee fee' : ℤ)
    → p.position_lots ≡ pos 0
    → q ≢ pos 0
    → pos_part q < half_i64
    → neg_part q < half_i64
    → IsPrice a
    → IsPrice x
    → FitsI128 (p.realized_pnl_ticks +ℤ (x -ℤ a) *ℤ q)
    → let p' = fill_position (fill_position p a q fee) x (pos 0 -ℤ q) fee' in
      (p'.position_lots ≡ pos 0)
      × (p'.realized_pnl_ticks ≡ p.realized_pnl_ticks +ℤ (x -ℤ a) *ℤ q)
      × (p'.avg_entry_price_ticks ≡ none)
round_trip p a x q fee fee' flat h k k' ha hx fits =
    let o = fill_position p a q fee in
    let opened = open-flat p a q fee flat h k k' ha in
    let cost : o.realized_pnl_ticks -ℤ (x -ℤ a) *ℤ (pos 0 -ℤ q)
        ≡ p.realized_pnl_ticks +ℤ (x -ℤ a) *ℤ q =
      ap (λ r. r -ℤ (x -ℤ a) *ℤ (pos 0 -ℤ q)) opened.1
      ∙ minus_product_minus p.realized_pnl_ticks (x -ℤ a) q in
    let closed =
      fill_position-reduce o a x (pos 0 -ℤ q) fee' opened.2 (rw opened.0 (Reduces-whole q h))
        (rw opened.0 k) (rw opened.0 k') ha hx (rw cost fits) in
    let nothing : o.position_lots +ℤ (pos 0 -ℤ q) ≡ pos 0 =
      ap (λ z. z +ℤ (pos 0 -ℤ q)) opened.0 ∙ whole q in
    (
      closed.0 ∙ nothing,
      closed.1 ∙ cost,
      closed.2 ∙ ap (λ z. if eq_ℤ z (pos 0) then none else some x) nothing,
    )

sum-small :
    (q d : ℤ)
    → Reduces q d
    → pos_part q < half_i64
    → neg_part q < half_i64
    → (pos_part (q +ℤ d) < half_i64) × (neg_part (q +ℤ d) < half_i64)
unfolding ◌+ℤ◌
sum-small (pos n) (negsuc m) h k k' = ground arith
sum-small (negsuc n) (pos m) h k k' = ground arith
sum-small (pos n) (pos m) h k k' = absurd h
sum-small (negsuc n) (negsuc m) h k k' = absurd h

-- Take some lots off a position at one price, and the rest, which is not nothing, at a second price.
-- The first lots realise the difference of the first price to the entry price; the rest realise the
-- difference of the second price to the first, not to the entry price. The prices are as `Price::new`
-- accepts them, and the position and both profits are in range.
pub partial_close :
    (p : Position) (a x y d fee fee' : ℤ)
    → p.avg_entry_price_ticks ≡ some a
    → Reduces p.position_lots d
    → p.position_lots +ℤ d ≢ pos 0
    → pos_part p.position_lots < half_i64
    → neg_part p.position_lots < half_i64
    → IsPrice a
    → IsPrice x
    → IsPrice y
    → FitsI128 (p.realized_pnl_ticks -ℤ (x -ℤ a) *ℤ d)
    → FitsI128 (p.realized_pnl_ticks -ℤ (x -ℤ a) *ℤ d +ℤ (y -ℤ x) *ℤ (p.position_lots +ℤ d))
    → let rest = p.position_lots +ℤ d in
      let p' = fill_position (fill_position p x d fee) y (pos 0 -ℤ rest) fee' in
      (p'.position_lots ≡ pos 0)
      × (p'.realized_pnl_ticks ≡ p.realized_pnl_ticks -ℤ (x -ℤ a) *ℤ d +ℤ (y -ℤ x) *ℤ rest)
partial_close p a x y d fee fee' priced h left k k' ha hx hy fits fits' =
    let rest = p.position_lots +ℤ d in
    let o = fill_position p x d fee in
    let first = fill_position-reduce p a x d fee priced h k k' ha hx fits in
    let small = sum-small p.position_lots d h k k' in
    let price : o.avg_entry_price_ticks ≡ some x =
      first.2 ∙ ground (arith, (eq_ℤ_iff rest (pos 0)).0) in
    let cost : o.realized_pnl_ticks -ℤ (y -ℤ x) *ℤ (pos 0 -ℤ rest)
        ≡ p.realized_pnl_ticks -ℤ (x -ℤ a) *ℤ d +ℤ (y -ℤ x) *ℤ rest =
      ap (λ r. r -ℤ (y -ℤ x) *ℤ (pos 0 -ℤ rest)) first.1
      ∙ minus_product_minus (p.realized_pnl_ticks -ℤ (x -ℤ a) *ℤ d) (y -ℤ x) rest in
    let second =
      fill_position-reduce o x y (pos 0 -ℤ rest) fee' price (rw first.0 (Reduces-whole rest left))
        (rw first.0 small.0) (rw first.0 small.1) hx hy (rw cost fits') in
    (second.0 ∙ ap (λ z. z +ℤ (pos 0 -ℤ rest)) first.0 ∙ whole rest, second.1 ∙ cost)
