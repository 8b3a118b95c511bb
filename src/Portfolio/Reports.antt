-- ===== src/Portfolio/Reports.antt =====
-- What execution reports do to the positions of portfolio/src/lib.rs.
use orderbook_replay_lab.Base.{
  ◌≡◌, refl, ap, ◌∙◌, inl, inr, Bool, true, false, ◌&&◌, ◌||◌, arith, ◌==◌, if◌then◌else◌,
  Bool-cases, ℤ, pos, ◌+ℤ◌, ◌-ℤ◌, ◌≤ℤ◌, ◌<ℤ◌, ltb_ℤ, int_laws, FitsI64, sub_i64, sub_i64-eq,
  neg_i64-eq, nat_eq, text_eq,
}
use orderbook_replay_lab.Core.Types.{Side, SymbolId}
use orderbook_replay_lab.Trading.{OrderStatus, ExecutionReport}
use orderbook_replay_lab.Base.Assoc.{lookup, insert, lookup-erase, lookup-insert}
use orderbook_replay_lab.Portfolio.Defs.{
  Portfolio, default_position, signed_qty, fill_position, position_of, is_filled,
  is_partially_filled, filled_so_far, record_fill, on_execution_report, position_lots,
}
use orderbook_replay_lab.Portfolio.Position.{position_lots-fill}

-- The report is a fill, and reports more than was counted of its order.
abbrev pub counts : Portfolio → ExecutionReport → Bool
counts f r =
    (is_filled r.status || is_partially_filled r.status)
    && ltb_ℤ (filled_so_far f r.client_order_id) r.filled_qty

-- The lots that a report adds to what was counted of its order, in exact arithmetic.
abbrev pub new_lots : Portfolio → ExecutionReport → ℤ
new_lots f r = if counts f r then r.filled_qty -ℤ filled_so_far f r.client_order_id else pos 0

-- Lots bought count up, lots sold count down.
abbrev pub signed : Side → ℤ → ℤ
signed Side.bid d = d
signed Side.ask d = pos 0 -ℤ d

neg-FitsI64 : (d : ℤ) → pos 0 ≤ℤ d → FitsI64 d → FitsI64 (pos 0 -ℤ d)
unfolding ◌-ℤ◌
neg-FitsI64 d h k = ground arith

signed_qty-eq : (s : Side) (d : ℤ) → pos 0 ≤ℤ d → FitsI64 d → signed_qty s d ≡ signed s d
signed_qty-eq Side.bid d h k = refl
signed_qty-eq Side.ask d h k = neg_i64-eq d (neg-FitsI64 d h k)

diff-FitsI64 : (a b : ℤ) → pos 0 ≤ℤ b → b ≤ℤ a → FitsI64 a → FitsI64 (a -ℤ b)
unfolding ◌-ℤ◌
diff-FitsI64 a b h k fits = ground arith

zero-lots : (f : Portfolio) (s : SymbolId) → position_lots f s +ℤ pos 0 ≡ position_lots f s
zero-lots f s = omega int_laws

lots-position_of :
    (f : Portfolio) (s : SymbolId)
    → (position_of (lookup s f.positions)).position_lots ≡ position_lots f s
unfolding position_lots default_position
lots-position_of f s = ground arith

position-record_fill :
    (f : Portfolio) (r : ExecutionReport) (d : ℤ) (s : SymbolId)
    → FitsI64 (position_lots f r.symbol +ℤ signed_qty r.side d)
    → position_lots (record_fill f r d) s
      ≡ (if s == r.symbol then position_lots f s +ℤ signed_qty r.side d else position_lots f s)
unfolding record_fill position_lots
position-record_fill f r d s h =
    let p = position_of (lookup r.symbol f.positions) in
    let q = signed_qty r.side d in
    ground (
      arith,
      lookup-insert s r.symbol (fill_position p r.last_fill_price q r.fee_ticks) f.positions,
      position_lots-fill p r.last_fill_price q r.fee_ticks (rw (lots-position_of f r.symbol) h),
      lots-position_of f r.symbol,
    )

position-counted :
    (f : Portfolio) (r : ExecutionReport) (s : SymbolId)
    → let prev = filled_so_far f r.client_order_id in
      let d = r.filled_qty -ℤ prev in
      pos 0 ≤ℤ prev
      → prev ≤ℤ r.filled_qty
      → FitsI64 r.filled_qty
      → FitsI64 (position_lots f r.symbol +ℤ signed r.side d)
      → position_lots (record_fill f r (sub_i64 r.filled_qty prev)) s
        ≡ (if s == r.symbol then position_lots f s +ℤ signed r.side d else position_lots f s)
position-counted f r s h k fits sum =
    let prev = filled_so_far f r.client_order_id in
    let d = r.filled_qty -ℤ prev in
    let small : FitsI64 d = diff-FitsI64 r.filled_qty prev h k fits in
    let exact : sub_i64 r.filled_qty prev ≡ d = sub_i64-eq r.filled_qty prev small in
    let side : signed_qty r.side d ≡ signed r.side d =
      signed_qty-eq r.side d (omega int_laws) small in
    rw exact (
      position-record_fill f r d s (rw side sum)
      ∙ ap (λ q. if s == r.symbol then position_lots f s +ℤ q else position_lots f s) side)

pub report-counts :
    (f : Portfolio) (r : ExecutionReport)
    → counts f r ≡ true
    → on_execution_report f r
      ≡ record_fill f r (sub_i64 r.filled_qty (filled_so_far f r.client_order_id))
unfolding on_execution_report
report-counts f r h = ground arith

pub report-skips :
    (f : Portfolio) (r : ExecutionReport)
    → counts f r ≡ false
    → (on_execution_report f r).positions ≡ f.positions
unfolding on_execution_report
report-skips f r h = ground arith

pub position-skips :
    (f : Portfolio) (r : ExecutionReport) (s : SymbolId)
    → counts f r ≡ false
    → position_lots (on_execution_report f r) s ≡ position_lots f s
unfolding position_lots
position-skips f r s h = rw (report-skips f r h)

pub signed-zero : (x : ℤ) (side : Side) → x +ℤ signed side (pos 0) ≡ x
signed-zero x Side.bid = omega int_laws
signed-zero x Side.ask = omega int_laws

-- A report moves the position of its own symbol by the lots that are new in it, up for a bid and
-- down for an ask, and no other position; reports that are no fills, and fills that report no more
-- than was counted, move nothing. The count so far is not negative, and the report and the new
-- position are in range.
pub position-report :
    (f : Portfolio) (r : ExecutionReport) (s : SymbolId)
    → pos 0 ≤ℤ filled_so_far f r.client_order_id
    → FitsI64 r.filled_qty
    → FitsI64 (position_lots f r.symbol +ℤ signed r.side (new_lots f r))
    → position_lots (on_execution_report f r) s ≡ (
        if s == r.symbol
        then position_lots f s +ℤ signed r.side (new_lots f r)
        else position_lots f s)
position-report f r s h fits sum = elim (Bool-cases (counts f r)) [
  | inl new ↦
      rw (report-counts f r new, new) (position-counted f r s h (ground arith) fits (rw new at sum))
  | inr old ↦
      rw (position-skips f r s old, old) (ground (arith, signed-zero (position_lots f s) r.side))
]

-- The count of an order after a partial fill is the larger of the old count and the report.
pub filled-partial :
    (f : Portfolio) (r : ExecutionReport)
    → r.status ≡ OrderStatus.partially_filled
    → filled_so_far (on_execution_report f r) r.client_order_id
      ≡ (if counts f r then r.filled_qty else filled_so_far f r.client_order_id)
unfolding on_execution_report record_fill
filled-partial f r h =
    ground (arith, lookup-insert r.client_order_id r.client_order_id r.filled_qty f.filled_by_order)

-- A filled order is no longer counted.
pub filled-final :
    (f : Portfolio) (r : ExecutionReport)
    → r.status ≡ OrderStatus.filled
    → filled_so_far (on_execution_report f r) r.client_order_id ≡ pos 0
unfolding on_execution_report record_fill
filled-final f r h = ground (
  arith,
  lookup-erase r.client_order_id r.client_order_id f.filled_by_order,
  lookup-erase r.client_order_id r.client_order_id
      (insert r.client_order_id r.filled_qty f.filled_by_order),
)

all_new :
    (f : Portfolio) (r : ExecutionReport)
    → r.status ≡ OrderStatus.filled
    → filled_so_far f r.client_order_id ≡ pos 0
    → pos 0 <ℤ r.filled_qty
    → new_lots f r ≡ r.filled_qty
all_new f r filled fresh some_lots =
    let whole : r.filled_qty -ℤ pos 0 ≡ r.filled_qty = omega int_laws in
    rw (filled, fresh) (ground (arith, whole))

-- The same report of a filled order, given twice, is counted twice: each time the position moves by
-- the whole quantity. Nothing was counted of the order before, the quantity is positive, and the
-- report and both positions are in range.
pub filled_twice :
    (f : Portfolio) (r : ExecutionReport)
    → r.status ≡ OrderStatus.filled
    → filled_so_far f r.client_order_id ≡ pos 0
    → pos 0 <ℤ r.filled_qty
    → FitsI64 r.filled_qty
    → FitsI64 (position_lots f r.symbol +ℤ signed r.side r.filled_qty)
    → FitsI64 (position_lots f r.symbol +ℤ signed r.side r.filled_qty +ℤ signed r.side r.filled_qty)
    → position_lots (on_execution_report (on_execution_report f r) r) r.symbol
      ≡ position_lots f r.symbol +ℤ signed r.side r.filled_qty +ℤ signed r.side r.filled_qty
filled_twice f r filled fresh some_lots fits sum sum' =
    let g = on_execution_report f r in
    let once : new_lots f r ≡ r.filled_qty = all_new f r filled fresh some_lots in
    let first : position_lots g r.symbol ≡ position_lots f r.symbol +ℤ signed r.side r.filled_qty =
      ground
        (arith, once, position-report f r r.symbol (rw fresh (omega arith)) fits (rw once sum)) in
    let again : new_lots g r ≡ r.filled_qty =
      all_new g r filled (filled-final f r filled) some_lots in
    let second =
      position-report g r r.symbol (rw (filled-final f r filled) (omega arith)) fits
        (rw (again, first) sum') in
    ground (arith, again, first, second)
