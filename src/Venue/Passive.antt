-- ===== src/Venue/Passive.antt =====
-- The passive fills of venue-sim/src/lib.rs: which resting orders an update of the book fills, at
-- which price, and what is left.
use orderbook_replay_lab.Base.{
  ℕ, zero, suc, ◌+◌, ◌≤◌, ◌<◌, ◌≡◌, refl, ◌∙◌, inl, inr, Option, none, some, List, [], ◌∷◌, arith,
  Option-cases, length, All, ◌≤ℤ◌, u64_mod, nat_eq, text_eq,
}
use orderbook_replay_lab.Core.Types.{Side, Price}
use orderbook_replay_lab.Trading.{ClientOrderId, OrderStatus, ExecutionReport}
use orderbook_replay_lab.Base.Assoc.{Assoc, lookup, erase, lookup-erase}
use mathlib.Core.Option
use orderbook_replay_lab.Book.Defs.{OrderBook, best_bid, best_ask}
use orderbook_replay_lab.Venue.Sim.{
  LiveOrder, SimVenue, max_passive_fills_per_event, tick, passive_fill_price, candidate, sorted_ids,
  scan, fill_all, on_book_update,
}
use orderbook_replay_lab.Venue.Scan.{
  listed, is_some, contains-sorted_ids, length-sorted_ids, listed-scan, lookup-fill_all,
}
use orderbook_replay_lab.Venue.Emits.{Emits, emit_none, emit_then, next_ts-tick}

-- What is left of an order, given its fill price.
abbrev pub left_over : Option Price → Option LiveOrder → Option LiveOrder
left_over (some p) o = none
left_over none o = o

candidate_needs_order :
    (book : OrderBook) (m : Assoc ClientOrderId LiveOrder) (id : ℕ)
    → lookup id m ≡ none
    → candidate book m id ≡ none
unfolding candidate
candidate_needs_order book m id h = ground arith

listed-candidates :
    (book : OrderBook) (m : Assoc ClientOrderId LiveOrder) (id : ℕ)
    → length m ≤ max_passive_fills_per_event
    → listed id (scan book m max_passive_fills_per_event (sorted_ids m))
      ≡ is_some (candidate book m id)
listed-candidates book m id h = ground (
  arith,
  listed-scan book m max_passive_fills_per_event (sorted_ids m) id
      (omega (arith, length-sorted_ids m)),
  contains-sorted_ids id m,
  candidate_needs_order book m id,
)

-- With at most 1024 resting orders, an update of the book takes exactly the orders off that it
-- gives a fill price, and leaves every other order as it was.
pub lookup-on_book_update :
    (book : OrderBook) (v : SimVenue) (out : List ExecutionReport) (id : ClientOrderId)
    → length v.live_orders ≤ max_passive_fills_per_event
    → lookup id (on_book_update book v out).0.live_orders
      ≡ left_over (candidate book v.live_orders id) (lookup id v.live_orders)
unfolding on_book_update
lookup-on_book_update book v out id h =
    lookup-fill_all (scan book v.live_orders max_passive_fills_per_event (sorted_ids v.live_orders))
      _ out id
    ∙ ground (arith, listed-candidates book v.live_orders id h)

-- A price that an order on that side with that limit accepts.
abbrev pub Accepts : Side → Price → Price → Type 0
Accepts Side.bid limit p = p ≤ℤ limit
Accepts Side.ask limit p = limit ≤ℤ p

-- The price of the best opposite level.
abbrev pub IsOpposite : Side → OrderBook → Price → Type 0
IsOpposite Side.bid book p = Option.map (λ l. l.0) (best_ask book) ≡ some p
IsOpposite Side.ask book p = Option.map (λ l. l.0) (best_bid book) ≡ some p

pub passive_fill_price-Accepts :
    (side : Side) (limit p : Price) (book : OrderBook)
    → passive_fill_price side limit (best_bid book) (best_ask book) ≡ some p
    → Accepts side limit p × IsOpposite side book p
unfolding passive_fill_price
passive_fill_price-Accepts Side.bid limit p book h = ground arith
passive_fill_price-Accepts Side.ask limit p book h = ground arith

-- The report fills a resting order whole, as a maker, at the best opposite level, which the order's
-- limit accepts.
pub record IsMakerFill (book : OrderBook) (v : SimVenue) (r : ExecutionReport) : Type 0 where
  pub order : LiveOrder
  pub limit : Price
  pub rested : lookup r.client_order_id v.live_orders ≡ some order
  pub limited : order.price ≡ some limit
  pub accepted : Accepts order.side limit r.last_fill_price
  pub opposite : IsOpposite order.side book r.last_fill_price
  pub whole : r.filled_qty ≡ order.qty
  pub same_side : r.side ≡ order.side
  pub same_symbol : r.symbol ≡ order.symbol
  pub status : r.status ≡ OrderStatus.filled
  pub fee : r.fee_ticks ≡ v.maker_fee_ticks

candidate-order :
    (book : OrderBook) (m : Assoc ClientOrderId LiveOrder) (id : ℕ) (order : LiveOrder) (p : Price)
    → lookup id m ≡ some order
    → candidate book m id ≡ some p
    → (limit : Price) × (order.price ≡ some limit)
      × (passive_fill_price order.side limit (best_bid book) (best_ask book) ≡ some p)
unfolding candidate
candidate-order book m id order p rests h = elim (Option-cases order.price) [
  | inl no_limit ↦ absurd (ground (arith, rests, no_limit, h))
  | inr (limit, e) ↦ (limit, e, ground (arith, rests, e, h))
]

-- The candidates of a scan, with their prices.
abbrev Candidates :
    OrderBook → Assoc ClientOrderId LiveOrder → List (ClientOrderId × Price) → Type 0
Candidates book m = All (λ c. candidate book m c.0 ≡ some c.1)

scan-Candidates :
    (book : OrderBook) (m : Assoc ClientOrderId LiveOrder) (room : ℕ) (ids : List ℕ)
    → Candidates book m (scan book m room ids)
unfolding scan
scan-Candidates book m zero ids = tt
scan-Candidates book m (suc room) [] = tt
scan-Candidates book m (suc room) (id ∷ ids) = elim (Option-cases (candidate book m id)) [
  | inl no_price ↦ rw (no_price, scan) (scan-Candidates book m (suc room) ids)
  | inr (p, price) ↦ rw (price, scan) (price, scan-Candidates book m room ids)
]

length-scan :
    (book : OrderBook) (m : Assoc ClientOrderId LiveOrder) (room : ℕ) (ids : List ℕ)
    → length (scan book m room ids) ≤ room
unfolding scan
length-scan book m zero ids = omega arith
length-scan book m (suc room) [] = omega arith
length-scan book m (suc room) (id ∷ ids) = elim (Option-cases (candidate book m id)) [
  | inl no_price ↦ rw (no_price, scan) (length-scan book m (suc room) ids)
  | inr (p, price) ↦ rw (price, scan) (omega (arith, length-scan book m room ids))
]

module _ (book : OrderBook) (v : SimVenue) where
  -- The orders of a later state rested at the start.
  abbrev Remains : SimVenue → Type 0
  Remains w =
      ((id : ℕ) (o : LiveOrder)
        → lookup id w.live_orders ≡ some o
        → lookup id v.live_orders ≡ some o)
      × (w.maker_fee_ticks ≡ v.maker_fee_ticks)

  maker_fill :
      (w : SimVenue) (id : ℕ) (order : LiveOrder) (p : Price) (r : ExecutionReport)
      → Remains w
      → lookup id w.live_orders ≡ some order
      → candidate book v.live_orders id ≡ some p
      → r ≡ record {
        client_order_id = id;
        status = OrderStatus.filled;
        filled_qty = order.qty;
        last_fill_price = p;
        fee_ticks = w.maker_fee_ticks;
        ts_ns = w.next_ts_ns;
        symbol = order.symbol;
        side = order.side;
      }
      → IsMakerFill book v r
  maker_fill w id order p r g rests price e =
      let there : lookup id v.live_orders ≡ some order = g.0 id order rests in
      let (limit, limited, crosses) = candidate-order book v.live_orders id order p there price in
      let fair = passive_fill_price-Accepts order.side limit p book crosses in
      rw e (record {
        order = order;
        limit = limit;
        rested = there;
        limited = limited;
        accepted = fair.0;
        opposite = fair.1;
        whole = refl;
        same_side = refl;
        same_symbol = refl;
        status = refl;
        fee = g.1;
      })

  erase-Remains :
      (w : SimVenue) (id : ℕ)
      → Remains w
      → Remains (tick (record w { live_orders = erase id w.live_orders }))
  erase-Remains w id g =
      (λ j o h. g.0 j o (ground (arith, h, lookup-erase j id w.live_orders)), g.1)

  fill_all-Emits :
      (cs : List (ClientOrderId × Price)) (w : SimVenue) (out : List ExecutionReport)
      → Candidates book v.live_orders cs
      → Remains w
      → w.next_ts_ns + length cs < u64_mod
      → Emits (IsMakerFill book v) w out (fill_all cs w out)
  unfolding fill_all
  fill_all-Emits [] w out c g room = emit_none (IsMakerFill book v) w out w refl
  fill_all-Emits ((id, p) ∷ cs) w out c g room = elim (Option-cases (lookup id w.live_orders)) [
    | inl gone ↦ rw (gone, fill_all) (fill_all-Emits cs w out c.1 g (omega arith))
    | inr (order, rests) ↦
        (let w' : SimVenue = tick (record w { live_orders = erase id w.live_orders }) in
          let clock : w'.next_ts_ns ≡ w.next_ts_ns + 1 = next_ts-tick w (omega arith) in
          rw (rests, fill_all)
            (emit_then (IsMakerFill book v) w out _ w' _ refl clock
              (maker_fill w id order p _ g rests c.0 refl)
              (fill_all-Emits cs w' _ c.1 (erase-Remains w id g) (omega (arith, clock)))))
  ]

-- An update of the book appends only maker fills to the caller's vector: each is of an order that
-- rested, whole, at the price of the best opposite level, which the order's limit accepts, with the
-- maker's fee. They are stamped from the venue's clock on, and the clock moves behind them. The clock
-- has room for 1024 more times.
pub on_book_update-Emits :
    (book : OrderBook) (v : SimVenue) (out : List ExecutionReport)
    → v.next_ts_ns + max_passive_fills_per_event < u64_mod
    → Emits (IsMakerFill book v) v out (on_book_update book v out)
unfolding on_book_update
on_book_update-Emits book v out room =
    let ids = sorted_ids v.live_orders in
    let emitted =
      fill_all-Emits book v (scan book v.live_orders max_passive_fills_per_event ids)
        (record v { order_scan_ids = ids; fill_candidates = [] }) out
        (scan-Candidates book v.live_orders max_passive_fills_per_event ids) (λ id o h. h, refl)
        (omega (arith, length-scan book v.live_orders max_passive_fills_per_event ids)) in
    record {
      fresh = emitted.fresh;
      appended = emitted.appended;
      stamped = emitted.stamped;
      clock = emitted.clock;
      each = emitted.each;
    }
