-- ===== src/Venue/Sim.antt =====
-- venue-sim/src/lib.rs: the simulated venue.
use orderbook_replay_lab.Base.{
  ℕ, zero, suc, Option, none, some, List, [], ◌∷◌, ◌++◌, leb, if◌then◌else◌, ℤ, pos, leb_ℤ,
  saturating_add_u64, nat_eq, text_eq,
}
use orderbook_replay_lab.Core.Types.{Side, SymbolId, Price, Qty, new_price, new_qty}
use orderbook_replay_lab.Trading.{
  ClientOrderId, OrderType, OrderStatus, OrderRequest, ExecutionReport,
}
use orderbook_replay_lab.Base.Assoc.{Assoc, lookup, erase, insert}
use mathlib.Core.Option
use orderbook_replay_lab.Book.Defs.{OrderBook, best_bid, best_ask}
use orderbook_replay_lab.Oms.Defs.{VenueRequest}
use orderbook_replay_lab.Base.{refl}
use orderbook_replay_lab.Venue.Port.{ExecutionVenue, ReadsBook}

abbrev pub max_passive_fills_per_event : ℕ
max_passive_fills_per_event = 1024

pub record LiveOrder : Type 0 where
  pub symbol : SymbolId
  pub side : Side
  pub price : Option Price
  pub qty : Qty

pub record SimVenue : Type 0 where
  pub maker_fee_ticks : ℤ
  pub taker_fee_ticks : ℤ
  pub next_ts_ns : ℕ
  pub live_orders : Assoc ClientOrderId LiveOrder
  pub order_scan_ids : List ClientOrderId
  pub fill_candidates : List (ClientOrderId × Price)

unfoldable pub new : ℤ → ℤ → SimVenue
new maker_fee_ticks taker_fee_ticks = record {
  maker_fee_ticks = maker_fee_ticks;
  taker_fee_ticks = taker_fee_ticks;
  next_ts_ns = 1;
  live_orders = [];
  order_scan_ids = [];
  fill_candidates = [];
}

-- `next_ts`: the time that is handed out is the field as it was.
abbrev pub tick : SimVenue → SimVenue
tick v = record v { next_ts_ns = saturating_add_u64 v.next_ts_ns 1 }

abbrev pub price_or_zero : Option Price → Price
price_or_zero none = pos 0
price_or_zero (some p) = p

-- The best opposite level, if a limit reaches it: `passive_fill_price`, and the same test in
-- `handle_place` and `handle_replace`.
unfoldable pub passive_fill_price :
    Side → Price → Option (Price × Qty) → Option (Price × Qty) → Option Price
passive_fill_price Side.bid limit_price best_bid none = none
passive_fill_price Side.bid limit_price best_bid (some (a, _)) =
    if leb_ℤ a limit_price then some a else none
passive_fill_price Side.ask limit_price none best_ask = none
passive_fill_price Side.ask limit_price (some (b, _)) best_ask =
    if leb_ℤ limit_price b then some b else none

-- A market order takes the best opposite level.
abbrev pub market_price : Side → Option (Price × Qty) → Option (Price × Qty) → Option Price
market_price Side.bid best_bid best_ask = Option.map (λ l. l.0) best_ask
market_price Side.ask best_bid best_ask = Option.map (λ l. l.0) best_bid

-- `crossing_price.or(order.price).unwrap_or_else(zero_price)`
abbrev pub ack_price : Option Price → Option Price → Price
ack_price (some p) _ = p
ack_price none limit = price_or_zero limit

abbrev pub report :
    ClientOrderId → OrderStatus → Qty → Price → ℤ → ℕ → SymbolId → Side → ExecutionReport
report client_order_id status filled_qty last_fill_price fee_ticks ts_ns symbol side = record {
  client_order_id = client_order_id;
  status = status;
  filled_qty = filled_qty;
  last_fill_price = last_fill_price;
  fee_ticks = fee_ticks;
  ts_ns = ts_ns;
  symbol = symbol;
  side = side;
}

abbrev pub rejected : SimVenue → OrderRequest → ExecutionReport
rejected v order =
    report order.client_order_id OrderStatus.rejected (pos 0) (price_or_zero order.price) (pos 0)
      v.next_ts_ns order.symbol order.side

abbrev pub resting : OrderRequest → LiveOrder
resting order = record {
  symbol = order.symbol;
  side = order.side;
  price = order.price;
  qty = order.qty;
}

-- What follows the acknowledgement of a placed order: a fill at the crossing price, or a rest.
unfoldable pub settle_place :
    SimVenue → OrderRequest → Option Price → List ExecutionReport → SimVenue × List ExecutionReport
settle_place v order (some fill_price) out = (
  tick v,
  out
      ++ report order.client_order_id OrderStatus.filled order.qty fill_price v.taker_fee_ticks
          v.next_ts_ns order.symbol order.side
        ∷ [],
)
settle_place v order none out = elim order.order_type [
  | OrderType.limit ↦
      (record v { live_orders = insert order.client_order_id (resting order) v.live_orders }, out)
  | OrderType.market ↦ (v, out)
]

-- The acknowledgement and what follows it.
unfoldable pub accept_place :
    SimVenue → OrderRequest → Option Price → List ExecutionReport → SimVenue × List ExecutionReport
unfolding settle_place
accept_place v order crossing_price out = settle_place (tick v) order crossing_price (
    out
    ++ report order.client_order_id OrderStatus.accepted (pos 0)
        (ack_price crossing_price order.price) (pos 0) v.next_ts_ns order.symbol order.side
      ∷ [])

unfoldable pub handle_place :
    OrderBook → SimVenue → OrderRequest → List ExecutionReport → SimVenue × List ExecutionReport
unfolding accept_place
handle_place book v order out = elim order.order_type [
  | OrderType.limit ↦ elim order.price [
    | none ↦ (tick v, out ++ rejected v order ∷ [])
    | some limit ↦
        accept_place v order (passive_fill_price order.side limit (best_bid book) (best_ask book))
          out
  ]
  | OrderType.market ↦
      accept_place v order (market_price order.side (best_bid book) (best_ask book)) out
]

-- What follows the acknowledgement of a replaced order.
unfoldable pub settle_replace :
    SimVenue
    → ClientOrderId
    → LiveOrder
    → Option Price
    → List ExecutionReport
    → SimVenue × List ExecutionReport
settle_replace v client_order_id order (some fill_price) out = (
  tick v,
  out
      ++ report client_order_id OrderStatus.filled order.qty fill_price v.taker_fee_ticks
          v.next_ts_ns order.symbol order.side
        ∷ [],
)
settle_replace v client_order_id order none out =
    (record v { live_orders = insert client_order_id order v.live_orders }, out)

unfoldable pub handle_replace :
    OrderBook
    → SimVenue
    → ClientOrderId
    → Price
    → Qty
    → List ExecutionReport
    → SimVenue × List ExecutionReport
unfolding settle_replace
handle_replace book v client_order_id new_price new_qty out =
    elim (lookup client_order_id v.live_orders) [
      | none ↦ (v, out)
      | some order ↦
          settle_replace (tick (record v { live_orders = erase client_order_id v.live_orders }))
            client_order_id (record order { price = some new_price; qty = new_qty })
            (passive_fill_price order.side new_price (best_bid book) (best_ask book))
            (out
              ++ report client_order_id OrderStatus.accepted (pos 0) new_price (pos 0) v.next_ts_ns
                  order.symbol order.side
                ∷ [])
    ]

unfoldable pub handle_cancel :
    SimVenue → ClientOrderId → List ExecutionReport → SimVenue × List ExecutionReport
handle_cancel v client_order_id out = elim (lookup client_order_id v.live_orders) [
  | none ↦ (v, out)
  | some order ↦ (
    tick (record v { live_orders = erase client_order_id v.live_orders }),
    out
        ++ report client_order_id OrderStatus.canceled (pos 0) (price_or_zero order.price) (pos 0)
            v.next_ts_ns order.symbol order.side
          ∷ [],
  )
]

unfoldable pub submit :
    OrderBook → VenueRequest → SimVenue → List ExecutionReport → SimVenue × List ExecutionReport
submit book (VenueRequest.place order) v out = handle_place book v order out
submit book (VenueRequest.cancel client_order_id ts_ns) v out = handle_cancel v client_order_id out
submit book (VenueRequest.replace client_order_id new_price new_qty ts_ns) v out =
    handle_replace book v client_order_id new_price new_qty out

-- The ids of the resting orders, in rising order: `keys` and `sort_unstable_by_key`.
unfoldable pub insert_id : ClientOrderId → List ClientOrderId → List ClientOrderId
insert_id id [] = id ∷ []
insert_id id (j ∷ ids) = if leb id j then id ∷ j ∷ ids else j ∷ insert_id id ids

unfoldable pub sorted_ids : Assoc ClientOrderId LiveOrder → List ClientOrderId
sorted_ids [] = []
sorted_ids ((id, order) ∷ m) = insert_id id (sorted_ids m)

-- The fill price of one resting order, if it has one.
unfoldable pub candidate : OrderBook → Assoc ClientOrderId LiveOrder → ClientOrderId → Option Price
candidate book live_orders id = elim (lookup id live_orders) [
  | none ↦ none
  | some order ↦ elim order.price [
    | none ↦ none
    | some limit_price ↦ passive_fill_price order.side limit_price (best_bid book) (best_ask book)
  ]
]

-- The scan over the ids: `room` candidates may still be added.
unfoldable pub scan :
    OrderBook
    → Assoc ClientOrderId LiveOrder
    → ℕ
    → List ClientOrderId
    → List (ClientOrderId × Price)
scan book live_orders zero ids = []
scan book live_orders (suc room) [] = []
scan book live_orders (suc room) (id ∷ ids) = elim (candidate book live_orders id) [
  | none ↦ scan book live_orders (suc room) ids
  | some fill_price ↦ (id, fill_price) ∷ scan book live_orders room ids
]

-- The loop that fills the candidates.
unfoldable pub fill_all :
    List (ClientOrderId × Price) → SimVenue → List ExecutionReport → SimVenue × List ExecutionReport
fill_all [] v out = (v, out)
fill_all ((client_order_id, fill_price) ∷ candidates) v out =
    elim (lookup client_order_id v.live_orders) [
      | none ↦ fill_all candidates v out
      | some order ↦
          fill_all candidates
            (tick (record v { live_orders = erase client_order_id v.live_orders }))
            (out
              ++ report client_order_id OrderStatus.filled order.qty fill_price v.maker_fee_ticks
                  v.next_ts_ns order.symbol order.side
                ∷ [])
    ]

unfoldable pub on_book_update :
    OrderBook → SimVenue → List ExecutionReport → SimVenue × List ExecutionReport
on_book_update book v out =
    let ids = sorted_ids v.live_orders in
    fill_all (scan book v.live_orders max_passive_fills_per_event ids)
      (record v { order_scan_ids = ids; fill_candidates = [] }) out

abbrev pub sim_venue : ExecutionVenue
sim_venue = record {
  State = SimVenue;
  submit = λ book req v out. let (v', out') = submit book req v out in (book, v', out');
  on_book_update = λ book v out. let (v', out') = on_book_update book v out in (book, v', out');
}

pub sim_venue-ReadsBook : ReadsBook sim_venue
sim_venue-ReadsBook = record { submits = λ book req v out. refl; updates = λ book v out. refl }
