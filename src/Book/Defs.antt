-- ===== src/Book/Defs.antt =====
-- orderbook/src/lib.rs: the single-symbol L2 book with its cached best levels.
use orderbook_replay_lab.Base.{
  Bool, true, false, Option, none, some, List, [], ◌∷◌, ◌==◌, if◌then◌else◌, ltb_ℤ, leb_ℤ, eq_ℤ,
  sub_i64, nat_eq, text_eq,
}
use orderbook_replay_lab.Base.Result.{to_option}
use orderbook_replay_lab.Core.Types.{
  Side, SymbolId, Price, Qty, new_price, is_zero, LevelUpdate, MarketEvent, l2_delta, l2_snapshot,
}
use orderbook_replay_lab.Book.Levels.{Levels, insert, remove, first, last}

pub record OrderBook : Type 0 where
  pub symbol : SymbolId
  pub bids : Levels
  pub asks : Levels
  pub best_bid_cache : Option (Price × Qty)
  pub best_ask_cache : Option (Price × Qty)

unfoldable pub new : SymbolId → OrderBook
new symbol = record {
  symbol = symbol;
  bids = [];
  asks = [];
  best_bid_cache = none;
  best_ask_cache = none;
}

unfoldable pub refresh_best_levels : OrderBook → OrderBook
refresh_best_levels b = record b { best_bid_cache = last b.bids; best_ask_cache = first b.asks }

-- `matches!(cache, Some((best_price, _)) if best_price == price)`
abbrev pub is_at : Price → Option (Price × Qty) → Bool
is_at price none = false
is_at price (some (best_price, _)) = eq_ℤ best_price price

-- `cache.map(|(best_price, _)| price >= best_price).unwrap_or(true)`
abbrev pub is_best_bid : Price → Option (Price × Qty) → Bool
is_best_bid price none = true
is_best_bid price (some (best_price, _)) = leb_ℤ best_price price

-- `cache.map(|(best_price, _)| price <= best_price).unwrap_or(true)`
abbrev pub is_best_ask : Price → Option (Price × Qty) → Bool
is_best_ask price none = true
is_best_ask price (some (best_price, _)) = leb_ℤ price best_price

unfoldable pub apply_bid_update : Price → Qty → OrderBook → OrderBook
apply_bid_update price qty b =
    if is_zero qty
    then (let bids = remove price b.bids in
        record b {
          bids = bids;
          best_bid_cache = if is_at price b.best_bid_cache then last bids else b.best_bid_cache;
        })
    else record b {
      bids = insert price qty b.bids;
      best_bid_cache =
          if is_best_bid price b.best_bid_cache then some (price, qty) else b.best_bid_cache;
    }

unfoldable pub apply_ask_update : Price → Qty → OrderBook → OrderBook
apply_ask_update price qty b =
    if is_zero qty
    then (let asks = remove price b.asks in
        record b {
          asks = asks;
          best_ask_cache = if is_at price b.best_ask_cache then first asks else b.best_ask_cache;
        })
    else record b {
      asks = insert price qty b.asks;
      best_ask_cache =
          if is_best_ask price b.best_ask_cache then some (price, qty) else b.best_ask_cache;
    }

unfoldable pub apply_update : LevelUpdate → OrderBook → OrderBook
apply_update u b = elim u.side [
  | Side.bid ↦ apply_bid_update u.price u.qty b
  | Side.ask ↦ apply_ask_update u.price u.qty b
]

-- `for update in updates`
unfoldable pub apply_updates : List LevelUpdate → OrderBook → OrderBook
apply_updates [] b = b
apply_updates (u ∷ us) b = apply_updates us (apply_update u b)

-- `for (price, qty) in levels` of a snapshot.
unfoldable pub insert_all : List (Price × Qty) → Levels → Levels
insert_all [] m = m
insert_all ((price, qty) ∷ levels) m =
    insert_all levels (if is_zero qty then m else insert price qty m)

unfoldable pub apply_snapshot : List (Price × Qty) → List (Price × Qty) → OrderBook → OrderBook
apply_snapshot bids asks b = refresh_best_levels (record {
  symbol = b.symbol;
  bids = insert_all bids [];
  asks = insert_all asks [];
  best_bid_cache = none;
  best_ask_cache = none;
})

-- The book afterwards, and whether the event was applied.
unfoldable pub apply : OrderBook → MarketEvent → OrderBook × Bool
apply b (l2_delta ts_ns symbol updates) =
    if symbol == b.symbol then (apply_updates updates b, true) else (b, false)
apply b (l2_snapshot ts_ns symbol bids asks) =
    if symbol == b.symbol then (apply_snapshot bids asks b, true) else (b, false)

abbrev pub best_bid : OrderBook → Option (Price × Qty)
best_bid b = b.best_bid_cache

abbrev pub best_ask : OrderBook → Option (Price × Qty)
best_ask b = b.best_ask_cache

abbrev spread_of : Option (Price × Qty) → Option (Price × Qty) → Option Price
spread_of none _ = none
spread_of (some _) none = none
spread_of (some (ask_ticks, _)) (some (bid_ticks, _)) =
    if ltb_ℤ bid_ticks ask_ticks then to_option (new_price (sub_i64 ask_ticks bid_ticks)) else none

unfoldable pub spread : OrderBook → Option Price
spread b = spread_of (best_ask b) (best_bid b)
