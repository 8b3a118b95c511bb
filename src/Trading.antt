-- ===== src/Trading.antt =====
-- trading-types/src/lib.rs: orders, execution reports and intents.
use orderbook_replay_lab.Base.{ℕ, Option, ℤ, nat_eq, Text, text_eq}
use orderbook_replay_lab.Core.Types.{Side, SymbolId, Price, Qty}

-- A `u64` newtype.
abbrev pub ClientOrderId : Type 0
ClientOrderId = ℕ

pub data TimeInForce : Type 0 where
  gtc ioc fok : TimeInForce

pub data OrderType : Type 0 where
  limit market : OrderType

pub data OrderStatus : Type 0 where
  new accepted working partially_filled filled canceled rejected expired : OrderStatus

pub record OrderRequest : Type 0 where
  pub client_order_id : ClientOrderId
  pub symbol : SymbolId
  pub side : Side
  pub order_type : OrderType
  pub price : Option Price
  pub qty : Qty
  pub tif : TimeInForce

pub record ExecutionReport : Type 0 where
  pub client_order_id : ClientOrderId
  pub status : OrderStatus
  pub filled_qty : Qty
  pub last_fill_price : Price
  pub fee_ticks : ℤ
  pub ts_ns : ℕ
  pub symbol : SymbolId
  pub side : Side

-- The order tag is a text.
pub data Intent : Type 0 where
  place_limit :
      (symbol : SymbolId) (side : Side) (price : Price) (qty : Qty) (tif : TimeInForce)
      (tag : Option Text)
      → Intent
  cancel : (client_order_id : ClientOrderId) → Intent
  replace : (client_order_id : ClientOrderId) (new_price : Price) (new_qty : Qty) → Intent
