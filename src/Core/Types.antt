-- ===== src/Core/Types.antt =====
-- core/src/lib.rs: sides, prices, quantities, level updates and market events.
use orderbook_replay_lab.Base.{
  ℕ, ℤ, pos, Bool, List, Text, map, ltb_ℤ, eq_ℤ, if◌then◌else◌, list_beq, nat_eq,
}
use orderbook_replay_lab.Base.Result.{Result, ok, err}
use orderbook_replay_lab.Core.Text.{trim, codes, to_lower}

pub data CoreError : Type 0 where
  invalid_side : Text → CoreError
  invalid_symbol : Text → CoreError
  invalid_price : ℤ → CoreError
  invalid_qty : ℤ → CoreError

pub data Side : Type 0 where
  bid ask : Side

abbrev pub is_bid : Side → Bool
is_bid Side.bid = Bool.true
is_bid Side.ask = Bool.false

pub as_str : Side → Text
as_str Side.bid = codes "bid"
as_str Side.ask = codes "ask"

abbrev pub eq_ignore_ascii_case : Text → Text → Bool
eq_ignore_ascii_case a b = list_beq (map to_lower a) (map to_lower b)

pub from_str : Text → Result CoreError Side
from_str s =
    let trimmed = trim s in
    if eq_ignore_ascii_case trimmed (codes "bid")
    then ok Side.bid
    else if eq_ignore_ascii_case trimmed (codes "ask")
    then ok Side.ask
    else err (invalid_side s)

-- A `u32` newtype.
abbrev pub SymbolId : Type 0
SymbolId = ℕ

-- `i64` newtypes. Deserialisation is transparent, so a decoded price may be negative.
abbrev pub Price : Type 0
Price = ℤ

abbrev pub Qty : Type 0
Qty = ℤ

unfoldable pub new_price : ℤ → Result CoreError Price
new_price ticks = if ltb_ℤ ticks (pos 0) then err (invalid_price ticks) else ok ticks

unfoldable pub new_qty : ℤ → Result CoreError Qty
new_qty lots = if ltb_ℤ lots (pos 0) then err (invalid_qty lots) else ok lots

abbrev pub is_zero : Qty → Bool
is_zero q = eq_ℤ q (pos 0)

pub record LevelUpdate : Type 0 where
  pub side : Side
  pub price : Price
  pub qty : Qty

abbrev pub is_remove : LevelUpdate → Bool
is_remove u = is_zero u.qty

pub data MarketEvent : Type 0 where
  l2_delta : (ts_ns : ℕ) (symbol : SymbolId) (updates : List LevelUpdate) → MarketEvent
  l2_snapshot : (ts_ns : ℕ) (symbol : SymbolId) (bids asks : List (Price × Qty)) → MarketEvent
