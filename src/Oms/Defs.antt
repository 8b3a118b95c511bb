-- ===== src/Oms/Defs.antt =====
-- oms/src/lib.rs: the order management system.
use orderbook_replay_lab.Base.{
  ℕ, ◌-◌, Bool, true, false, not, ◌&&◌, Option, none, some, [], if◌then◌else◌, pos, ltb_ℤ, eq_ℤ,
  saturating_add_u64, add_u64, nat_eq, text_eq,
}
use orderbook_replay_lab.Core.Types.{Side, SymbolId, Price, Qty, new_price, new_qty}
use orderbook_replay_lab.Trading.{
  ClientOrderId, TimeInForce, OrderType, OrderStatus, OrderRequest, ExecutionReport, Intent,
}
use orderbook_replay_lab.Base.Assoc.{Assoc, lookup, insert}

pub data OrderState : Type 0 where
  pending_new live pending_cancel canceled filled rejected : OrderState

abbrev pub is_terminal : OrderState → Bool
is_terminal OrderState.canceled = true
is_terminal OrderState.filled = true
is_terminal OrderState.rejected = true
is_terminal OrderState.pending_new = false
is_terminal OrderState.live = false
is_terminal OrderState.pending_cancel = false

abbrev pub state_beq : OrderState → OrderState → Bool
state_beq OrderState.pending_new OrderState.pending_new = true
state_beq OrderState.live OrderState.live = true
state_beq OrderState.pending_cancel OrderState.pending_cancel = true
state_beq OrderState.canceled OrderState.canceled = true
state_beq OrderState.filled OrderState.filled = true
state_beq OrderState.rejected OrderState.rejected = true
state_beq _ _ = false

-- The requests that go to a venue.
pub data VenueRequest : Type 0 where
  place : OrderRequest → VenueRequest
  cancel : (client_order_id : ClientOrderId) (ts_ns : ℕ) → VenueRequest
  replace :
      (client_order_id : ClientOrderId) (new_price : Price) (new_qty : Qty) (ts_ns : ℕ)
      → VenueRequest

pub record OrderEntry : Type 0 where
  pub state : OrderState
  pub filled_qty : Qty

abbrev pub zero_qty : Qty
zero_qty = pos 0

pub record Oms : Type 0 where
  pub next_id : ℕ
  pub orders : Assoc ClientOrderId OrderEntry
  pub open_orders_count : ℕ
  pub orphan_reports : ℕ

unfoldable pub new : Oms
new = record { next_id = 1; orders = []; open_orders_count = 0; orphan_reports = 0 }

-- An entry that is not terminal takes the state; a terminal one stays.
abbrev pub moved_to : OrderState → OrderEntry → OrderEntry
moved_to s entry = if is_terminal entry.state then entry else record entry { state = s }

place_request : ClientOrderId → SymbolId → Side → Price → Qty → TimeInForce → OrderRequest
place_request client_order_id symbol side price qty tif = record {
  client_order_id = client_order_id;
  symbol = symbol;
  side = side;
  order_type = OrderType.limit;
  price = some price;
  qty = qty;
  tif = tif;
}

unfoldable pub apply_intent : Oms → Intent → ℕ → Oms × Option VenueRequest
unfolding place_request
apply_intent o (Intent.place_limit symbol side price qty tif tag) ts_ns = (
  record o {
    next_id = add_u64 o.next_id 1;
    orders =
        insert o.next_id (record { state = OrderState.pending_new; filled_qty = zero_qty })
          o.orders;
    open_orders_count = saturating_add_u64 o.open_orders_count 1;
  },
  some (VenueRequest.place (place_request o.next_id symbol side price qty tif)),
)
apply_intent o (Intent.cancel client_order_id) ts_ns = elim (lookup client_order_id o.orders) [
  | none ↦ (o, none)
  | some entry ↦ (
    record o {
      orders = insert client_order_id (moved_to OrderState.pending_cancel entry) o.orders;
    },
    some (VenueRequest.cancel client_order_id ts_ns),
  )
]
apply_intent o (Intent.replace client_order_id new_price new_qty) ts_ns =
    elim (lookup client_order_id o.orders) [
      | none ↦ (o, none)
      | some entry ↦ (
        record o {
          orders = insert client_order_id (moved_to OrderState.pending_new entry) o.orders;
        },
        some (VenueRequest.replace client_order_id new_price new_qty ts_ns),
      )
    ]

abbrev pub map_status : OrderStatus → OrderState
map_status OrderStatus.new = OrderState.pending_new
map_status OrderStatus.accepted = OrderState.live
map_status OrderStatus.working = OrderState.live
map_status OrderStatus.partially_filled = OrderState.live
map_status OrderStatus.canceled = OrderState.canceled
map_status OrderStatus.expired = OrderState.canceled
map_status OrderStatus.filled = OrderState.filled
map_status OrderStatus.rejected = OrderState.rejected

-- The open counter after an entry moves between states.
abbrev pub recount : OrderState → OrderState → ℕ → ℕ
recount old new_state n =
    if not (is_terminal old) && is_terminal new_state
    then n - 1
    else if is_terminal old && not (is_terminal new_state)
    then saturating_add_u64 n 1
    else n

-- A report on a known order.
unfoldable pub update_entry : Oms → ExecutionReport → OrderEntry → Oms
update_entry o report entry =
    let new_state = map_status report.status in
    if ltb_ℤ report.filled_qty entry.filled_qty
    then o
    else if eq_ℤ report.filled_qty entry.filled_qty && state_beq entry.state new_state
    then o
    else record o {
      orders =
          insert report.client_order_id
            (record { state = new_state; filled_qty = report.filled_qty }) o.orders;
      open_orders_count = recount entry.state new_state o.open_orders_count;
    }

unfoldable pub on_execution_report : Oms → ExecutionReport → Oms
unfolding update_entry
on_execution_report o report = elim (lookup report.client_order_id o.orders) [
  | none ↦ record o { orphan_reports = add_u64 o.orphan_reports 1 }
  | some entry ↦ update_entry o report entry
]

abbrev pub open_orders : Oms → ℕ
open_orders o = o.open_orders_count
