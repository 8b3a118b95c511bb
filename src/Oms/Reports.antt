-- ===== src/Oms/Reports.antt =====
-- How oms/src/lib.rs treats repeated, stale and late execution reports.
use orderbook_replay_lab.Base.{
  ℕ, ◌+◌, ◌<◌, ◌≡◌, inl, inr, true, false, Option, none, some, arith, ==_iff, Option-cases, ℤ, ◌≤ℤ◌,
  u64_mod, saturating_add_u64, nat_eq, text_eq,
}
use orderbook_replay_lab.Trading.{ClientOrderId, ExecutionReport, Intent}
use orderbook_replay_lab.Base.Assoc.{lookup, insert, lookup-insert}
use orderbook_replay_lab.Oms.Defs.{
  OrderState, OrderEntry, Oms, is_terminal, state_beq, map_status, moved_to, apply_intent,
  update_entry, on_execution_report, open_orders,
}
use orderbook_replay_lab.Oms.Invariant.{IsValid, lookup-Below}
use orderbook_replay_lab.Oms.Runs.{Call, intends, reports, step}

state_beq_refl : (s : OrderState) → state_beq s s ≡ true
state_beq_refl s = ground arith

-- A report on an order that the OMS knows is idempotent: given again at once, it changes nothing.
pub report_twice :
    (o : Oms) (r : ExecutionReport) (e : OrderEntry)
    → lookup r.client_order_id o.orders ≡ some e
    → on_execution_report (on_execution_report o r) r ≡ on_execution_report o r
unfolding on_execution_report update_entry
report_twice o r e known = ground (
  arith,
  lookup-insert r.client_order_id r.client_order_id
      (record { state = map_status r.status; filled_qty = r.filled_qty }) o.orders,
  state_beq_refl (map_status r.status),
)

-- The entry of an order after a call, and what it filled.
abbrev pub Keeps : Option OrderEntry → ℤ → Type 0
Keeps none q = ⊥
Keeps (some e) q = q ≤ℤ e.filled_qty

Keeps-place :
    (o : Oms) (k : ClientOrderId) (e new_entry : OrderEntry)
    → IsValid o
    → lookup k o.orders ≡ some e
    → Keeps (lookup k (insert o.next_id new_entry o.orders)) e.filled_qty
Keeps-place o k e new_entry v known = ground (
  arith,
  lookup-Below o.next_id k o.orders {e = e} v.fresh known,
  lookup-insert k o.next_id new_entry o.orders,
)

Keeps-moved_to :
    (o : Oms) (k j : ClientOrderId) (s : OrderState) (e w : OrderEntry)
    → lookup k o.orders ≡ some e
    → lookup j o.orders ≡ some w
    → Keeps (lookup k (insert j (moved_to s w) o.orders)) e.filled_qty
Keeps-moved_to o k j s e w known at =
    ground (arith, lookup-insert k j (moved_to s w) o.orders, ==_iff j k)

Keeps-report :
    (o : Oms) (k : ClientOrderId) (r : ExecutionReport) (e : OrderEntry)
    → lookup k o.orders ≡ some e
    → Keeps (lookup k (on_execution_report o r).orders) e.filled_qty
unfolding on_execution_report update_entry
Keeps-report o k r e known = ground (
  arith,
  lookup-insert k r.client_order_id
      (record { state = map_status r.status; filled_qty = r.filled_qty }) o.orders,
  ==_iff r.client_order_id k,
)

Keeps-intent :
    (o : Oms) (i : Intent) (ts : ℕ) (k : ClientOrderId) (e : OrderEntry)
    → IsValid o
    → lookup k o.orders ≡ some e
    → Keeps (lookup k (apply_intent o i ts).0.orders) e.filled_qty
unfolding apply_intent
Keeps-intent o (Intent.place_limit symbol side price qty tif tag) ts k e v known =
    Keeps-place o k e _ v known
Keeps-intent o (Intent.cancel j) ts k e v known = elim (Option-cases (lookup j o.orders)) [
  | inl unknown ↦ rw (unknown, apply_intent) (rw known (omega arith))
  | inr (w, at) ↦
      rw (at, apply_intent) (Keeps-moved_to o k j OrderState.pending_cancel e w known at)
]
Keeps-intent o (Intent.replace j p q) ts k e v known = elim (Option-cases (lookup j o.orders)) [
  | inl unknown ↦ rw (unknown, apply_intent) (rw known (omega arith))
  | inr (w, at) ↦ rw (at, apply_intent) (Keeps-moved_to o k j OrderState.pending_new e w known at)
]

-- No call forgets an order, and no call lowers the quantity that an order has filled.
pub step-Keeps :
    (o : Oms) (c : Call) (k : ClientOrderId) (e : OrderEntry)
    → IsValid o
    → lookup k o.orders ≡ some e
    → Keeps (lookup k (step o c).orders) e.filled_qty
unfolding step
step-Keeps o (intends i ts) k e v known = Keeps-intent o i ts k e v known
step-Keeps o (reports r) k e v known = Keeps-report o k r e known

-- A late report reopens an order: where the order is terminal, and the report's status is not and its
-- quantity is no lower than the order's, the order takes the reported state and counts as open again.
pub terminal_reopened :
    (o : Oms) (r : ExecutionReport) (e : OrderEntry)
    → lookup r.client_order_id o.orders ≡ some e
    → is_terminal e.state ≡ true
    → is_terminal (map_status r.status) ≡ false
    → e.filled_qty ≤ℤ r.filled_qty
    → o.open_orders_count + 1 < u64_mod
    → let o' = on_execution_report o r in
      (lookup r.client_order_id o'.orders
        ≡ some (record { state = map_status r.status; filled_qty = r.filled_qty }))
      × (open_orders o' ≡ open_orders o + 1)
unfolding on_execution_report update_entry saturating_add_u64
terminal_reopened o r e known ended reported q room = ground (
  arith,
  lookup-insert r.client_order_id r.client_order_id
      (record { state = map_status r.status; filled_qty = r.filled_qty }) o.orders,
)
