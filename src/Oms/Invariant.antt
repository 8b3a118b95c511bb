-- ===== src/Oms/Invariant.antt =====
-- The invariant of oms/src/lib.rs: the open counter is the number of orders that are not terminal.
use orderbook_replay_lab.Base.{
  ℕ, ◌+◌, ◌≤◌, ◌<◌, ◌≡◌, refl, inl, inr, Bool, true, false, not, none, some, [], ◌∷◌, arith,
  if◌then◌else◌, Option-cases, u64_mod, saturating_add_u64, add_u64, nat_eq, text_eq,
}
use orderbook_replay_lab.Trading.{ClientOrderId, ExecutionReport, Intent}
use orderbook_replay_lab.Base.Assoc.{
  Assoc, lookup, erase, insert, Unique, insert-Unique, count, count-erase, count-insert_new,
  count-insert_old, count-le,
}
use orderbook_replay_lab.Oms.Defs.{
  OrderState, OrderEntry, Oms, new, is_terminal, map_status, moved_to, recount, apply_intent,
  update_entry, on_execution_report,
}

-- Every id in use is below the next one.
abbrev pub Below : ℕ → Assoc ClientOrderId OrderEntry → Type 0
Below n [] = Unit
Below n ((k, e) ∷ m) = (k < n) × Below n m

abbrev pub is_open : OrderEntry → Bool
is_open e = not (is_terminal e.state)

abbrev pub any : OrderEntry → Bool
any e = true

pub record IsValid (o : Oms) : Type 0 where
  pub unique : Unique o.orders
  pub fresh : Below o.next_id o.orders
  pub sized : count any o.orders < o.next_id
  pub counted : o.open_orders_count ≡ count is_open o.orders

Below-mono : (n : ℕ) (m : Assoc ClientOrderId OrderEntry) → Below n m → Below (n + 1) m
Below-mono n [] b = tt
Below-mono n ((k, e) ∷ m) b = (omega arith, Below-mono n m b.1)

erase-Below : (n k : ℕ) (m : Assoc ClientOrderId OrderEntry) → Below n m → Below n (erase k m)
unfolding erase
erase-Below n k [] b = tt
erase-Below n k ((j, e) ∷ m) b = ground (arith, erase-Below n k m b.1)

pub lookup_fresh :
    (n k : ℕ) (m : Assoc ClientOrderId OrderEntry) → Below n m → n ≤ k → lookup k m ≡ none
unfolding lookup
lookup_fresh n k [] b h = refl
lookup_fresh n k ((j, e) ∷ m) b h = ground (arith, lookup_fresh n k m b.1)

pub lookup-Below :
    (n k : ℕ) (m : Assoc ClientOrderId OrderEntry) {e : OrderEntry}
    → Below n m
    → lookup k m ≡ some e
    → k < n
unfolding lookup
lookup-Below n k [] b h = ground arith
lookup-Below n k ((j, w) ∷ m) {e} b h = ground (arith, lookup-Below n k m {e = e} b.1)

insert-Below :
    (n k : ℕ) (e : OrderEntry) (m : Assoc ClientOrderId OrderEntry)
    → k < n
    → Below n m
    → Below n (insert k e m)
unfolding insert
insert-Below n k e m h b = (h, erase-Below n k m b)

-- An entry of a known order is replaced, and the counter follows.
replace_entry-IsValid :
    (o : Oms) (k : ℕ) (old e : OrderEntry) (n : ℕ)
    → IsValid o
    → lookup k o.orders ≡ some old
    → n + (if is_open old then 1 else 0) ≡ (if is_open e then 1 else 0) + o.open_orders_count
    → IsValid (record o { orders = insert k e o.orders; open_orders_count = n })
replace_entry-IsValid o k old e n v h c = record {
  unique = insert-Unique k e o.orders v.unique;
  fresh = insert-Below o.next_id k e o.orders (lookup-Below o.next_id k o.orders v.fresh h) v.fresh;
  sized = omega (arith, v.sized, count-insert_old any k e old o.orders v.unique h);
  counted = omega (arith, v.counted, c, count-insert_old is_open k e old o.orders v.unique h);
}

pub new-IsValid : IsValid new
unfolding new count
new-IsValid = record { unique = tt; fresh = tt; sized = omega arith; counted = refl }

-- Placing an order takes the next id, which no order has.
place-IsValid :
    (o : Oms) (e : OrderEntry)
    → is_open e ≡ true
    → o.next_id + 1 < u64_mod
    → IsValid o
    → IsValid (record o {
      next_id = add_u64 o.next_id 1;
      orders = insert o.next_id e o.orders;
      open_orders_count = saturating_add_u64 o.open_orders_count 1;
    })
unfolding add_u64 saturating_add_u64
place-IsValid o e h room v =
    let absent : lookup o.next_id o.orders ≡ none =
      lookup_fresh o.next_id o.next_id o.orders v.fresh (omega arith) in
    let next : add_u64 o.next_id 1 ≡ o.next_id + 1 = omega arith in
    record {
      unique = insert-Unique o.next_id e o.orders v.unique;
      fresh = rw next (
          insert-Below (o.next_id + 1) o.next_id e o.orders (omega arith)
            (Below-mono o.next_id o.orders v.fresh));
      sized = omega (arith, v.sized, count-insert_new any o.next_id e o.orders absent);
      counted =
          ground (
            arith,
            count-insert_new is_open o.next_id e o.orders absent,
            count-le is_open o.orders,
          );
    }

-- A request to cancel or replace moves an order between states that are not terminal.
moved_to-IsValid :
    (o : Oms) (k : ℕ) (s : OrderState) (e : OrderEntry)
    → is_terminal s ≡ false
    → lookup k o.orders ≡ some e
    → IsValid o
    → IsValid (record o { orders = insert k (moved_to s e) o.orders })
moved_to-IsValid o k s e h known v =
    replace_entry-IsValid o k e (moved_to s e) o.open_orders_count v known (ground arith)

pub apply_intent-IsValid :
    (o : Oms) (i : Intent) (ts : ℕ)
    → o.next_id + 1 < u64_mod
    → IsValid o
    → IsValid (apply_intent o i ts).0
unfolding apply_intent
apply_intent-IsValid o (Intent.place_limit symbol side price qty tif tag) ts room v =
    place-IsValid o _ refl room v
apply_intent-IsValid o (Intent.cancel k) ts room v = elim (Option-cases (lookup k o.orders)) [
  | inl unknown ↦ rw (unknown, apply_intent) v
  | inr (e, known) ↦
      rw (known, apply_intent) (moved_to-IsValid o k OrderState.pending_cancel e refl known v)
]
apply_intent-IsValid o (Intent.replace k p q) ts room v = elim (Option-cases (lookup k o.orders)) [
  | inl unknown ↦ rw (unknown, apply_intent) v
  | inr (e, known) ↦
      rw (known, apply_intent) (moved_to-IsValid o k OrderState.pending_new e refl known v)
]

-- An open order is counted.
count-pos :
    (o : Oms) (k : ℕ) (e : OrderEntry)
    → IsValid o
    → lookup k o.orders ≡ some e
    → (if is_open e then 1 else 0) ≤ o.open_orders_count
count-pos o k e v known = omega (arith, v.counted, count-erase is_open k e o.orders v.unique known)

-- A terminal order leaves room in the counter.
count-room :
    (o : Oms) (k : ℕ) (e : OrderEntry)
    → IsValid o
    → lookup k o.orders ≡ some e
    → o.open_orders_count + (if is_open e then 0 else 1) < o.next_id
count-room o k e v known = ground (
  arith,
  v.counted,
  v.sized,
  count-erase is_open k e o.orders v.unique known,
  count-erase any k e o.orders v.unique known,
  count-le is_open (erase k o.orders),
)

recount_lem :
    (o : Oms) (k : ℕ) (old e : OrderEntry)
    → o.next_id < u64_mod
    → IsValid o
    → lookup k o.orders ≡ some old
    → recount old.state e.state o.open_orders_count + (if is_open old then 1 else 0)
      ≡ (if is_open e then 1 else 0) + o.open_orders_count
unfolding saturating_add_u64
recount_lem o k old e room v known =
    ground (arith, count-pos o k old v known, count-room o k old v known)

update_entry-IsValid :
    (o : Oms) (r : ExecutionReport) (e : OrderEntry)
    → o.next_id < u64_mod
    → IsValid o
    → lookup r.client_order_id o.orders ≡ some e
    → IsValid (update_entry o r e)
unfolding update_entry
update_entry-IsValid o r e room v known =
    let moved : OrderEntry = record { state = map_status r.status; filled_qty = r.filled_qty } in
    ground (
      arith,
      replace_entry-IsValid o r.client_order_id e moved
          (recount e.state (map_status r.status) o.open_orders_count) v known
          (recount_lem o r.client_order_id e moved room v known),
    )

pub on_execution_report-IsValid :
    (o : Oms) (r : ExecutionReport)
    → o.next_id < u64_mod
    → IsValid o
    → IsValid (on_execution_report o r)
unfolding on_execution_report
on_execution_report-IsValid o r room v = elim (Option-cases (lookup r.client_order_id o.orders)) [
  | inl unknown ↦
      rw (unknown, on_execution_report)
        (record { unique = v.unique; fresh = v.fresh; sized = v.sized; counted = v.counted })
  | inr (e, known) ↦ rw (known, on_execution_report) (update_entry-IsValid o r e room v known)
]
