-- ===== src/Venue/Scan.antt =====
-- The scan of venue-sim/src/lib.rs for resting orders that the book reaches, and the removal of the
-- orders that it found.
use orderbook_replay_lab.Base.{
  ℕ, zero, suc, ◌+◌, ◌≤◌, ◌≡◌, refl, ◌∙◌, inl, inr, Bool, true, false, ◌&&◌, ◌||◌, Option, none,
  some, List, [], ◌∷◌, arith, ◌==◌, if◌then◌else◌, Option-cases, length, nat_eq, text_eq,
}
use orderbook_replay_lab.Core.Types.{Price}
use orderbook_replay_lab.Trading.{ClientOrderId, ExecutionReport}
use orderbook_replay_lab.Base.Assoc.{Assoc, lookup, lookup-erase}
use orderbook_replay_lab.Book.Defs.{OrderBook}
use orderbook_replay_lab.Venue.Sim.{
  LiveOrder, SimVenue, insert_id, sorted_ids, candidate, scan, fill_all,
}

abbrev pub contains : ℕ → List ℕ → Bool
contains id [] = false
contains id (j ∷ ids) = j == id || contains id ids

abbrev pub listed : ℕ → List (ClientOrderId × Price) → Bool
listed id [] = false
listed id ((j, p) ∷ cs) = j == id || listed id cs

abbrev pub is_some {ℓ} : {A : Type ℓ} → Option A → Bool
is_some none = false
is_some (some a) = true

contains-insert_id :
    (id j : ℕ) (ids : List ℕ) → contains id (insert_id j ids) ≡ (j == id || contains id ids)
unfolding insert_id
contains-insert_id id j [] = refl
contains-insert_id id j (k ∷ ids) = ground (arith, contains-insert_id id j ids)

length-insert_id : (j : ℕ) (ids : List ℕ) → length (insert_id j ids) ≡ length ids + 1
unfolding insert_id
length-insert_id j [] = omega arith
length-insert_id j (k ∷ ids) = ground (arith, length-insert_id j ids)

-- The ids that are scanned are those of the resting orders.
pub contains-sorted_ids :
    (id : ℕ) (m : Assoc ClientOrderId LiveOrder)
    → contains id (sorted_ids m) ≡ is_some (lookup id m)
unfolding sorted_ids lookup
contains-sorted_ids id [] = refl
contains-sorted_ids id ((j, o) ∷ m) =
    ground (arith, contains-insert_id id j (sorted_ids m), contains-sorted_ids id m)

pub length-sorted_ids : (m : Assoc ClientOrderId LiveOrder) → length (sorted_ids m) ≡ length m
unfolding sorted_ids
length-sorted_ids [] = refl
length-sorted_ids ((j, o) ∷ m) =
    omega (arith, length-insert_id j (sorted_ids m), length-sorted_ids m)

-- The ids rise.
abbrev pub Rising : List ℕ → Type 0
Rising [] = Unit
Rising (j ∷ []) = Unit
Rising (j ∷ k ∷ ids) = (j ≤ k) × Rising (k ∷ ids)

insert_id-Rising : (j : ℕ) (ids : List ℕ) → Rising ids → Rising (insert_id j ids)
unfolding insert_id
insert_id-Rising j [] h = tt
insert_id-Rising j (k ∷ []) h = ground arith
insert_id-Rising j (k ∷ l ∷ ids) h = ground (arith, insert_id-Rising j (l ∷ ids) h.1)

pub sorted_ids-Rising : (m : Assoc ClientOrderId LiveOrder) → Rising (sorted_ids m)
unfolding sorted_ids
sorted_ids-Rising [] = tt
sorted_ids-Rising ((j, o) ∷ m) = insert_id-Rising j (sorted_ids m) (sorted_ids-Rising m)

-- With room for all ids, the scan lists those that have a fill price.
pub listed-scan :
    (book : OrderBook) (m : Assoc ClientOrderId LiveOrder) (room : ℕ) (ids : List ℕ) (id : ℕ)
    → length ids ≤ room
    → listed id (scan book m room ids) ≡ (contains id ids && is_some (candidate book m id))
unfolding scan
listed-scan book m zero [] id h = refl
listed-scan book m zero (j ∷ ids) id h = absurd (omega arith)
listed-scan book m (suc room) [] id h = refl
listed-scan book m (suc room) (j ∷ ids) id h = elim (Option-cases (candidate book m j)) [
  | inl no_price ↦ ground (arith, no_price, listed-scan book m (suc room) ids id (omega arith))
  | inr (p, price) ↦ ground (arith, price, listed-scan book m room ids id (omega arith))
]

-- Filling the listed orders takes them off the resting orders, and no others.
pub lookup-fill_all :
    (cs : List (ClientOrderId × Price)) (v : SimVenue) (out : List ExecutionReport) (id : ℕ)
    → lookup id (fill_all cs v out).0.live_orders
      ≡ (if listed id cs then none else lookup id v.live_orders)
unfolding fill_all
lookup-fill_all [] v out id = refl
lookup-fill_all ((j, p) ∷ cs) v out id = elim (Option-cases (lookup j v.live_orders)) [
  | inl gone ↦ ground (arith, gone, lookup-fill_all cs v out id)
  | inr (order, rests) ↦
      rw (rests, fill_all)
        (lookup-fill_all cs _ _ id ∙ ground (arith, lookup-erase id j v.live_orders))
]
