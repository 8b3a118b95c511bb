-- ===== src/Venue/Submit.antt =====
-- What `submit` of venue-sim/src/lib.rs answers to each request: the reports, their times and prices.
use orderbook_replay_lab.Base.{
  ℕ, ◌+◌, ◌<◌, ◌≡◌, refl, sym, ap, subst, ◌≢◌, ◌⊎◌, inl, inr, Option, none, some, List, [], ◌∷◌,
  ◌++◌, arith, Option-cases, u64_mod, nat_eq, text_eq,
}
use orderbook_replay_lab.Core.Types.{Side, Price, Qty}
use orderbook_replay_lab.Trading.{
  ClientOrderId, OrderType, OrderStatus, OrderRequest, ExecutionReport,
}
use orderbook_replay_lab.Base.Assoc.{lookup, erase}
use mathlib.Core.Option
use orderbook_replay_lab.Book.Defs.{OrderBook, best_bid, best_ask}
use orderbook_replay_lab.Oms.Defs.{VenueRequest}
use orderbook_replay_lab.Venue.Sim.{
  LiveOrder, SimVenue, tick, passive_fill_price, market_price, rejected, settle_place, accept_place,
  handle_place, settle_replace, handle_replace, handle_cancel, submit,
}
use orderbook_replay_lab.Venue.Emits.{Emits, emit_none, emit_then, next_ts-tick}
use orderbook_replay_lab.Venue.Passive.{Accepts, IsOpposite, passive_fill_price-Accepts}

abbrev pub id_of : VenueRequest → ClientOrderId
id_of (VenueRequest.place order) = order.client_order_id
id_of (VenueRequest.cancel id ts) = id
id_of (VenueRequest.replace id p q ts) = id

-- The side of the order that the request is about; nothing if it is not there.
abbrev pub side_of : VenueRequest → SimVenue → Option Side
side_of (VenueRequest.place order) v = some order.side
side_of (VenueRequest.cancel id ts) v = Option.map (λ o. o.side) (lookup id v.live_orders)
side_of (VenueRequest.replace id p q ts) v = Option.map (λ o. o.side) (lookup id v.live_orders)

-- The limit that the request sets.
abbrev pub limit_of : VenueRequest → Option Price
limit_of (VenueRequest.place order) = elim order.order_type [
  | OrderType.limit ↦ order.price
  | OrderType.market ↦ none
]
limit_of (VenueRequest.cancel id ts) = none
limit_of (VenueRequest.replace id p q ts) = some p

-- A price that the limit accepts, if there is a limit.
abbrev pub Allows : Option Price → Side → Price → Type 0
Allows none side p = Unit
Allows (some limit) side p = Accepts side limit p

-- The report answers the request: it names the order and its side, and if it is a fill, then at the
-- best opposite level and within the limit, with the taker's fee.
abbrev pub Answers : OrderBook → SimVenue → VenueRequest → ExecutionReport → Type 0
Answers book v req r =
    (r.client_order_id ≡ id_of req)
    × (side_of req v ≡ some r.side)
    × ((r.status ≢ OrderStatus.filled)
        ⊎ (IsOpposite r.side book r.last_fill_price
            × Allows (limit_of req) r.side r.last_fill_price
            × (r.fee_ticks ≡ v.taker_fee_ticks)))

type-cases : (t : OrderType) → (t ≡ OrderType.limit) ⊎ (t ≡ OrderType.market)
type-cases OrderType.limit = inl refl
type-cases OrderType.market = inr refl

no_limit :
    (order : OrderRequest)
    → order.order_type ≡ OrderType.market
    → limit_of (VenueRequest.place order) ≡ none
no_limit order h = ground (arith, h)

has_limit :
    (order : OrderRequest) (limit : Price)
    → order.order_type ≡ OrderType.limit
    → order.price ≡ some limit
    → limit_of (VenueRequest.place order) ≡ some limit
has_limit order limit h k = ground (arith, h, k)

module _ (book : OrderBook) (v : SimVenue) where
  -- What follows the acknowledgement answers the request too.
  settle_place-Emits :
      (w : SimVenue) (order : OrderRequest) (crossing : Option Price) (out : List ExecutionReport)
      → w.taker_fee_ticks ≡ v.taker_fee_ticks
      → w.next_ts_ns + 1 < u64_mod
      → ((p : Price)
          → crossing ≡ some p
          → IsOpposite order.side book p
            × Allows (limit_of (VenueRequest.place order)) order.side p)
      → Emits (Answers book v (VenueRequest.place order)) w out (settle_place w order crossing out)
  unfolding settle_place
  settle_place-Emits w order none out fee room fair = elim (type-cases order.order_type) [
    | inl rests ↦ rw (rests, settle_place) (emit_none _ w out _ refl)
    | inr market ↦ rw (market, settle_place) (emit_none _ w out _ refl)
  ]
  settle_place-Emits w order (some p) out fee room fair =
      emit_then _ w out _ (tick w) _ refl (next_ts-tick w room)
        (refl, refl, inr ((fair p refl).0, (fair p refl).1, fee))
        (emit_none _ (tick w) _ (tick w) refl)

  accept_place-Emits :
      (order : OrderRequest) (crossing : Option Price) (out : List ExecutionReport)
      → v.next_ts_ns + 2 < u64_mod
      → ((p : Price)
          → crossing ≡ some p
          → IsOpposite order.side book p
            × Allows (limit_of (VenueRequest.place order)) order.side p)
      → Emits (Answers book v (VenueRequest.place order)) v out (accept_place v order crossing out)
  unfolding accept_place
  accept_place-Emits order crossing out room fair =
      let clock : (tick v).next_ts_ns ≡ v.next_ts_ns + 1 = next_ts-tick v (omega arith) in
      emit_then _ v out _ (tick v) _ refl clock (refl, refl, inl (λ e. cc))
        (settle_place-Emits (tick v) order crossing _ refl (omega (arith, clock)) fair)

  market_price-IsOpposite :
      (side : Side) (p : Price)
      → market_price side (best_bid book) (best_ask book) ≡ some p
      → IsOpposite side book p
  market_price-IsOpposite Side.bid p h = h
  market_price-IsOpposite Side.ask p h = h

  place_market :
      (order : OrderRequest) (out : List ExecutionReport)
      → order.order_type ≡ OrderType.market
      → handle_place book v order out
        ≡ accept_place v order (market_price order.side (best_bid book) (best_ask book)) out
  unfolding handle_place
  place_market order out h = ground (arith, h)

  place_limit :
      (order : OrderRequest) (limit : Price) (out : List ExecutionReport)
      → order.order_type ≡ OrderType.limit
      → order.price ≡ some limit
      → handle_place book v order out
        ≡ accept_place v order
            (passive_fill_price order.side limit (best_bid book) (best_ask book))
            out
  unfolding handle_place
  place_limit order limit out h k = ground (arith, h, k)

  place_rejected :
      (order : OrderRequest) (out : List ExecutionReport)
      → order.order_type ≡ OrderType.limit
      → order.price ≡ none
      → handle_place book v order out ≡ (tick v, out ++ rejected v order ∷ [])
  unfolding handle_place
  place_rejected order out h k = ground (arith, h, k)

  limit_of-market :
      (order : OrderRequest) (p : Price)
      → order.order_type ≡ OrderType.market
      → Allows (limit_of (VenueRequest.place order)) order.side p
  limit_of-market order p h = subst (λ o. Allows o order.side p) (sym (no_limit order h)) tt

  handle_place-Emits :
      (order : OrderRequest) (out : List ExecutionReport)
      → v.next_ts_ns + 2 < u64_mod
      → Emits (Answers book v (VenueRequest.place order)) v out (handle_place book v order out)
  handle_place-Emits order out room = elim (type-cases order.order_type) [
    | inr market ↦ rw (place_market order out market) (
        accept_place-Emits order _ out room
          λ p h. (market_price-IsOpposite order.side p h, limit_of-market order p market))
    | inl limited ↦ elim (Option-cases order.price) [
      | inl no_price ↦ rw (place_rejected order out limited no_price) (
          emit_then _ v out _ (tick v) _ refl (next_ts-tick v (omega arith))
            (refl, refl, inl (λ e. cc)) (emit_none _ (tick v) _ (tick v) refl))
      | inr (limit, priced) ↦ rw (place_limit order limit out limited priced) (
          accept_place-Emits order _ out room λ p h.
            let fair = passive_fill_price-Accepts order.side limit p book h in
            (
              fair.1,
              subst (λ o. Allows o order.side p) (sym (has_limit order limit limited priced))
                  fair.0,
            ))
    ]
  ]

  handle_cancel-Emits :
      (id : ClientOrderId) (ts : ℕ) (out : List ExecutionReport)
      → v.next_ts_ns + 2 < u64_mod
      → Emits (Answers book v (VenueRequest.cancel id ts)) v out (handle_cancel v id out)
  unfolding handle_cancel
  handle_cancel-Emits id ts out room = elim (Option-cases (lookup id v.live_orders)) [
    | inl unknown ↦ rw (unknown, handle_cancel) (emit_none _ v out v refl)
    | inr (order, rests) ↦
        (let w : SimVenue = tick (record v { live_orders = erase id v.live_orders }) in
          rw (rests, handle_cancel)
            (emit_then _ v out _ w _ refl (next_ts-tick v (omega arith))
              (refl, ap (Option.map (λ o. o.side)) rests, inl (λ e. cc)) (emit_none _ w _ w refl)))
  ]

  settle_replace-Emits :
      (w : SimVenue) (id : ClientOrderId) (p : Price) (q : Qty) (ts : ℕ) (order : LiveOrder)
      (side : Side) (crossing : Option Price) (out : List ExecutionReport)
      → w.taker_fee_ticks ≡ v.taker_fee_ticks
      → w.next_ts_ns + 1 < u64_mod
      → order.side ≡ side
      → Option.map (λ o. o.side) (lookup id v.live_orders) ≡ some side
      → ((x : Price) → crossing ≡ some x → Accepts side p x × IsOpposite side book x)
      → Emits
          (Answers book v (VenueRequest.replace id p q ts))
          w
          out
          (settle_replace w id order crossing out)
  unfolding settle_replace
  settle_replace-Emits w id p q ts order side none out fee room same known fair =
      emit_none _ w out _ refl
  settle_replace-Emits w id p q ts order side (some x) out fee room same known fair =
      let f = fair x refl in
      emit_then _ w out _ (tick w) _ refl (next_ts-tick w room)
        (refl, rw same known, inr (rw same f.1, rw same f.0, fee))
        (emit_none _ (tick w) _ (tick w) refl)

  handle_replace-Emits :
      (id : ClientOrderId) (p : Price) (q : Qty) (ts : ℕ) (out : List ExecutionReport)
      → v.next_ts_ns + 2 < u64_mod
      → Emits
          (Answers book v (VenueRequest.replace id p q ts))
          v
          out
          (handle_replace book v id p q out)
  unfolding handle_replace
  handle_replace-Emits id p q ts out room = elim (Option-cases (lookup id v.live_orders)) [
    | inl unknown ↦ rw (unknown, handle_replace) (emit_none _ v out v refl)
    | inr (order, rests) ↦
        (let w : SimVenue = tick (record v { live_orders = erase id v.live_orders }) in
          let clock : w.next_ts_ns ≡ v.next_ts_ns + 1 = next_ts-tick v (omega arith) in
          let known : Option.map (λ o. o.side) (lookup id v.live_orders) ≡ some order.side =
            ap (Option.map (λ o. o.side)) rests in
          rw (rests, handle_replace)
            (emit_then _ v out _ w _ refl clock (refl, known, inl (λ e. cc))
              (settle_replace-Emits w id p q ts _ order.side _ _ refl (omega (arith, clock)) refl
                known (λ x h. passive_fill_price-Accepts order.side p x book h))))
  ]

  -- A request appends to the caller's vector only reports that answer it: they name its order and its
  -- side, and a fill among them is at the price of the best opposite level, within the limit that the
  -- request sets, if it sets one, and at the taker's fee. They are stamped from the venue's clock on,
  -- and the clock moves behind them. The clock has room for two more times.
  pub submit-Emits :
      (req : VenueRequest) (out : List ExecutionReport)
      → v.next_ts_ns + 2 < u64_mod
      → Emits (Answers book v req) v out (submit book req v out)
  unfolding submit
  submit-Emits (VenueRequest.place order) out room = handle_place-Emits order out room
  submit-Emits (VenueRequest.cancel id ts) out room = handle_cancel-Emits id ts out room
  submit-Emits (VenueRequest.replace id p q ts) out room = handle_replace-Emits id p q ts out room
