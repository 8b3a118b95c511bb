-- ===== src/Tests/Venues.antt =====
-- The theorems on venue-sim/src/lib.rs at a concrete book and resting orders.
use orderbook_replay_lab.Base.{◌≡◌, some, [], ◌∷◌, arith, pos, nat_eq, text_eq}
use orderbook_replay_lab.Base.Assoc.{lookup}
use orderbook_replay_lab.Core.Types.{Side}
use orderbook_replay_lab.Book.Defs.{OrderBook}
use orderbook_replay_lab.Oms.Defs.{VenueRequest}
use orderbook_replay_lab.Venue.Sim.{SimVenue, candidate, submit, on_book_update}
use orderbook_replay_lab.Venue.Emits.{Emits}
use orderbook_replay_lab.Venue.Submit.{Answers, submit-Emits}
use orderbook_replay_lab.Venue.Passive.{
  left_over, lookup-on_book_update, IsMakerFill, on_book_update-Emits,
}

abbrev book : OrderBook
book = record {
  symbol = 7;
  bids = (pos 100, pos 5) ∷ [];
  asks = (pos 101, pos 3) ∷ [];
  best_bid_cache = some (pos 100, pos 5);
  best_ask_cache = some (pos 101, pos 3);
}

-- A bid that the best ask reaches, and one that it does not.
abbrev venue : SimVenue
venue = record {
  maker_fee_ticks = pos 1;
  taker_fee_ticks = pos 2;
  next_ts_ns = 10;
  live_orders =
      (4, record { symbol = 7; side = Side.bid; price = some (pos 101); qty = pos 6 })
      ∷ (3, record { symbol = 7; side = Side.bid; price = some (pos 99); qty = pos 6 })
      ∷ [];
  order_scan_ids = [];
  fill_candidates = [];
}

abbrev replace : VenueRequest
replace = VenueRequest.replace 3 (pos 102) (pos 2) 11

submit-Emits_example : Emits (Answers book venue replace) venue [] (submit book replace venue [])
submit-Emits_example = submit-Emits book venue replace [] (omega arith)

lookup-on_book_update_example :
    lookup 4 (on_book_update book venue []).0.live_orders
    ≡ left_over (candidate book venue.live_orders 4) (lookup 4 venue.live_orders)
lookup-on_book_update_example = lookup-on_book_update book venue [] 4 (omega arith)

on_book_update-Emits_example :
    Emits (IsMakerFill book venue) venue [] (on_book_update book venue [])
on_book_update-Emits_example = on_book_update-Emits book venue [] (omega arith)
