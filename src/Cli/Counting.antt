-- ===== src/Cli/Counting.antt =====
-- cli/src/main.rs: the venue wrapper that counts orders and fills.
use orderbook_replay_lab.Base.{
  refl, ℕ, ◌+◌, Bool, not, ◌&&◌, ◌||◌, List, [], ◌∷◌, ltb, if◌then◌else◌, add_u64, nat_eq, text_eq,
}
use orderbook_replay_lab.Core.Types.{is_zero}
use orderbook_replay_lab.Trading.{ExecutionReport}
use orderbook_replay_lab.Book.Defs.{OrderBook}
use orderbook_replay_lab.Oms.Defs.{VenueRequest}
use orderbook_replay_lab.Portfolio.Defs.{is_filled, is_partially_filled}
use orderbook_replay_lab.Venue.Port.{ExecutionVenue, ReadsBook, default_on_book_update}

pub record VenueCounters : Type 0 where
  pub orders_sent : ℕ
  pub fills_count : ℕ

pub record CountingVenue (S : Type 0) : Type 0 where
  pub inner : S
  pub counters : VenueCounters

-- `VenueCounters::default` and `CountingVenue::new`.
abbrev pub default_counters : VenueCounters
default_counters = record { orders_sent = 0; fills_count = 0 }

abbrev pub counting : {S : Type 0} → S → VenueCounters → CountingVenue S
counting inner counters = record { inner = inner; counters = counters }

-- The test of the filter over the reports.
abbrev pub is_counted : ExecutionReport → Bool
is_counted r = (is_filled r.status || is_partially_filled r.status) && not (is_zero r.filled_qty)

-- `filter(..).count()`
unfoldable pub count_fills : List ExecutionReport → ℕ
count_fills [] = 0
count_fills (r ∷ rs) = (if is_counted r then 1 else 0) + count_fills rs

module _ (V : ExecutionVenue) where
  unfoldable pub submit :
      OrderBook
      → VenueRequest
      → CountingVenue V.State
      → List ExecutionReport
      → OrderBook × CountingVenue V.State × List ExecutionReport
  submit book req v out =
      let (book', inner, out') = V.submit book req v.inner out in
      let fills = count_fills out' in
      (
        book',
        record {
          inner = inner;
          counters = record {
            orders_sent = add_u64 v.counters.orders_sent 1;
            fills_count =
                if ltb 0 fills
                then add_u64 v.counters.fills_count fills
                else v.counters.fills_count;
          };
        },
        out',
      )

  -- The wrapper implements `submit` alone, so `on_book_update` is the trait's own.
  abbrev pub counting_venue : ExecutionVenue
  counting_venue = record {
    State = CountingVenue V.State;
    submit = submit;
    on_book_update = default_on_book_update;
  }

  pub counting_venue-ReadsBook : ReadsBook V → ReadsBook counting_venue
  unfolding submit
  counting_venue-ReadsBook reads = record {
    submits = λ book req v out. reads.submits book req v.inner out;
    updates = λ book v out. refl;
  }
