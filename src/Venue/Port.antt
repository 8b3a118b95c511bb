-- ===== src/Venue/Port.antt =====
-- venue/src/lib.rs: the trait `ExecutionVenue` as a record. A venue may share the engine's book through
-- an `Rc<RefCell<OrderBook>>`, so each call takes the book and returns it, changed or not.
use orderbook_replay_lab.Base.{◌≡◌, List, nat_eq, text_eq}
use orderbook_replay_lab.Trading.{ExecutionReport}
use orderbook_replay_lab.Book.Defs.{OrderBook}
use orderbook_replay_lab.Oms.Defs.{VenueRequest}

pub record ExecutionVenue : Type 1 where
  pub State : Type 0
  pub submit :
      OrderBook
      → VenueRequest
      → State
      → List ExecutionReport
      → OrderBook × State × List ExecutionReport
  pub on_book_update :
      OrderBook → State → List ExecutionReport → OrderBook × State × List ExecutionReport

-- The body that the trait gives `on_book_update`, for implementors that do not override it.
abbrev pub default_on_book_update {ℓ} :
    {S : Type ℓ} → OrderBook → S → List ExecutionReport → OrderBook × S × List ExecutionReport
default_on_book_update book s out = (book, s, out)

-- A venue that only reads the shared book.
pub record ReadsBook (V : ExecutionVenue) : Type 0 where
  pub submits :
      (book : OrderBook) (req : VenueRequest) (s : V.State) (out : List ExecutionReport)
      → (V.submit book req s out).0 ≡ book
  pub updates :
      (book : OrderBook) (s : V.State) (out : List ExecutionReport)
      → (V.on_book_update book s out).0 ≡ book
