-- ===== src/Tests/Wire.antt =====
-- Crates for the tests that write every event as numbers, in bytes, and read them back.
mod Numbers
mod Items
use orderbook_replay_lab.Base.{
  ℕ, zero, suc, ◌+◌, ◌*◌, ◌%◌, ◌^◌, ◌<◌, ◌≡◌, refl, sym, ap, ◌∙◌, List, [], ◌∷◌, arith,
  if◌then◌else◌, length, ℤ, pos, negsuc, nat_eq, text_eq, All, FitsI64, ◌/◌, u64_mod,
}
use orderbook_replay_lab.Base.Result.{Result, ok, err, ok_inj}
use orderbook_replay_lab.Core.Types.{Side, is_bid, Price, Qty, LevelUpdate, MarketEvent}
use orderbook_replay_lab.Core.Text.{codes}
use orderbook_replay_lab.Codec.Defs.{Bytes, Crates, WireEvent}
use orderbook_replay_lab.Codec.Defs.{from_le_bytes}
use orderbook_replay_lab.Codec.Frame.{le_bytes_round_trip}
use orderbook_replay_lab.Cli.Gen.Fits.{LevelFits, UpdateFits}
use orderbook_replay_lab.Codec.Events.{ReadsBack, written}
use orderbook_replay_lab.Cli.Gen.Output.{Serializes, IsShort}
use orderbook_replay_lab.Tests.Wire.Numbers.{
  get_half, put_half, get_half-put_half, put_rest, get_rest, get_rest-put_rest, length-put_rest,
  put_nat, get_nat, halves, get_nat-put_nat, length-put_nat, put_int, get_int, get_int-put_int,
  length-put_int, AreBytes, put_rest-AreBytes, put_half-AreBytes, put_nat-AreBytes,
  put_int-AreBytes,
}
use orderbook_replay_lab.Tests.Wire.Items.{
  put_levels, get_levels, get_levels-put_levels, length-put_levels, put_updates, side_of,
  get_update, get_updates, side_back, get_updates-put_updates, length-put_updates, put_codes,
  get_codes, get_codes-put_codes, put_levels-AreBytes, side_byte, put_updates-AreBytes,
  put_codes-AreBytes,
}

-- The kind, the time, the counts of what follows, the numbers and the symbol.
abbrev wire_bytes : WireEvent → Bytes
wire_bytes (WireEvent.l2_delta ts_ns symbol updates) =
    0
    ∷ put_nat ts_ns (
        put_nat (length updates) (put_nat (length symbol) (put_updates updates (put_codes symbol))))
wire_bytes (WireEvent.l2_snapshot ts_ns symbol bids asks) =
    1
    ∷ put_nat ts_ns (
        put_nat (length bids) (
          put_nat (length asks)
            (put_nat (length symbol) (put_levels bids (put_levels asks (put_codes symbol))))))

abbrev wire_delta : Bytes → WireEvent
wire_delta bs =
    let (ts_ns, bs1) = get_nat bs in
    let (n, bs2) = get_nat bs1 in
    let (size, bs3) = get_nat bs2 in
    let (updates, bs4) = get_updates n bs3 in WireEvent.l2_delta ts_ns (get_codes size bs4) updates

abbrev wire_snapshot : Bytes → WireEvent
wire_snapshot bs =
    let (ts_ns, bs1) = get_nat bs in
    let (n, bs2) = get_nat bs1 in
    let (m, bs3) = get_nat bs2 in
    let (size, bs4) = get_nat bs3 in
    let (bids, bs5) = get_levels n bs4 in
    let (asks, bs6) = get_levels m bs5 in WireEvent.l2_snapshot ts_ns (get_codes size bs6) bids asks

abbrev wire_event : Bytes → Result ℕ WireEvent
wire_event [] = err 0
wire_event (zero ∷ bs) = ok (wire_delta bs)
wire_event (suc k ∷ bs) = ok (wire_snapshot bs)

wire_event-wire_bytes : (e : WireEvent) → wire_event (wire_bytes e) ≡ ok e
wire_event-wire_bytes (WireEvent.l2_delta ts_ns symbol updates) =
    let bs3 = put_updates updates (put_codes symbol) in
    let bs2 = put_nat (length symbol) bs3 in
    rw
      (
        get_nat-put_nat ts_ns (put_nat (length updates) bs2),
        get_nat-put_nat (length updates) bs2,
        get_nat-put_nat (length symbol) bs3,
        get_updates-put_updates updates (put_codes symbol),
        get_codes-put_codes symbol,
      )
      refl
wire_event-wire_bytes (WireEvent.l2_snapshot ts_ns symbol bids asks) =
    let bs5 = put_levels asks (put_codes symbol) in
    let bs4 = put_levels bids bs5 in
    let bs3 = put_nat (length symbol) bs4 in
    let bs2 = put_nat (length asks) bs3 in
    rw
      (
        get_nat-put_nat ts_ns (put_nat (length bids) bs2),
        get_nat-put_nat (length bids) bs2,
        get_nat-put_nat (length asks) bs3,
        get_nat-put_nat (length symbol) bs4,
        get_levels-put_levels bids bs5,
        get_levels-put_levels asks (put_codes symbol),
        get_codes-put_codes symbol,
      )
      refl

abbrev first_mod : Bytes → ℕ
first_mod [] = 0
first_mod (b ∷ bs) = b % 2 ^ 32

first_mod-fits : (bytes : Bytes) → first_mod bytes < 2 ^ 32
first_mod-fits [] = omega arith
first_mod-fits (b ∷ bs) = omega arith

abbrev pub wire : Crates
wire = record {
  Error = ℕ;
  to_json = λ e. err 0;
  from_json = λ s. err 0;
  serialize = λ e. ok (wire_bytes e);
  deserialize = wire_event;
  crc32 = first_mod;
}

pub wire-ReadsBack : ReadsBack wire
wire-ReadsBack = record {
  same_event = λ e payload h.
      ap wire_event (sym (ok_inj (wire_bytes e) payload h)) ∙ wire_event-wire_bytes e;
  sum_fits = first_mod-fits;
}

wire_bytes-AreBytes : (e : WireEvent) → AreBytes (wire_bytes e)
wire_bytes-AreBytes (WireEvent.l2_delta ts_ns symbol updates) =
    let bs3 = put_updates updates (put_codes symbol) in
    let bs2 = put_nat (length symbol) bs3 in
    (
      omega arith,
      put_nat-AreBytes ts_ns (put_nat (length updates) bs2) (
          put_nat-AreBytes (length updates) bs2 (
            put_nat-AreBytes (length symbol) bs3
              (put_updates-AreBytes updates (put_codes symbol) (put_codes-AreBytes symbol)))),
    )
wire_bytes-AreBytes (WireEvent.l2_snapshot ts_ns symbol bids asks) =
    let bs5 = put_levels asks (put_codes symbol) in
    let bs4 = put_levels bids bs5 in
    let bs3 = put_nat (length symbol) bs4 in
    let bs2 = put_nat (length asks) bs3 in
    (
      omega arith,
      put_nat-AreBytes ts_ns (put_nat (length bids) bs2) (
          put_nat-AreBytes (length bids) bs2 (
            put_nat-AreBytes (length asks) bs3 (
              put_nat-AreBytes (length symbol) bs4 (
                put_levels-AreBytes bids bs5
                  (put_levels-AreBytes asks (put_codes symbol) (put_codes-AreBytes symbol)))))),
    )

abbrev symbol_bytes : Bytes
symbol_bytes = put_codes (codes "BTC")

symbol_size : length symbol_bytes ≡ 27
symbol_size = omega (
  arith,
  length-put_nat 66 (put_codes (codes "TC")) (omega arith),
  length-put_nat 84 (put_codes (codes "C")) (omega arith),
  length-put_nat 67 [] (omega arith),
)

wire-fits : (e : MarketEvent) → IsShort e → length (wire_bytes (written e (codes "BTC"))) < 2 ^ 32
wire-fits (MarketEvent.l2_delta ts_ns symbol updates) (time, few, fit) =
    let bs3 = put_updates updates symbol_bytes in
    let bs2 = put_nat 3 bs3 in
    omega (
      arith,
      length-put_nat ts_ns (put_nat (length updates) bs2) time,
      length-put_nat (length updates) bs2 (omega (arith, few)),
      length-put_nat 3 bs3 (omega arith),
      length-put_updates updates symbol_bytes fit,
      few,
      symbol_size,
    )
wire-fits (MarketEvent.l2_snapshot ts_ns symbol bids asks) (time, few, few', fit, fit') =
    let bs5 = put_levels asks symbol_bytes in
    let bs4 = put_levels bids bs5 in
    let bs3 = put_nat 3 bs4 in
    let bs2 = put_nat (length asks) bs3 in
    omega (
      arith,
      length-put_nat ts_ns (put_nat (length bids) bs2) time,
      length-put_nat (length bids) bs2 (omega (arith, few)),
      length-put_nat (length asks) bs3 (omega (arith, few')),
      length-put_nat 3 bs4 (omega arith),
      length-put_levels bids bs5 fit,
      length-put_levels asks symbol_bytes fit',
      few,
      few',
      symbol_size,
    )

pub wire-Serializes : Serializes wire (codes "BTC")
wire-Serializes = record {
  payload = wire_bytes;
  serializes = λ e h. refl;
  fits = wire-fits;
  are_bytes = λ e h. wire_bytes-AreBytes (written e (codes "BTC"));
}
