-- ===== src/Codec/Events.antt =====
-- An event of codec/src/lib.rs through the binary record and back.
use orderbook_replay_lab.Base.{
  ◌^◌, ◌<◌, sym, ltb, false, Bool-cases, inl, inr, arith, ◌≡◌, refl, ap, ◌∙◌, ◌≢◌, some, [], ◌∷◌,
  length, nat_eq, Text, text_eq,
}
use orderbook_replay_lab.Base.Result.{
  ok, err, ◌>>=◌, map_err, ok_or, ok_inj, bind-ok, map_err-ok, ok_or-ok, err_not_ok,
}
use orderbook_replay_lab.Core.Types.{SymbolId, MarketEvent}
use orderbook_replay_lab.Base.Assoc.{lookup}
use orderbook_replay_lab.Core.Text.{trim}
use orderbook_replay_lab.Core.Symbols.{SymbolTable, intern_trimmed, intern, try_intern, try_resolve}
use orderbook_replay_lab.Core.Interning.{IsValid}
use orderbook_replay_lab.Core.Tables.{IsTrimmed}
use orderbook_replay_lab.Codec.Defs.{
  Bytes, CodecError, Crates, frame, WireEvent, into_core, from_core, encode_event_bin_record,
  decode_event_bin_payload, decode_event_bin_record,
}
use orderbook_replay_lab.Codec.Frame.{record_of, frame-record_of, decode-frame}

abbrev pub symbol_of : MarketEvent → SymbolId
symbol_of (MarketEvent.l2_delta ts_ns symbol updates) = symbol
symbol_of (MarketEvent.l2_snapshot ts_ns symbol bids asks) = symbol

-- The event as it is written, with its symbol as a text.
abbrev pub written : MarketEvent → Text → WireEvent
written (MarketEvent.l2_delta ts_ns symbol updates) text = WireEvent.l2_delta ts_ns text updates
written (MarketEvent.l2_snapshot ts_ns symbol bids asks) text =
    WireEvent.l2_snapshot ts_ns text bids asks

intern-known :
    (t : SymbolTable) (text : Text) (id : SymbolId)
    → trim text ≡ text
    → lookup text t.by_text ≡ some id
    → intern t text ≡ (t, id)
unfolding intern_trimmed intern
intern-known t text id trimmed found = rw (trimmed, found) refl

try_intern-known :
    (t : SymbolTable) (text : Text) (id : SymbolId)
    → IsValid t
    → trim text ≡ text
    → text ≢ []
    → try_resolve t id ≡ some text
    → try_intern t text ≡ ok (t, id)
unfolding try_intern
try_intern-known t [] id v trimmed full known = absurd (full refl)
try_intern-known t (c ∷ s) id v trimmed full known =
    rw (trimmed, try_intern)
      (ap ok (ap (intern t) trimmed ∙ intern-known t (c ∷ s) id trimmed ((v (c ∷ s) id).1 known)))

pub from_core-written :
    (X : Crates) (event : MarketEvent) (t : SymbolTable) (text : Text)
    → try_resolve t (symbol_of event) ≡ some text
    → from_core X event t ≡ ok (written event text)
unfolding from_core
from_core-written X (MarketEvent.l2_delta ts_ns symbol updates) t text known = rw known refl
from_core-written X (MarketEvent.l2_snapshot ts_ns symbol bids asks) t text known = rw known refl

into_core-written :
    (X : Crates) (event : MarketEvent) (t : SymbolTable) (text : Text)
    → try_intern t text ≡ ok (t, symbol_of event)
    → into_core X (written event text) t ≡ ok (t, event)
unfolding into_core
into_core-written X (MarketEvent.l2_delta ts_ns symbol updates) t text known = rw known refl
into_core-written X (MarketEvent.l2_snapshot ts_ns symbol bids asks) t text known = rw known refl

-- An event is encoded as a binary record, and the record decodes to the same event and leaves the
-- symbol table as it was. The table is valid and resolves the event's symbol to a text that is
-- trimmed and not empty; the crates serialise the event to a payload of less than 2 ^ 32 bytes and
-- read that payload back, and the checksum is a 32-bit number.
pub decode-encode :
    (X : Crates) (event : MarketEvent) (t : SymbolTable) (text : Text) (payload : Bytes)
    → IsValid t
    → try_resolve t (symbol_of event) ≡ some text
    → trim text ≡ text
    → text ≢ []
    → X.serialize (written event text) ≡ ok payload
    → X.deserialize payload ≡ ok (written event text)
    → length payload < 2 ^ 32
    → X.crc32 payload < 2 ^ 32
    → (encode_event_bin_record X event t >>= λ bytes. decode_event_bin_record X bytes t)
      ≡ ok (t, event)
unfolding encode_event_bin_record decode_event_bin_payload
decode-encode X event t text payload v known trimmed full out back small sum =
    rw (from_core-written X event t text known, out)
      (decode-frame X payload t small sum
        ∙ rw back (
            into_core-written X event t text
              (try_intern-known t text (symbol_of event) v trimmed full known)))

-- The crates read back what they write, and the checksum is a 32-bit number.
pub record ReadsBack (X : Crates) : Type 0 where
  pub same_event :
      (e : WireEvent) (payload : Bytes) → X.serialize e ≡ ok payload → X.deserialize payload ≡ ok e
  pub sum_fits : (bytes : Bytes) → X.crc32 bytes < 2 ^ 32

from_core-ok :
    (X : Crates) (event : MarketEvent) (t : SymbolTable) (wire : WireEvent)
    → from_core X event t ≡ ok wire
    → (text : Text) × (try_resolve t (symbol_of event) ≡ some text) × (wire ≡ written event text)
unfolding from_core
from_core-ok X (MarketEvent.l2_delta ts_ns symbol updates) t wire h =
    let (text, found, same) =
      bind-ok (ok_or (try_resolve t symbol) (CodecError.unknown_symbol_id symbol)) _ wire h in
    (
      text,
      ok_or-ok (try_resolve t symbol) (CodecError.unknown_symbol_id symbol) text found,
      sym (ok_inj _ wire same),
    )
from_core-ok X (MarketEvent.l2_snapshot ts_ns symbol bids asks) t wire h =
    let (text, found, same) =
      bind-ok (ok_or (try_resolve t symbol) (CodecError.unknown_symbol_id symbol)) _ wire h in
    (
      text,
      ok_or-ok (try_resolve t symbol) (CodecError.unknown_symbol_id symbol) text found,
      sym (ok_inj _ wire same),
    )

frame_too_long :
    (X : Crates) (payload : Bytes)
    → ltb (length payload) (2 ^ 32) ≡ false
    → frame X payload ≡ err (CodecError.binary_length_overflow (length payload))
unfolding frame
frame_too_long X payload big = rw big refl

pub frame-ok :
    (X : Crates) (payload record_bytes : Bytes)
    → frame X payload ≡ ok record_bytes
    → (length payload < 2 ^ 32) × (record_bytes ≡ record_of X payload)
frame-ok X payload record_bytes h = elim (Bool-cases (ltb (length payload) (2 ^ 32))) [
  | inl small ↦ (
    ground (arith, small),
    ok_inj record_bytes (record_of X payload)
        (sym h ∙ frame-record_of X payload (ground (arith, small))),
  )
  | inr big ↦ err_not_ok _ record_bytes (sym (frame_too_long X payload big) ∙ h)
]

-- What an encoded event is: the record of a payload that decodes to the event.
pub record-encoded :
    (X : Crates) (event : MarketEvent) (t : SymbolTable) (record_bytes : Bytes)
    → ReadsBack X
    → IsValid t
    → IsTrimmed t
    → encode_event_bin_record X event t ≡ ok record_bytes
    → (payload : Bytes) × (record_bytes ≡ record_of X payload)
      × (length payload < 2 ^ 32)
      × (decode_event_bin_payload X payload t ≡ ok (t, event))
unfolding encode_event_bin_record decode_event_bin_payload
record-encoded X event t record_bytes reads v trimmed h =
    let (wire, from, h') = bind-ok (from_core X event t) _ record_bytes h in
    let (payload, out, framed) =
      bind-ok (map_err CodecError.binary (X.serialize wire)) _ record_bytes h' in
    let (text, known, same) = from_core-ok X event t wire from in
    let (small, whole) = frame-ok X payload record_bytes framed in
    let (fits, full) = trimmed (symbol_of event) text known in
    let back =
      reads.same_event wire payload (map_err-ok CodecError.binary (X.serialize wire) payload out) in
    (
      payload,
      whole,
      small,
      rw (back, same)
          (into_core-written X event t text
            (try_intern-known t text (symbol_of event) v fits full known)),
    )
