-- ===== src/Replay/MappedNext.antt =====
-- The mapped reader of replay/src/lib.rs does what the bytes that are left say.
use orderbook_replay_lab.Base.{
  ℕ, ◌+◌, ◌-◌, ◌≤◌, ◌≡◌, refl, sym, ap, ◌∙◌, inl, inr, arith, ltb, ◌==◌, Bool-cases, length, take,
  drop, nat_eq, text_eq, list_beq,
}
use orderbook_replay_lab.Base.Result.{Result, ok, err}
use orderbook_replay_lab.Core.Types.{MarketEvent}
use orderbook_replay_lab.Base.Slices.{length-drop, drop-drop}
use orderbook_replay_lab.Core.Symbols.{SymbolTable}
use orderbook_replay_lab.Codec.Defs.{
  Bytes, CodecError, Crates, bin_record_magic, bin_record_header_len, BinRecordHeader,
  decode_event_bin_header, decode_event_bin_record, decode_event_bin_payload,
}
use orderbook_replay_lab.Replay.Port.{Files, from_le_prefix}
use orderbook_replay_lab.Replay.Buffered
use orderbook_replay_lab.Replay.Buffered.{
  ReplayReader, Reader, Filled, full, short, failed, fill, at, take_payload, with_header,
  take_header, take_legacy, take_prefix, next_event_bin, next_event,
}
use orderbook_replay_lab.Replay.Mapped
use orderbook_replay_lab.Replay.Mapped.{MmapReplayReader, slice, left_in, next_record, next_legacy}
use orderbook_replay_lab.Replay.Next.{
  Outcome, finish, payload_after, record_in, legacy_in, next_in, Does,
}

-- What is left of a mapped file.
abbrev pub rest_of : MmapReplayReader → Bytes
rest_of m = drop m.pos m.mmap

slice_from :
    (bytes : Bytes) (start from to : ℕ)
    → slice bytes (start + from) (start + to) ≡ take (to - from) (drop from (drop start bytes))
slice_from bytes start from to =
    rw (drop-drop from start bytes) (ap (λ n. take n (drop (start + from) bytes)) (omega arith))

slice_here :
    (bytes : Bytes) (start to : ℕ) → slice bytes start (start + to) ≡ take to (drop start bytes)
slice_here bytes start to = ap (λ n. take n (drop start bytes)) (omega arith)

plus_minus : (m n : ℕ) → m + n - m ≡ n
plus_minus m n = omega arith

left-rest : (m : MmapReplayReader) → left_in m ≡ length (rest_of m)
left-rest m = sym (length-drop m.pos m.mmap)

module _ (F : Files) (X : Crates) where
  -- The mapped reader after a call, and what the bytes before it say.
  abbrev MapDoes : Buffered.Next F X × MmapReplayReader → Outcome (Buffered.Failure F X) → Type 0
  MapDoes p o = Does F X rest_of (λ m. m.symbols) p o

  map_deliver-Does :
      (m : MmapReplayReader) (bytes : Bytes)
      (r : Result (CodecError X.Error) (SymbolTable × MarketEvent))
      → rest_of m ≡ bytes
      → MapDoes (Mapped.deliver F X m r) (finish F X r bytes)
  unfolding Mapped.deliver
  map_deliver-Does m bytes (ok (symbols, e)) h = (refl, h, refl)
  map_deliver-Does m bytes (err e) h = refl

  map_payload-Does :
      (m : MmapReplayReader) (h : Result (CodecError X.Error) BinRecordHeader)
      → MapDoes (Mapped.with_header F X m h) (payload_after F X (rest_of m) m.symbols h)
  unfolding Mapped.with_header
  map_payload-Does m (err e) = refl
  map_payload-Does m (ok header) =
      let n = bin_record_header_len + header.payload_len in
      elim (Bool-cases (ltb (left_in m) n)) [
        | inl few ↦ rw (few, ap (λ k. ltb k n) (sym (left-rest m)) ∙ few) refl
        | inr enough ↦
            rw (enough, ap (λ k. ltb k n) (sym (left-rest m)) ∙ enough, slice_here m.mmap m.pos n)
              (map_deliver-Does (record m { pos = m.pos + n }) (drop n (rest_of m))
                (decode_event_bin_record X (take n (rest_of m)) m.symbols)
                (sym (drop-drop n m.pos m.mmap)))
      ]

  map_record-Does :
      (m : MmapReplayReader) → MapDoes (next_record F X m) (record_in F X (rest_of m) m.symbols)
  unfolding next_record
  map_record-Does m = elim (Bool-cases (ltb (left_in m) bin_record_header_len)) [
    | inl few ↦ rw (few, ap (λ k. ltb k bin_record_header_len) (sym (left-rest m)) ∙ few) refl
    | inr enough ↦
        rw
          (
            enough,
            ap (λ k. ltb k bin_record_header_len) (sym (left-rest m)) ∙ enough,
            slice_here m.mmap m.pos bin_record_header_len,
          )
          (map_payload-Does m (decode_event_bin_header (take bin_record_header_len (rest_of m))))
  ]

  map_legacy-Does :
      (m : MmapReplayReader)
      → MapDoes (next_legacy F X m (take 4 (rest_of m))) (legacy_in F X (rest_of m) m.symbols)
  unfolding next_legacy
  map_legacy-Does m =
      let n = from_le_prefix (take 4 (rest_of m)) in
      elim (Bool-cases (ltb (left_in m) (4 + n))) [
        | inl few ↦ rw (few, ap (λ k. ltb k (4 + n)) (sym (left-rest m)) ∙ few) refl
        | inr enough ↦
            rw
              (
                enough,
                ap (λ k. ltb k (4 + n)) (sym (left-rest m)) ∙ enough,
                slice_from m.mmap m.pos 4 (4 + n),
                plus_minus 4 n,
              )
              (map_deliver-Does (record m { pos = m.pos + (4 + n) }) (drop (4 + n) (rest_of m))
                (decode_event_bin_payload X (take n (drop 4 (rest_of m))) m.symbols)
                (sym (drop-drop (4 + n) m.pos m.mmap)))
      ]

  -- The mapped reader, at a position within the file.
  pub mapped-Does :
      (m : MmapReplayReader)
      → m.pos ≤ length m.mmap
      → MapDoes (Mapped.next_event F X m) (next_in F X (rest_of m) m.symbols)
  unfolding Mapped.next_event next_in
  mapped-Does m within =
      let ended : (m.pos == length m.mmap) ≡ (length (rest_of m) == 0) =
        ground (arith, left-rest m) in
      elim (Bool-cases (length (rest_of m) == 0)) [
        | inl done ↦ rw (ended, done) refl
        | inr more ↦ elim (Bool-cases (ltb (left_in m) 4)) [
          | inl few ↦ rw (ended, more, few, ap (λ k. ltb k 4) (sym (left-rest m)) ∙ few) refl
          | inr enough ↦ elim (Bool-cases (list_beq (take 4 (rest_of m)) bin_record_magic)) [
            | inl new ↦
                rw
                  (
                    ended,
                    more,
                    enough,
                    ap (λ k. ltb k 4) (sym (left-rest m)) ∙ enough,
                    slice_here m.mmap m.pos 4,
                    new,
                  )
                  (map_record-Does m)
            | inr old ↦
                rw
                  (
                    ended,
                    more,
                    enough,
                    ap (λ k. ltb k 4) (sym (left-rest m)) ∙ enough,
                    slice_here m.mmap m.pos 4,
                    old,
                  )
                  (map_legacy-Does m)
          ]
        ]
      ]
