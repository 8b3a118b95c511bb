-- ===== src/Venue/Emits.antt =====
-- What a call of venue-sim/src/lib.rs appends to the caller's vector, and the times it stamps.
use mathlib.Core.List.{append_assoc, append-nil}
use orderbook_replay_lab.Base.{
  ℕ, ◌+◌, ◌<◌, ◌≡◌, sym, subst, ◌∙◌, List, [], ◌∷◌, ◌++◌, arith, length, All, u64_mod,
  saturating_add_u64, nat_eq, text_eq,
}
use orderbook_replay_lab.Trading.{ExecutionReport}
use orderbook_replay_lab.Venue.Sim.{SimVenue, tick}

-- The reports carry the times from a start on, one after the other.
abbrev pub Stamped : ℕ → List ExecutionReport → Type 0
Stamped t [] = Unit
Stamped t (r ∷ rs) = (r.ts_ns ≡ t) × Stamped (t + 1) rs

-- A call on `v` with the vector `out` keeps what is in the vector and appends reports that all
-- satisfy `P`; they are stamped from the venue's clock on, and the clock stands behind the last of
-- them.
pub record Emits (P : ExecutionReport → Type 0) (v : SimVenue) (out : List ExecutionReport)
    (result : SimVenue × List ExecutionReport) : Type 0 where
  pub fresh : List ExecutionReport
  pub appended : result.1 ≡ out ++ fresh
  pub stamped : Stamped v.next_ts_ns fresh
  pub clock : result.0.next_ts_ns ≡ v.next_ts_ns + length fresh
  pub each : All P fresh

module _ (P : ExecutionReport → Type 0) (v : SimVenue) (out : List ExecutionReport) where
  pub emit_none : (w : SimVenue) → w.next_ts_ns ≡ v.next_ts_ns → Emits P v out (w, out)
  emit_none w h = record {
    fresh = [];
    appended = sym (append-nil out);
    stamped = tt;
    clock = omega arith;
    each = tt;
  }

  -- One report, and then what the rest of the call appends.
  pub emit_then :
      (r : ExecutionReport) (w : SimVenue) (result : SimVenue × List ExecutionReport)
      → r.ts_ns ≡ v.next_ts_ns
      → w.next_ts_ns ≡ v.next_ts_ns + 1
      → P r
      → Emits P w (out ++ r ∷ []) result
      → Emits P v out result
  emit_then r w result at next holds rest = record {
    fresh = r ∷ rest.fresh;
    appended = rest.appended ∙ append_assoc out (r ∷ []) rest.fresh;
    stamped = (at, subst (λ t. Stamped t rest.fresh) next rest.stamped);
    clock = omega (arith, rest.clock);
    each = (holds, rest.each);
  }

pub next_ts-tick :
    (v : SimVenue) → v.next_ts_ns + 1 < u64_mod → (tick v).next_ts_ns ≡ v.next_ts_ns + 1
unfolding saturating_add_u64
next_ts-tick v h = omega arith
