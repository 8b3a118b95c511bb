-- ===== src/Metrics.antt =====
-- metrics/src/lib.rs: the latency statistics, over the histogram of the crate `hdrhistogram`, which
-- is a parameter, and the throughput over times that are arguments.
use orderbook_replay_lab.Base.{
  ℕ, ◌-◌, Option, none, some, ltb, if◌then◌else◌, saturating_add_u64, nat_eq, text_eq,
}

-- What the code calls of `hdrhistogram::Histogram<u64>`.
pub record Histogram : Type 1 where
  pub H : Type 0
  -- `Histogram::new(3)` and `auto(true)`
  pub create : Option H
  -- `record`, whose error the code ignores
  pub add : ℕ → H → H
  pub len : H → ℕ

module _ (h : Histogram) where
  abbrev pub LatencyStats : Type 0
  LatencyStats = Option h.H

  unfoldable pub new : LatencyStats
  new = h.create

  unfoldable pub record_latency : ℕ → LatencyStats → LatencyStats
  record_latency ns none = none
  record_latency ns (some histogram) = some (h.add ns histogram)

  unfoldable pub count : LatencyStats → ℕ
  count none = 0
  count (some histogram) = h.len histogram

-- `ThroughputTracker`, with times as nanoseconds of a clock that is read before the call. A rate is
-- not a float here but its two numbers, the events and the time.
pub record ThroughputTracker : Type 0 where
  pub window : ℕ
  pub window_start : ℕ
  pub count : ℕ

unfoldable pub new_tracker : (window now : ℕ) → ThroughputTracker
new_tracker window now = record { window = window; window_start = now; count = 0 }

-- `record`
unfoldable pub record_events : ℕ → ThroughputTracker → ThroughputTracker
record_events n t = record t { count = saturating_add_u64 t.count n }

-- `now` is the time of the measurement and `later` that of the new start.
unfoldable pub events_per_sec :
    (now later : ℕ) → ThroughputTracker → ThroughputTracker × Option (ℕ × ℕ)
events_per_sec now later t =
    let elapsed = now - t.window_start in
    if ltb elapsed t.window
    then (t, none)
    else (record t { window_start = later; count = 0 }, some (t.count, elapsed))
