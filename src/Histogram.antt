-- ===== src/Histogram.antt =====
-- core/performance_metrics.hpp under projects/cs2-stage3-esp-radar/external-cheat-base/src: the class
-- `DurationHistogram`. The counters are words of 64 bits, and durations are whole microseconds; the
-- division by 1000.0 that turns a result into milliseconds, in `double`, is left to the reader of
-- the snapshot. Here the operations run one after another; Histogram/Threads interleaves them.
pub mod Counts
pub mod Percentile
mod Tests
pub mod Threads
use hardware_assisted_game_s.Base.{
  ℕ, zero, suc, ◌+◌, ◌-◌, ◌*◌, ◌/◌, ◌%◌, Bool, true, false, Option, none, some, List, [], ◌∷◌,
  u64_mod, max, get_or, set, replicate, length, ltb, leb, ◌==◌, if◌then◌else◌,
}

abbrev pub u64_max : ℕ
u64_max = 18446744073709551615

-- `upperBoundsMicroseconds`.
abbrev pub upper_bounds : List ℕ
upper_bounds =
    50 ∷ 100 ∷ 250 ∷ 500 ∷ 1000 ∷ 2000 ∷ 4000 ∷ 8000 ∷ 12000 ∷ 16000 ∷ 24000 ∷ 33000 ∷ 50000
    ∷ 100000 ∷ u64_max ∷ []

pub record DurationHistogram : Type 0 where
  pub samples : ℕ
  pub total_microseconds : ℕ
  pub maximum_microseconds : ℕ
  pub buckets : List ℕ

-- The members as they are made, and as `reset` leaves them.
abbrev pub empty : DurationHistogram
empty = record {
  samples = 0;
  total_microseconds = 0;
  maximum_microseconds = 0;
  buckets = replicate 15 0;
}

-- The loop of `bucketIndex` over the bounds from index `i` on; behind the last it falls back on it.
unfoldable pub bucket_index_from : List ℕ → ℕ → ℕ → ℕ
bucket_index_from [] i microseconds = i - 1
bucket_index_from (b ∷ bs) i microseconds =
    let later = bucket_index_from bs (i + 1) microseconds in if leb microseconds b then i else later

unfoldable pub bucket_index : ℕ → ℕ
bucket_index = bucket_index_from upper_bounds 0

-- `fetch_add(1)` on one bucket.
unfoldable pub bump : List ℕ → ℕ → List ℕ
bump buckets i = set buckets i ((get_or buckets i 0 + 1) % u64_mod)

-- `record`, from the duration that has been measured: none below zero is counted.
unfoldable pub record_duration : DurationHistogram → ℕ → DurationHistogram
record_duration h microseconds = record {
  samples = (h.samples + 1) % u64_mod;
  total_microseconds = (h.total_microseconds + microseconds) % u64_mod;
  maximum_microseconds =
      if ltb h.maximum_microseconds microseconds then microseconds else h.maximum_microseconds;
  buckets = bump h.buckets (bucket_index microseconds);
}

-- The loop of `percentileMilliseconds` over bounds and buckets, in microseconds: nothing if
-- the loop ends. The last bound stands for the maximum.
unfoldable pub percentile_from : ℕ → ℕ → ℕ → List ℕ → List ℕ → Option ℕ
percentile_from maximum target accumulated [] bs = none
percentile_from maximum target accumulated (u ∷ us) [] = none
percentile_from maximum target accumulated (u ∷ us) (b ∷ bs) =
    let later = percentile_from maximum target ((accumulated + b) % u64_mod) us bs in
    if leb target ((accumulated + b) % u64_mod)
    then some (if u == u64_max then maximum else u)
    else later

unfoldable pub target_rank : ℕ → ℕ → ℕ
target_rank samples percentile = (samples * percentile % u64_mod + 99) % u64_mod / 100

-- The 0.0 behind the loop is 0.
unfoldable pub percentile_microseconds : DurationHistogram → ℕ → ℕ → ℕ
percentile_microseconds h samples percentile =
    elim (percentile_from h.maximum_microseconds (target_rank samples percentile) 0 upper_bounds
      h.buckets) [ none ↦ 0 | some u ↦ u ]

-- The average is the quotient of the total and the samples.
pub record DurationSnapshot : Type 0 where
  pub samples : ℕ
  pub average_total : ℕ
  pub p50 : ℕ
  pub p95 : ℕ
  pub p99 : ℕ
  pub maximum : ℕ

unfoldable pub snapshot : DurationHistogram → DurationSnapshot
snapshot h =
    if h.samples == 0
    then record { samples = 0; average_total = 0; p50 = 0; p95 = 0; p99 = 0; maximum = 0 }
    else record {
      samples = h.samples;
      average_total = h.total_microseconds;
      p50 = percentile_microseconds h h.samples 50;
      p95 = percentile_microseconds h h.samples 95;
      p99 = percentile_microseconds h h.samples 99;
      maximum = h.maximum_microseconds;
    }

unfoldable pub reset : DurationHistogram → DurationHistogram
reset h = empty
