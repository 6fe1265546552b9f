-- ===== src/Histogram/Tests.antt =====
-- Three durations, and two calls that interleave.
use hardware_assisted_game_s.Base.{ℕ, ◌+◌, ◌*◌, ◌/◌, ◌≡◌, refl, List, [], ◌∷◌, arith}
use hardware_assisted_game_s.Histogram.{
  DurationHistogram, empty, bucket_index_from, bucket_index, bump, record_duration, percentile_from,
  target_rank, percentile_microseconds,
}
use hardware_assisted_game_s.Histogram.Counts.{record_all, Counted, record_all-Counted}
use hardware_assisted_game_s.Histogram.Percentile.{
  IsPercentile, percentile_microseconds-IsPercentile,
}
use hardware_assisted_game_s.Histogram.Threads.{
  Phase, starting, totalling, loading, raising, filling, done, Reach, start, begin, access, count,
  add, load, swap, retry, fill,
}
use hardware_assisted_game_s.Histogram.Threads.Outcome.{Reach-record_all}

abbrev three : List ℕ
three = 40 ∷ 700 ∷ 90 ∷ []

median : percentile_microseconds (record_all three) 3 50 ≡ 100
unfolding percentile_microseconds percentile_from target_rank record_all record_duration bump
    bucket_index bucket_index_from
median = refl

record_all-Counted_example : Counted three (record_all three)
record_all-Counted_example = record_all-Counted three (omega arith) (omega arith)

percentile_microseconds-IsPercentile_example :
    IsPercentile three ((3 * 50 + 99) / 100) (percentile_microseconds (record_all three) 3 50)
percentile_microseconds-IsPercentile_example =
    percentile_microseconds-IsPercentile three 50 (omega arith) (omega arith) (omega arith)

-- Two calls: the one with 30 loads the maximum before the other raises it, and has to retry.
abbrev both_done : List Phase
both_done = done 30 ∷ done 20 ∷ []

abbrev h1 : DurationHistogram
h1 = record empty { samples = 2; total_microseconds = 50 }

abbrev h2 : DurationHistogram
h2 = record h1 { maximum_microseconds = 20 }

abbrev h3 : DurationHistogram
h3 = record h1 { maximum_microseconds = 30 }

loaded : Reach h1 (raising 30 0 ∷ raising 20 0 ∷ [])
loaded =
    let r0 = begin 30 (omega arith) (begin 20 (omega arith) start) in
    let r1 = access (starting 30 ∷ []) [] r0 (count empty 20) in
    let r2 = access [] (totalling 20 ∷ []) r1 (count (record empty { samples = 1 }) 30) in
    let r3 = access (totalling 30 ∷ []) [] r2 (add (record empty { samples = 2 }) 20) in
    let r4 =
      access [] (loading 20 ∷ []) r3
        (add (record empty { samples = 2; total_microseconds = 20 }) 30) in
    let r5 = access (loading 30 ∷ []) [] r4 (load h1 20) in
    access [] (raising 20 0 ∷ []) r5 (load h1 30)

raised : Reach h3 (filling 30 ∷ filling 20 ∷ [])
raised =
    let r1 = access (raising 30 0 ∷ []) [] loaded (swap h1 20 0 (omega arith) refl) in
    let r2 = access [] (filling 20 ∷ []) r1 (retry h2 30 0 (omega arith)) in
    access [] (filling 20 ∷ []) r2 (swap h2 30 20 (omega arith) refl)

abbrev h4 : DurationHistogram
h4 = record h3 { buckets = 2 ∷ 0 ∷ 0 ∷ 0 ∷ 0 ∷ 0 ∷ 0 ∷ 0 ∷ 0 ∷ 0 ∷ 0 ∷ 0 ∷ 0 ∷ 0 ∷ 0 ∷ [] }

ended : Reach h4 both_done
unfolding bump bucket_index bucket_index_from
ended =
    let r1 = access [] (filling 20 ∷ []) raised (fill h3 30) in
    access (done 30 ∷ []) [] r1 (
      fill (record h3 { buckets = 1 ∷ 0 ∷ 0 ∷ 0 ∷ 0 ∷ 0 ∷ 0 ∷ 0 ∷ 0 ∷ 0 ∷ 0 ∷ 0 ∷ 0 ∷ 0 ∷ 0 ∷ [] })
        20)

Reach-record_all_example : h4 ≡ record_all (30 ∷ 20 ∷ [])
Reach-record_all_example = Reach-record_all both_done ended (tt, (tt, tt))
