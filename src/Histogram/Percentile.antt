-- ===== src/Histogram/Percentile.antt =====
-- performance_metrics.hpp: the percentiles that `snapshot` reports against the recorded durations.
use hardware_assisted_game_s.Base.{
  ℕ, zero, suc, ◌+◌, ◌*◌, ◌/◌, ◌%◌, ◌≤◌, ◌<◌, ◌≡◌, ◌⊎◌, inl, inr, refl, sym, ◌∙◌, Option, none,
  some, List, [], ◌∷◌, u64_mod, get_or, length, leb, ◌==◌, if◌then◌else◌, arith, Bool-cases,
}
use hardware_assisted_game_s.Histogram.{
  u64_max, upper_bounds, DurationHistogram, percentile_from, percentile_microseconds, target_rank,
}
use hardware_assisted_game_s.Histogram.Counts.{
  record_all, sum, maximum_of, count_le, prefix_sum, Counted, record_all-Counted,
}

-- The loop stops in bucket `j`: the first up to which there are `target` samples.
pub record StopsAt (maximum target accumulated : ℕ) (us bs : List ℕ) (r : Option ℕ) : Type 0 where
  pub index : ℕ
  pub in_range : index < length us
  pub enough : target ≤ accumulated + prefix_sum (suc index) bs
  pub not_before : (index ≡ 0) ⊎ (accumulated + prefix_sum index bs < target)
  pub result : r ≡ some (if get_or us index 0 == u64_max then maximum else get_or us index 0)

no_buckets : (bs : List ℕ) → length bs ≡ 0 → prefix_sum (length bs) bs ≡ 0
no_buckets [] e = refl
no_buckets (b ∷ bs) e = absurd (omega arith)

step_before :
    (accumulated b acc target i : ℕ) (bs : List ℕ)
    → acc ≡ accumulated + b
    → accumulated + b < target
    → (i ≡ 0) ⊎ (acc + prefix_sum i bs < target)
    → accumulated + prefix_sum (suc i) (b ∷ bs) < target
step_before accumulated b acc target zero bs e missed h = omega arith
step_before accumulated b acc target (suc i) bs e missed (inl z) = absurd (omega arith)
step_before accumulated b acc target (suc i) bs e missed (inr h) = omega arith

percentile_from-StopsAt :
    (maximum target accumulated : ℕ) (us bs : List ℕ)
    → length us ≡ length bs
    → accumulated + prefix_sum (length bs) bs < u64_mod
    → 0 < length us
    → target ≤ accumulated + prefix_sum (length bs) bs
    → StopsAt maximum target accumulated us bs (percentile_from maximum target accumulated us bs)
unfolding percentile_from
percentile_from-StopsAt maximum target accumulated [] bs l fits some_left reach =
    absurd (omega arith)
percentile_from-StopsAt maximum target accumulated (u ∷ us) [] l fits some_left reach =
    absurd (omega arith)
percentile_from-StopsAt maximum target accumulated (u ∷ us) (b ∷ bs) l fits some_left reach =
    elim (Bool-cases (leb target ((accumulated + b) % u64_mod))) [
      | inl stop ↦ record {
        index = 0;
        in_range = omega arith;
        enough = ground arith;
        not_before = inl refl;
        result = rw stop;
      }
      | inr go ↦
          let same : (accumulated + b) % u64_mod ≡ accumulated + b = omega arith in
          let rest =
            percentile_from-StopsAt maximum target ((accumulated + b) % u64_mod) us bs (omega arith)
              (omega arith) (ground (arith, no_buckets bs)) (omega arith) in
          let missed : accumulated + b < target = ground arith in
          record {
            index = suc rest.index;
            in_range = omega (arith, rest.in_range);
            enough = omega (arith, rest.enough);
            not_before = inr (
                step_before accumulated b ((accumulated + b) % u64_mod) target rest.index bs same
                  missed rest.not_before);
            result = rw go rest.result;
          }
    ]

-- Every duration is at most the maximum.
count_le-maximum_of : (ds : List ℕ) (u : ℕ) → maximum_of ds ≤ u → count_le u ds ≡ length ds
count_le-maximum_of [] u h = refl
count_le-maximum_of (d ∷ ds) u h = ground (arith, count_le-maximum_of ds u)

maximum_of-le-sum : (ds : List ℕ) → maximum_of ds ≤ sum ds
maximum_of-le-sum [] = omega arith
maximum_of-le-sum (d ∷ ds) = omega (arith, maximum_of-le-sum ds)

-- The value reported for a percentile, after the durations `ds`: the least of the histogram's bounds
-- up to which there are enough of them, or the maximum in the last bucket.
pub record IsPercentile (ds : List ℕ) (target v : ℕ) : Type 0 where
  pub index : ℕ
  pub in_range : index < 15
  pub value_is : v ≡ (
      if get_or upper_bounds index 0 == u64_max then maximum_of ds else get_or upper_bounds index 0)
  pub enough : target ≤ count_le v ds
  pub not_before : (j : ℕ) → suc j ≡ index → count_le (get_or upper_bounds j 0) ds < target

filled : (o : Option ℕ) {x : ℕ} → o ≡ some x → o ≡ some (elim o [ none ↦ 0 | some u ↦ u ])
filled none e = cc
filled (some u) e = refl

rank_of : ℕ → ℕ → ℕ
rank_of n percentile = (n * percentile + 99) / 100

rank_of_bounds :
    (n percentile : ℕ)
    → percentile ≤ 100
    → n * 100 + 99 < u64_mod
    → (target_rank n percentile ≡ rank_of n percentile) × (rank_of n percentile ≤ n)
unfolding target_rank rank_of
rank_of_bounds n percentile share few =
    let below = product_le n percentile share in (omega arith, omega arith)
  where
    product_le : (n p : ℕ) → p ≤ 100 → n * p ≤ n * 100
    product_le n p h = grind arith

module _ (ds : List ℕ) (h : DurationHistogram) (c : Counted ds h) (fits : sum ds < u64_mod) where
  all_counted : prefix_sum (length h.buckets) h.buckets ≡ length ds
  all_counted = rw c.fifteen (
      c.cumulative 14 (omega arith)
      ∙ count_le-maximum_of ds u64_max (omega (arith, maximum_of-le-sum ds)))

  stopped-IsPercentile :
      (target : ℕ)
      → target ≤ length ds
      → StopsAt h.maximum_microseconds target 0 upper_bounds h.buckets
          (percentile_from h.maximum_microseconds target 0 upper_bounds h.buckets)
      → (v : ℕ) → percentile_from h.maximum_microseconds target 0 upper_bounds h.buckets ≡ some v
      → IsPercentile ds target v
  stopped-IsPercentile target reach s v e = record {
    index = s.index;
    in_range = s.in_range;
    value_is = value;
    enough = elim (Bool-cases (get_or upper_bounds s.index 0 == u64_max)) [
      | inl last ↦
          rw (value, last) (rw (count_le-maximum_of ds (maximum_of ds) (omega arith)) reach)
      | inr inner ↦ rw (value, inner) (omega (arith, s.enough, c.cumulative s.index s.in_range))
    ];
    not_before = λ j e. elim (s.not_before) [
      | inl z ↦ absurd (omega arith)
      | inr missed ↦ omega (arith, rw (← e) at missed, c.cumulative j (omega (arith, s.in_range)))
    ];
  }
    where
      value : v ≡ (
          if get_or upper_bounds s.index 0 == u64_max
          then maximum_of ds
          else get_or upper_bounds s.index 0)
      value = ground (arith, s.result, c.maximum_is)

-- For a percentage from 1 to 100 of durations that have been recorded one after another from a reset,
-- and whose number (times 100) and sum fit 64 bits, the reported value has at least that share of the
-- durations at or below it, and the bound of the bucket before has fewer.
pub percentile_microseconds-IsPercentile :
    (ds : List ℕ) (percentile : ℕ)
    → percentile ≤ 100
    → length ds * 100 + 99 < u64_mod
    → sum ds < u64_mod
    → IsPercentile ds
        ((length ds * percentile + 99) / 100)
        (percentile_microseconds (record_all ds) (length ds) percentile)
unfolding percentile_microseconds rank_of
percentile_microseconds-IsPercentile ds percentile share few fits =
    let h = record_all ds in
    let c = record_all-Counted ds (omega arith) fits in
    let (rank, reach) = rank_of_bounds (length ds) percentile share few in
    let s =
      percentile_from-StopsAt h.maximum_microseconds (rank_of (length ds) percentile) 0 upper_bounds
        h.buckets (sym c.fifteen) (omega (arith, all_counted ds h c fits)) (omega arith)
        (omega (arith, all_counted ds h c fits)) in
    stopped-IsPercentile ds h c fits (rank_of (length ds) percentile) reach s _
      (rw (rank, percentile_microseconds) (filled _ s.result))
