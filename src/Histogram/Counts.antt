-- ===== src/Histogram/Counts.antt =====
-- performance_metrics.hpp: the counters against the list of the durations recorded since `reset`.
use hardware_assisted_game_s.Base.{
  ℕ, zero, suc, ◌+◌, ◌≤◌, ◌<◌, ◌≡◌, refl, ap, ◌∙◌, List, [], ◌∷◌, u64_mod, max, get_or, set,
  replicate, length, ltb, leb, if◌then◌else◌, arith,
}
use hardware_assisted_game_s.Histogram.{
  u64_max, upper_bounds, DurationHistogram, empty, bucket_index_from, bucket_index, bump,
  record_duration,
}

-- The state after the durations, newest first, have been recorded.
unfoldable pub record_all : List ℕ → DurationHistogram
record_all [] = empty
record_all (d ∷ ds) = record_duration (record_all ds) d

abbrev pub sum : List ℕ → ℕ
sum [] = 0
sum (x ∷ xs) = x + sum xs

abbrev pub maximum_of : List ℕ → ℕ
maximum_of [] = 0
maximum_of (x ∷ xs) = max x (maximum_of xs)

-- How many of the durations are at most `u`.
abbrev pub count_le : ℕ → List ℕ → ℕ
count_le u [] = 0
count_le u (d ∷ ds) = (if leb d u then 1 else 0) + count_le u ds

-- The sum of the first `n` buckets.
abbrev pub prefix_sum : ℕ → List ℕ → ℕ
prefix_sum zero bs = 0
prefix_sum (suc n) [] = 0
prefix_sum (suc n) (b ∷ bs) = b + prefix_sum n bs

-- The bounds rise, and the last of them is at least `d`.
abbrev pub Covers : ℕ → List ℕ → Type 0
Covers d [] = ⊥
Covers d (b ∷ []) = d ≤ b
Covers d (b ∷ c ∷ bs) = (b ≤ c) × Covers d (c ∷ bs)

bucket_index_from-ge : (bs : List ℕ) (i d : ℕ) → Covers d bs → i ≤ bucket_index_from bs i d
unfolding bucket_index_from
bucket_index_from-ge [] i d c = absurd c
bucket_index_from-ge (b ∷ []) i d c = ground arith
bucket_index_from-ge (b ∷ e ∷ bs) i d c =
    ground (arith, bucket_index_from-ge (e ∷ bs) (i + 1) d c.1)

Covers-first :
    (b : ℕ) (bs : List ℕ) (j d : ℕ)
    → Covers d (b ∷ bs)
    → j < length (b ∷ bs)
    → b ≤ get_or (b ∷ bs) j 0
Covers-first b bs zero d c h = omega arith
Covers-first b [] (suc j) d c h = absurd (omega arith)
Covers-first b (e ∷ bs) (suc j) d c h = omega (arith, Covers-first e bs j d c.1 (omega arith))

-- A duration falls into one of the first `j + 1` buckets exactly when it is at most their last bound.
bucket_index_from-leb :
    (bs : List ℕ) (i j d : ℕ)
    → Covers d bs
    → j < length bs
    → leb (bucket_index_from bs i d) (i + j) ≡ leb d (get_or bs j 0)
unfolding bucket_index_from
bucket_index_from-leb [] i j d c h = absurd c
bucket_index_from-leb (b ∷ []) i zero d c h = ground arith
bucket_index_from-leb (b ∷ []) i (suc j) d c h = absurd (omega arith)
bucket_index_from-leb (b ∷ e ∷ bs) i zero d c h =
    ground (arith, bucket_index_from-ge (e ∷ bs) (i + 1) d c.1)
bucket_index_from-leb (b ∷ e ∷ bs) i (suc j) d c h =
    ground (arith, bucket_index_from-leb (e ∷ bs) (i + 1) j d c.1, Covers-first e bs j d c.1)

bucket_index-leb :
    (j d : ℕ) → d ≤ u64_max → j < 15 → leb (bucket_index d) j ≡ leb d (get_or upper_bounds j 0)
unfolding bucket_index
bucket_index-leb j d h k =
    let zero_first : 0 + j ≡ j = omega arith in
    rw zero_first at (bucket_index_from-leb upper_bounds 0 j d (omega arith) k)

pub bucket_index-lt : (d : ℕ) → d ≤ u64_max → bucket_index d < 15
bucket_index-lt d h = ground (arith, bucket_index-leb 14 d h)

pub length-set : (bs : List ℕ) (i v : ℕ) → length (set bs i v) ≡ length bs
length-set [] i v = refl
length-set (b ∷ bs) zero v = refl
length-set (b ∷ bs) (suc i) v = ap suc (length-set bs i v)

prefix_sum-set :
    (bs : List ℕ) (i n : ℕ)
    → i < length bs
    → prefix_sum n (set bs i (get_or bs i 0 + 1)) ≡ prefix_sum n bs + (if ltb i n then 1 else 0)
prefix_sum-set [] i n h = absurd (omega arith)
prefix_sum-set (b ∷ bs) zero zero h = omega arith
prefix_sum-set (b ∷ bs) zero (suc n) h = ground arith
prefix_sum-set (b ∷ bs) (suc i) zero h = ground arith
prefix_sum-set (b ∷ bs) (suc i) (suc n) h = ground (arith, prefix_sum-set bs i n)

get_or-prefix_sum : (bs : List ℕ) (i : ℕ) → get_or bs i 0 ≤ prefix_sum (suc i) bs
get_or-prefix_sum [] i = omega arith
get_or-prefix_sum (b ∷ bs) zero = omega arith
get_or-prefix_sum (b ∷ bs) (suc i) = omega (arith, get_or-prefix_sum bs i)

count_le-length : (u : ℕ) (ds : List ℕ) → count_le u ds ≤ length ds
count_le-length u [] = omega arith
count_le-length u (d ∷ ds) = ground (arith, count_le-length u ds)

-- What the members are after the durations of the list.
pub record Counted (ds : List ℕ) (h : DurationHistogram) : Type 0 where
  pub samples_are : h.samples ≡ length ds
  pub total_is : h.total_microseconds ≡ sum ds
  pub maximum_is : h.maximum_microseconds ≡ maximum_of ds
  pub fifteen : length h.buckets ≡ 15
  pub cumulative :
      (j : ℕ) → j < 15 → prefix_sum (suc j) h.buckets ≡ count_le (get_or upper_bounds j 0) ds

empty_prefix : (n k : ℕ) → prefix_sum n (replicate k 0) ≡ 0
empty_prefix zero k = refl
empty_prefix (suc n) zero = refl
empty_prefix (suc n) (suc k) = omega (arith, empty_prefix n k)

module _ (h : DurationHistogram) (d : ℕ) (ds : List ℕ) (c : Counted ds h)
    (few : suc (length ds) < u64_mod) (short : d ≤ u64_max) where
  bump-set :
      bump h.buckets (bucket_index d)
      ≡ set h.buckets (bucket_index d) (get_or h.buckets (bucket_index d) 0 + 1)
  unfolding bump
  bump-set = ap (set h.buckets (bucket_index d)) (
      omega (
        arith,
        get_or-prefix_sum h.buckets (bucket_index d),
        c.cumulative (bucket_index d) (bucket_index-lt d short),
        count_le-length (get_or upper_bounds (bucket_index d) 0) ds,
      ))

  record_duration-cumulative :
      (j : ℕ)
      → j < 15
      → prefix_sum (suc j) (bump h.buckets (bucket_index d))
        ≡ count_le (get_or upper_bounds j 0) (d ∷ ds)
  record_duration-cumulative j k = rw bump-set (
      ground (
        arith,
        prefix_sum-set h.buckets (bucket_index d) (suc j)
            (omega (arith, c.fifteen, bucket_index-lt d short)),
        c.cumulative j k,
        bucket_index-leb j d short k,
      ))

  record_duration-Counted : d + sum ds < u64_mod → Counted (d ∷ ds) (record_duration h d)
  unfolding record_duration
  record_duration-Counted fits = record {
    samples_are = omega (arith, c.samples_are);
    total_is = omega (arith, c.total_is);
    maximum_is = ground (arith, c.maximum_is);
    fifteen = rw bump-set (length-set h.buckets (bucket_index d) _ ∙ c.fifteen);
    cumulative = record_duration-cumulative;
  }

-- After any durations whose number and sum fit 64 bits, recorded one after another from a reset, the
-- counters are the number, the sum and the maximum of the durations, and the first buckets up to any
-- bound hold as many as there are durations up to that bound.
pub record_all-Counted :
    (ds : List ℕ) → length ds < u64_mod → sum ds < u64_mod → Counted ds (record_all ds)
unfolding record_all
record_all-Counted [] a b = record {
  samples_are = refl;
  total_is = refl;
  maximum_is = refl;
  fifteen = refl;
  cumulative = λ j k. empty_prefix (suc j) 15;
}
record_all-Counted (d ∷ ds) a b =
    record_duration-Counted (record_all ds) d ds (record_all-Counted ds (omega arith) (omega arith))
      a (omega arith) b
