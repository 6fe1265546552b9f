-- ===== src/Histogram/Threads.antt =====
-- performance_metrics.hpp: `record` called by several threads at once. Each of its accesses to an
-- atomic member is a step of its own; a call is where it stands and the duration that it records.
pub mod Outcome
use hardware_assisted_game_s.Base.{
  ℕ, zero, suc, ◌+◌, ◌%◌, ◌≤◌, ◌<◌, ◌≡◌, refl, sym, ap, ◌∙◌, Bool, true, false, List, [], ◌∷◌, ◌++◌,
  map, u64_mod, max, get_or, set, replicate, length, length-append, ltb, leb, ◌==◌, if◌then◌else◌,
  arith, All,
}
use hardware_assisted_game_s.Histogram.{
  DurationHistogram, empty, bump, bucket_index, record_duration, u64_max,
}
use hardware_assisted_game_s.Histogram.Counts.{
  record_all, sum, maximum_of, bucket_index-lt, length-set,
}

-- In `raising` the call has loaded a maximum, which it compares and swaps.
pub data Phase : Type 0 where
  starting totalling loading filling done : ℕ → Phase
  raising : ℕ → ℕ → Phase

abbrev pub duration : Phase → ℕ
duration (starting d) = d
duration (totalling d) = d
duration (loading d) = d
duration (raising d m) = d
duration (filling d) = d
duration (done d) = d

-- One access by one call. The weak exchange may fail at any time, and loads the maximum again.
pub data Access : DurationHistogram → Phase → DurationHistogram → Phase → Type 0 where
  count :
      (h : DurationHistogram) (d : ℕ)
      → Access h (starting d) (record h { samples = (h.samples + 1) % u64_mod }) (totalling d)
  add :
      (h : DurationHistogram) (d : ℕ)
      → Access h
          (totalling d)
          (record h { total_microseconds = (h.total_microseconds + d) % u64_mod })
          (loading d)
  load : (h : DurationHistogram) (d : ℕ) → Access h (loading d) h (raising d h.maximum_microseconds)
  leave : (h : DurationHistogram) (d m : ℕ) → d ≤ m → Access h (raising d m) h (filling d)
  swap :
      (h : DurationHistogram) (d m : ℕ)
      → m < d
      → h.maximum_microseconds ≡ m
      → Access h (raising d m) (record h { maximum_microseconds = d }) (filling d)
  retry :
      (h : DurationHistogram) (d m : ℕ)
      → m < d
      → Access h (raising d m) h (raising d h.maximum_microseconds)
  fill :
      (h : DurationHistogram) (d : ℕ)
      → Access h (filling d) (record h { buckets = bump h.buckets (bucket_index d) }) (done d)

-- The histogram and all calls so far: a thread begins a call, or a call makes its next access.
pub data Reach : DurationHistogram → List Phase → Type 0 where
  start : Reach empty []
  begin :
      {h : DurationHistogram} {ps : List Phase} (d : ℕ)
      → d ≤ u64_max
      → Reach h ps
      → Reach h (starting d ∷ ps)
  access :
      {h k : DurationHistogram} (front : List Phase) {p q : Phase} (back : List Phase)
      → Reach h (front ++ (p ∷ back))
      → Access h p k q
      → Reach k (front ++ (q ∷ back))

abbrev total_of : (Phase → ℕ) → List Phase → ℕ
total_of w [] = 0
total_of w (p ∷ ps) = w p + total_of w ps

total_of-append :
    (w : Phase → ℕ) (front : List Phase) (p : Phase) (back : List Phase)
    → total_of w (front ++ (p ∷ back)) ≡ w p + (total_of w front + total_of w back)
total_of-append w [] p back = omega arith
total_of-append w (x ∷ front) p back = omega (arith, total_of-append w front p back)

-- What a call has done to the samples, the total and a bucket.
abbrev counted : Phase → ℕ
counted (starting d) = 0
counted _ = 1

abbrev added : Phase → ℕ
added (starting d) = 0
added (totalling d) = 0
added (loading d) = d
added (raising d m) = d
added (filling d) = d
added (done d) = d

abbrev filled : ℕ → Phase → ℕ
filled i (done d) = if bucket_index d == i then 1 else 0
filled i _ = 0

-- What a call knows of the maximum.
abbrev Knows : ℕ → Phase → Type 0
Knows m (raising d l) = l ≤ m
Knows m (filling d) = d ≤ m
Knows m (done d) = d ≤ m
Knows m _ = Unit

abbrev pub durations : List Phase → List ℕ
durations = map duration

record Inv (h : DurationHistogram) (ps : List Phase) : Type 0 where
  samples_are : h.samples ≡ total_of counted ps % u64_mod
  total_is : h.total_microseconds ≡ total_of added ps % u64_mod
  fifteen : length h.buckets ≡ 15
  buckets_are : (i : ℕ) → i < 15 → get_or h.buckets i 0 ≡ total_of (filled i) ps % u64_mod
  known : All (Knows h.maximum_microseconds) ps
  reached : h.maximum_microseconds ≤ maximum_of (durations ps)

get_or-set :
    (bs : List ℕ) (i j v : ℕ)
    → i < length bs
    → get_or (set bs j v) i 0 ≡ (if j == i then v else get_or bs i 0)
get_or-set [] i j v h = absurd (omega arith)
get_or-set (b ∷ bs) zero zero v h = refl
get_or-set (b ∷ bs) zero (suc j) v h = ground arith
get_or-set (b ∷ bs) (suc i) zero v h = ground arith
get_or-set (b ∷ bs) (suc i) (suc j) v h = ground (arith, get_or-set bs i j v)

Access-duration : {h k : DurationHistogram} {p q : Phase} → Access h p k q → duration q ≡ duration p
Access-duration (count _ d) = refl
Access-duration (add _ d) = refl
Access-duration (load _ d) = refl
Access-duration (leave _ d m l) = refl
Access-duration (swap _ d m l e) = refl
Access-duration (retry _ d m l) = refl
Access-duration (fill _ d) = refl

Access-samples :
    {h k : DurationHistogram} {p q : Phase}
    → Access h p k q
    → (n : ℕ) → h.samples ≡ (counted p + n) % u64_mod
    → k.samples ≡ (counted q + n) % u64_mod
Access-samples (count _ d) n e = omega arith
Access-samples (add _ d) n e = e
Access-samples (load _ d) n e = e
Access-samples (leave _ d m l) n e = e
Access-samples (swap _ d m l x) n e = e
Access-samples (retry _ d m l) n e = e
Access-samples (fill _ d) n e = e

Access-total :
    {h k : DurationHistogram} {p q : Phase}
    → Access h p k q
    → (n : ℕ) → h.total_microseconds ≡ (added p + n) % u64_mod
    → k.total_microseconds ≡ (added q + n) % u64_mod
Access-total (count _ d) n e = e
Access-total (add _ d) n e = omega arith
Access-total (load _ d) n e = e
Access-total (leave _ d m l) n e = e
Access-total (swap _ d m l x) n e = e
Access-total (retry _ d m l) n e = e
Access-total (fill _ d) n e = e

Access-maximum :
    {h k : DurationHistogram} {p q : Phase}
    → Access h p k q
    → h.maximum_microseconds ≤ k.maximum_microseconds
Access-maximum (count _ d) = omega arith
Access-maximum (add _ d) = omega arith
Access-maximum (load _ d) = omega arith
Access-maximum (leave _ d m l) = omega arith
Access-maximum (swap _ d m l x) = omega arith
Access-maximum (retry _ d m l) = omega arith
Access-maximum (fill _ d) = omega arith

Access-Knows :
    {h k : DurationHistogram} {p q : Phase}
    → Access h p k q
    → Knows h.maximum_microseconds p
    → Knows k.maximum_microseconds q
Access-Knows (count _ d) n = tt
Access-Knows (add _ d) n = tt
Access-Knows (load _ d) n = omega arith
Access-Knows (leave _ d m l) n = omega arith
Access-Knows (swap _ d m l x) n = omega arith
Access-Knows (retry _ d m l) n = omega arith
Access-Knows (fill _ d) n = n

Access-reached :
    {h k : DurationHistogram} {p q : Phase}
    → Access h p k q
    → (m : ℕ) → h.maximum_microseconds ≤ m
    → duration p ≤ m
    → k.maximum_microseconds ≤ m
Access-reached (count _ d) m a b = a
Access-reached (add _ d) m a b = a
Access-reached (load _ d) m a b = a
Access-reached (leave _ d l x) m a b = a
Access-reached (swap _ d l x y) m a b = b
Access-reached (retry _ d l x) m a b = a
Access-reached (fill _ d) m a b = a

Access-fifteen :
    {h k : DurationHistogram} {p q : Phase} → Access h p k q → length k.buckets ≡ length h.buckets
unfolding bump
Access-fifteen (count _ d) = refl
Access-fifteen (add _ d) = refl
Access-fifteen (load _ d) = refl
Access-fifteen (leave _ d m l) = refl
Access-fifteen (swap _ d m l e) = refl
Access-fifteen (retry _ d m l) = refl
Access-fifteen (fill h d) = length-set h.buckets (bucket_index d) _

Access-buckets :
    {h k : DurationHistogram} {p q : Phase}
    → Access h p k q
    → (i n : ℕ) → i < length h.buckets
    → get_or h.buckets i 0 ≡ (filled i p + n) % u64_mod
    → get_or k.buckets i 0 ≡ (filled i q + n) % u64_mod
unfolding bump
Access-buckets (count _ d) i n l e = e
Access-buckets (add _ d) i n l e = e
Access-buckets (load _ d) i n l e = e
Access-buckets (leave _ d m x) i n l e = e
Access-buckets (swap _ d m x y) i n l e = e
Access-buckets (retry _ d m x) i n l e = e
Access-buckets (fill h d) i n l e = ground (
  arith,
  get_or-set h.buckets i (bucket_index d) ((get_or h.buckets (bucket_index d) 0 + 1) % u64_mod) l,
)
