-- ===== src/Histogram/Threads/Outcome.antt =====
-- performance_metrics.hpp: what concurrent calls of `record` come to once all have returned.
use hardware_assisted_game_s.Base.{
  ℕ, zero, suc, ◌+◌, ◌%◌, ◌≤◌, ◌<◌, ◌≡◌, refl, sym, ap, ◌∙◌, List, [], ◌∷◌, ◌++◌, u64_mod, get_or,
  replicate, length, ◌==◌, if◌then◌else◌, arith, All,
}
use hardware_assisted_game_s.Histogram.{DurationHistogram, bump, bucket_index, record_duration}
use hardware_assisted_game_s.Histogram.Counts.{record_all, sum, maximum_of, length-set}
use hardware_assisted_game_s.Histogram.Threads.{
  Phase, starting, totalling, loading, raising, filling, done, duration, Access, Reach, start,
  begin, access, total_of, total_of-append, counted, added, filled, Knows, durations, Inv,
  get_or-set, Access-duration, Access-samples, Access-total, Access-maximum, Access-Knows,
  Access-reached, Access-fifteen, Access-buckets,
}

Knows-mono : (p : Phase) {m n : ℕ} → m ≤ n → Knows m p → Knows n p
Knows-mono (starting d) h k = tt
Knows-mono (totalling d) h k = tt
Knows-mono (loading d) h k = tt
Knows-mono (raising d l) h k = omega arith
Knows-mono (filling d) h k = omega arith
Knows-mono (done d) h k = omega arith

known_mono : (ps : List Phase) {m n : ℕ} → m ≤ n → All (Knows m) ps → All (Knows n) ps
known_mono [] h k = tt
known_mono (x ∷ ps) h (k, ks) = (Knows-mono x h k, known_mono ps h ks)

-- A call in the middle knows what it knew, or more, and the others lose nothing.
known_after :
    (front back : List Phase) (p q : Phase) {m n : ℕ}
    → m ≤ n
    → (Knows m p → Knows n q)
    → All (Knows m) (front ++ (p ∷ back))
    → All (Knows n) (front ++ (q ∷ back))
known_after [] back p q h f (k, ks) = (f k, known_mono back h ks)
known_after (x ∷ front) back p q h f (k, ks) = (Knows-mono x h k, known_after front back p q h f ks)

durations_after :
    (front back : List Phase) (p q : Phase)
    → duration q ≡ duration p
    → durations (front ++ (q ∷ back)) ≡ durations (front ++ (p ∷ back))
durations_after [] back p q e = rw e
durations_after (x ∷ front) back p q e = ap (◌∷◌ (duration x)) (durations_after front back p q e)

duration-le-maximum_of :
    (front : List Phase) (p : Phase) (back : List Phase)
    → duration p ≤ maximum_of (durations (front ++ (p ∷ back)))
duration-le-maximum_of [] p back = omega arith
duration-le-maximum_of (x ∷ front) p back = omega (arith, duration-le-maximum_of front p back)

Access-Inv :
    {h k : DurationHistogram} (front : List Phase) {p q : Phase} (back : List Phase)
    → Access h p k q
    → Inv h (front ++ (p ∷ back))
    → Inv k (front ++ (q ∷ back))
Access-Inv front {p = p} {q = q} back a v = record {
  samples_are = rw (total_of-append counted front q back) (
      Access-samples a (total_of counted front + total_of counted back)
        (rw (total_of-append counted front p back) at v.samples_are));
  total_is = rw (total_of-append added front q back) (
      Access-total a (total_of added front + total_of added back)
        (rw (total_of-append added front p back) at v.total_is));
  fifteen = Access-fifteen a ∙ v.fifteen;
  buckets_are = λ i l. rw (total_of-append (filled i) front q back) (
      Access-buckets a i (total_of (filled i) front + total_of (filled i) back) (rw v.fifteen l)
        (rw (total_of-append (filled i) front p back) at (v.buckets_are i l)));
  known = known_after front back p q (Access-maximum a) (Access-Knows a) v.known;
  reached = rw (durations_after front back p q (Access-duration a)) (
      Access-reached a (maximum_of (durations (front ++ (p ∷ back)))) v.reached
        (duration-le-maximum_of front p back));
}

get_or-replicate : (n i : ℕ) → get_or {A = ℕ} (replicate n 0) i 0 ≡ 0
get_or-replicate zero i = refl
get_or-replicate (suc n) zero = refl
get_or-replicate (suc n) (suc i) = get_or-replicate n i

Reach-Inv : {h : DurationHistogram} {ps : List Phase} → Reach h ps → Inv h ps
Reach-Inv start = record {
  samples_are = refl;
  total_is = refl;
  fifteen = refl;
  buckets_are = λ i l. get_or-replicate 15 i;
  known = tt;
  reached = omega arith;
}
Reach-Inv (begin d s r) =
    let v = Reach-Inv r in
    record {
      samples_are = omega (arith, v.samples_are);
      total_is = omega (arith, v.total_is);
      fifteen = v.fifteen;
      buckets_are = λ i l. omega (arith, v.buckets_are i l);
      known = (tt, v.known);
      reached = omega (arith, v.reached);
    }
Reach-Inv (access front back r a) = Access-Inv front back a (Reach-Inv r)

-- All calls have returned.
abbrev pub IsDone : Phase → Type 0
IsDone (done d) = Unit
IsDone _ = ⊥

-- How many of the durations fall into bucket `i`.
abbrev in_bucket : ℕ → List ℕ → ℕ
in_bucket i [] = 0
in_bucket i (d ∷ ds) = (if bucket_index d == i then 1 else 0) + in_bucket i ds

record Totals (ds : List ℕ) (h : DurationHistogram) : Type 0 where
  samples_are : h.samples ≡ length ds % u64_mod
  total_is : h.total_microseconds ≡ sum ds % u64_mod
  maximum_is : h.maximum_microseconds ≡ maximum_of ds
  fifteen : length h.buckets ≡ 15
  buckets_are : (i : ℕ) → i < 15 → get_or h.buckets i 0 ≡ in_bucket i ds % u64_mod

record_all-Totals : (ds : List ℕ) → Totals ds (record_all ds)
unfolding record_all record_duration bump
record_all-Totals [] = record {
  samples_are = refl;
  total_is = refl;
  maximum_is = refl;
  fifteen = refl;
  buckets_are = λ i l. get_or-replicate 15 i;
}
record_all-Totals (d ∷ ds) =
    let v = record_all-Totals ds in
    let bs = (record_all ds).buckets in
    record {
      samples_are = omega (arith, v.samples_are);
      total_is = omega (arith, v.total_is);
      maximum_is = ground (arith, v.maximum_is);
      fifteen = length-set bs (bucket_index d) _ ∙ v.fifteen;
      buckets_are = λ i l. ground (
        arith,
        get_or-set bs i (bucket_index d) ((get_or bs (bucket_index d) 0 + 1) % u64_mod)
            (rw v.fifteen l),
        v.buckets_are i l,
      );
    }

-- What the calls come to when all of them have returned.
record Settled (ps : List Phase) : Type 0 where
  counted_are : total_of counted ps ≡ length (durations ps)
  added_is : total_of added ps ≡ sum (durations ps)
  filled_are : (i : ℕ) → total_of (filled i) ps ≡ in_bucket i (durations ps)
  maximum_is : (m : ℕ) → All (Knows m) ps → maximum_of (durations ps) ≤ m

All-IsDone-Settled : (ps : List Phase) → All IsDone ps → Settled ps
All-IsDone-Settled [] h = record {
  counted_are = refl;
  added_is = refl;
  filled_are = λ i. refl;
  maximum_is = λ m k. omega arith;
}
All-IsDone-Settled (done d ∷ ps) (_, h) =
    let v = All-IsDone-Settled ps h in
    record {
      counted_are = omega (arith, v.counted_are);
      added_is = omega (arith, v.added_is);
      filled_are = λ i. omega (arith, v.filled_are i);
      maximum_is = λ m k. omega (arith, k.0, v.maximum_is m k.1);
    }
All-IsDone-Settled (starting d ∷ ps) (b, h) = absurd b
All-IsDone-Settled (totalling d ∷ ps) (b, h) = absurd b
All-IsDone-Settled (loading d ∷ ps) (b, h) = absurd b
All-IsDone-Settled (raising d m ∷ ps) (b, h) = absurd b
All-IsDone-Settled (filling d ∷ ps) (b, h) = absurd b

lists_agree :
    (as' bs : List ℕ)
    → length as' ≡ length bs
    → ((i : ℕ) → i < length as' → get_or as' i 0 ≡ get_or bs i 0)
    → as' ≡ bs
lists_agree [] [] l e = refl
lists_agree [] (b ∷ bs) l e = absurd (omega arith)
lists_agree (a ∷ as') [] l e = absurd (omega arith)
lists_agree (a ∷ as') (b ∷ bs) l e =
    let head : a ≡ b = e 0 (omega arith) in
    cc (head, lists_agree as' bs (omega arith) (λ i h. e (suc i) (omega arith)))

-- However the accesses of any number of calls of `record` interleave, once all calls have returned
-- the histogram is the one that the same durations leave when they are recorded one after another.
pub Reach-record_all :
    {h : DurationHistogram} (ps : List Phase)
    → Reach h ps
    → All IsDone ps
    → h ≡ record_all (durations ps)
Reach-record_all {h} ps r all_done =
    let v = Reach-Inv r in
    let s = All-IsDone-Settled ps all_done in
    let t = record_all-Totals (durations ps) in
    let buckets_agree : h.buckets ≡ (record_all (durations ps)).buckets =
      lists_agree h.buckets (record_all (durations ps)).buckets (v.fifteen ∙ sym t.fifteen) (λ i l.
        omega (
          arith,
          v.buckets_are i (omega (arith, v.fifteen)),
          t.buckets_are i (omega (arith, v.fifteen)),
          s.filled_are i,
        )) in
    let samples_agree : h.samples ≡ (record_all (durations ps)).samples =
      omega (arith, v.samples_are, t.samples_are, s.counted_are) in
    let totals_agree : h.total_microseconds ≡ (record_all (durations ps)).total_microseconds =
      omega (arith, v.total_is, t.total_is, s.added_is) in
    let maxima_agree : h.maximum_microseconds ≡ (record_all (durations ps)).maximum_microseconds =
      omega (arith, v.reached, t.maximum_is, s.maximum_is h.maximum_microseconds v.known) in
    ground (arith, buckets_agree)
