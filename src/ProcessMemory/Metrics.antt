-- ===== src/ProcessMemory/Metrics.antt =====
-- core/memory/memory.hpp: what the counters of the reads tell, which threads fill 256 reads at a time.
use hardware_assisted_game_s.Base.{
  ℕ, zero, suc, ◌+◌, ◌*◌, ◌≤◌, ◌<◌, ◌≡◌, ◌≢◌, inl, inr, refl, ap, Bool, List, [], ◌∷◌, length,
  u64_mod, ◌==◌, if◌then◌else◌, arith, Bool-cases,
}
use hardware_assisted_game_s.ProcessMemory.{
  ReadCounters, no_reads, put, accumulate, record_read, reset_read_metrics,
}

-- A call of `RecordRead` by a thread, or of `ResetReadMetrics`.
pub data ReadEvent : Type 0 where
  recorded : ℕ → ℕ → Bool → ReadEvent
  renewed : ReadEvent

-- The counters after the events, newest first.
unfoldable pub counters_after : List ReadEvent → ReadCounters
counters_after [] = no_reads
counters_after (recorded thread size succeeded ∷ es) =
    record_read (counters_after es) thread size succeeded
counters_after (renewed ∷ es) = reset_read_metrics (counters_after es)

-- The reads since the last reset.
unfoldable pub reads_since : List ReadEvent → ℕ
reads_since [] = 0
reads_since (recorded thread size succeeded ∷ es) = reads_since es + 1
reads_since (renewed ∷ es) = 0

-- The threads are numbered below `n`.
abbrev pub Below : ℕ → List ReadEvent → Type 0
Below n [] = Unit
Below n (recorded thread size succeeded ∷ es) = (thread < n) × Below n es
Below n (renewed ∷ es) = Below n es

-- What a thread has counted for the present epoch and not yet handed over.
unfoldable pub pending : ReadCounters → ℕ → ℕ
pending c t = if (c.locals t).epoch == c.epoch then (c.locals t).calls else 0

unfoldable pub sum_to : ℕ → (ℕ → ℕ) → ℕ
sum_to zero f = 0
sum_to (suc n) f = sum_to n f + f n

sum_to-same : (n : ℕ) (f g : ℕ → ℕ) → ((u : ℕ) → u < n → g u ≡ f u) → sum_to n g ≡ sum_to n f
unfolding sum_to
sum_to-same zero f g same = refl
sum_to-same (suc n) f g same =
    rw (sum_to-same n f g (λ u below. same u (omega arith)), same n (omega arith)) refl

sum_to-last :
    (n t : ℕ) (f g : ℕ → ℕ)
    → t ≡ n
    → ((u : ℕ) → u ≢ t → g u ≡ f u)
    → sum_to (suc n) g + f t ≡ sum_to (suc n) f + g t
unfolding sum_to
sum_to-last n t f g last same =
    grind (arith, sum_to-same n f g (λ u below. same u (omega arith)), ap f last, ap g last)

pub sum_to-change :
    (n t : ℕ) (f g : ℕ → ℕ)
    → t < n
    → ((u : ℕ) → u ≢ t → g u ≡ f u)
    → sum_to n g + f t ≡ sum_to n f + g t
unfolding sum_to
sum_to-change zero t f g below same = omega arith
sum_to-change (suc n) t f g below same = elim (Bool-cases (t == n)) [
  | inl last ↦ sum_to-last n t f g (ground arith) same
  | inr before ↦ grind (arith, sum_to-change n t f g (ground arith) same, same n (ground arith))
]

pub sum_to-bound : (n b : ℕ) (f : ℕ → ℕ) → ((u : ℕ) → f u ≤ b) → sum_to n f ≤ n * b
unfolding sum_to
sum_to-bound zero b f all = omega arith
sum_to-bound (suc n) b f all = grind (arith, sum_to-bound n b f all, all n)

-- One call: the thread's own count goes on or is handed over, and the others' stay.
record_read_own :
    (c : ReadCounters) (t size : ℕ) (succeeded : Bool)
    → (c.locals t).calls < 256
    → c.read_calls + 256 < u64_mod
    → ((record_read c t size succeeded).read_calls + pending (record_read c t size succeeded) t
        ≡ c.read_calls + pending c t + 1)
      × (c.read_calls ≤ (record_read c t size succeeded).read_calls)
      × (((record_read c t size succeeded).locals t).calls < 256)
      × (((record_read c t size succeeded).locals t).epoch ≡ c.epoch)
      × ((record_read c t size succeeded).epoch ≡ c.epoch)
unfolding record_read accumulate put pending
record_read_own c t size succeeded small room = ground arith

record_read_other :
    (c : ReadCounters) (t size : ℕ) (succeeded : Bool) (u : ℕ)
    → u ≢ t
    → (pending (record_read c t size succeeded) u ≡ pending c u)
      × ((record_read c t size succeeded).locals u ≡ c.locals u)
unfolding record_read put pending
record_read_other c t size succeeded u other = ground arith

-- What the counters are after the events.
record IsCounted (n : ℕ) (es : List ReadEvent) : Type 0 where
  calls : (counters_after es).read_calls + sum_to n (pending (counters_after es)) ≡ reads_since es
  small : (t : ℕ) → ((counters_after es).locals t).calls < 256
  old : (t : ℕ) → ((counters_after es).locals t).epoch ≤ (counters_after es).epoch
  epoch_room : (counters_after es).epoch ≤ length es + 1

reads_since-length : (es : List ReadEvent) → reads_since es ≤ length es
unfolding reads_since
reads_since-length [] = omega arith
reads_since-length (recorded t size succeeded ∷ es) = grind (arith, reads_since-length es)
reads_since-length (renewed ∷ es) = omega arith

no_reads-pending : (n : ℕ) → sum_to n (pending no_reads) ≡ 0
unfolding sum_to pending
no_reads-pending zero = refl
no_reads-pending (suc n) = grind (arith, no_reads-pending n)

renewed_pending :
    (n : ℕ) (c : ReadCounters)
    → c.epoch + 1 < u64_mod
    → ((t : ℕ) → (c.locals t).epoch ≤ c.epoch)
    → sum_to n (pending (reset_read_metrics c)) ≡ 0
unfolding sum_to pending reset_read_metrics
renewed_pending zero c room old = refl
renewed_pending (suc n) c room old = grind (arith, renewed_pending n c room old, old n)

recorded-IsCounted :
    (n t size : ℕ) (succeeded : Bool) (es : List ReadEvent)
    → t < n
    → length es + 300 < u64_mod
    → IsCounted n es
    → IsCounted n (recorded t size succeeded ∷ es)
unfolding counters_after reads_since
recorded-IsCounted n t size succeeded es below room v =
    let c = counters_after es in
    let few = reads_since-length es in
    let own = record_read_own c t size succeeded (v.small t) (grind (arith, v.calls, few)) in
    let other = record_read_other c t size succeeded in
    record {
      calls = grind (
        arith,
        sum_to-change n t (pending c) (pending (record_read c t size succeeded)) below
            (λ u apart. (other u apart).0),
        v.calls,
        own,
      );
      small = λ u. elim (Bool-cases (u == t)) [
        | inl same ↦ grind (arith, own)
        | inr apart ↦ grind (arith, other u (ground arith), v.small u)
      ];
      old = λ u. elim (Bool-cases (u == t)) [
        | inl same ↦ grind (arith, own)
        | inr apart ↦ grind (arith, other u (ground arith), own, v.old u)
      ];
      epoch_room = grind (arith, own, v.epoch_room);
    }

renewed-IsCounted :
    (n : ℕ) (es : List ReadEvent)
    → length es + 300 < u64_mod
    → IsCounted n es
    → IsCounted n (renewed ∷ es)
unfolding counters_after reads_since reset_read_metrics
renewed-IsCounted n es room v = record {
  calls = rw (renewed_pending n (counters_after es) (grind (arith, v.epoch_room)) v.old) refl;
  small = v.small;
  old = λ t. grind (arith, v.old t, v.epoch_room);
  epoch_room = grind (arith, v.epoch_room);
}

counters_after-IsCounted :
    (n : ℕ) (es : List ReadEvent) → Below n es → length es + 300 < u64_mod → IsCounted n es
unfolding counters_after reads_since
counters_after-IsCounted n [] below room = record {
  calls = rw (no_reads-pending n) refl;
  small = λ t. omega arith;
  old = λ t. omega arith;
  epoch_room = omega arith;
}
counters_after-IsCounted n (recorded t size succeeded ∷ es) (first, below) room =
    recorded-IsCounted n t size succeeded es first (omega arith)
      (counters_after-IsCounted n es below (omega arith))
counters_after-IsCounted n (renewed ∷ es) below room =
    renewed-IsCounted n es (omega arith) (counters_after-IsCounted n es below (omega arith))

pending_small : (c : ReadCounters) (t : ℕ) → (c.locals t).calls < 256 → pending c t ≤ 255
unfolding pending
pending_small c t small = ground arith

-- As long as no call of `RecordRead` or of `ResetReadMetrics` begins before the one before it ends,
-- and whatever the order in which up to `n` threads make them: the counter of calls tells no more
-- reads than there were since the last reset, and lacks at most 255 a thread. (The number of events is
-- below 2 ^ 64 - 300, so that nothing wraps.)
pub counters_after-bounds :
    (n : ℕ) (es : List ReadEvent)
    → Below n es
    → length es + 300 < u64_mod
    → ((counters_after es).read_calls ≤ reads_since es)
      × (reads_since es ≤ (counters_after es).read_calls + n * 255)
counters_after-bounds n es below room =
    let v = counters_after-IsCounted n es below room in
    let few =
      sum_to-bound n 255 (pending (counters_after es))
        (λ t. pending_small (counters_after es) t (v.small t)) in
    (omega arith, omega arith)
