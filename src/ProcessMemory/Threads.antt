-- ===== src/ProcessMemory/Threads.antt =====
-- core/memory/memory.hpp: `RecordRead` and `ResetReadMetrics` called by several threads at once. Each of
-- their accesses to an atomic variable is a step of its own; what a call does to the accumulator of its
-- thread goes with the access before it.
pub mod Bounds
pub mod Alone
use hardware_assisted_game_s.Base.{
  ℕ, zero, suc, ◌+◌, ◌*◌, ◌%◌, ◌≤◌, ◌<◌, ◌≡◌, ◌≢◌, inl, inr, refl, Bool, List, [], ◌∷◌, length,
  u64_mod, leb, ◌==◌, if◌then◌else◌, arith, Bool-cases,
}
use hardware_assisted_game_s.ProcessMemory.{
  LocalAccumulator, ReadCounters, no_reads, fresh_local, put, accumulate, record_read,
  reset_read_metrics,
}
use hardware_assisted_game_s.ProcessMemory.Metrics.{sum_to, sum_to-change, sum_to-bound}

-- Where a thread stands: in no call, or before the named access.
pub data Phase : Type 0 where
  idle adding_calls adding_failures adding_bytes : Phase
  renewing_failures renewing_bytes renewing_epoch : Phase

-- What an access is: the first one of a read, a further one, the store of 0 to the counter of calls, or
-- a further one of a reset.
pub data Kind : Type 0 where
  reading handing storing renewing : Kind

abbrev pub loaded : ReadCounters → ℕ → ℕ → Bool → LocalAccumulator
loaded c t size succeeded = accumulate c.epoch (c.locals t) size succeeded

abbrev pub next_phase : LocalAccumulator → Phase
next_phase l = if leb 256 l.calls then adding_calls else idle

-- One access by the thread `t`.
pub data Access (t : ℕ) : ReadCounters → Phase → Kind → ReadCounters → Phase → Type 0 where
  load_epoch :
      (c : ReadCounters) (size : ℕ) (succeeded : Bool)
      → Access t c idle reading
          (record c { locals = put c.locals t (loaded c t size succeeded) })
          (next_phase (loaded c t size succeeded))
  add_calls :
      (c : ReadCounters)
      → Access t c adding_calls handing
          (record c { read_calls = (c.read_calls + (c.locals t).calls) % u64_mod })
          adding_failures
  add_failures :
      (c : ReadCounters)
      → Access t c adding_failures handing
          (record c { read_failures = (c.read_failures + (c.locals t).failures) % u64_mod })
          adding_bytes
  add_bytes :
      (c : ReadCounters)
      → Access t c adding_bytes handing
          (record c {
            read_bytes_requested = (c.read_bytes_requested + (c.locals t).bytes) % u64_mod;
            locals = put c.locals t (fresh_local (c.locals t).epoch);
          })
          idle
  store_calls :
      (c : ReadCounters) → Access t c idle storing (record c { read_calls = 0 }) renewing_failures
  store_failures :
      (c : ReadCounters)
      → Access t c renewing_failures renewing (record c { read_failures = 0 }) renewing_bytes
  store_bytes :
      (c : ReadCounters)
      → Access t c renewing_bytes renewing (record c { read_bytes_requested = 0 }) renewing_epoch
  add_epoch :
      (c : ReadCounters)
      → Access t c renewing_epoch renewing (record c { epoch = (c.epoch + 1) % u64_mod }) idle

unfoldable pub set_phase : (ℕ → Phase) → ℕ → Phase → ℕ → Phase
set_phase phases t q u = if u == t then q else phases u

-- The counters, the phases and the accesses so far, newest first, of threads that are numbered below `n`.
pub data Reach (n : ℕ) : ReadCounters → (ℕ → Phase) → List Kind → Type 0 where
  start : Reach n no_reads (λ u. idle) []
  access :
      {c d : ReadCounters} {phases : ℕ → Phase} {ks : List Kind} (t : ℕ) {k : Kind} {q : Phase}
      → t < n
      → Reach n c phases ks
      → Access t c (phases t) k d q
      → Reach n d (set_phase phases t q) (k ∷ ks)

-- The reads since the counter of calls was last stored.
unfoldable pub since_store : List Kind → ℕ
since_store [] = 0
since_store (reading ∷ ks) = since_store ks + 1
since_store (storing ∷ ks) = 0
since_store (_ ∷ ks) = since_store ks

-- The reads since the last access of a reset.
unfoldable pub since_reset : List Kind → ℕ
since_reset [] = 0
since_reset (reading ∷ ks) = since_reset ks + 1
since_reset (handing ∷ ks) = since_reset ks
since_reset (_ ∷ ks) = 0
