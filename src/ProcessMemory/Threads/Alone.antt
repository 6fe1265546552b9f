-- ===== src/ProcessMemory/Threads/Alone.antt =====
-- core/memory/memory.hpp: the accesses of one call of `RecordRead` or of `ResetReadMetrics`, with no other
-- access between them.
use hardware_assisted_game_s.Base.{
  ℕ, ◌+◌, ◌%◌, ◌≡◌, inl, inr, sym, ap, ◌∙◌, Bool, u64_mod, leb, arith, Bool-cases,
}
use hardware_assisted_game_s.ProcessMemory.{
  LocalAccumulator, ReadCounters, fresh_local, put, accumulate, record_read, reset_read_metrics,
}
use hardware_assisted_game_s.ProcessMemory.Threads.{
  Phase, idle, adding_calls, Kind, loaded, Access, load_epoch, add_calls, add_failures, add_bytes,
  store_calls, store_failures, store_bytes, add_epoch,
}

-- Accesses of one thread in a row.
pub data Row (t : ℕ) : ReadCounters → Phase → ReadCounters → Phase → Type 0 where
  none_left : (c : ReadCounters) (p : Phase) → Row t c p c p
  first :
      {c d e : ReadCounters} {p q r : Phase} {k : Kind}
      → Access t c p k d q
      → Row t d q e r
      → Row t c p e r

put-put :
    (locals : ℕ → LocalAccumulator) (t : ℕ) (a b : LocalAccumulator)
    → put (put locals t a) t b ≡ put locals t b
unfolding put
put-put locals t a b i u = (pointwise u) i
  where
    pointwise : (u : ℕ) → put (put locals t a) t b u ≡ put locals t b u
    pointwise u = ground arith

put_same : (locals : ℕ → LocalAccumulator) (t : ℕ) (a : LocalAccumulator) → put locals t a t ≡ a
unfolding put
put_same locals t a = ground arith

loaded-epoch :
    (c : ReadCounters) (t size : ℕ) (succeeded : Bool) → (loaded c t size succeeded).epoch ≡ c.epoch
unfolding accumulate
loaded-epoch c t size succeeded = ground arith

-- The accesses of a call of `ResetReadMetrics`, one after the other, do what `reset_read_metrics` does.
pub reset_read_metrics-Row : (t : ℕ) (c : ReadCounters) → Row t c idle (reset_read_metrics c) idle
unfolding reset_read_metrics
reset_read_metrics-Row t c =
    first (store_calls c)
      (first (store_failures _) (first (store_bytes _) (first (add_epoch _) (none_left _ idle))))

-- The three additions of a thread that hands over what it has counted.
handed :
    (t : ℕ) (d : ReadCounters) (l : LocalAccumulator) (after : ℕ → LocalAccumulator)
    → l ≡ d.locals t
    → after ≡ put d.locals t (fresh_local l.epoch)
    → Row t d adding_calls
        (record {
          read_calls = (d.read_calls + l.calls) % u64_mod;
          read_failures = (d.read_failures + l.failures) % u64_mod;
          read_bytes_requested = (d.read_bytes_requested + l.bytes) % u64_mod;
          epoch = d.epoch;
          locals = after;
        })
        idle
handed t d l after own rest =
    rw (rest, own)
      (first (add_calls d) (first (add_failures _) (first (add_bytes _) (none_left _ idle))))

-- The accesses of a call of `RecordRead`, one after the other, do what `record_read` does.
pub record_read-Row :
    (t : ℕ) (c : ReadCounters) (size : ℕ) (succeeded : Bool)
    → Row t c idle (record_read c t size succeeded) idle
unfolding record_read
record_read-Row t c size succeeded = elim (Bool-cases (leb 256 (loaded c t size succeeded).calls)) [
  | inr few ↦ rw few (first (load_epoch c size succeeded) (rw few (none_left _ idle)))
  | inl full ↦ rw full (
      first (load_epoch c size succeeded) (
        rw full (
          handed t (record c { locals = put c.locals t (loaded c t size succeeded) })
            (loaded c t size succeeded) (put c.locals t (fresh_local c.epoch))
            (sym (put_same c.locals t (loaded c t size succeeded)))
            (sym (
              put-put c.locals t (loaded c t size succeeded)
                (fresh_local (loaded c t size succeeded).epoch)
              ∙ ap (λ e. put c.locals t (fresh_local e)) (loaded-epoch c t size succeeded))))))
]
