-- ===== src/ProcessMemory/Tests.antt =====
-- A small Windows, a history of operations on it, and the theorems at them.
use hardware_assisted_game_s.Base.{
  ℕ, ◌+◌, ◌*◌, ◌≡◌, ◌≤◌, refl, true, false, some, List, [], ◌∷◌, Bytes, bytes_eq, codes, length,
  arith,
}
use hardware_assisted_game_s.ProcessMemory.{
  ReadCounters, no_reads, put, accumulate, Windows, with_write_handle, try_write_raw, Op,
  find_process, allow, write_at_address, run, apply, get_proc_id, entries_of, entry_of, attach,
  close, close_write_handle, close_read_handle, set_writes_allowed, write_out,
}
use hardware_assisted_game_s.ProcessMemory.Handles.{Balanced, run-Balanced}
use hardware_assisted_game_s.ProcessMemory.Gate.{
  written, requested, Sub, IsGated, switched_on, owner, written-Sub, run-IsGated,
}
use hardware_assisted_game_s.ProcessMemory.Threads.{
  Phase, idle, renewing_failures, renewing_bytes, reading, storing, renewing, loaded, load_epoch,
  store_calls, store_failures, set_phase, Reach, start, access, since_store, since_reset,
}
use hardware_assisted_game_s.ProcessMemory.Threads.Bounds.{Reach-bounds}

-- Each call gives a handle of its own; one process runs; reads and writes are whole.
abbrev one_process : Windows
one_process = record {
  opens = λ cs rights process. 100 + length cs;
  snapshots = λ cs process. 100 + length cs;
  entries = λ cs h. (codes "game.exe", 77) ∷ [];
  reads = λ cs h address size. record { succeeded = true; buffer = 1 ∷ 2 ∷ []; bytes_read = 2 };
  writes = λ cs h address data_. (true, length data_);
  same_name = bytes_eq;
}

-- Newest first: only the second of three writes is let through.
abbrev history : List Op
history =
    write_at_address 0x30 (some (7 ∷ []))
    ∷ allow false
    ∷ write_at_address 0x20 (some (8 ∷ 9 ∷ []))
    ∷ allow true
    ∷ write_at_address 0x10 (some (6 ∷ []))
    ∷ find_process (codes "game.exe")
    ∷ []

one_written : written (run one_process history).calls ≡ (77, (0x20, 8 ∷ 9 ∷ [])) ∷ []
unfolding written owner run apply get_proc_id entries_of entry_of attach close close_write_handle
    close_read_handle set_writes_allowed try_write_raw with_write_handle write_out bytes_eq
one_written = refl

written-Sub_example : Sub (written (run one_process history).calls) (requested one_process history)
written-Sub_example = written-Sub one_process history

run-IsGated_example : IsGated one_process (switched_on history) (run one_process history)
run-IsGated_example = run-IsGated one_process history

run-Balanced_example : Balanced 101 (run one_process history)
run-Balanced_example = run-Balanced one_process 101 history (omega arith)

abbrev open_gate : List Op
open_gate = allow true ∷ find_process (codes "game.exe") ∷ []

selected : (run one_process open_gate).pid ≡ 77
unfolding run apply get_proc_id entries_of entry_of attach close close_write_handle
    close_read_handle set_writes_allowed bytes_eq
selected = refl

new_handle : (with_write_handle one_process (run one_process open_gate)).write_handle ≡ 103
unfolding run apply get_proc_id entries_of entry_of attach close close_write_handle
    close_read_handle set_writes_allowed bytes_eq with_write_handle
new_handle = refl

abbrev two_bytes : Bytes
two_bytes = 5 ∷ 5 ∷ []

-- The first thread reads, the second begins a reset, the first reads again, and the reset goes on.
abbrev after_read : ReadCounters
after_read = record no_reads { locals = put no_reads.locals 0 (loaded no_reads 0 8 true) }

abbrev after_store : ReadCounters
after_store = record after_read { read_calls = 0 }

abbrev after_both : ReadCounters
after_both = record after_store { locals = put after_store.locals 0 (loaded after_store 0 4 false) }

abbrev phases_then : ℕ → Phase
phases_then = set_phase (set_phase (set_phase (λ u. idle) 0 idle) 1 renewing_failures) 0 idle

overlapping :
    Reach 2
      (record after_both { read_failures = 0 })
      (set_phase phases_then 1 renewing_bytes)
      (renewing ∷ reading ∷ storing ∷ reading ∷ [])
unfolding set_phase put accumulate
overlapping =
    access 1 (omega arith)
      (access 0 (omega arith)
        (access 1 (omega arith) (access 0 (omega arith) start (load_epoch no_reads 8 true))
          (store_calls after_read))
        (load_epoch after_store 4 false))
      (store_failures after_both)

Reach-bounds_example :
    (0 ≤ since_store (renewing ∷ reading ∷ storing ∷ reading ∷ []) + 2 * 256)
    × (since_reset (renewing ∷ reading ∷ storing ∷ reading ∷ []) ≤ 0 + 2 * 256)
Reach-bounds_example = Reach-bounds overlapping (omega arith)
