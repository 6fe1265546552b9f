-- ===== src/ProcessMemory/Handles.antt =====
-- core/memory/memory.cpp: every handle that Windows gives is one of the two that are kept or closed.
use hardware_assisted_game_s.Base.{
  ℕ, ◌+◌, ◌%◌, ◌≡◌, ◌≢◌, Bool, true, false, Option, none, some, List, [], ◌∷◌, Bytes, u32_mod, ◌==◌,
  if◌then◌else◌, arith,
}
use hardware_assisted_game_s.ProcessMemory.{
  Windows, Call, open_process, create_snapshot, close_handle, read_process, write_process,
  invalid_handle, Memory, detached, close_write_handle, close_read_handle, close,
  set_writes_allowed, read_raw, with_write_handle, write_out, try_write_raw, attach, entries_of,
  get_proc_id, get_module_base_address, Op, find_process, find_module, detach, reset, allow,
  read_at_address, write_at_address, apply, run,
}

abbrev is_it : ℕ → ℕ → ℕ
is_it h g = if g == h then 1 else 0

-- How often a handle was given, and how often it was closed.
unfoldable pub given : ℕ → List Call → ℕ
given h [] = 0
given h (open_process rights process g ∷ cs) = is_it h g + given h cs
given h (create_snapshot s ∷ cs) = (if s == invalid_handle then 0 else is_it h s) + given h cs
given h (close_handle g ∷ cs) = given h cs
given h (read_process g a n ∷ cs) = given h cs
given h (write_process g a d ∷ cs) = given h cs

unfoldable pub closed : ℕ → List Call → ℕ
closed h [] = 0
closed h (open_process rights process g ∷ cs) = closed h cs
closed h (create_snapshot s ∷ cs) = closed h cs
closed h (close_handle g ∷ cs) = is_it h g + closed h cs
closed h (read_process g a n ∷ cs) = closed h cs
closed h (write_process g a d ∷ cs) = closed h cs

-- What was given is closed or kept.
abbrev pub Balanced : ℕ → Memory → Type 0
Balanced h m = given h m.calls ≡ closed h m.calls + is_it h m.handle + is_it h m.write_handle

close_write_handle-Balanced :
    (h : ℕ) (m : Memory)
    → h ≢ 0
    → Balanced h m
    → Balanced h (close_write_handle m) × ((close_write_handle m).write_handle ≡ 0)
unfolding close_write_handle given closed
close_write_handle-Balanced h m positive b = ground arith

close_read_handle-Balanced :
    (h : ℕ) (m : Memory)
    → h ≢ 0
    → Balanced h m
    → Balanced h (close_read_handle m)
      × ((close_read_handle m).handle ≡ 0)
      × ((close_read_handle m).write_handle ≡ m.write_handle)
unfolding close_read_handle given closed
close_read_handle-Balanced h m positive b = ground arith

close-Balanced :
    (h : ℕ) (m : Memory)
    → h ≢ 0
    → Balanced h m
    → Balanced h (close m) × ((close m).handle ≡ 0) × ((close m).write_handle ≡ 0)
unfolding close
close-Balanced h m positive b =
    let (b', w0) = close_write_handle-Balanced h m positive b in
    let (b'', r0, same) = close_read_handle-Balanced h (close_write_handle m) positive b' in
    ground arith

set_writes_allowed-Balanced :
    (h : ℕ) (allowed : Bool) (m : Memory)
    → h ≢ 0
    → Balanced h m
    → Balanced h (set_writes_allowed allowed m)
unfolding set_writes_allowed
set_writes_allowed-Balanced h true m positive b = b
set_writes_allowed-Balanced h false m positive b =
    (close_write_handle-Balanced h (record m { writes_allowed = false }) positive b).0

detached-Balanced : (h : ℕ) → h ≢ 0 → Balanced h detached
unfolding given closed
detached-Balanced h positive = ground arith

module _ (w : Windows) where
  read_raw-Balanced :
      (h thread address : ℕ) (buffer : Option Bytes) (m : Memory)
      → Balanced h m
      → Balanced h (read_raw w thread address buffer m).0
  unfolding read_raw given closed
  read_raw-Balanced h thread address none m b = b
  read_raw-Balanced h thread address (some buffer) m b = ground arith

  with_write_handle-Balanced :
      (h : ℕ) (m : Memory) → h ≢ 0 → Balanced h m → Balanced h (with_write_handle w m)
  unfolding with_write_handle given closed
  with_write_handle-Balanced h m positive b = ground arith

  try_write_raw-Balanced :
      (h address : ℕ) (data_ : Option Bytes) (m : Memory)
      → h ≢ 0
      → Balanced h m
      → Balanced h (try_write_raw w address data_ m).0
  unfolding try_write_raw write_out given closed
  try_write_raw-Balanced h address none m positive b = b
  try_write_raw-Balanced h address (some data_) m positive b =
      ground (arith, with_write_handle-Balanced h m positive b)

  entries_of-Balanced :
      (h process : ℕ) (m : Memory) → Balanced h m → Balanced h (entries_of w process m).0
  unfolding entries_of given closed
  entries_of-Balanced h process m b = ground arith

  attach-Balanced :
      (h id : ℕ) (m : Memory) → h ≢ 0 → m.handle ≡ 0 → Balanced h m → Balanced h (attach w id m).0
  unfolding attach given closed
  attach-Balanced h id m positive none_kept b = ground arith

  get_proc_id-Balanced :
      (h : ℕ) (name : Bytes) (m : Memory)
      → h ≢ 0
      → Balanced h m
      → Balanced h (get_proc_id w name m).0
  unfolding get_proc_id
  get_proc_id-Balanced h name m positive b =
      let listed = entries_of-Balanced h 0 m b in
      let (shut, handle0, write0) = close-Balanced h (entries_of w 0 m).0 positive listed in
      grind (arith, attach-Balanced)

  apply-Balanced : (h : ℕ) (op : Op) (m : Memory) → h ≢ 0 → Balanced h m → Balanced h (apply w op m)
  unfolding apply get_module_base_address
  apply-Balanced h (find_process name) m positive b = get_proc_id-Balanced h name m positive b
  apply-Balanced h (find_module process name) m positive b =
      entries_of-Balanced h (process % u32_mod) m b
  apply-Balanced h detach m positive b = (close-Balanced h m positive b).0
  apply-Balanced h reset m positive b = b
  apply-Balanced h (allow allowed) m positive b = set_writes_allowed-Balanced h allowed m positive b
  apply-Balanced h (read_at_address thread address buffer) m positive b =
      read_raw-Balanced h thread address buffer m b
  apply-Balanced h (write_at_address address data_) m positive b =
      try_write_raw-Balanced h address data_ m positive b

  -- After any operations in any order, whatever Windows answers: each handle, zero apart, has been
  -- closed as often as it was given, less the times that it is one of the two handles that are kept.
  pub run-Balanced : (h : ℕ) (ops : List Op) → h ≢ 0 → Balanced h (run w ops)
  unfolding run
  run-Balanced h [] positive = detached-Balanced h positive
  run-Balanced h (op ∷ ops) positive =
      apply-Balanced h op (run w ops) positive (run-Balanced h ops positive)
