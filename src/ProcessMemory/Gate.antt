-- ===== src/ProcessMemory/Gate.antt =====
-- core/memory/memory.cpp: the gate before every write.
use hardware_assisted_game_s.Base.{
  ℕ, ◌%◌, ◌≡◌, ◌≢◌, ◌⊎◌, inl, inr, refl, Bool, true, false, ◌&&◌, Option, none, some, List, [], ◌∷◌,
  Bytes, length, u32_mod, ◌==◌, if◌then◌else◌, arith,
}
use hardware_assisted_game_s.ProcessMemory.{
  Windows, Call, open_process, create_snapshot, close_handle, read_process, write_process, Memory,
  close_write_handle, close_read_handle, close, set_writes_allowed, read_raw, with_write_handle,
  write_out, try_write_raw, attach, entries_of, get_proc_id, get_module_base_address, Op,
  find_process, find_module, detach, reset, allow, read_at_address, write_at_address, apply, run,
}

-- The process that a handle stands for: of the newest opening that gave it.
unfoldable pub owner : ℕ → List Call → ℕ
owner h [] = 0
owner h (open_process rights process g ∷ cs) = if g == h then process else owner h cs
owner h (create_snapshot s ∷ cs) = owner h cs
owner h (close_handle g ∷ cs) = owner h cs
owner h (read_process g a n ∷ cs) = owner h cs
owner h (write_process g a d ∷ cs) = owner h cs

-- A write: the process, the address and the bytes.
abbrev pub Write : Type 0
Write = ℕ × (ℕ × Bytes)

-- The writes among the calls.
unfoldable pub written : List Call → List Write
written [] = []
written (open_process rights process g ∷ cs) = written cs
written (create_snapshot s ∷ cs) = written cs
written (close_handle g ∷ cs) = written cs
written (read_process g a n ∷ cs) = written cs
written (write_process g a d ∷ cs) = (owner g cs, (a, d)) ∷ written cs

-- The last setting of the switch; it begins as off.
unfoldable pub switched_on : List Op → Bool
switched_on [] = false
switched_on (allow b ∷ ops) = b
switched_on (find_process name ∷ ops) = switched_on ops
switched_on (find_module process name ∷ ops) = switched_on ops
switched_on (detach ∷ ops) = switched_on ops
switched_on (reset ∷ ops) = switched_on ops
switched_on (read_at_address thread address buffer ∷ ops) = switched_on ops
switched_on (write_at_address address data_ ∷ ops) = switched_on ops

-- `Sub as bs`: the members of `as` are members of `bs`, in the same order.
pub data Sub : List Write → List Write → Type 0 where
  nothing : Sub [] []
  keep : {as' bs : List Write} (x : Write) → Sub as' bs → Sub (x ∷ as') (x ∷ bs)
  drop : {as' bs : List Write} (x : Write) → Sub as' bs → Sub as' (x ∷ bs)

module _ (w : Windows) where
  -- The writes that are asked for while the switch is on, each to the process that is then selected.
  unfoldable pub requested : List Op → List Write
  requested [] = []
  requested (write_at_address address (some data_) ∷ ops) =
      let before = requested ops in
      if switched_on ops then ((run w ops).pid % u32_mod, (address, data_)) ∷ before else before
  requested (write_at_address address none ∷ ops) = requested ops
  requested (allow b ∷ ops) = requested ops
  requested (find_process name ∷ ops) = requested ops
  requested (find_module process name ∷ ops) = requested ops
  requested (detach ∷ ops) = requested ops
  requested (reset ∷ ops) = requested ops
  requested (read_at_address thread address buffer ∷ ops) = requested ops

  -- A write handle is kept only while the switch is on, and only on the selected process.
  pub record IsGated (on : Bool) (m : Memory) : Type 0 where
    pub allowed : m.writes_allowed ≡ on
    pub needs_switch : m.write_handle ≢ 0 → on ≡ true
    pub on_selected : m.write_handle ≢ 0 → owner m.write_handle m.calls ≡ m.pid % u32_mod

  close_write_handle_gate :
      (on : Bool) (m : Memory)
      → ((close_write_handle m).write_handle ≡ 0)
        × ((close_write_handle m).writes_allowed ≡ m.writes_allowed)
        × (written (close_write_handle m).calls ≡ written m.calls)
  unfolding close_write_handle written
  close_write_handle_gate on m = ground arith

  close_gate :
      (m : Memory)
      → ((close m).write_handle ≡ 0)
        × ((close m).writes_allowed ≡ m.writes_allowed)
        × (written (close m).calls ≡ written m.calls)
  unfolding close close_write_handle close_read_handle written
  close_gate m = ground arith

  read_raw_gate :
      (on : Bool) (thread address : ℕ) (buffer : Option Bytes) (m : Memory)
      → IsGated on m
      → IsGated on (read_raw w thread address buffer m).0
        × (written (read_raw w thread address buffer m).0.calls ≡ written m.calls)
  unfolding read_raw owner written
  read_raw_gate on thread address none m g = (g, refl)
  read_raw_gate on thread address (some buffer) m g = ground arith

  entries_of_gate :
      (on : Bool) (process : ℕ) (m : Memory)
      → IsGated on m
      → IsGated on (entries_of w process m).0
        × (written (entries_of w process m).0.calls ≡ written m.calls)
  unfolding entries_of owner written
  entries_of_gate on process m g = ground arith

  attach_gate :
      (on : Bool) (id : ℕ) (m : Memory)
      → m.write_handle ≡ 0
      → m.writes_allowed ≡ on
      → IsGated on (attach w id m).0 × (written (attach w id m).0.calls ≡ written m.calls)
  unfolding attach written
  attach_gate on id m none_kept same = ground arith

  get_proc_id_gate :
      (on : Bool) (name : Bytes) (m : Memory)
      → IsGated on m
      → IsGated on (get_proc_id w name m).0
        × (written (get_proc_id w name m).0.calls ≡ written m.calls)
  unfolding get_proc_id
  get_proc_id_gate on name m g = grind (arith, entries_of_gate on 0 m g, close_gate, attach_gate)

  -- With the switch on, a write handle is there afterwards on the selected process, or none.
  with_write_handle_gate :
      (m : Memory)
      → IsGated true m
      → IsGated true (with_write_handle w m)
        × ((with_write_handle w m).pid ≡ m.pid)
        × (written (with_write_handle w m).calls ≡ written m.calls)
  unfolding with_write_handle owner written
  with_write_handle_gate m g = ground arith

  -- One write: no call of `WriteProcessMemory`, or one with these bytes to the selected process, and
  -- then the switch is on.
  try_write_raw_gate :
      (on : Bool) (address : ℕ) (data_ : Bytes) (m : Memory)
      → IsGated on m
      → IsGated on (try_write_raw w address (some data_) m).0
        × ((written (try_write_raw w address (some data_) m).0.calls ≡ written m.calls)
            ⊎ ((on ≡ true)
                × (written (try_write_raw w address (some data_) m).0.calls
                    ≡ (m.pid % u32_mod, (address, data_)) ∷ written m.calls)))
  unfolding try_write_raw write_out owner written
  try_write_raw_gate false address data_ m g = ground arith
  try_write_raw_gate true address data_ m g = ground (arith, with_write_handle_gate m g)

  set_writes_allowed_gate :
      (on b : Bool) (m : Memory)
      → IsGated on m
      → IsGated b (set_writes_allowed b m)
        × (written (set_writes_allowed b m).calls ≡ written m.calls)
  unfolding set_writes_allowed
  set_writes_allowed_gate on true m g = ground arith
  set_writes_allowed_gate on false m g =
      ground (arith, close_write_handle_gate false (record m { writes_allowed = false }))

  -- What is claimed after the operations.
  abbrev Guarded : List Op → Type 0
  Guarded ops =
      IsGated (switched_on ops) (run w ops) × Sub (written (run w ops).calls) (requested ops)

  -- The writes done are among those requested after one more request, if it was done as asked.
  one_more :
      (on : Bool) (x : Write) (new old asked : List Write)
      → (new ≡ old) ⊎ ((on ≡ true) × (new ≡ x ∷ old))
      → Sub old asked
      → Sub new (if on then x ∷ asked else asked)
  one_more false x new old asked (inl same) sub = rw same sub
  one_more true x new old asked (inl same) sub = rw same (drop x sub)
  one_more false x new old asked (inr (off, e)) sub = cc
  one_more true x new old asked (inr (on, e)) sub = rw e (keep x sub)

  run-Guarded : (ops : List Op) → Guarded ops
  unfolding run apply switched_on requested written get_module_base_address try_write_raw
  run-Guarded [] = (ground arith, nothing)
  run-Guarded (find_process name ∷ ops) =
      let (g, sub) = run-Guarded ops in
      let (g', e) = get_proc_id_gate (switched_on ops) name (run w ops) g in (g', rw e sub)
  run-Guarded (find_module process name ∷ ops) =
      let (g, sub) = run-Guarded ops in
      let (g', e) = entries_of_gate (switched_on ops) (process % u32_mod) (run w ops) g in
      (g', rw e sub)
  run-Guarded (detach ∷ ops) =
      let (g, sub) = run-Guarded ops in
      let (none_kept, same, e) = close_gate (run w ops) in (ground arith, rw e sub)
  run-Guarded (reset ∷ ops) = let (g, sub) = run-Guarded ops in (ground arith, sub)
  run-Guarded (allow b ∷ ops) =
      let (g, sub) = run-Guarded ops in
      let (g', e) = set_writes_allowed_gate (switched_on ops) b (run w ops) g in (g', rw e sub)
  run-Guarded (read_at_address thread address buffer ∷ ops) =
      let (g, sub) = run-Guarded ops in
      let (g', e) = read_raw_gate (switched_on ops) thread address buffer (run w ops) g in
      (g', rw e sub)
  run-Guarded (write_at_address address none ∷ ops) = run-Guarded ops
  run-Guarded (write_at_address address (some data_) ∷ ops) =
      let (g, sub) = run-Guarded ops in
      let (g', e) = try_write_raw_gate (switched_on ops) address data_ (run w ops) g in
      (
        g',
        one_more (switched_on ops) ((run w ops).pid % u32_mod, (address, data_))
            (written (try_write_raw w address (some data_) (run w ops)).0.calls)
            (written (run w ops).calls) (requested ops) e sub,
      )

  -- Whatever the operations and whatever Windows answers: each call of `WriteProcessMemory` answers
  -- a write that was asked for while the switch was on, in the same order, with its address and its
  -- bytes, through a handle that was opened on the process selected at that time.
  pub written-Sub : (ops : List Op) → Sub (written (run w ops).calls) (requested ops)
  written-Sub ops = (run-Guarded ops).1

  -- While the switch is off there is no write handle, and a write handle is one on the selected process.
  pub run-IsGated : (ops : List Op) → IsGated (switched_on ops) (run w ops)
  run-IsGated ops = (run-Guarded ops).0

  -- With the switch on, a process selected, an address and some bytes, and a write handle kept or
  -- given by Windows, the write is done to that process, and the result is what Windows answers: all
  -- bytes written.
  try_write_raw_lem :
      (ops : List Op) (address : ℕ) (data_ : Bytes)
      → switched_on ops ≡ true
      → (run w ops).pid ≢ 0
      → address ≢ 0
      → length data_ ≢ 0
      → (with_write_handle w (run w ops)).write_handle ≢ 0
      → (written (try_write_raw w address (some data_) (run w ops)).0.calls
          ≡ ((run w ops).pid % u32_mod, (address, data_)) ∷ written (run w ops).calls)
        × ((try_write_raw w address (some data_) (run w ops)).1 ≡ (
            let answer =
              w.writes
                (with_write_handle w (run w ops)).calls
                (with_write_handle w (run w ops)).write_handle
                address
                data_ in
            answer.0 && answer.1 == length data_))
  unfolding try_write_raw write_out written
  try_write_raw_lem ops address data_ on selected placed some_bytes given =
      let g = rw on at (run-IsGated ops) in
      let (g', same, e) = with_write_handle_gate (run w ops) g in (ground arith, ground arith)
