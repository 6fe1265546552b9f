-- ===== src/ProcessMemory.antt =====
-- core/memory/memory.hpp and core/memory/memory.cpp, both under
-- projects/cs2-stage3-esp-radar/external-cheat-base/src: the handles on the process that is read,
-- the gate before every write, and the metrics of the reads. Windows is a parameter: what a call
-- answers is a function of the calls made before it.
pub mod Handles
pub mod Gate
pub mod Metrics
pub mod Threads
pub mod Reads
mod Tests
use hardware_assisted_game_s.Base.{
  ℕ, ◌+◌, ◌%◌, Bool, true, false, not, ◌&&◌, ◌||◌, Option, none, some, List, [], ◌∷◌, Bytes, length,
  is_empty, u32_mod, u64_mod, leb, ◌==◌, if◌then◌else◌,
}

pub data Rights : Type 0 where
  reading writing : Rights

-- The calls of Windows that count: the process and the handle that was given, zero for none; the
-- handle of a snapshot; a handle closed; a handle, an address and a size, or what is written.
pub data Call : Type 0 where
  open_process : Rights → ℕ → ℕ → Call
  create_snapshot close_handle : ℕ → Call
  read_process : ℕ → ℕ → ℕ → Call
  write_process : ℕ → ℕ → Bytes → Call

-- What `ReadProcessMemory` answers, with the buffer as it leaves it.
pub record ReadAnswer : Type 0 where
  pub succeeded : Bool
  pub buffer : Bytes
  pub bytes_read : ℕ

pub record Windows : Type 0 where
  pub opens : List Call → Rights → ℕ → ℕ
  pub snapshots : List Call → ℕ → ℕ
  -- The entries of a snapshot, of processes or of modules: a name with an identifier or a base.
  pub entries : List Call → ℕ → List (Bytes × ℕ)
  pub reads : List Call → ℕ → ℕ → ℕ → ReadAnswer
  pub writes : List Call → ℕ → ℕ → Bytes → Bool × ℕ
  -- `!_wcsicmp`.
  pub same_name : Bytes → Bytes → Bool

-- `INVALID_HANDLE_VALUE`.
abbrev pub invalid_handle : ℕ
invalid_handle = 0xffffffffffffffff

pub record LocalAccumulator : Type 0 where
  pub epoch : ℕ
  pub calls : ℕ
  pub failures : ℕ
  pub bytes : ℕ

-- The global counters, and the accumulator of each thread.
pub record ReadCounters : Type 0 where
  pub read_calls : ℕ
  pub read_failures : ℕ
  pub read_bytes_requested : ℕ
  pub epoch : ℕ
  pub locals : ℕ → LocalAccumulator

abbrev pub fresh_local : ℕ → LocalAccumulator
fresh_local e = record { epoch = e; calls = 0; failures = 0; bytes = 0 }

abbrev pub no_reads : ReadCounters
no_reads = record {
  read_calls = 0;
  read_failures = 0;
  read_bytes_requested = 0;
  epoch = 1;
  locals = λ t. fresh_local 0;
}

unfoldable pub put : (ℕ → LocalAccumulator) → ℕ → LocalAccumulator → ℕ → LocalAccumulator
put locals thread l t = if t == thread then l else locals t

-- The accumulator of a thread as `RecordRead` leaves it before the test for 256 calls.
unfoldable pub accumulate : ℕ → LocalAccumulator → ℕ → Bool → LocalAccumulator
accumulate epoch l size succeeded =
    let l' = if l.epoch == epoch then l else fresh_local epoch in
    record {
      epoch = l'.epoch;
      calls = (l'.calls + 1) % u64_mod;
      failures = if succeeded then l'.failures else (l'.failures + 1) % u64_mod;
      bytes = (l'.bytes + size) % u64_mod;
    }

-- A whole call of `RecordRead` by a thread, with no other call during it. (Threads has its accesses
-- one by one.)
unfoldable pub record_read : ReadCounters → ℕ → ℕ → Bool → ReadCounters
record_read c thread size succeeded =
    let l = accumulate c.epoch (c.locals thread) size succeeded in
    if leb 256 l.calls
    then record {
      read_calls = (c.read_calls + l.calls) % u64_mod;
      read_failures = (c.read_failures + l.failures) % u64_mod;
      read_bytes_requested = (c.read_bytes_requested + l.bytes) % u64_mod;
      epoch = c.epoch;
      locals = put c.locals thread (fresh_local c.epoch);
    }
    else record c { locals = put c.locals thread l }

-- A whole call of `ResetReadMetrics`, with no other call during it: the accumulators of the threads
-- stay, and their epoch is over.
unfoldable pub reset_read_metrics : ReadCounters → ReadCounters
reset_read_metrics c = record c {
  read_calls = 0;
  read_failures = 0;
  read_bytes_requested = 0;
  epoch = (c.epoch + 1) % u64_mod;
}

pub record ReadMetrics : Type 0 where
  pub calls : ℕ
  pub failures : ℕ
  pub bytes_requested : ℕ

unfoldable pub get_read_metrics : ReadCounters → ReadMetrics
get_read_metrics c = record {
  calls = c.read_calls;
  failures = c.read_failures;
  bytes_requested = c.read_bytes_requested;
}

pub record Memory : Type 0 where
  pub handle : ℕ
  pub write_handle : ℕ
  pub pid : ℕ
  pub writes_allowed : Bool
  pub counters : ReadCounters
  -- The calls so far, newest first.
  pub calls : List Call

abbrev pub detached : Memory
detached = record {
  handle = 0;
  write_handle = 0;
  pid = 0;
  writes_allowed = false;
  counters = no_reads;
  calls = [];
}

abbrev pub called : Call → Memory → Memory
called call m = record m { calls = call ∷ m.calls }

-- `closeHandle` on each of the two handles.
unfoldable pub close_write_handle : Memory → Memory
close_write_handle m =
    if m.write_handle == 0
    then m
    else record m { write_handle = 0; calls = close_handle m.write_handle ∷ m.calls }

unfoldable pub close_read_handle : Memory → Memory
close_read_handle m =
    if m.handle == 0 then m else record m { handle = 0; calls = close_handle m.handle ∷ m.calls }

unfoldable pub close : Memory → Memory
close m = record (close_read_handle (close_write_handle m)) { pid = 0 }

unfoldable pub set_writes_allowed : Bool → Memory → Memory
set_writes_allowed allowed m =
    let m' = record m { writes_allowed = allowed } in if allowed then m' else close_write_handle m'

abbrev pub zeros : Bytes → Bytes
zeros [] = []
zeros (b ∷ bs) = 0 ∷ zeros bs

-- The first entry of the name.
unfoldable pub entry_of : (Bytes → Bytes → Bool) → Bytes → List (Bytes × ℕ) → Option ℕ
entry_of same name [] = none
entry_of same name (e ∷ es) =
    let later = entry_of same name es in if same name e.0 then some e.1 else later

-- The operations in any order.
pub data Op : Type 0 where
  find_process : Bytes → Op
  find_module : ℕ → Bytes → Op
  detach reset : Op
  allow : Bool → Op
  read_at_address : ℕ → ℕ → Option Bytes → Op
  write_at_address : ℕ → Option Bytes → Op

module _ (w : Windows) where
  -- `ReadRaw` into a buffer of `size` bytes, or none, by a thread: the buffer it leaves.
  unfoldable pub read_raw : ℕ → ℕ → Option Bytes → Memory → Memory × Bool × Option Bytes
  read_raw thread address none m = (m, false, none)
  read_raw thread address (some buffer) m =
      if length buffer == 0
      then (m, false, some buffer)
      else if m.handle == 0 || address == 0
      then (
        record m { counters = record_read m.counters thread (length buffer) false },
        false,
        some (zeros buffer),
      )
      else let answer = w.reads m.calls m.handle address (length buffer) in
        let good = answer.succeeded && answer.bytes_read == length buffer in
        (
          record m {
            counters = record_read m.counters thread (length buffer) good;
            calls = read_process m.handle address (length buffer) ∷ m.calls;
          },
          good,
          some (if good then answer.buffer else zeros buffer),
        )

  -- `TryRead` of a value of so many bytes as `blank`, which is what it holds at first.
  unfoldable pub try_read : ℕ → ℕ → Bytes → Memory → Memory × Bool × Bytes
  try_read thread address blank m =
      if m.handle == 0 || address == 0
      then (
        record m { counters = record_read m.counters thread (length blank) false },
        false,
        blank,
      )
      else let answer = w.reads m.calls m.handle address (length blank) in
        let good = answer.succeeded && answer.bytes_read == length blank in
        (
          record m {
            counters = record_read m.counters thread (length blank) good;
            calls = read_process m.handle address (length blank) ∷ m.calls;
          },
          good,
          if good then answer.buffer else blank,
        )

  unfoldable pub read : ℕ → ℕ → Bytes → Memory → Memory × Bytes
  read thread address blank m = let r = try_read thread address blank m in (r.0, r.2)

  -- The write handle of `TryWriteRaw`, opened when there is none.
  unfoldable pub with_write_handle : Memory → Memory
  with_write_handle m =
      let h = w.opens m.calls writing (m.pid % u32_mod) in
      if m.write_handle == 0
      then record m { write_handle = h; calls = open_process writing (m.pid % u32_mod) h ∷ m.calls }
      else m

  -- The call of `WriteProcessMemory`.
  unfoldable pub write_out : ℕ → Bytes → Memory → Memory × Bool
  write_out address data_ m =
      let (done, count) = w.writes m.calls m.write_handle address data_ in
      (called (write_process m.write_handle address data_) m, done && count == length data_)

  unfoldable pub try_write_raw : ℕ → Option Bytes → Memory → Memory × Bool
  try_write_raw address none m = (m, false)
  try_write_raw address (some data_) m =
      if not m.writes_allowed || m.pid == 0 || address == 0 || length data_ == 0
      then (m, false)
      else if (with_write_handle m).write_handle == 0
      then (with_write_handle m, false)
      else write_out address data_ (with_write_handle m)

  -- The process is found: it is the one to read from now on, if it can be opened.
  unfoldable pub attach : ℕ → Memory → Memory × ℕ
  attach id m =
      let h = w.opens m.calls reading (id % u32_mod) in
      let m' = record m {
        pid = id;
        handle = h;
        calls = open_process reading (id % u32_mod) h ∷ m.calls;
      } in
      if h == 0 then (record m' { pid = 0 }, 0) else (m', id)

  -- The entries of a new snapshot, which is closed again; none if there is no snapshot.
  unfoldable pub entries_of : ℕ → Memory → Memory × List (Bytes × ℕ)
  entries_of process m =
      let s = w.snapshots m.calls process in
      let m' = called (create_snapshot s) m in
      if s == invalid_handle then (m', []) else (called (close_handle s) m', w.entries m'.calls s)

  -- `GetProcID`. Without any entry the process stays the one it was.
  unfoldable pub get_proc_id : Bytes → Memory → Memory × ℕ
  get_proc_id name m =
      let (m', es) = entries_of 0 m in
      if is_empty es then (m', 0) else elim (entry_of w.same_name name es) [
        | none ↦ (close m', 0)
        | some id ↦ attach id (close m')
      ]

  unfoldable pub get_module_base_address : ℕ → Bytes → Memory → Memory × ℕ
  get_module_base_address process name m =
      let (m', es) = entries_of (process % u32_mod) m in
      (m', elim (entry_of w.same_name name es) [ none ↦ 0 | some base ↦ base ])

  unfoldable pub apply : Op → Memory → Memory
  apply (find_process name) m = (get_proc_id name m).0
  apply (find_module process name) m = (get_module_base_address process name m).0
  apply detach m = close m
  apply reset m = record m { counters = reset_read_metrics m.counters }
  apply (allow b) m = set_writes_allowed b m
  apply (read_at_address thread address buffer) m = (read_raw thread address buffer m).0
  apply (write_at_address address buffer) m = (try_write_raw address buffer m).0

  -- The memory after the operations, newest first.
  unfoldable pub run : List Op → Memory
  run [] = detached
  run (op ∷ ops) = apply op (run ops)
