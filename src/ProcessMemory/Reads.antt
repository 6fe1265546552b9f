-- ===== src/ProcessMemory/Reads.antt =====
-- core/memory/memory.hpp: what a read leaves in the buffer.
use hardware_assisted_game_s.Base.{
  ℕ, suc, ◌≡◌, ◌≢◌, refl, ap, not, if◌then◌else◌, ◌&&◌, some, [], ◌∷◌, Bytes, length, ◌==◌, arith,
}
use hardware_assisted_game_s.ProcessMemory.{Windows, Memory, zeros, read_raw, try_read}

length-zeros : (b : Bytes) → length (zeros b) ≡ length b
length-zeros [] = refl
length-zeros (x ∷ b) = ap suc (length-zeros b)

module _ (w : Windows) where
  -- Into a buffer that is not empty, `ReadRaw` does what `TryRead` of a value of zeros does: both
  -- make the same calls and count the same reads, answer the same, and leave the same bytes.
  read_raw-try_read :
      (thread address : ℕ) (buffer : Bytes) (m : Memory)
      → length buffer ≢ 0
      → (let r = try_read w thread address (zeros buffer) m in
          read_raw w thread address (some buffer) m ≡ (r.0, r.1, some r.2))
  unfolding read_raw try_read
  read_raw-try_read thread address buffer m some_bytes = rw (length-zeros buffer) (ground arith)

  -- A read is whole or nothing: the answer is true exactly if there is a handle and an address and
  -- Windows has read as many bytes as are asked for; the buffer is then what Windows has left in it,
  -- and zeros in every other case.
  read_raw_lem :
      (thread address : ℕ) (buffer : Bytes) (m : Memory)
      → length buffer ≢ 0
      → (let answer = w.reads m.calls m.handle address (length buffer) in
          let r = read_raw w thread address (some buffer) m in
          (r.1 ≡ (
            not (m.handle == 0)
            && not (address == 0)
            && answer.succeeded
            && answer.bytes_read == length buffer))
          × (r.2 ≡ some (if r.1 then answer.buffer else zeros buffer)))
  unfolding read_raw
  read_raw_lem thread address buffer m some_bytes = ground arith
