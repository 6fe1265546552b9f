-- ===== src/Scanner.antt =====
-- projects/cs2-dumper-cpp-standalone/src/pattern.cpp: `first_literal` and the class
-- `PatternScanner`, which runs the operations of a pattern over an image and looks for its one
-- match in the range of code. An `Rva` is a word of 32 bits.
pub mod Cursor
pub mod Found
mod Tests
pub mod Unique
use hardware_assisted_game_s.Base.{
  ℕ, zero, suc, ◌+◌, ◌-◌, ◌%◌, Bool, true, false, ◌&&◌, ◌||◌, Option, none, some, List, [], ◌∷◌,
  ◌++◌, length, get_elem?, take, drop, Bytes, u32_mod, le_word, ltb, leb, ◌==◌, if◌then◌else◌,
  ◌>>=◌,
}
use hardware_assisted_game_s.Pattern.{Op, Ops, nil, cons, byte, skip, save, read_u, follow_rel32}
use hardware_assisted_game_s.Pe.{PeImage}

-- The first byte that a match must have at its start, where the pattern says one.
unfoldable pub first_literal : Ops → Option ℕ
first_literal nil = none
first_literal (cons (byte v) ops) = some (v % 256)
first_literal (cons (skip n) ops) = none
first_literal (cons save ops) = first_literal ops
first_literal (cons (read_u n) ops) = none
first_literal (cons (follow_rel32 sub) ops) = none

-- `int64_t(cursor) + 4 + disp`, where `w` are the bits of the `int32_t` `disp`; nothing if it is
-- negative or not below the size.
unfoldable pub rel_target : ℕ → ℕ → ℕ → Option ℕ
rel_target size cursor w =
    if ltb w 0x8000_0000
    then if ltb (cursor + 4 + w) size then some ((cursor + 4 + w) % u32_mod) else none
    else if ltb (cursor + 4 + w) u32_mod
    then none
    else if ltb (cursor + 4 + w - u32_mod) size
    then some ((cursor + 4 + w - u32_mod) % u32_mod)
    else none

abbrev pub is_nil : Ops → Bool
is_nil nil = true
is_nil (cons op ops) = false

-- `execute`: the cursor and the saves after the operations, or nothing where it returns false.
unfoldable mutual
  pub execute_op : Bytes → Op → ℕ → List ℕ → Option (ℕ × List ℕ)
  execute_op bytes (byte v) cursor saves = get_elem? bytes cursor >>= λ b.
      if b == v % 256 then some ((cursor + 1) % u32_mod, saves) else none
  execute_op bytes (skip n) cursor saves =
      if ltb (length bytes) (cursor + n) then none else some ((cursor + n) % u32_mod, saves)
  execute_op bytes save cursor saves = some (cursor, saves ++ cursor ∷ [])
  execute_op bytes (read_u n) cursor saves =
      if ltb (length bytes) (cursor + n)
      then none
      else some ((cursor + n) % u32_mod, saves ++ le_word (take n (drop cursor bytes)) ∷ [])
  execute_op bytes (follow_rel32 sub) cursor saves =
      if ltb (length bytes) (cursor + 4)
      then none
      else rel_target (length bytes) cursor (le_word (take 4 (drop cursor bytes))) >>= λ target.
          let run = execute bytes sub target saves in
          (if is_nil sub then some (target, saves) else run) >>= λ r.
          some ((cursor + 4) % u32_mod, r.1)

  pub execute : Bytes → Ops → ℕ → List ℕ → Option (ℕ × List ℕ)
  execute bytes nil cursor saves = some (cursor, saves)
  execute bytes (cons op ops) cursor saves =
      execute_op bytes op cursor saves >>= λ r. execute bytes ops r.0 r.1

-- `literal && bytes[start] != *literal`.
abbrev pub differs : Bytes → ℕ → Option ℕ → Bool
differs bytes start none = false
differs bytes start (some v) = elim (get_elem? bytes start) [
  | none ↦ false
  | some b ↦ if b == v then false else true
]

-- The loop over the starts: `n` are left, and `found` is the match so far. A second match ends it.
unfoldable pub scan : Bytes → Ops → Option ℕ → ℕ → ℕ → Option (List ℕ) → Option (List ℕ)
scan bytes ops literal zero start found = found
scan bytes ops literal (suc n) start found = elim (differs bytes start literal) [
  | true ↦ scan bytes ops literal n (start + 1) found
  | false ↦ elim (execute bytes ops start (start ∷ [])) [
    | none ↦ scan bytes ops literal n (start + 1) found
    | some r ↦ elim found [
      | none ↦ scan bytes ops literal n (start + 1) (some r.1)
      | some other ↦ none
    ]
  ]
]

-- `find_unique_code`: the saves of the match.
unfoldable pub find_unique_code : PeImage → Ops → Option (List ℕ)
find_unique_code p ops =
    if leb p.code_end p.code_begin || ltb (length p.image) p.code_end
    then none
    else scan p.image ops (first_literal ops) (p.code_end - p.code_begin) p.code_begin none
