-- ===== src/Process/Strings.antt =====
-- include/cs2dumper/memory.hpp: what `read_utf8` reads from a memory that keeps still.
use hardware_assisted_game_s.Base.{
  ℕ, zero, suc, ◌+◌, ◌%◌, ◌≡◌, ◌≢◌, inl, inr, refl, true, Option, none, some, Option-cases, [], ◌∷◌,
  Bytes, u64_mod, le_word, ◌==◌, if◌then◌else◌, arith,
}
use hardware_assisted_game_s.Process.{
  no_module, returned, thrown, Process, before_nul, read_chars, read_utf8,
}

-- Memory by bytes: a number at each address that can be read.
abbrev pub Cells : Type 0
Cells = ℕ → Option ℕ

abbrev cons_byte : ℕ → Option Bytes → Option Bytes
cons_byte b none = none
cons_byte b (some bs) = some (b ∷ bs)

-- All of `n` bytes from an address on, which goes round at 2 ^ 64.
unfoldable pub read_cells : Cells → ℕ → ℕ → Option Bytes
read_cells cells address zero = some []
read_cells cells address (suc n) =
    let rest = read_cells cells ((address + 1) % u64_mod) n in
    elim (cells address) [ none ↦ none | some b ↦ cons_byte b rest ]

-- A process whose memory keeps still.
abbrev pub still : Cells → Process
still cells = record {
  World = Unit {0};
  read_raw = λ address n w. (read_cells cells address n, w);
  module_list = λ w. (returned [], w);
  module_by_name = λ name w. (thrown no_module, w);
}

-- The text at an address: at most `n` bytes, up to a NUL or to what cannot be read.
unfoldable pub text_at : Cells → ℕ → ℕ → Bytes
text_at cells address zero = []
text_at cells address (suc n) =
    let rest = text_at cells ((address + 1) % u64_mod) n in
    elim (cells address) [ none ↦ [] | some b ↦ if b == 0 then [] else b ∷ rest ]

before_nul-read_cells :
    (cells : Cells) (address n : ℕ) (bs : Bytes)
    → read_cells cells address n ≡ some bs
    → before_nul bs ≡ text_at cells address n
unfolding read_cells text_at before_nul
before_nul-read_cells cells address zero bs e = ground arith
before_nul-read_cells cells address (suc n) [] e = ground arith
before_nul-read_cells cells address (suc n) (b ∷ bs) e =
    ground (arith, before_nul-read_cells cells ((address + 1) % u64_mod) n bs)

read_chars-text_at :
    (cells : Cells) (address n : ℕ) (w : Unit {0})
    → (read_chars (still cells) address n w).0 ≡ text_at cells address n
unfolding read_chars read_cells text_at le_word
read_chars-text_at cells address zero w = refl
read_chars-text_at cells address (suc n) w =
    ground (arith, read_chars-text_at cells ((address + 1) % u64_mod) n w)

-- On a memory that keeps still and at an address that is not null, `read_utf8` with its fallback
-- reads the text at the address, also where the whole buffer cannot be read: by single characters it
-- comes to the same bytes.
pub read_utf8-text_at :
    (cells : Cells) (address max_len : ℕ)
    → address ≢ 0
    → read_utf8 (still cells) address max_len true tt
      ≡ (returned (text_at cells address max_len), tt)
unfolding read_utf8 text_at
read_utf8-text_at cells address zero placed = ground arith
read_utf8-text_at cells address (suc n) placed =
    elim (Option-cases (read_cells cells address (suc n))) [
      | inl unread ↦ ground (arith, read_chars-text_at cells address (suc n) tt)
      | inr (bs, read_whole) ↦
          ground (arith, before_nul-read_cells cells address (suc n) bs read_whole)
    ]
