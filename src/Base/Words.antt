-- ===== src/Base/Words.antt =====
-- Bytes, byte strings and little-endian words. A byte is a number below 256.
use Prim.Native.Nat.{ℕ, ◌+◌, ◌*◌, ◌≤◌, ◌<◌}
use Prim.Native.Char.{code}
use Prim.Native.String.{String}
use mathlib.Core.Path.{◌≡◌}
use mathlib.Core.Logic.{◌↔◌, ◌≢◌, inl, inr}
use mathlib.Core.List.{List, [], ◌∷◌}
use mathlib.Core.Bool.{Bool, true, false, ◌&&◌}
use native.Mathlib.Omega.{arith}
use hardware_assisted_game_s.Base.Lists.{All, length}
use hardware_assisted_game_s.Base.Tests.{◌==◌, Bool-cases}

abbrev pub Bytes : Type 0
Bytes = List ℕ

-- The code points of a text: its bytes, if it is ASCII.
abbrev pub codes : String → Bytes
codes String.[] = []
codes (String.◌∷◌ c s) = code c ∷ codes s

abbrev pub IsByte : ℕ → Type 0
IsByte b = b < 256

abbrev pub u32_mod : ℕ
u32_mod = 4294967296

abbrev pub u64_mod : ℕ
u64_mod = 18446744073709551616

-- `memcpy` of a byte string into an unsigned word on a little-endian machine.
unfoldable pub le_word : Bytes → ℕ
le_word [] = 0
le_word (b ∷ bs) = b + 256 * le_word bs

-- The order of `std::string`, its equality, and `operator==` of views.
unfoldable pub bytes_eq : Bytes → Bytes → Bool
bytes_eq [] [] = true
bytes_eq (a ∷ as') (b ∷ bs) = a == b && bytes_eq as' bs
bytes_eq _ _ = false

pub bytes_eq_iff : (a b : Bytes) → (bytes_eq a b ≡ true) ↔ (a ≡ b)
unfolding bytes_eq
bytes_eq_iff [] [] = ground arith
bytes_eq_iff [] (b ∷ bs) = ground arith
bytes_eq_iff (a ∷ as') [] = ground arith
bytes_eq_iff (a ∷ as') (b ∷ bs) = ground (arith, bytes_eq_iff as' bs)

pub le_word-lt_u16 : (bs : Bytes) → All IsByte bs → length bs ≤ 2 → le_word bs < 65536
unfolding le_word
le_word-lt_u16 [] a h = omega arith
le_word-lt_u16 (x ∷ []) a h = omega arith
le_word-lt_u16 (x ∷ y ∷ []) a h = omega arith
le_word-lt_u16 (x ∷ y ∷ z ∷ bs) a h = absurd (omega arith)

pub le_word-lt_u32 : (bs : Bytes) → All IsByte bs → length bs ≤ 4 → le_word bs < u32_mod
unfolding le_word
le_word-lt_u32 [] a h = omega arith
le_word-lt_u32 (x ∷ []) a h = omega arith
le_word-lt_u32 (x ∷ y ∷ []) a h = omega arith
le_word-lt_u32 (x ∷ y ∷ z ∷ []) a h = omega arith
le_word-lt_u32 (x ∷ y ∷ z ∷ w ∷ []) a h = omega arith
le_word-lt_u32 (x ∷ y ∷ z ∷ w ∷ v ∷ bs) a h = absurd (omega arith)

pub bytes_eq-false : (a b : Bytes) → bytes_eq a b ≡ false → a ≢ b
bytes_eq-false a b h e = cc ((bytes_eq_iff a b).1 e)

pub bytes_eq-ne : (a b : Bytes) → a ≢ b → bytes_eq a b ≡ false
bytes_eq-ne a b h = elim (Bool-cases (bytes_eq a b)) [
  | inl t ↦ absurd (h ((bytes_eq_iff a b).0 t))
  | inr f ↦ f
]
