-- ===== src/Output/Text/Numbers.antt =====
-- output.cpp: the numbers that are written, `hex`, `enum_hex` and `std::to_string`, against a reader of
-- numbers, which the source does not have.
use native.Mathlib.Nat.{pow-suc}
use native.Mathlib.Numerals.{unary_clauses}
use hardware_assisted_game_s.Base.{
  ℕ, zero, suc, ◌+◌, ◌*◌, ◌/◌, ◌%◌, ◌^◌, ◌<◌, ◌≤◌, ◌≡◌, ◌⊎◌, inl, inr, refl, ap, ◌∙◌, Bool, true,
  false, not, ◌&&◌, Option, none, some, [], ◌∷◌, Bytes, u32_mod, u64_mod, is_hex, hex_value,
  is_empty, ltb, ◌==◌, if◌then◌else◌, arith, Bool-cases,
}
use hardware_assisted_game_s.Output.Text.{upper_digit, digits, hex, enum_hex}

abbrev pub is_digit_of : ℕ → ℕ → Bool
is_digit_of base c = is_hex c && ltb (hex_value c) base

-- The digits in front of a text, behind a number that is read already, and what follows them.
unfoldable pub read_digits : ℕ → ℕ → Bytes → ℕ × Bytes
read_digits base v [] = (v, [])
read_digits base v (c ∷ s) =
    let later = read_digits base (v * base + hex_value c) s in
    if is_digit_of base c then later else (v, c ∷ s)

-- A whole text `0x…`.
unfoldable pub read_hex : Bytes → Option ℕ
read_hex (a ∷ b ∷ s) =
    let read = read_digits 16 0 s in
    if a == b'0' && b == b'x' && not (is_empty s) && is_empty read.1 then some read.0 else none
read_hex _ = none

upper_digit-value :
    (d base : ℕ)
    → d < base
    → base ≤ 16
    → (is_digit_of base (upper_digit d) ≡ true) × (hex_value (upper_digit d) ≡ d)
upper_digit-value d base h small = ground arith

module _ (base : ℕ) (small : base ≤ 16) (shorter : (n m : ℕ) → n < m * base → n / base < m)
    (split : (n : ℕ) → (n / base * base + n % base ≡ n) × (n % base < base)) where
  pow_one : (n : ℕ) → n < base ^ 1 → n < base
  pow_one n h = let one : n < 1 * base = simp (pow-suc base 0, unary_clauses) at h in omega arith

  read_digits-digit :
      (v d m : ℕ) (rest : Bytes)
      → d < base
      → v * base + d ≡ m
      → read_digits base v (upper_digit d ∷ rest) ≡ read_digits base m rest
  unfolding read_digits
  read_digits-digit v d m rest h e =
      let value = upper_digit-value d base h small in
      rw (value.0, value.1) (ap (λ (x : ℕ). read_digits base x rest) e)

  read_digits-digits :
      (k n : ℕ) (rest : Bytes)
      → n < base ^ suc k
      → read_digits base 0 (digits base k n rest) ≡ read_digits base n rest
  unfolding digits
  read_digits-digits zero n rest h = read_digits-digit 0 n n rest (pow_one n h) (omega arith)
  read_digits-digits (suc k) n rest h = elim (Bool-cases (ltb n base)) [
    | inl one ↦ rw one (read_digits-digit 0 n n rest (ground arith) (ground arith))
    | inr more ↦ rw more (
        read_digits-digits k (n / base) (upper_digit (n % base) ∷ rest)
          (shorter n (base ^ suc k) (rw (pow-suc base (suc k)) at h))
        ∙ read_digits-digit (n / base) (n % base) n rest (split n).1 (split n).0)
  ]

read_digits-hex :
    (n : ℕ) (rest : Bytes)
    → n < u64_mod
    → read_digits 16 0 (digits 16 15 n rest) ≡ read_digits 16 n rest
read_digits-hex n rest h =
    read_digits-digits 16 (omega arith) (λ n m h. omega arith) (λ n. (omega arith, omega arith)) 15
      n rest (omega arith)

-- What `std::to_string` writes of a number below 10 ^ 20 is read back, in front of any text.
pub read_digits-to_string :
    (n : ℕ) (rest : Bytes)
    → n < u64_mod
    → read_digits 10 0 (digits 10 19 n rest) ≡ read_digits 10 n rest
read_digits-to_string n rest h =
    read_digits-digits 10 (omega arith) (λ n m h. omega arith) (λ n. (omega arith, omega arith)) 19
      n rest (omega arith)

digits-is_empty : (base k n : ℕ) (rest : Bytes) → is_empty (digits base k n rest) ≡ false
unfolding digits
digits-is_empty base zero n rest = refl
digits-is_empty base (suc k) n rest =
    ground (arith, digits-is_empty base k (n / base) (upper_digit (n % base) ∷ rest))

-- A value of 64 bits is read back from what `hex` writes of it.
read_hex-hex : (value : ℕ) → value < u64_mod → read_hex (hex value) ≡ some value
unfolding read_hex hex read_digits
read_hex-hex value h = rw (digits-is_empty 16 15 value [], read_digits-hex value [] h) refl

-- For each size of an enum that is supported, what `enum_hex` writes of a member's 64 bits is read back
-- as these bits modulo 2 ^ (8 * size).
pub read_hex-enum_hex :
    (value alignment : ℕ)
    → value < u64_mod
    → (alignment ≡ 1) ⊎ (alignment ≡ 2) ⊎ (alignment ≡ 4) ⊎ (alignment ≡ 8)
    → read_hex (enum_hex value alignment) ≡ some (value % 2 ^ (8 * alignment))
unfolding enum_hex
read_hex-enum_hex value alignment h size = elim size [
  | inl one ↦ rw one (read_hex-hex (value % 256) (omega arith))
  | inr (inl two) ↦ rw two (read_hex-hex (value % 65536) (omega arith))
  | inr (inr (inl four)) ↦ rw four (read_hex-hex (value % u32_mod) (omega arith))
  | inr (inr (inr eight)) ↦ rw eight (read_hex-hex value h ∙ ap (λ (x : ℕ). some x) (omega arith))
]
