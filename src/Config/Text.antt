-- ===== src/Config/Text.antt =====
-- runtime_config.cpp: the helpers on text, and what of the standard library they rest on:
-- `std::getline` and `std::stoull` in base 0.
use hardware_assisted_game_s.Base.{
  ℕ, ◌+◌, ◌*◌, ◌-◌, ◌%◌, Bool, true, false, not, ◌&&◌, ◌||◌, Option, none, some, List, [], ◌∷◌, map,
  Bytes, is_empty, is_space, is_hex, hex_value, u64_mod, ltb, leb, ◌==◌, if◌then◌else◌,
}

-- The reasons of the exceptions.
pub data Error : Type 0 where
  empty_integer invalid_integer not_a_number out_of_range unknown_kind unknown_callback unopened :
      Error
  invalid_signature_line invalid_layout_line empty_layout_key : ℕ → Error
  missing_key : Bytes → Error

pub data Result {ℓ} (A : Type ℓ) : Type ℓ where
  ok : A → Result A
  err : Error → Result A

infixl 5 ◌>>=◌
abbrev pub ◌>>=◌ {ℓ κ} : {A : Type ℓ} {B : Type κ} → Result A → (A → Result B) → Result B
ok a >>= f = f a
err e >>= f = err e

unfoldable pub trim_start : Bytes → Bytes
trim_start [] = []
trim_start (c ∷ s) = let rest = trim_start s in if is_space c then rest else c ∷ s

unfoldable pub trim_end : Bytes → Bytes
trim_end [] = []
trim_end (c ∷ s) = let rest = trim_end s in if is_empty rest && is_space c then [] else c ∷ rest

unfoldable pub trim : Bytes → Bytes
trim s = trim_end (trim_start s)

-- Put a character in front of the first piece.
abbrev pub onto_first : ℕ → List Bytes → List Bytes
onto_first c [] = (c ∷ []) ∷ []
onto_first c (p ∷ ps) = (c ∷ p) ∷ ps

-- The pieces between the marks: one more than there are marks.
unfoldable pub pieces : ℕ → Bytes → List Bytes
pieces mark [] = [] ∷ []
pieces mark (c ∷ s) = let rest = pieces mark s in if c == mark then [] ∷ rest else onto_first c rest

unfoldable pub split_pipe : Bytes → List Bytes
split_pipe line = map trim (pieces b'|' line)

-- The lines that `std::getline` reads: the pieces between newlines, without an empty last one.
unfoldable pub drop_last_empty : List Bytes → List Bytes
drop_last_empty [] = []
drop_last_empty ([] ∷ []) = []
drop_last_empty (p ∷ ps) = p ∷ drop_last_empty ps

unfoldable pub lines_of : Bytes → List Bytes
lines_of file = drop_last_empty (pieces b'\n' file)

-- The value of a digit in a base up to 16.
abbrev pub digit_in : ℕ → ℕ → Option ℕ
digit_in base c = if is_hex c && ltb (hex_value c) base then some (hex_value c) else none

-- The digits in front, as a number of any size, and the rest.
unfoldable pub read_number : ℕ → ℕ → Bytes → ℕ × Bytes
read_number base n [] = (n, [])
read_number base n (c ∷ s) =
    let more = read_number base (n * base + hex_value c) s in
    if is_hex c && ltb (hex_value c) base then more else (n, c ∷ s)

abbrev pub starts_with_digit : ℕ → Bytes → Bool
starts_with_digit base [] = false
starts_with_digit base (c ∷ s) = is_hex c && ltb (hex_value c) base

-- The base and the digits that base 0 stands for: `0x` in front of a hexadecimal digit is 16, any
-- other `0` is 8, and all else is 10.
unfoldable pub base_of : Bytes → ℕ × Bytes
base_of (z ∷ x ∷ s) =
    if z == b'0' && (x == b'x' || x == b'X') && starts_with_digit 16 s
    then (16, s)
    else if z == b'0'
    then (8, z ∷ x ∷ s)
    else (10, z ∷ x ∷ s)
base_of (z ∷ []) = (if z == b'0' then 8 else 10, z ∷ [])
base_of [] = (10, [])

abbrev pub sign_of : Bytes → Bool × Bytes
sign_of [] = (false, [])
sign_of (c ∷ s) = if c == b'-' then (true, s) else if c == b'+' then (false, s) else (false, c ∷ s)

-- `std::stoull(s, &consumed, 0)`: the value, and what is not consumed. A minus sign negates in 64 bits.
unfoldable pub stoull : Bytes → Result (ℕ × Bytes)
stoull text =
    let (negative, s) = sign_of (trim_start text) in
    let (base, digits) = base_of s in
    let (n, rest) = read_number base 0 digits in
    if not (starts_with_digit base digits)
    then err not_a_number
    else if leb u64_mod n
    then err out_of_range
    else ok (if negative then (u64_mod - n) % u64_mod else n, rest)

unfoldable pub parse_integer : Bytes → Result ℕ
parse_integer text =
    if is_empty (trim text)
    then err empty_integer
    else stoull (trim text) >>= λ r. if is_empty r.1 then ok r.0 else err invalid_integer

-- `std::string::starts_with`.
unfoldable pub starts_with : Bytes → Bytes → Bool
starts_with s [] = true
starts_with [] (p ∷ ps) = false
starts_with (c ∷ s) (p ∷ ps) = c == p && starts_with s ps
