-- ===== src/Output/Text.antt =====
-- output.cpp: `hex`, `json_escape`, `q`, `snake_case`, `slugify`, `enum_cpp_type`, `enum_hex`, and the
-- numbers of the standard library in decimal. A number with a sign is kept as its bits.
pub mod Escape
pub mod Numbers
pub mod Slug
mod Tests
use hardware_assisted_game_s.Base.{
  ℕ, zero, suc, ◌+◌, ◌-◌, ◌*◌, ◌/◌, ◌%◌, Bool, true, false, not, ◌&&◌, ◌||◌, List, [], ◌∷◌, ◌++◌,
  Bytes, codes, u32_mod, u64_mod, is_digit, to_lower, is_empty, length, get_or, ltb, leb, ◌==◌,
  if◌then◌else◌,
}

-- A digit of base 10, or of base 16 in capital or small letters.
abbrev pub upper_digit : ℕ → ℕ
upper_digit d = if ltb d 10 then d + b'0' else d - 10 + b'A'

abbrev pub lower_digit : ℕ → ℕ
lower_digit d = if ltb d 10 then d + b'0' else d - 10 + b'a'

-- A number below `base ^ (k + 1)`, written in front of a text.
unfoldable pub digits : ℕ → ℕ → ℕ → Bytes → Bytes
digits base zero n rest = upper_digit n ∷ rest
digits base (suc k) n rest =
    if ltb n base
    then upper_digit n ∷ rest
    else digits base k (n / base) (upper_digit (n % base) ∷ rest)

-- `std::to_string`, without a sign and for 64 and 32 bits with a sign.
abbrev pub to_string : ℕ → Bytes
to_string n = digits 10 19 n []

unfoldable pub to_string64 : ℕ → Bytes
to_string64 bits =
    if ltb bits 0x8000_0000_0000_0000 then to_string bits else b'-' ∷ to_string (u64_mod - bits)

unfoldable pub to_string32 : ℕ → Bytes
to_string32 bits =
    if ltb bits 0x8000_0000 then to_string bits else b'-' ∷ to_string (u32_mod - bits)

unfoldable pub hex : ℕ → Bytes
hex value = b'0' ∷ b'x' ∷ digits 16 15 value []

-- 32 bits with a sign as 64 bits.
abbrev pub extend32 : ℕ → ℕ
extend32 bits = if ltb bits 0x8000_0000 then bits else bits + (u64_mod - u32_mod)

-- One character of `json_escape`.
unfoldable pub escape_char : ℕ → Bytes
escape_char c =
    if c == b'"'
    then b'\\' ∷ b'"' ∷ []
    else if c == b'\\'
    then b'\\' ∷ b'\\' ∷ []
    else if c == 8
    then b'\\' ∷ b'b' ∷ []
    else if c == 12
    then b'\\' ∷ b'f' ∷ []
    else if c == 10
    then b'\\' ∷ b'n' ∷ []
    else if c == 13
    then b'\\' ∷ b'r' ∷ []
    else if c == 9
    then b'\\' ∷ b't' ∷ []
    else if ltb c 32
    then b'\\' ∷ b'u' ∷ b'0' ∷ b'0' ∷ lower_digit (c / 16) ∷ lower_digit (c % 16) ∷ []
    else c ∷ []

unfoldable pub json_escape : Bytes → Bytes
json_escape [] = []
json_escape (c ∷ s) = escape_char c ++ json_escape s

abbrev pub q : Bytes → Bytes
q s = b'"' ∷ json_escape s ++ (b'"' ∷ [])

abbrev pub is_upper : ℕ → Bool
is_upper c = leb b'A' c && leb c b'Z'

abbrev pub is_alnum : ℕ → Bool
is_alnum c = is_digit c || is_upper c || leb b'a' c && leb c b'z'

-- What `snake_case` appends for a character that is the first one or not, behind `out`.
unfoldable pub snake_char : Bool → Bytes → ℕ → Bytes
snake_char later out c =
    if is_upper c
    then (if later && not (is_empty out) && not (get_or out (length out - 1) 0 == b'_')
        then b'_' ∷ to_lower c ∷ []
        else to_lower c ∷ [])
    else c ∷ []

unfoldable pub snake_from : Bool → Bytes → Bytes → Bytes
snake_from later out [] = out
snake_from later out (c ∷ s) = snake_from true (out ++ snake_char later out c) s

abbrev pub snake_case : Bytes → Bytes
snake_case s = snake_from false [] s

unfoldable pub slug_chars : Bytes → Bytes
slug_chars [] = []
slug_chars (c ∷ s) = (if not (is_alnum c) && not (c == b'_') then b'_' else c) ∷ slug_chars s

-- The underscore in front of a digit or of nothing.
unfoldable pub slug_front : Bytes → Bytes
slug_front [] = b'_' ∷ []
slug_front (c ∷ s) = if is_digit c then b'_' ∷ c ∷ s else c ∷ s

abbrev pub slugify : Bytes → Bytes
slugify input = slug_front (slug_chars input)

-- The type of an enum; empty for an alignment that is not supported.
unfoldable pub enum_cpp_type : ℕ → Bytes
enum_cpp_type alignment =
    if alignment == 1
    then codes "std::uint8_t"
    else if alignment == 2
    then codes "std::uint16_t"
    else if alignment == 4
    then codes "std::uint32_t"
    else if alignment == 8
    then codes "std::uint64_t"
    else []

unfoldable pub enum_hex : ℕ → ℕ → Bytes
enum_hex value alignment =
    if alignment == 1
    then hex (value % 256)
    else if alignment == 2
    then hex (value % 65536)
    else if alignment == 4
    then hex (value % u32_mod)
    else hex value
