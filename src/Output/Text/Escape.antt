-- ===== src/Output/Text/Escape.antt =====
-- output.cpp, `json_escape` and `q`: a reader of JSON strings, which the source does not have, reads
-- back what they write.
use hardware_assisted_game_s.Base.{
  ℕ, zero, suc, ◌+◌, ◌*◌, ◌/◌, ◌%◌, ◌<◌, ◌≡◌, refl, true, ◌&&◌, Option, none, some, [], ◌∷◌, ◌++◌,
  append_assoc, Bytes, is_hex, hex_value, ltb, ◌==◌, if◌then◌else◌, arith,
}
use hardware_assisted_game_s.Output.Text.{escape_char, json_escape, q, lower_digit}

-- What an escape of one letter stands for.
unfoldable pub letter : ℕ → Option ℕ
letter c =
    if c == b'"'
    then some b'"'
    else if c == b'\\'
    then some b'\\'
    else if c == b'/'
    then some b'/'
    else if c == b'b'
    then some 8
    else if c == b'f'
    then some 12
    else if c == b'n'
    then some 10
    else if c == b'r'
    then some 13
    else if c == b't'
    then some 9
    else none

abbrev pub put : Option ℕ → Option (Bytes × Bytes) → Option (Bytes × Bytes)
put none r = none
put (some c) none = none
put (some c) (some (s, rest)) = some (c ∷ s, rest)

-- Between characters, behind a backslash, and in front of the last `k + 1` digits of a number.
pub data Place : Type 0 where
  between behind : Place
  number : ℕ → ℕ → Place

-- The characters up to the closing quotation mark, and what follows it, by the grammar of RFC 8259,
-- which has no control characters inside a string. An escaped number is read as a character of one
-- byte.
unfoldable pub read_string : Place → Bytes → Option (Bytes × Bytes)
read_string place [] = none
read_string between (c ∷ s) =
    let escape = read_string behind s in
    let later = read_string between s in
    if c == b'"'
    then some ([], s)
    else if c == b'\\'
    then escape
    else if ltb c 32
    then none
    else put (some c) later
read_string behind (c ∷ s) =
    let four = read_string (number 3 0) s in
    let later = read_string between s in if c == b'u' then four else put (letter c) later
read_string (number zero v) (c ∷ s) =
    let later = read_string between s in
    if is_hex c && ltb (v * 16 + hex_value c) 128
    then put (some (v * 16 + hex_value c)) later
    else none
read_string (number (suc k) v) (c ∷ s) =
    let later = read_string (number k (v * 16 + hex_value c)) s in if is_hex c then later else none

-- The reader of a whole string, whose first character is the opening quotation mark.
unfoldable pub unquote : Bytes → Option (Bytes × Bytes)
unquote [] = none
unquote (c ∷ s) = let text = read_string between s in if c == b'"' then text else none

lower_digit-value :
    (d : ℕ) → d < 16 → (is_hex (lower_digit d) ≡ true) × (hex_value (lower_digit d) ≡ d)
lower_digit-value d h = ground arith

read_string-escape_char :
    (c : ℕ) (s : Bytes)
    → read_string between (escape_char c ++ s) ≡ put (some c) (read_string between s)
unfolding read_string escape_char letter
read_string-escape_char c s = ground (arith, lower_digit-value (c / 16), lower_digit-value (c % 16))

read_string-json_escape :
    (s rest : Bytes) → read_string between (json_escape s ++ b'"' ∷ rest) ≡ some (s, rest)
unfolding read_string json_escape
read_string-json_escape [] rest = refl
read_string-json_escape (c ∷ s) rest =
    rw (append_assoc (escape_char c) (json_escape s) (b'"' ∷ rest)) (
      rw (read_string-escape_char c (json_escape s ++ b'"' ∷ rest), read_string-json_escape s rest)
        refl)

-- What `q` writes is a JSON string, whatever follows it: a reader of JSON strings gives back the text
-- and what follows.
pub unquote-q : (s rest : Bytes) → unquote (q s ++ rest) ≡ some (s, rest)
unfolding unquote
unquote-q s rest =
    rw (append_assoc (json_escape s) (b'"' ∷ []) rest) (read_string-json_escape s rest)
