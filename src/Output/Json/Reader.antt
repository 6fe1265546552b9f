-- ===== src/Output/Json/Reader.antt =====
-- A reader of JSON objects, by the grammar of RFC 8259, which output.cpp does not have. It allows for a
-- number of entries that it is given.
use hardware_assisted_game_s.Base.{
  ℕ, zero, suc, ◌||◌, Option, none, some, List, [], ◌∷◌, Bytes, is_digit, ◌==◌, if◌then◌else◌,
  ◌>>=◌,
}
use hardware_assisted_game_s.Output.Text.Escape.{unquote}
use hardware_assisted_game_s.Output.Text.Numbers.{read_digits}

unfoldable pub skip_blanks : Bytes → Bytes
skip_blanks [] = []
skip_blanks (c ∷ s) =
    let later = skip_blanks s in if c == 32 || c == 10 || c == 13 || c == 9 then later else c ∷ s

-- What follows a character, if it is the first one that is not blank.
abbrev pub first_is : ℕ → Bytes → Option Bytes
first_is k [] = none
first_is k (c ∷ s) = if c == k then some s else none

unfoldable pub after_char : ℕ → Bytes → Option Bytes
after_char k s = first_is k (skip_blanks s)

abbrev pub number_at : Bytes → Option (ℕ × Bytes)
number_at [] = none
number_at (c ∷ s) = let read = read_digits 10 0 (c ∷ s) in if is_digit c then some read else none

unfoldable pub read_number : Bytes → Option (ℕ × Bytes)
read_number s = number_at (skip_blanks s)

module _ {A : Type 0} (value : Bytes → Option (A × Bytes)) where
  -- A name, a colon, and a value.
  unfoldable pub read_entry : Bytes → Option ((Bytes × A) × Bytes)
  read_entry s = do
    name ← unquote (skip_blanks s)
    behind ← after_char b':' name.1
    v ← value behind
    some ((name.0, v.0), v.1)

  abbrev pub put_entry :
      Bytes × A → Option (List (Bytes × A) × Bytes) → Option (List (Bytes × A) × Bytes)
  put_entry e none = none
  put_entry e (some (es, s)) = some (e ∷ es, s)

  -- Behind an entry there is the end, or one more: of these, `n` may follow.
  abbrev pub ending : Bytes × A → Option Bytes → Option (List (Bytes × A) × Bytes)
  ending e none = none
  ending e (some s) = some (e ∷ [], s)

  abbrev pub next_or_end :
      (Bytes → Option (List (Bytes × A) × Bytes))
      → Bytes × A
      → Bytes
      → Option Bytes
      → Option (List (Bytes × A) × Bytes)
  next_or_end more e s none = ending e (after_char b'}' s)
  next_or_end more e s (some next) = put_entry e (more next)

  unfoldable pub read_entries : ℕ → Bytes → Option (List (Bytes × A) × Bytes)
  read_entries zero s = none
  read_entries (suc n) s = do
    r ← read_entry s
    next_or_end (read_entries n) r.0 r.1 (after_char b',' r.1)

  abbrev pub empty_or :
      Option (List (Bytes × A) × Bytes) → Option Bytes → Option (List (Bytes × A) × Bytes)
  empty_or r none = r
  empty_or r (some s) = some ([], s)

  -- An object of at most `n` entries.
  unfoldable pub read_object : ℕ → Bytes → Option (List (Bytes × A) × Bytes)
  read_object n s = do
    inside ← after_char b'{' s
    empty_or (read_entries n inside) (after_char b'}' inside)
