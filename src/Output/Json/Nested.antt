-- ===== src/Output/Json/Nested.antt =====
-- output.cpp, `nested_json`: the reader of JSON objects reads back the whole file.
use native.Mathlib.Nat.{pow-suc}
use hardware_assisted_game_s.Base.{
  ◌/◌, ◌%◌, ◌^◌, sym, ℕ, zero, suc, ◌<◌, ◌≤◌, ◌≡◌, refl, ap, ◌∙◌, Bool, true, false, Option, some,
  List, [], ◌∷◌, ◌++◌, append_assoc, All, Bytes, codes, u64_mod, is_digit, length, arith,
}
use hardware_assisted_game_s.Offsets.{OffsetMap}
use hardware_assisted_game_s.Output.Json.{
  entries, if_any, first_line, next_line, number_entry, module_entry, nested_json,
}
use hardware_assisted_game_s.Output.Text.{to_string, digits, upper_digit}
use hardware_assisted_game_s.Output.Text.Numbers.{is_digit_of, read_digits, read_digits-to_string}
use hardware_assisted_game_s.Output.Json.Reader.{skip_blanks, after_char, read_number, read_object}
use hardware_assisted_game_s.Output.Json.Object.{
  IsReadable, entry_text, IsBlank, read_object-text, entries-object_text,
}

digits-append : (base k n : ℕ) (s t : Bytes) → digits base k n (s ++ t) ≡ digits base k n s ++ t
unfolding digits
digits-append base zero n s t = refl
digits-append base (suc k) n s t =
    ground (arith, digits-append base k (n / base) (upper_digit (n % base) ∷ s) t)

abbrev starts_number : Bytes → Bool
starts_number [] = false
starts_number (c ∷ s) = is_digit c

digits-starts_number :
    (k n : ℕ) (s : Bytes) → n < 10 ^ suc k → starts_number (digits 10 k n s) ≡ true
unfolding digits
digits-starts_number zero n s h = ground (arith, pow-suc 10 0)
digits-starts_number (suc k) n s h = ground (
  arith,
  pow-suc 10 (suc k),
  digits-starts_number k (n / 10) (upper_digit (n % 10) ∷ s) (omega (arith, pow-suc 10 (suc k))),
)

read_number-starts :
    (s : Bytes) → starts_number s ≡ true → read_number (32 ∷ s) ≡ some (read_digits 10 0 s)
unfolding read_number skip_blanks
read_number-starts [] h = absurd (ground arith)
read_number-starts (c ∷ s) h = ground arith

read_digits-ends :
    (n c : ℕ) (s : Bytes) → is_digit_of 10 c ≡ false → read_digits 10 n (c ∷ s) ≡ (n, c ∷ s)
unfolding read_digits
read_digits-ends n c s h = rw h refl

to_string-IsReadable : (n : ℕ) → n < u64_mod → IsReadable read_number to_string n
to_string-IsReadable n h c s d = rw (sym (digits-append 10 19 n [] (c ∷ s))) (
    read_number-starts (digits 10 19 n (c ∷ s)) (digits-starts_number 19 n (c ∷ s) (omega arith))
    ∙ ap (λ (r : ℕ × Bytes). some r) (read_digits-to_string n (c ∷ s) h ∙ read_digits-ends n c s d))

four_blanks : IsBlank (codes "    ")
unfolding skip_blanks
four_blanks s = refl

two_blanks : IsBlank (codes "  ")
unfolding skip_blanks
two_blanks s = refl

-- What stands behind the name of a module and the colon.
abbrev module_text : List (Bytes × ℕ) → Bytes
module_text values =
    codes "{"
    ++ entries first_line next_line (number_entry to_string) values
    ++ if_any values (codes "\n")
    ++ codes "  }"

number_entry-text :
    (e : Bytes × ℕ) (s : Bytes)
    → number_entry to_string e ++ s ≡ codes "    " ++ entry_text to_string e s
number_entry-text e s = simp append_assoc

module_entry-text :
    (e : Bytes × List (Bytes × ℕ)) (s : Bytes)
    → module_entry e ++ s ≡ codes "  " ++ entry_text module_text e s
unfolding module_entry
module_entry-text e s = simp append_assoc

-- The numbers of a module are below 2 ^ 64, and there are at most `n`.
abbrev pub AreNumbers : ℕ → List (Bytes × ℕ) → Type 0
AreNumbers n values = (length values ≤ n) × All (λ v. v.1 < u64_mod) values

numbers-IsReadable :
    (values : List (Bytes × ℕ))
    → All (λ v. v.1 < u64_mod) values
    → All (λ v. IsReadable read_number to_string v.1) values
numbers-IsReadable [] a = tt
numbers-IsReadable (v ∷ values) a = (to_string-IsReadable v.1 a.0, numbers-IsReadable values a.1)

read_object-blank :
    {A : Type 0} (value : Bytes → Option (A × Bytes)) (n : ℕ) (s : Bytes)
    → read_object value n (32 ∷ s) ≡ read_object value n s
unfolding read_object after_char skip_blanks
read_object-blank value n s = refl

module_text-IsReadable :
    (n : ℕ) (values : List (Bytes × ℕ))
    → AreNumbers n values
    → IsReadable (read_object read_number n) module_text values
module_text-IsReadable n values h c s d =
    let start =
      codes "{"
      ++ entries first_line next_line (number_entry to_string) values
      ++ if_any values (codes "\n") in
    ap (λ (t : Bytes). read_object read_number n (32 ∷ t))
      (append_assoc start (codes "  }") (c ∷ s)
        ∙ entries-object_text read_number to_string (codes "    ") (codes "  ") four_blanks
            two_blanks (number_entry to_string) number_entry-text values (c ∷ s))
    ∙ read_object-blank read_number n _
    ∙ read_object-text read_number to_string (codes "    ") (codes "  ") four_blanks two_blanks n
        values (c ∷ s) h.0 (numbers-IsReadable values h.1)

modules-IsReadable :
    (n : ℕ) (map : OffsetMap)
    → All (λ m. AreNumbers n m.1) map
    → All (λ m. IsReadable (read_object read_number n) module_text m.1) map
modules-IsReadable n [] a = tt
modules-IsReadable n (m ∷ map) a = (module_text-IsReadable n m.1 a.0, modules-IsReadable n map a.1)

-- A map whose numbers are below 2 ^ 64 is read back from what `nested_json` writes of it, in front of
-- any text: as an object of objects of numbers, where the reader allows for as many entries as there
-- are.
pub read_object-nested_json :
    (n : ℕ) (map : OffsetMap) (rest : Bytes)
    → length map ≤ n
    → All (λ m. AreNumbers n m.1) map
    → read_object (read_object read_number n) n (nested_json map ++ rest) ≡ some (map, rest)
unfolding nested_json
read_object-nested_json n map rest few a =
    let value = read_object read_number n in
    let start =
      codes "{" ++ entries first_line next_line module_entry map ++ if_any map (codes "\n") in
    ap (λ (t : Bytes). read_object value n t)
      (append_assoc start (codes "}") rest
        ∙ entries-object_text value module_text (codes "  ") [] two_blanks (λ t. refl) module_entry
            module_entry-text map rest)
    ∙ read_object-text value module_text (codes "  ") [] two_blanks (λ t. refl) n map rest few
        (modules-IsReadable n map a)
