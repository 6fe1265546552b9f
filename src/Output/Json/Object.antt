-- ===== src/Output/Json/Object.antt =====
-- output.cpp: the layout of the objects in the files, and that the reader reads it.
use hardware_assisted_game_s.Base.{
  ℕ, zero, suc, ◌≤◌, ◌≡◌, refl, ap, ◌∙◌, false, Option, none, some, List, [], ◌∷◌, ◌++◌,
  append_assoc, All, Bytes, codes, length, ◌==◌, if◌then◌else◌, arith,
}
use hardware_assisted_game_s.Output.Json.{entries, if_any, first_line, next_line}
use hardware_assisted_game_s.Output.Text.{q}
use hardware_assisted_game_s.Output.Text.Escape.{unquote-q}
use hardware_assisted_game_s.Output.Text.Numbers.{is_digit_of}
use hardware_assisted_game_s.Output.Json.Reader.{
  skip_blanks, after_char, read_entry, read_entries, read_object,
}

-- A value that is written behind a blank and read back in front of what is no digit.
abbrev pub IsReadable : {A : Type 0} → (Bytes → Option (A × Bytes)) → (A → Bytes) → A → Type 0
IsReadable value show v =
    (c : ℕ) (s : Bytes)
    → is_digit_of 10 c ≡ false
    → value (32 ∷ (show v ++ c ∷ s)) ≡ some (v, c ∷ s)

-- An entry behind some blanks.
abbrev pub entry_text : {A : Type 0} → (A → Bytes) → Bytes × A → Bytes → Bytes
entry_text show e s = q e.0 ++ (b':' ∷ 32 ∷ (show e.1 ++ s))

skip_blanks-q : (name s : Bytes) → skip_blanks (q name ++ s) ≡ q name ++ s
unfolding skip_blanks
skip_blanks-q name s = refl

module _ {A : Type 0} (value : Bytes → Option (A × Bytes)) (show : A → Bytes) where
  read_entry-text :
      (e : Bytes × A) (c : ℕ) (s : Bytes)
      → IsReadable value show e.1
      → is_digit_of 10 c ≡ false
      → read_entry value (entry_text show e (c ∷ s)) ≡ some (e, c ∷ s)
  unfolding read_entry after_char skip_blanks
  read_entry-text e c s v d = rw (unquote-q e.0 (b':' ∷ 32 ∷ (show e.1 ++ c ∷ s)), v c s d) refl

abbrev pub IsBlank : Bytes → Type 0
IsBlank pad = (s : Bytes) → skip_blanks (pad ++ s) ≡ skip_blanks s

module _ {A : Type 0} (value : Bytes → Option (A × Bytes)) (show : A → Bytes) (pad close : Bytes)
    (pad_blank : IsBlank pad) (close_blank : IsBlank close) where
  -- What stands behind an entry: the further ones, and the end.
  unfoldable pub tail_text : List (Bytes × A) → Bytes → Bytes
  tail_text [] s = 10 ∷ (close ++ b'}' ∷ s)
  tail_text (e ∷ es) s = b',' ∷ 10 ∷ (pad ++ entry_text show e (tail_text es s))

  read_entry-pad : (s : Bytes) → read_entry value (10 ∷ (pad ++ s)) ≡ read_entry value s
  unfolding read_entry skip_blanks
  read_entry-pad s = rw (pad_blank s) refl

  after_close :
      (k : ℕ) (s : Bytes)
      → after_char k (10 ∷ (close ++ b'}' ∷ s)) ≡ (if b'}' == k then some s else none)
  unfolding after_char skip_blanks
  after_close k s = rw (close_blank (b'}' ∷ s)) refl

  after_comma : (s : Bytes) → after_char b',' (b',' ∷ s) ≡ some s
  unfolding after_char skip_blanks
  after_comma s = refl

  read_entries-text :
      (n : ℕ) (e : Bytes × A) (es : List (Bytes × A)) (s : Bytes)
      → length es ≤ n
      → All (λ x. IsReadable value show x.1) (e ∷ es)
      → read_entries value (suc n) (10 ∷ (pad ++ entry_text show e (tail_text es s)))
        ≡ some (e ∷ es, s)
  unfolding read_entries tail_text
  read_entries-text n e [] s few v =
      rw
        (
          read_entry-pad (entry_text show e (10 ∷ (close ++ b'}' ∷ s))),
          read_entry-text value show e 10 (close ++ b'}' ∷ s) v.0 refl,
          after_close b',' s,
          after_close b'}' s,
        )
        refl
  read_entries-text zero e (f ∷ es) s few v = absurd (omega arith)
  read_entries-text (suc n) e (f ∷ es) s few v =
      rw
        (
          read_entry-pad (entry_text show e (tail_text (f ∷ es) s)),
          read_entry-text value show e b',' (10 ∷ (pad ++ entry_text show f (tail_text es s))) v.0
              refl,
          after_comma (10 ∷ (pad ++ entry_text show f (tail_text es s))),
          read_entries-text n f es s (omega arith) v.1,
        )
        refl

  -- The text of an object.
  unfoldable pub object_text : List (Bytes × A) → Bytes → Bytes
  object_text [] s = b'{' ∷ (close ++ b'}' ∷ s)
  object_text (e ∷ es) s = b'{' ∷ 10 ∷ (pad ++ entry_text show e (tail_text es s))

  pub read_object-text :
      (n : ℕ) (es : List (Bytes × A)) (s : Bytes)
      → length es ≤ n
      → All (λ x. IsReadable value show x.1) es
      → read_object value n (object_text es s) ≡ some (es, s)
  unfolding read_object object_text after_char skip_blanks
  read_object-text n [] s few v = rw (close_blank (b'}' ∷ s)) refl
  read_object-text zero (e ∷ es) s few v = absurd (omega arith)
  read_object-text (suc n) (e ∷ es) s few v =
      rw
        (pad_blank (entry_text show e (tail_text es s)), read_entries-text n e es s (omega arith) v)
        refl

  module _ (write : Bytes × A → Bytes)
      (writes : (e : Bytes × A) (s : Bytes) → write e ++ s ≡ pad ++ entry_text show e s) where
    entries-tail_text :
        (es : List (Bytes × A)) (s : Bytes)
        → entries next_line next_line write es ++ (10 ∷ (close ++ b'}' ∷ s)) ≡ tail_text es s
    unfolding entries tail_text
    entries-tail_text [] s = refl
    entries-tail_text (e ∷ es) s =
        append_assoc (next_line ++ write e) (entries next_line next_line write es)
          (10 ∷ (close ++ b'}' ∷ s))
        ∙ ap (λ (t : Bytes). b',' ∷ 10 ∷ (write e ++ t)) (entries-tail_text es s)
        ∙ ap (λ (t : Bytes). b',' ∷ 10 ∷ t) (writes e (tail_text es s))

    pub entries-object_text :
        (es : List (Bytes × A)) (s : Bytes)
        → codes "{"
            ++ entries first_line next_line write es
            ++ if_any es (codes "\n")
            ++ (close ++ b'}' ∷ s)
          ≡ object_text es s
    unfolding entries object_text
    entries-object_text [] s = refl
    entries-object_text (e ∷ es) s =
        let more = entries next_line next_line write es in
        ap (λ (t : Bytes). b'{' ∷ 10 ∷ t)
          (append_assoc (write e ++ more) (10 ∷ []) (close ++ b'}' ∷ s)
            ∙ append_assoc (write e) more (10 ∷ (close ++ b'}' ∷ s))
            ∙ ap (λ (t : Bytes). write e ++ t) (entries-tail_text es s)
            ∙ writes e (tail_text es s))
