-- ===== src/Output/Text/Slug.antt =====
-- output.cpp: `slugify`, and the names of namespaces, `snake_case(slugify(…))`.
use hardware_assisted_game_s.Base.{
  ℕ, ◌≡◌, refl, Bool, true, false, not, ◌&&◌, ◌||◌, [], ◌∷◌, ◌++◌, Bytes, is_digit, ◌==◌, arith,
}
use hardware_assisted_game_s.Output.Text.{
  is_upper, is_alnum, slug_chars, slug_front, slugify, snake_char, snake_from, snake_case,
}

-- The identifiers of C++ that are made of ASCII characters.
abbrev pub is_word : ℕ → Bool
is_word c = is_alnum c || c == b'_'

unfoldable pub all_words : Bytes → Bool
all_words [] = true
all_words (c ∷ s) = is_word c && all_words s

unfoldable pub is_identifier : Bytes → Bool
is_identifier [] = false
is_identifier (c ∷ s) = not (is_digit c) && is_word c && all_words s

slug_chars-all_words : (s : Bytes) → all_words (slug_chars s) ≡ true
unfolding all_words slug_chars
slug_chars-all_words [] = refl
slug_chars-all_words (c ∷ s) = ground (arith, slug_chars-all_words s)

slug_front-is_identifier : (s : Bytes) → all_words s ≡ true → is_identifier (slug_front s) ≡ true
unfolding all_words slug_front is_identifier
slug_front-is_identifier [] h = refl
slug_front-is_identifier (c ∷ s) h = ground arith

slug_chars-same : (s : Bytes) → all_words s ≡ true → slug_chars s ≡ s
unfolding all_words slug_chars
slug_chars-same [] h = refl
slug_chars-same (c ∷ s) h = ground (arith, slug_chars-same s)

slug_front-same : (s : Bytes) → is_identifier s ≡ true → (slug_front s ≡ s) × (all_words s ≡ true)
unfolding all_words slug_front is_identifier
slug_front-same [] h = absurd (ground arith)
slug_front-same (c ∷ s) h = ground arith

slug_identifier : (name : Bytes) → is_identifier (slugify name) ≡ true
slug_identifier name = slug_front-is_identifier (slug_chars name) (slug_chars-all_words name)

slug_same : (name : Bytes) → is_identifier name ≡ true → slugify name ≡ name
slug_same name h = let same = slug_front-same name h in rw (slug_chars-same name same.1) same.0

-- The same without capital letters.
unfoldable pub all_small : Bytes → Bool
all_small [] = true
all_small (c ∷ s) = is_word c && not (is_upper c) && all_small s

unfoldable pub is_small_identifier : Bytes → Bool
is_small_identifier [] = false
is_small_identifier (c ∷ s) = not (is_digit c) && all_small (c ∷ s)

all_small-append :
    (s t : Bytes) → all_small s ≡ true → all_small t ≡ true → all_small (s ++ t) ≡ true
unfolding all_small
all_small-append [] t h k = k
all_small-append (c ∷ s) t h k = ground (arith, all_small-append s t)

small_append :
    (s t : Bytes)
    → is_small_identifier s ≡ true
    → all_small t ≡ true
    → is_small_identifier (s ++ t) ≡ true
unfolding is_small_identifier all_small
small_append [] t h k = absurd (ground arith)
small_append (c ∷ s) t h k = ground (arith, all_small-append s t)

snake_char-all_small :
    (later : Bool) (out : Bytes) (c : ℕ)
    → is_word c ≡ true
    → all_small (snake_char later out c) ≡ true
unfolding all_small snake_char
snake_char-all_small later out c h = ground arith

-- The loop of `snake_case` adds small words only.
snake_from-is_small_identifier :
    (later : Bool) (out s : Bytes)
    → is_small_identifier out ≡ true
    → all_words s ≡ true
    → is_small_identifier (snake_from later out s) ≡ true
unfolding snake_from all_words
snake_from-is_small_identifier later out [] o h = o
snake_from-is_small_identifier later out (c ∷ s) o h = ground (
  arith,
  small_append out (snake_char later out c),
  snake_char-all_small later out c,
  snake_from-is_small_identifier true (out ++ snake_char later out c) s,
)

first_small :
    (c : ℕ)
    → is_digit c ≡ false
    → is_word c ≡ true
    → is_small_identifier (snake_char false [] c) ≡ true
unfolding is_small_identifier all_small snake_char
first_small c d w = ground arith

snake_case-is_small_identifier :
    (s : Bytes) → is_identifier s ≡ true → is_small_identifier (snake_case s) ≡ true
unfolding snake_from is_identifier
snake_case-is_small_identifier [] h = absurd (ground arith)
snake_case-is_small_identifier (c ∷ s) h =
    ground (arith, first_small c, snake_from-is_small_identifier true (snake_char false [] c) s)

-- Whatever a name is, its slug is an identifier of C++, which is its own slug; and the name of a
-- namespace, `snake_case` of the slug, is an identifier without capital letters.
pub slugify-is_identifier :
    (name : Bytes)
    → (is_identifier (slugify name) ≡ true)
      × (slugify (slugify name) ≡ slugify name)
      × (is_small_identifier (snake_case (slugify name)) ≡ true)
slugify-is_identifier name =
    let slug = slug_identifier name in
    (slug, slug_same (slugify name) slug, snake_case-is_small_identifier (slugify name) slug)
