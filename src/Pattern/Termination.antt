-- ===== src/Pattern/Termination.antt =====
-- pattern.cpp: the parser reads forward only, so it ends on every text.
use hardware_assisted_game_s.Base.{
  hex_value, ℕ, zero, suc, ◌+◌, ◌*◌, ◌-◌, ◌%◌, ◌≤◌, ◌<◌, ◌≢◌, Bool, true, false, Option, none, [],
  ◌∷◌, length, Bytes, arith, u32_mod,
}
use hardware_assisted_game_s.Pattern.{
  Ops, Token, single, group, fail, Result, ok, err, stuck, skip_spaces, read_digits, close_skip,
  read_size, follow, low_digit, token, parse_until, parse,
}

pub skip_spaces-le : (s : Bytes) → length (skip_spaces s) ≤ length s
unfolding skip_spaces
skip_spaces-le [] = omega arith
skip_spaces-le (c ∷ s) = ground (arith, skip_spaces-le s)

read_digits-le : (n : ℕ) (any : Bool) (s : Bytes) → length (read_digits n any s).2 ≤ length s
unfolding read_digits
read_digits-le n any [] = omega arith
read_digits-le n any (c ∷ s) =
    ground (arith, read_digits-le ((n * 10 + (c - b'0')) % u32_mod) true s)

-- What a token leaves is no longer than `n`.
abbrev Leaves : ℕ → Token → Type 0
Leaves n (single op r) = length r ≤ n
Leaves n (group r) = length r ≤ n
Leaves n (fail e) = Unit

close_skip-Leaves : (d : ℕ × Bool × Bytes) → Leaves (length d.2) (close_skip d)
unfolding close_skip
close_skip-Leaves (n, any, []) = tt
close_skip-Leaves (n, any, c ∷ s) = ground arith

read_size-Leaves : (s : Bytes) → Leaves (length s) (read_size s)
unfolding read_size
read_size-Leaves [] = tt
read_size-Leaves (c ∷ s) = ground arith

follow-Leaves : (s : Bytes) → Leaves (length s) (follow s)
unfolding follow
follow-Leaves [] = omega arith
follow-Leaves (c ∷ s) = ground arith

low_digit-Leaves : (hi : ℕ) (s : Bytes) → Leaves (length s) (low_digit hi s)
unfolding low_digit
low_digit-Leaves hi [] = tt
low_digit-Leaves hi (c ∷ s) = ground arith

Leaves-mono : (t : Token) {n m : ℕ} → n ≤ m → Leaves n t → Leaves m t
Leaves-mono (single op r) h l = omega arith
Leaves-mono (group r) h l = omega arith
Leaves-mono (fail e) h l = tt

token-Leaves : (c : ℕ) (s : Bytes) → Leaves (length s) (token c s)
unfolding token
token-Leaves c s = ground (
  arith,
  Leaves-mono (close_skip (read_digits 0 false s)) (read_digits-le 0 false s)
      (close_skip-Leaves (read_digits 0 false s)),
  read_size-Leaves s,
  Leaves-mono (follow (skip_spaces s)) (skip_spaces-le s) (follow-Leaves (skip_spaces s)),
  Leaves-mono (low_digit (hex_value c) (skip_spaces s)) (skip_spaces-le s)
      (low_digit-Leaves (hex_value c) (skip_spaces s)),
)

-- The parser comes to a result, and what it has not read is no longer than `n`.
abbrev Ends : ℕ → Result (Ops × Bytes) → Type 0
Ends n (ok r) = length r.1 ≤ n
Ends n (err e) = Unit
Ends n stuck = ⊥

parse_until-Ends :
    (f : ℕ) (t : Option ℕ) (s : Bytes) → length s < f → Ends (length s) (parse_until f t s)
unfolding parse_until
parse_until-Ends zero t s h = absurd (omega arith)
parse_until-Ends (suc f) t s h = grind (arith, skip_spaces-le, token-Leaves, parse_until-Ends f)

-- The fuel of `parse` is enough: each text has a result, or an error of the source.
pub parse-ne-stuck : (text : Bytes) → parse text ≢ stuck
unfolding parse
parse-ne-stuck text = ground (arith, parse_until-Ends (suc (length text)) none text)
