-- ===== src/Pattern.antt =====
-- projects/cs2-dumper-cpp-standalone/src/pattern.cpp: the class `Parser`, which turns the text of a
-- signature into operations. The text not yet read stands for the position in it.
pub mod Termination
pub mod RoundTrip
mod Tests
use hardware_assisted_game_s.Base.{
  ℕ, zero, suc, ◌+◌, ◌-◌, ◌*◌, ◌%◌, Bool, true, false, not, ◌&&◌, ◌||◌, Option, none, some, List,
  [], ◌∷◌, length, Bytes, u32_mod, is_space, is_digit, is_hex, to_lower, hex_value, ltb, leb, ◌==◌,
  if◌then◌else◌,
}

-- `Pattern::Op`: the kind, with the value or the operations below it where the kind has them.
mutual
  pub data Op : Type 0 where
    byte : ℕ → Op
    skip : ℕ → Op
    save : Op
    read_u : ℕ → Op
    follow_rel32 : Ops → Op

  pub data Ops : Type 0 where
    nil : Ops
    cons : Op → Ops → Ops

-- The reasons of the runtime errors.
pub data Error : Type 0 where
  unterminated invalid_skip unsupported_read odd_hex_digit : Error
  unsupported_token : ℕ → Error

-- `stuck` is no outcome of the source: the model's fuel has run out.
pub data Result {ℓ} (A : Type ℓ) : Type ℓ where
  ok : A → Result A
  err : Error → Result A
  stuck : Result A

infixl 5 ◌>>=◌
abbrev pub ◌>>=◌ {ℓ κ} : {A : Type ℓ} {B : Type κ} → Result A → (A → Result B) → Result B
ok a >>= f = f a
err e >>= f = err e
stuck >>= f = stuck

unfoldable pub skip_spaces : Bytes → Bytes
skip_spaces [] = []
skip_spaces (c ∷ s) = if is_space c then skip_spaces s else c ∷ s

-- The loop over the digits in `[N]`: the number so far, whether there was a digit, and the rest.
unfoldable pub read_digits : ℕ → Bool → Bytes → ℕ × Bool × Bytes
read_digits n any [] = (n, any, [])
read_digits n any (c ∷ s) =
    let more = read_digits ((n * 10 + (c - b'0')) % u32_mod) true s in
    if is_digit c then more else (n, any, c ∷ s)

-- What one token makes the parser do: push an operation, read a group in braces, or throw.
pub data Token : Type 0 where
  single : Op → Bytes → Token
  group : Bytes → Token
  fail : Error → Token

unfoldable pub close_skip : ℕ × Bool × Bytes → Token
close_skip (n, any, []) = fail invalid_skip
close_skip (n, any, c ∷ s) = if any && c == b']' then single (skip n) s else fail invalid_skip

unfoldable pub read_size : Bytes → Token
read_size [] = fail unsupported_read
read_size (c ∷ s) =
    if c == b'1' || c == b'2' || c == b'4'
    then single (read_u (c - b'0')) s
    else fail unsupported_read

unfoldable pub follow : Bytes → Token
follow [] = single (follow_rel32 nil) []
follow (c ∷ s) = if c == b'{' then group s else single (follow_rel32 nil) (c ∷ s)

-- `(hi << 4) | lo`, whose bits do not meet.
unfoldable pub low_digit : ℕ → Bytes → Token
low_digit hi [] = fail odd_hex_digit
low_digit hi (c ∷ s) =
    if is_hex c then single (byte (hi * 16 + hex_value c)) s else fail odd_hex_digit

-- The chain of tests on the character `c` at the position; `s` follows it.
unfoldable pub token : ℕ → Bytes → Token
token c s =
    if c == b'?'
    then single (skip 1) s
    else if c == b'\''
    then single save s
    else if c == b'['
    then close_skip (read_digits 0 false s)
    else if c == b'u'
    then read_size s
    else if c == b'$'
    then follow (skip_spaces s)
    else if is_hex c
    then low_digit (hex_value c) (skip_spaces s)
    else fail (unsupported_token c)

-- The terminator is absent at the top and `}` in a group.
abbrev pub is_terminator : Option ℕ → ℕ → Bool
is_terminator none c = false
is_terminator (some t) c = c == t

abbrev pub at_end : Option ℕ → Result (Ops × Bytes)
at_end none = ok (nil, [])
at_end (some t) = err unterminated

abbrev pub push : Op → Result (Ops × Bytes) → Result (Ops × Bytes)
push op m = m >>= λ r. ok (cons op r.0, r.1)

-- `parse_until`: one round of the loop takes a unit of fuel, and so does a group. The operations of
-- the later rounds are put behind the one that this round pushes.
unfoldable pub parse_until : ℕ → Option ℕ → Bytes → Result (Ops × Bytes)
parse_until zero t s = stuck
parse_until (suc f) t s = elim (skip_spaces s) [
  | [] ↦ at_end t
  | c ∷ r ↦ elim (is_terminator t c) [
    | true ↦ ok (nil, r)
    | false ↦ elim (token c r) [
      | single op r' ↦ push op (parse_until f t r')
      | group r' ↦
          parse_until f (some b'}') r' >>= λ sub. push (follow_rel32 sub.0) (parse_until f t sub.1)
      | fail e ↦ err e
    ]
  ]
]

-- The constructor of `Pattern`. Every round reads a character, so the length of the text is enough.
unfoldable pub parse : Bytes → Result Ops
parse text = parse_until (suc (length text)) none text >>= λ r. ok r.0
