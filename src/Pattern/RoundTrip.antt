-- ===== src/Pattern/RoundTrip.antt =====
-- pattern.cpp: the parser against a printer of operations, which the source does not have. The
-- printer writes in front of a given rest.
use native.Mathlib.Nat.{pow-suc}
use hardware_assisted_game_s.Base.{
  is_space, is_hex, hex_value, ℕ, zero, suc, ◌+◌, ◌*◌, ◌-◌, ◌/◌, ◌%◌, ◌≤◌, ◌<◌, ◌^◌, ◌≡◌, ◌⊎◌, inl,
  inr, refl, ap, ◌∙◌, Bool, true, false, Option, none, some, [], ◌∷◌, length, Bytes, arith, u32_mod,
  if◌then◌else◌, ltb, ◌==◌, Bool-cases,
}
use hardware_assisted_game_s.Pattern.{
  Ops, Op, nil, cons, byte, skip, save, read_u, single, ok, skip_spaces, read_digits, close_skip,
  read_size, follow, low_digit, token, parse_until, parse, push, follow_rel32,
}

abbrev hex_digit : ℕ → ℕ
hex_digit d = if ltb d 10 then d + b'0' else d - 10 + b'a'

-- A number below 10 ^ (k + 1) in decimal.
unfoldable pub decimal : ℕ → ℕ → Bytes → Bytes
decimal zero n rest = (n + b'0') ∷ rest
decimal (suc k) n rest =
    if ltb n 10 then (n + b'0') ∷ rest else decimal k (n / 10) ((n % 10 + b'0') ∷ rest)

unfoldable mutual
  pub show_op : Op → Bytes → Bytes
  show_op (byte b) rest = hex_digit (b / 16) ∷ hex_digit (b % 16) ∷ rest
  show_op (skip n) rest = b'[' ∷ decimal 9 n (b']' ∷ rest)
  show_op save rest = b'\'' ∷ rest
  show_op (read_u n) rest = b'u' ∷ (n + b'0') ∷ rest
  show_op (follow_rel32 sub) rest = b'$' ∷ b'{' ∷ show sub (b'}' ∷ rest)

  pub show : Ops → Bytes → Bytes
  show nil rest = rest
  show (cons op ops) rest = show_op op (show ops rest)

mutual
  size_op : Op → ℕ
  size_op (byte b) = 1
  size_op (skip n) = 1
  size_op save = 1
  size_op (read_u n) = 1
  size_op (follow_rel32 sub) = 1 + size sub

  size : Ops → ℕ
  size nil = 0
  size (cons op ops) = size_op op + size ops

-- The operations that the text of a pattern can express.
unfoldable mutual
  pub IsWritable : Op → Type 0
  IsWritable (byte b) = b < 256
  IsWritable (skip n) = n < u32_mod
  IsWritable save = Unit
  IsWritable (read_u n) = (n ≡ 1) ⊎ (n ≡ 2) ⊎ (n ≡ 4)
  IsWritable (follow_rel32 sub) = AreWritable sub

  pub AreWritable : Ops → Type 0
  AreWritable nil = Unit
  AreWritable (cons op ops) = IsWritable op × AreWritable ops

hex_digit-value : (d : ℕ) → d < 16 → (is_hex (hex_digit d) ≡ true) × (hex_value (hex_digit d) ≡ d)
hex_digit-value d h = ground arith

token-hex : (d : ℕ) (s : Bytes) → d < 16 → token (hex_digit d) s ≡ low_digit d (skip_spaces s)
unfolding token
token-hex d s h = ground arith

low_digit-hex :
    (hi d : ℕ) (rest : Bytes)
    → d < 16
    → low_digit hi (hex_digit d ∷ rest) ≡ single (byte (hi * 16 + d)) rest
unfolding low_digit
low_digit-hex hi d rest h = ground (arith, hex_digit-value d h)

skip_spaces-hex :
    (d : ℕ) (rest : Bytes) → d < 16 → skip_spaces (hex_digit d ∷ rest) ≡ hex_digit d ∷ rest
unfolding skip_spaces
skip_spaces-hex d rest h = ground arith

token-byte :
    (b : ℕ) (rest : Bytes)
    → b < 256
    → token (hex_digit (b / 16)) (hex_digit (b % 16) ∷ rest) ≡ single (byte b) rest
token-byte b rest h =
    token-hex (b / 16) (hex_digit (b % 16) ∷ rest) (omega arith)
    ∙ ap (low_digit (b / 16)) (skip_spaces-hex (b % 16) rest (omega arith))
    ∙ low_digit-hex (b / 16) (b % 16) rest (omega arith)
    ∙ ap (λ (v : ℕ). single (byte v) rest) (omega arith)

read_digits-digit :
    (n d m : ℕ) (any : Bool) (rest : Bytes)
    → d < 10
    → n * 10 + d ≡ m
    → m < u32_mod
    → read_digits n any ((d + b'0') ∷ rest) ≡ read_digits m true rest
unfolding read_digits
read_digits-digit n d m any rest h e p = ground arith

-- The parser has read the digits in front of `rest`.
read_digits-decimal :
    (k n : ℕ) (rest : Bytes)
    → n < 10 ^ suc k
    → n < u32_mod
    → read_digits 0 false (decimal k n rest) ≡ read_digits n true rest
unfolding decimal
read_digits-decimal zero n rest h p =
    read_digits-digit 0 n n false rest (omega arith) (omega arith) p
read_digits-decimal (suc k) n rest h p = elim (Bool-cases (ltb n 10)) [
  | inl one ↦ rw one (read_digits-digit 0 n n false rest (ground arith) (ground arith) p)
  | inr more ↦ rw more (
      read_digits-decimal k (n / 10) ((n % 10 + b'0') ∷ rest) (omega (arith, pow-suc 10 (suc k)))
        (omega arith)
      ∙ read_digits-digit (n / 10) (n % 10) n true rest (omega arith) (omega arith) p)
]

close_skip-decimal :
    (n : ℕ) (rest : Bytes)
    → n < u32_mod
    → close_skip (read_digits 0 false (decimal 9 n (b']' ∷ rest))) ≡ single (skip n) rest
unfolding close_skip read_digits
close_skip-decimal n rest h = rw (read_digits-decimal 9 n (b']' ∷ rest) (omega arith) h)

-- One round of the loop on a printed operation without a group.
Simple : Op → Type 0
Simple op =
    (rest : Bytes)
    → (c : ℕ) × (s : Bytes) × (show_op op rest ≡ c ∷ s)
      × (is_space c ≡ false)
      × ((c == b'}') ≡ false)
      × (token c s ≡ single op rest)

Simple-byte : (b : ℕ) → b < 256 → Simple (byte b)
unfolding Simple show_op
Simple-byte b h rest = (
  hex_digit (b / 16),
  hex_digit (b % 16) ∷ rest,
  refl,
  ground arith,
  ground arith,
  token-byte b rest h,
)

Simple-skip : (n : ℕ) → n < u32_mod → Simple (skip n)
unfolding Simple show_op token
Simple-skip n h rest =
    (b'[', decimal 9 n (b']' ∷ rest), refl, refl, refl, close_skip-decimal n rest h)

Simple-save : Simple save
unfolding Simple show_op token
Simple-save rest = (b'\'', rest, refl, refl, refl, refl)

Simple-read_u : (n : ℕ) → (n ≡ 1) ⊎ (n ≡ 2) ⊎ (n ≡ 4) → Simple (read_u n)
unfolding Simple show_op token read_size
Simple-read_u n h rest = (b'u', (n + b'0') ∷ rest, refl, refl, refl, ground arith)

-- The terminators that the parser is called with, and the texts at which it stops.
data Stops : Option ℕ → Bytes → Bytes → Type 0 where
  at_text_end : Stops none [] []
  at_brace : {rest : Bytes} → Stops (some b'}') (b'}' ∷ rest) rest

data IsTerminator : Option ℕ → Type 0 where
  absent : IsTerminator none
  brace : IsTerminator (some b'}')

parse_until_single :
    (f : ℕ) {t : Option ℕ} (op : Op) (rest : Bytes)
    → IsTerminator t
    → Simple op
    → parse_until (suc f) t (show_op op rest) ≡ push op (parse_until f t rest)
unfolding parse_until Simple skip_spaces
parse_until_single f op rest absent simple =
    let (c, s, shown, solid, apart, read) = simple rest in rw shown (ground arith)
parse_until_single f op rest brace simple =
    let (c, s, shown, solid, apart, read) = simple rest in rw shown (ground arith)

parse_until_stop :
    (f : ℕ) {t : Option ℕ} {s rest : Bytes}
    → Stops t s rest
    → parse_until (suc f) t s ≡ ok (nil, rest)
unfolding parse_until skip_spaces
parse_until_stop f at_text_end = refl
parse_until_stop f at_brace = refl

parse_until_group :
    (f : ℕ) {t : Option ℕ} (sub : Ops) (inner rest : Bytes)
    → IsTerminator t
    → parse_until f (some b'}') inner ≡ ok (sub, rest)
    → parse_until (suc f) t (b'$' ∷ b'{' ∷ inner) ≡ push (follow_rel32 sub) (parse_until f t rest)
unfolding parse_until skip_spaces token follow
parse_until_group f sub inner rest absent e = rw e
parse_until_group f sub inner rest brace e = rw e

Stops-IsTerminator : {t : Option ℕ} {s rest : Bytes} → Stops t s rest → IsTerminator t
Stops-IsTerminator at_text_end = absent
Stops-IsTerminator at_brace = brace

-- Fuel above the size is enough to read the operations up to where the parser stops.
parse_until-show :
    (f : ℕ) {t : Option ℕ} (ops : Ops) {s rest : Bytes}
    → AreWritable ops
    → Stops t s rest
    → size ops < f
    → parse_until f t (show ops s) ≡ ok (ops, rest)
unfolding show size AreWritable IsWritable size_op
parse_until-show zero ops w stops h = absurd (omega arith)
parse_until-show (suc f) nil w stops h = parse_until_stop f stops
parse_until-show (suc f) (cons (byte b) ops) {s} (w, ws) stops h =
    parse_until_single f (byte b) (show ops s) (Stops-IsTerminator stops) (Simple-byte b w)
    ∙ ap (push (byte b)) (parse_until-show f ops ws stops (omega arith))
parse_until-show (suc f) (cons (skip n) ops) {s} (w, ws) stops h =
    parse_until_single f (skip n) (show ops s) (Stops-IsTerminator stops) (Simple-skip n w)
    ∙ ap (push (skip n)) (parse_until-show f ops ws stops (omega arith))
parse_until-show (suc f) (cons save ops) {s} (w, ws) stops h =
    parse_until_single f save (show ops s) (Stops-IsTerminator stops) Simple-save
    ∙ ap (push save) (parse_until-show f ops ws stops (omega arith))
parse_until-show (suc f) (cons (read_u n) ops) {s} (w, ws) stops h =
    parse_until_single f (read_u n) (show ops s) (Stops-IsTerminator stops) (Simple-read_u n w)
    ∙ ap (push (read_u n)) (parse_until-show f ops ws stops (omega arith))
parse_until-show (suc f) (cons (follow_rel32 sub) ops) {s} (w, ws) stops h =
    parse_until_group f sub (show sub (b'}' ∷ show ops s)) (show ops s) (Stops-IsTerminator stops)
      (parse_until-show f sub w at_brace (omega arith))
    ∙ ap (push (follow_rel32 sub)) (parse_until-show f ops ws stops (omega arith))

decimal-length : (k n : ℕ) (rest : Bytes) → length rest < length (decimal k n rest)
unfolding decimal
decimal-length zero n rest = omega arith
decimal-length (suc k) n rest = ground (arith, decimal-length k (n / 10) ((n % 10 + b'0') ∷ rest))

mutual
  unfolding show_op show size_op size

  show_op-length : (op : Op) (rest : Bytes) → size_op op + length rest ≤ length (show_op op rest)
  show_op-length (byte b) rest = omega arith
  show_op-length (skip n) rest = omega (arith, decimal-length 9 n (b']' ∷ rest))
  show_op-length save rest = omega arith
  show_op-length (read_u n) rest = omega arith
  show_op-length (follow_rel32 sub) rest = omega (arith, show-length sub (b'}' ∷ rest))

  show-length : (ops : Ops) (rest : Bytes) → size ops + length rest ≤ length (show ops rest)
  show-length nil rest = omega arith
  show-length (cons op ops) rest =
      omega (arith, show_op-length op (show ops rest), show-length ops rest)

-- `Pattern`'s constructor reads back every list of operations, printed: bytes below 256, skips of 32
-- bits, reads of 1, 2 or 4 bytes, and groups of such operations to any depth.
pub parse-show : (ops : Ops) → AreWritable ops → parse (show ops []) ≡ ok ops
unfolding parse
parse-show ops w = rw (
    parse_until-show (suc (length (show ops []))) ops w at_text_end
      (omega (arith, show-length ops [])))
