-- ===== src/Scanner/Unique.antt =====
-- pattern.cpp: the scan with its filter and its early exit against the list of all matches.
use hardware_assisted_game_s.Base.{
  ℕ, zero, suc, ◌+◌, ◌-◌, ◌≤◌, ◌<◌, ◌≡◌, inl, inr, refl, true, Option, none, some, List, [], ◌∷◌,
  ◌++◌, length, Bytes, arith, Option-cases,
}
use hardware_assisted_game_s.Pattern.{Ops, nil, cons, byte, skip, save, read_u, follow_rel32}
use hardware_assisted_game_s.Pe.{PeImage}
use hardware_assisted_game_s.Scanner.{
  first_literal, execute, execute_op, differs, scan, find_unique_code,
}

-- The saves of each match whose start is among the `n` numbers from `start` on, in order.
unfoldable pub matches : Bytes → Ops → ℕ → ℕ → List (List ℕ)
matches bytes ops zero start = []
matches bytes ops (suc n) start = elim (execute bytes ops start (start ∷ [])) [
  | none ↦ matches bytes ops n (start + 1)
  | some r ↦ r.1 ∷ matches bytes ops n (start + 1)
]

-- The one element of a list that has just one.
abbrev pub the_only {ℓ} : {A : Type ℓ} → List A → Option A
the_only [] = none
the_only (a ∷ []) = some a
the_only (a ∷ b ∷ l) = none

-- The filter drops no match: where the first literal differs, the operations fail.
pub execute-differs :
    (bytes : Bytes) (ops : Ops) (start : ℕ) (saves : List ℕ)
    → differs bytes start (first_literal ops) ≡ true
    → execute bytes ops start saves ≡ none
unfolding execute execute_op first_literal
execute-differs bytes nil start saves h = cc
execute-differs bytes (cons (byte v) ops) start saves h = ground arith
execute-differs bytes (cons (skip n) ops) start saves h = cc
execute-differs bytes (cons save ops) start saves h =
    execute-differs bytes ops start (saves ++ start ∷ []) h
execute-differs bytes (cons (read_u n) ops) start saves h = cc
execute-differs bytes (cons (follow_rel32 sub) ops) start saves h = cc

scan-some :
    (bytes : Bytes) (ops : Ops) (n start : ℕ) (s : List ℕ)
    → scan bytes ops (first_literal ops) n start (some s) ≡ the_only (s ∷ matches bytes ops n start)
unfolding scan matches
scan-some bytes ops zero start s = refl
scan-some bytes ops (suc n) start s =
    ground
      (arith, execute-differs bytes ops start (start ∷ []), scan-some bytes ops n (start + 1) s)

scan-none :
    (bytes : Bytes) (ops : Ops) (n start : ℕ)
    → scan bytes ops (first_literal ops) n start none ≡ the_only (matches bytes ops n start)
unfolding scan matches
scan-none bytes ops zero start = refl
scan-none bytes ops (suc n) start = elim (Option-cases (execute bytes ops start (start ∷ []))) [
  | inl e ↦ ground (arith, scan-none bytes ops n (start + 1))
  | inr (r, e) ↦
      ground
        (arith, execute-differs bytes ops start (start ∷ []), scan-some bytes ops n (start + 1) r.1)
]

-- Over a non-empty range of code inside the image, `find_unique_code` is the one match of the
-- pattern in that range, and nothing where there is no match or more than one.
pub find_unique_code-matches :
    (p : PeImage) (ops : Ops)
    → p.code_begin < p.code_end
    → p.code_end ≤ length p.image
    → find_unique_code p ops
      ≡ the_only (matches p.image ops (p.code_end - p.code_begin) p.code_begin)
unfolding find_unique_code
find_unique_code-matches p ops a b =
    ground (arith, scan-none p.image ops (p.code_end - p.code_begin) p.code_begin)
