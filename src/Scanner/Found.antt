-- ===== src/Scanner/Found.antt =====
-- pattern.cpp: what a result of `find_unique_code` says of the image.
use hardware_assisted_game_s.Base.{
  ℕ, zero, suc, ◌+◌, ◌-◌, ◌≤◌, ◌<◌, ◌≡◌, ◌≢◌, inl, inr, refl, sym, ap, ◌∙◌, true, none, some, List,
  [], ◌∷◌, length, get_elem?, Bytes, arith, u32_mod, Option-cases,
}
use native.Mathlib.Decide.{ℕ_discrete}
use hardware_assisted_game_s.Pattern.{Ops}
use hardware_assisted_game_s.Pe.{pe_image}
use hardware_assisted_game_s.Pe.Bounds.{pe_image-bounds, pe_image-image}
use hardware_assisted_game_s.Scanner.{execute, find_unique_code}
use hardware_assisted_game_s.Scanner.Cursor.{width, captures, execute-Ran}
use hardware_assisted_game_s.Scanner.Unique.{matches, the_only, find_unique_code-matches}

-- `start` is the one place from `lo` to below `hi` at which the pattern matches; the match lies in
-- the image, and its saves are the start and one value for each capture of the pattern.
pub record OnlyMatch (bytes : Bytes) (ops : Ops) (lo hi : ℕ) (saves : List ℕ) : Type 0 where
  pub start : ℕ
  pub from : lo ≤ start
  pub below : start < hi
  pub stop : ℕ
  pub runs : execute bytes ops start (start ∷ []) ≡ some (stop, saves)
  pub others : (k : ℕ) → lo ≤ k → k < hi → k ≢ start → execute bytes ops k (k ∷ []) ≡ none

module _ (bytes : Bytes) (ops : Ops) where
  no_match :
      (n start k : ℕ)
      → matches bytes ops n start ≡ []
      → start ≤ k
      → k < start + n
      → execute bytes ops k (k ∷ []) ≡ none
  unfolding matches
  no_match zero start k e a b = absurd (omega arith)
  no_match (suc n) start k e a b = elim (Option-cases (execute bytes ops start (start ∷ []))) [
    | inl m ↦ elim (ℕ_discrete start k) [
      | yes same ↦ rw (← same) m
      | no apart ↦ no_match n (start + 1) k (ground arith) (omega arith) (omega arith)
    ]
    | inr (r, m) ↦ ground arith
  ]

  one_match :
      (n start : ℕ) (s : List ℕ)
      → the_only (matches bytes ops n start) ≡ some s
      → OnlyMatch bytes ops start (start + n) s
  unfolding matches
  one_match zero start s e = cc
  one_match (suc n) start s e = elim (Option-cases (execute bytes ops start (start ∷ []))) [
    | inl m ↦
        let later = one_match n (start + 1) s (ground arith) in
        record {
          start = later.start;
          from = omega (arith, later.from);
          below = omega (arith, later.below);
          stop = later.stop;
          runs = later.runs;
          others = λ k a b ne. elim (ℕ_discrete start k) [
            | yes same ↦ rw (← same) m
            | no apart ↦ later.others k (omega arith) (omega arith) ne
          ];
        }
    | inr (r, m) ↦ record {
      start = start;
      from = omega arith;
      below = omega arith;
      stop = r.0;
      runs = ground arith;
      others = λ k a b ne. no_match n (start + 1) k (ground arith) (ground arith) (omega arith);
    }
  ]

-- On a valid image a result is that of the only match in the range of code.
pub find_unique_code-OnlyMatch :
    (image : Bytes) (ops : Ops) (s : List ℕ)
    → (pe_image image).valid ≡ true
    → find_unique_code (pe_image image) ops ≡ some s
    → OnlyMatch image ops (pe_image image).code_begin (pe_image image).code_end s
find_unique_code-OnlyMatch image ops s v e =
    let (order, inside) = pe_image-bounds image v in
    let p = pe_image image in
    let span : p.code_begin + (p.code_end - p.code_begin) ≡ p.code_end = omega arith in
    let same = pe_image-image image in
    let found = find_unique_code-matches p ops order (rw same inside) in
    rw span at
      (one_match image ops (p.code_end - p.code_begin) p.code_begin s (rw same at (sym found ∙ e)))

OnlyMatch-saves :
    (bytes : Bytes) (ops : Ops) (lo hi : ℕ) (s : List ℕ) (m : OnlyMatch bytes ops lo hi s)
    → length bytes < u32_mod
    → hi ≤ length bytes
    → (m.stop ≡ m.start + width ops)
      × (m.stop ≤ length bytes)
      × (get_elem? s 0 ≡ some m.start)
      × (length s ≡ suc (captures ops))
OnlyMatch-saves bytes ops lo hi s m small inside =
    let r =
      execute-Ran bytes small ops m.start (m.start ∷ []) (m.stop, s) (omega (arith, m.below))
        m.runs in
    (r.moved, r.inside, rw r.kept refl, omega (arith, r.counted, ap length r.kept))

-- What `find_unique_code` returns on a valid image below 4 GiB: the saves of the only place in the
-- range of code at which the pattern matches. The match covers the pattern's width and ends inside
-- the image; there is one save more than the pattern's captures, the first of which is the start.
pub find_unique_code-saves :
    (image : Bytes) (ops : Ops) (s : List ℕ)
    → length image < u32_mod
    → (pe_image image).valid ≡ true
    → find_unique_code (pe_image image) ops ≡ some s
    → (m : OnlyMatch image ops (pe_image image).code_begin (pe_image image).code_end s) × (m.stop
        ≡ m.start + width ops)
      × (m.stop ≤ length image)
      × (get_elem? s 0 ≡ some m.start)
      × (length s ≡ suc (captures ops))
find_unique_code-saves image ops s small v e =
    let m = find_unique_code-OnlyMatch image ops s v e in
    let (a, b, c, d) =
      OnlyMatch-saves image ops (pe_image image).code_begin (pe_image image).code_end s m small
        (pe_image-bounds image v).1 in
    (m, a, b, c, d)
