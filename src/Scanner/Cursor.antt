-- ===== src/Scanner/Cursor.antt =====
-- pattern.cpp: how far `execute` moves the cursor, and what it adds to the saves.
use hardware_assisted_game_s.Base.{
  ℕ, zero, suc, ◌+◌, ◌≤◌, ◌<◌, ◌≡◌, inl, inr, refl, sym, ◌∙◌, some, List, [], ◌∷◌, ◌++◌, length,
  length-append, append_assoc, append-nil, get_elem?, take, drop, Bytes, arith, u32_mod, le_word,
  Option-cases, >>=-eq-some,
}
use hardware_assisted_game_s.Pattern.{Op, Ops, nil, cons, byte, skip, save, read_u, follow_rel32}
use hardware_assisted_game_s.Scanner.{execute, execute_op, rel_target}

-- The bytes of code that a match covers, and the values that it saves.
unfoldable mutual
  pub width_op : Op → ℕ
  width_op (byte v) = 1
  width_op (skip n) = n
  width_op save = 0
  width_op (read_u n) = n
  width_op (follow_rel32 sub) = 4

  pub width : Ops → ℕ
  width nil = 0
  width (cons op ops) = width_op op + width ops

unfoldable mutual
  pub captures_op : Op → ℕ
  captures_op (byte v) = 0
  captures_op (skip n) = 0
  captures_op save = 1
  captures_op (read_u n) = 1
  captures_op (follow_rel32 sub) = captures sub

  pub captures : Ops → ℕ
  captures nil = 0
  captures (cons op ops) = captures_op op + captures ops

-- From `cursor` and `saves` to `r`: `n` bytes further, inside the image, with `k` more saves.
pub record Ran (size cursor n k : ℕ) (saves : List ℕ) (r : ℕ × List ℕ) : Type 0 where
  pub moved : r.0 ≡ cursor + n
  pub inside : r.0 ≤ size
  pub new : List ℕ
  pub kept : r.1 ≡ saves ++ new
  pub counted : length new ≡ k

Ran-trans :
    {size cursor n k m j : ℕ} {saves : List ℕ} {r s : ℕ × List ℕ}
    → Ran size cursor n k saves r
    → Ran size r.0 m j r.1 s
    → Ran size cursor (n + m) (k + j) saves s
Ran-trans {saves = saves} a b = record {
  moved = omega (arith, a.moved, b.moved);
  inside = b.inside;
  new = a.new ++ b.new;
  kept = b.kept ∙ rw a.kept (append_assoc saves a.new b.new);
  counted = omega (arith, length-append a.new b.new, a.counted, b.counted);
}

elem-lt : (bytes : Bytes) (i : ℕ) {b : ℕ} → get_elem? bytes i ≡ some b → i < length bytes
elem-lt [] i e = cc
elem-lt (x ∷ xs) zero e = omega arith
elem-lt (x ∷ xs) (suc i) e = omega (arith, elem-lt xs i e)

rel_target-lt :
    (size cursor w : ℕ) {t : ℕ} → size < u32_mod → rel_target size cursor w ≡ some t → t < size
unfolding rel_target
rel_target-lt size cursor w small e = ground arith

Ran-same :
    {size cursor n : ℕ} {saves : List ℕ} {r : ℕ × List ℕ}
    → r.0 ≡ cursor + n
    → r.0 ≤ size
    → r.1 ≡ saves
    → Ran size cursor n 0 saves r
Ran-same {saves = saves} a b e = record {
  moved = a;
  inside = b;
  new = [];
  kept = e ∙ sym (append-nil saves);
  counted = refl;
}

byte_moves :
    (bytes : Bytes) (v cursor : ℕ) (saves : List ℕ) (r : ℕ × List ℕ)
    → length bytes < u32_mod
    → execute_op bytes (byte v) cursor saves ≡ some r
    → (cursor < length bytes) × (r.0 ≡ cursor + 1) × (r.1 ≡ saves)
unfolding execute_op
byte_moves bytes v cursor saves r small e = elim (Option-cases (get_elem? bytes cursor)) [
  | inl m ↦ ground arith
  | inr (b, m) ↦ ground (arith, elem-lt bytes cursor m)
]

-- The group runs at a target in the image, and only its saves are kept.
follow_runs :
    (bytes : Bytes) (sub : Ops) (cursor : ℕ) (saves : List ℕ) (r : ℕ × List ℕ)
    → length bytes < u32_mod
    → execute_op bytes (follow_rel32 sub) cursor saves ≡ some r
    → (target : ℕ) × (q : ℕ × List ℕ) × (target ≤ length bytes)
      × (execute bytes sub target saves ≡ some q)
      × (r.0 ≡ cursor + 4)
      × (r.0 ≤ length bytes)
      × (r.1 ≡ q.1)
unfolding execute_op execute
follow_runs bytes nil cursor saves r small e =
    elim (Option-cases (rel_target (length bytes) cursor (le_word (take 4 (drop cursor bytes))))) [
      | inl m ↦ ground arith
      | inr (t, m) ↦
          let inside =
            rel_target-lt (length bytes) cursor (le_word (take 4 (drop cursor bytes))) small m in
          (t, (t, saves), omega arith, refl, ground arith, ground arith, ground arith)
    ]
follow_runs bytes (cons op ops) cursor saves r small e =
    elim (Option-cases (rel_target (length bytes) cursor (le_word (take 4 (drop cursor bytes))))) [
      | inl m ↦ ground arith
      | inr (t, m) ↦ elim (Option-cases (execute bytes (cons op ops) t saves)) [
        | inl f ↦ ground arith
        | inr (q, f) ↦
            let inside =
              rel_target-lt (length bytes) cursor (le_word (take 4 (drop cursor bytes))) small m in
            (t, q, omega arith, f, ground arith, ground arith, ground arith)
      ]
    ]

module _ (bytes : Bytes) (small : length bytes < u32_mod) where
  mutual
    unfolding execute_op execute width_op width captures_op captures

    execute_op-Ran :
        (op : Op) (cursor : ℕ) (saves : List ℕ) (r : ℕ × List ℕ)
        → cursor ≤ length bytes
        → execute_op bytes op cursor saves ≡ some r
        → Ran (length bytes) cursor (width_op op) (captures_op op) saves r
    execute_op-Ran (byte v) cursor saves r h e =
        let (inside, moved, same) = byte_moves bytes v cursor saves r small e in
        Ran-same moved (omega arith) same
    execute_op-Ran (skip n) cursor saves r h e =
        Ran-same (ground arith) (ground arith) (ground arith)
    execute_op-Ran save cursor saves r h e = record {
      moved = ground arith;
      inside = ground arith;
      new = cursor ∷ [];
      kept = ground arith;
      counted = refl;
    }
    execute_op-Ran (read_u n) cursor saves r h e = record {
      moved = ground arith;
      inside = ground arith;
      new = le_word (take n (drop cursor bytes)) ∷ [];
      kept = ground arith;
      counted = refl;
    }
    execute_op-Ran (follow_rel32 sub) cursor saves r h e =
        let (target, q, below, runs, moved, inside, same) =
          follow_runs bytes sub cursor saves r small e in
        let a = execute-Ran sub target saves q below runs in
        record {
          moved = moved;
          inside = inside;
          new = a.new;
          kept = same ∙ a.kept;
          counted = a.counted;
        }

    pub execute-Ran :
        (ops : Ops) (cursor : ℕ) (saves : List ℕ) (r : ℕ × List ℕ)
        → cursor ≤ length bytes
        → execute bytes ops cursor saves ≡ some r
        → Ran (length bytes) cursor (width ops) (captures ops) saves r
    execute-Ran nil cursor saves r h e = Ran-same (ground arith) (ground arith) (ground arith)
    execute-Ran (cons op ops) cursor saves r h e =
        let (q, first, later) =
          >>=-eq-some (execute_op bytes op cursor saves) (λ q. execute bytes ops q.0 q.1) e in
        let a = execute_op-Ran op cursor saves q h first in
        Ran-trans a (execute-Ran ops q.0 q.1 r a.inside later)
