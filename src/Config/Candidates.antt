-- ===== src/Config/Candidates.antt =====
-- runtime_config.cpp: which candidates a name has after a signature file, and the groups of offsets.
use hardware_assisted_game_s.Base.{
  ℕ, ◌+◌, ◌≡◌, ◌⊎◌, inl, inr, refl, sym, ap, ◌∙◌, true, false, Option, none, some, List, [], ◌∷◌,
  ◌++◌, append_assoc, append-nil, Bytes, codes, bytes_eq_iff, arith, Bool-cases, if◌then◌else◌,
}
use hardware_assisted_game_s.Base.Maps.{
  lookup, insert, lookup-insert, pair_key, pair_eq, pair_eq_iff,
}
use hardware_assisted_game_s.Config.Text.{
  Error, Result, ok, err, unopened, lines_of, split_pipe, trim, starts_with, ◌>>=◌,
}
use hardware_assisted_game_s.Config.{
  SignatureCandidate, SignatureValueKind, SignatureCallback, parse_kind, parse_callback, is_skipped,
  SignatureDatabase, candidate_of, read_signatures, matching, candidates, prepend_file, or_empty,
  Groups, group_from, offset_groups,
}

Result-cases : {A : Type 0} (r : Result A) → ((a : A) × (r ≡ ok a)) ⊎ ((e : Error) × (r ≡ err e))
Result-cases (ok a) = inl (a, refl)
Result-cases (err e) = inr (e, refl)

matching-append :
    (m n : Bytes) (cs ds : List SignatureCandidate)
    → matching m n (cs ++ ds) ≡ matching m n cs ++ matching m n ds
unfolding matching
matching-append m n [] ds = refl
matching-append m n (c ∷ cs) ds = ground (arith, matching-append m n cs ds)

-- The five parts of a line that make a candidate, which is marked external.
abbrev pub IsLine : List Bytes → SignatureCandidate → Type 0
IsLine parts c =
    (kind : Bytes) × (callback : Bytes) × (parts
      ≡ c.module_name ∷ c.name ∷ kind ∷ callback ∷ c.pattern_text ∷ [])
    × (parse_kind kind ≡ ok c.kind)
    × (parse_callback callback ≡ ok c.callback)
    × (c.external ≡ true)

-- The lines of a file, blank lines and comments apart, make these candidates, one each and in order.
abbrev pub AreLines : List Bytes → List SignatureCandidate → Type 0
AreLines [] [] = Unit
AreLines [] (c ∷ cs) = ⊥
AreLines (raw ∷ rest) cs =
    ((is_skipped (trim raw) ≡ true) × AreLines rest cs)
    ⊎ ((is_skipped (trim raw) ≡ false)
        × (c : SignatureCandidate) × (later : List SignatureCandidate) × (cs ≡ c ∷ later)
        × IsLine (split_pipe (trim raw)) c
        × AreLines rest later)

-- Some line that is neither blank nor a comment makes no candidate at all, and this is its error.
abbrev pub HasBadLine : ℕ → List Bytes → Error → Type 0
HasBadLine line_no [] e = ⊥
HasBadLine line_no (raw ∷ rest) e =
    ((is_skipped (trim raw) ≡ false)
      × (candidate_of (line_no + 1) (split_pipe (trim raw)) ≡ err e)
      × ¬ ((c : SignatureCandidate) × IsLine (split_pipe (trim raw)) c))
    ⊎ HasBadLine (line_no + 1) rest e

abbrev Reads : Result SignatureCandidate → List Bytes → Type 0
Reads (ok c) ps = IsLine ps c
Reads (err e) ps = ¬ ((c : SignatureCandidate) × IsLine ps c)

abbrev ReadsAll : ℕ → Result (List SignatureCandidate) → List Bytes → Type 0
ReadsAll k (ok cs) ls = AreLines ls cs
ReadsAll k (err e) ls = HasBadLine k ls e

five_parts :
    (line_no : ℕ) (m n k c p : Bytes) (kind : Result SignatureValueKind)
    (called : Result SignatureCallback)
    → parse_kind k ≡ kind
    → parse_callback c ≡ called
    → Reads (candidate_of line_no (m ∷ n ∷ k ∷ c ∷ p ∷ [])) (m ∷ n ∷ k ∷ c ∷ p ∷ [])
unfolding candidate_of
five_parts line_no m n k c p (err e) called a b =
    rw (a, candidate_of) (λ (_, (_, _, same, as_kind, _, _)). ground arith)
five_parts line_no m n k c p (ok kind) (err e) a b =
    rw (a, b, candidate_of) (λ (_, (_, _, same, _, as_callback, _)). ground arith)
five_parts line_no m n k c p (ok kind) (ok called) a b =
    rw (a, b, candidate_of) (k, c, refl, a, b, refl)

candidate_of-Reads : (line_no : ℕ) (ps : List Bytes) → Reads (candidate_of line_no ps) ps
unfolding candidate_of
candidate_of-Reads line_no [] = λ (_, (_, _, same, _, _, _)). ground arith
candidate_of-Reads line_no (a ∷ []) = λ (_, (_, _, same, _, _, _)). ground arith
candidate_of-Reads line_no (a ∷ b ∷ []) = λ (_, (_, _, same, _, _, _)). ground arith
candidate_of-Reads line_no (a ∷ b ∷ c ∷ []) = λ (_, (_, _, same, _, _, _)). ground arith
candidate_of-Reads line_no (a ∷ b ∷ c ∷ d ∷ []) = λ (_, (_, _, same, _, _, _)). ground arith
candidate_of-Reads line_no (a ∷ b ∷ c ∷ d ∷ e ∷ []) =
    five_parts line_no a b c d e (parse_kind c) (parse_callback d) refl refl
candidate_of-Reads line_no (a ∷ b ∷ c ∷ d ∷ e ∷ f ∷ ps) = λ (_, (_, _, same, _, _, _)). ground arith

-- The line that is no comment, from what it and the later lines are read as.
line_then :
    (line_no : ℕ) (raw : Bytes) (rest : List Bytes) (r : Result SignatureCandidate)
    (later : Result (List SignatureCandidate))
    → is_skipped (trim raw) ≡ false
    → candidate_of (line_no + 1) (split_pipe (trim raw)) ≡ r
    → Reads r (split_pipe (trim raw))
    → ReadsAll (line_no + 1) later rest
    → ReadsAll line_no (r >>= λ c. later >>= λ cs. ok (c ∷ cs)) (raw ∷ rest)
line_then line_no raw rest (err e) later shown same reads all = inl (shown, same, reads)
line_then line_no raw rest (ok c) (err e) shown same reads all = inr all
line_then line_no raw rest (ok c) (ok cs) shown same reads all =
    inr (shown, c, cs, refl, reads, all)

read_signatures-ReadsAll :
    (line_no : ℕ) (ls : List Bytes) → ReadsAll line_no (read_signatures line_no ls) ls
unfolding read_signatures
read_signatures-ReadsAll line_no [] = tt
read_signatures-ReadsAll line_no (raw ∷ rest) = elim (Bool-cases (is_skipped (trim raw))) [
  | inl held ↦
      skipped (read_signatures (line_no + 1) rest) held
        (read_signatures-ReadsAll (line_no + 1) rest)
  | inr shown ↦
      rw (shown, read_signatures)
        (line_then line_no raw rest (candidate_of (line_no + 1) (split_pipe (trim raw)))
          (read_signatures (line_no + 1) rest) shown refl
          (candidate_of-Reads (line_no + 1) (split_pipe (trim raw)))
          (read_signatures-ReadsAll (line_no + 1) rest))
]
  where
    skipped :
        (later : Result (List SignatureCandidate))
        → is_skipped (trim raw) ≡ true
        → ReadsAll (line_no + 1) later rest
        → ReadsAll line_no
            (if is_skipped (trim raw)
              then later
              else candidate_of (line_no + 1) (split_pipe (trim raw)) >>= λ c.
                  later >>= λ cs. ok (c ∷ cs))
            (raw ∷ rest)
    skipped (err e) held all = rw held (inr all)
    skipped (ok cs) held all = rw held (inl (held, all))

-- The file cannot be opened, or has a bad line.
abbrev pub Fails : Option Bytes → Error → Type 0
Fails none e = e ≡ unopened
Fails (some text) e = HasBadLine 0 (lines_of text) e

-- What `prepend_file` leaves. Either it throws, the database is as before, and the file cannot be
-- opened or has a line, neither blank nor a comment, that makes no candidate. Or each line of the
-- file, blank lines and comments apart, has the five parts of a candidate that is marked external;
-- the candidates of every name are those of the lines, in their order, in front of those that there
-- were; and the path is noted as the file that was loaded.
pub prepend_file-candidates :
    (absolute : Bytes → Bytes) (db : SignatureDatabase) (path : Bytes) (file : Option Bytes)
    → ((e : Error) × (prepend_file absolute db path file ≡ (db, err e)) × Fails file e)
      ⊎ ((text : Bytes) × (external : List SignatureCandidate) × (file ≡ some text)
          × AreLines (lines_of text) external
          × ((prepend_file absolute db path file).1 ≡ ok tt)
          × ((prepend_file absolute db path file).0.loaded_file ≡ some (absolute path))
          × ((m n : Bytes)
              → candidates (prepend_file absolute db path file).0 m n
                ≡ matching m n external ++ candidates db m n))
unfolding prepend_file candidates
prepend_file-candidates absolute db path none = inl (unopened, refl, refl)
prepend_file-candidates absolute db path (some text) =
    elim (Result-cases (read_signatures 0 (lines_of text))) [
      | inr (e, same) ↦
          inl (
            e,
            rw (same, prepend_file) refl,
            rw same at (read_signatures-ReadsAll 0 (lines_of text)),
          )
      | inl (cs, same) ↦ inr (
        text,
        cs,
        refl,
        rw same at (read_signatures-ReadsAll 0 (lines_of text)),
        rw (same, prepend_file) refl,
        rw (same, prepend_file) refl,
        λ m n. rw (same, prepend_file, candidates) (matching-append m n cs db.candidates_),
      )
    ]

-- A candidate in the group of its key: it is behind those that were there, and other keys are as before.
added-lookup :
    (k j : Bytes × Bytes) (c : SignatureCandidate) (out : Groups)
    → or_empty (lookup j (insert k (or_empty (lookup k out) ++ c ∷ []) out))
      ≡ or_empty (lookup j out) ++ (if pair_eq k j then c ∷ [] else [])
added-lookup k j c out = elim (Bool-cases (pair_eq k j)) [
  | inl same ↦
      rw (lookup-insert k j (or_empty (lookup k out) ++ c ∷ []) out, same)
        (rw ((pair_eq_iff k j).0 same) refl)
  | inr other ↦
      rw (lookup-insert k j (or_empty (lookup k out) ++ c ∷ []) out, other)
        (sym (append-nil (or_empty (lookup j out))))
]

-- A candidate in its group, in front of what comes later.
first-matching :
    (m n : Bytes) (c : SignatureCandidate) (cs there : List SignatureCandidate)
    → starts_with c.name (codes "__") ≡ false
    → (there ++ (if pair_eq (c.module_name, c.name) (m, n) then c ∷ [] else []))
        ++ (if starts_with n (codes "__") then [] else matching m n cs)
      ≡ there ++ (if starts_with n (codes "__") then [] else matching m n (c ∷ cs))
unfolding matching pair_eq
first-matching m n c cs there lacks = elim (Bool-cases (starts_with n (codes "__"))) [
  | inl held ↦ grind (arith, bytes_eq_iff c.name n, append-nil there)
  | inr no_prefix ↦ grind (arith, append_assoc there (c ∷ []) (matching m n cs), append-nil there)
]

-- What `group_from` has for a key: what there was, and the candidates that match it.
group_from-lookup :
    (m n : Bytes) (cs : List SignatureCandidate) (out : Groups)
    → or_empty (lookup (m, n) (group_from cs out))
      ≡ or_empty (lookup (m, n) out) ++ (if starts_with n (codes "__") then [] else matching m n cs)
unfolding group_from matching pair_eq
group_from-lookup m n [] out = elim (Bool-cases (starts_with n (codes "__"))) [
  | inl held ↦ rw held (sym (append-nil (or_empty (lookup (m, n) out))))
  | inr lacks ↦ rw lacks (sym (append-nil (or_empty (lookup (m, n) out))))
]
group_from-lookup m n (c ∷ cs) out = elim (Bool-cases (starts_with c.name (codes "__"))) [
  | inl held ↦ grind (arith, group_from-lookup m n cs out, bytes_eq_iff c.name n)
  | inr lacks ↦ rw lacks (
      group_from-lookup m n cs (
        insert (c.module_name, c.name) (or_empty (lookup (c.module_name, c.name) out) ++ c ∷ [])
          out)
      ∙ ap (λ there. there ++ (if starts_with n (codes "__") then [] else matching m n cs))
          (added-lookup (c.module_name, c.name) (m, n) c out)
      ∙ first-matching m n c cs (or_empty (lookup (m, n) out)) lacks)
]

-- `offset_groups` has for each pair of a module and a name exactly its candidates, in their order,
-- and nothing for a name that begins with two underscores.
pub offset_groups-candidates :
    (db : SignatureDatabase) (m n : Bytes)
    → or_empty (lookup (m, n) (offset_groups db))
      ≡ (if starts_with n (codes "__") then [] else candidates db m n)
unfolding offset_groups candidates lookup
offset_groups-candidates db m n = group_from-lookup m n db.candidates_ []
