-- ===== src/Config.antt =====
-- projects/cs2-dumper-cpp-standalone/src/runtime_config.cpp and its header: the signature database
-- and the layout of structures, their built-in values and the files that change them. A file is its
-- bytes, or nothing if it cannot be opened; `std::filesystem::absolute` is a parameter.
pub mod Text
pub mod Defaults
pub mod Candidates
pub mod Layout
mod Tests
use hardware_assisted_game_s.Base.{
  ℕ, zero, suc, ◌+◌, ◌*◌, ◌-◌, Bool, true, false, not, ◌&&◌, ◌||◌, Option, none, some, List, [],
  ◌∷◌, ◌++◌, map, Bytes, codes, bytes_eq, is_empty, ◌==◌, if◌then◌else◌,
}
use hardware_assisted_game_s.Base.Maps.{lookup, insert, bytes_key, pair_key}
use hardware_assisted_game_s.Config.Text.{
  Error, Result, ok, err, ◌>>=◌, unknown_kind, unknown_callback, unopened, invalid_signature_line,
  invalid_layout_line, empty_layout_key, missing_key, trim, split_pipe, parse_integer, lines_of,
  starts_with,
}

pub data SignatureValueKind : Type 0 where
  rva immediate : SignatureValueKind

pub data SignatureCallback : Type 0 where
  no_callback view_angles local_player_pawn : SignatureCallback

pub record SignatureCandidate : Type 0 where
  pub module_name : Bytes
  pub name : Bytes
  pub kind : SignatureValueKind
  pub callback : SignatureCallback
  pub pattern_text : Bytes
  pub external : Bool

unfoldable pub parse_kind : Bytes → Result SignatureValueKind
parse_kind s =
    if bytes_eq (trim s) (codes "rva")
    then ok rva
    else if bytes_eq (trim s) (codes "imm")
    then ok immediate
    else err unknown_kind

unfoldable pub parse_callback : Bytes → Result SignatureCallback
parse_callback s =
    if bytes_eq (trim s) (codes "none")
    then ok no_callback
    else if bytes_eq (trim s) (codes "view_angles")
    then ok view_angles
    else if bytes_eq (trim s) (codes "local_player_pawn")
    then ok local_player_pawn
    else err unknown_callback

pub record SignatureDatabase : Type 0 where
  pub candidates_ : List SignatureCandidate
  pub loaded_file : Option Bytes

-- The candidate that the five parts of a line make.
unfoldable pub candidate_of : ℕ → List Bytes → Result SignatureCandidate
candidate_of line_no (m ∷ n ∷ k ∷ c ∷ p ∷ []) = do
  kind ← parse_kind k
  callback ← parse_callback c
  ok (record {
    module_name = m;
    name = n;
    kind = kind;
    callback = callback;
    pattern_text = p;
    external = true;
  })
candidate_of line_no _ = err (invalid_signature_line line_no)

-- A blank line, or a comment.
unfoldable pub is_skipped : Bytes → Bool
is_skipped [] = true
is_skipped (c ∷ s) = c == b'#'

-- The loop over the lines; `line_no` lines have been read.
unfoldable pub read_signatures : ℕ → List Bytes → Result (List SignatureCandidate)
read_signatures line_no [] = ok []
read_signatures line_no (raw ∷ rest) =
    let line = trim raw in
    let later = read_signatures (line_no + 1) rest in
    if is_skipped line
    then later
    else candidate_of (line_no + 1) (split_pipe line) >>= λ c. later >>= λ cs. ok (c ∷ cs)

unfoldable pub matching : Bytes → Bytes → List SignatureCandidate → List SignatureCandidate
matching m n [] = []
matching m n (c ∷ cs) =
    let rest = matching m n cs in
    if bytes_eq c.module_name m && bytes_eq c.name n then c ∷ rest else rest

unfoldable pub candidates : SignatureDatabase → Bytes → Bytes → List SignatureCandidate
candidates db m n = matching m n db.candidates_

-- A method that may throw: the object as it leaves it, and the error.
unfoldable pub prepend_file :
    (Bytes → Bytes)
    → SignatureDatabase
    → Bytes
    → Option Bytes
    → SignatureDatabase × Result (Unit {0})
prepend_file absolute db path none = (db, err unopened)
prepend_file absolute db path (some file) = elim (read_signatures 0 (lines_of file)) [
  | err e ↦ (db, err e)
  | ok external ↦ (
    record { candidates_ = external ++ db.candidates_; loaded_file = some (absolute path) },
    ok tt,
  )
]

abbrev pub or_empty {ℓ} : {A : Type ℓ} → Option (List A) → List A
or_empty none = []
or_empty (some l) = l

abbrev pub Groups : Type 0
Groups = List ((Bytes × Bytes) × List SignatureCandidate)

-- The loop of `offset_groups` over the candidates: a name that begins with `__` is no offset.
unfoldable pub group_from : List SignatureCandidate → Groups → Groups
group_from [] out = out
group_from (c ∷ cs) out = group_from cs (
    if starts_with c.name (codes "__")
    then out
    else insert (c.module_name, c.name) (or_empty (lookup (c.module_name, c.name) out) ++ c ∷ [])
        out)

unfoldable pub offset_groups : SignatureDatabase → Groups
offset_groups db = group_from db.candidates_ []

abbrev pub Values : Type 0
Values = List (Bytes × ℕ)

pub record LayoutConfig : Type 0 where
  pub values : Values
  pub loaded_file : Option Bytes

-- `find` of the first mark: what stands before it and behind it.
unfoldable pub split_first : ℕ → Bytes → Option (Bytes × Bytes)
split_first mark [] = none
split_first mark (c ∷ s) =
    let later = split_first mark s in
    if c == mark then some ([], s) else elim later [ none ↦ none | some r ↦ some (c ∷ r.0, r.1) ]

-- The key and the value of a line.
unfoldable pub assignment : ℕ → Bytes → Result (Bytes × ℕ)
assignment line_no line = elim (split_first b'=' line) [
  | none ↦ err (invalid_layout_line line_no)
  | some r ↦
      if is_empty (trim r.0)
      then err (empty_layout_key line_no)
      else parse_integer (trim r.1) >>= λ v. ok (trim r.0, v)
]

-- The loop over the lines, of which `line_no` have been read. What was assigned before an error stays.
unfoldable pub load_lines : ℕ → List Bytes → Values → Values × Result (Unit {0})
load_lines line_no [] values = (values, ok tt)
load_lines line_no (raw ∷ rest) values = elim (is_skipped (trim raw)) [
  | true ↦ load_lines (line_no + 1) rest values
  | false ↦ elim (assignment (line_no + 1) (trim raw)) [
    | err e ↦ (values, err e)
    | ok r ↦ load_lines (line_no + 1) rest (insert r.0 r.1 values)
  ]
]

unfoldable pub load_file :
    (Bytes → Bytes) → LayoutConfig → Bytes → Option Bytes → LayoutConfig × Result (Unit {0})
load_file absolute c path none = (c, err unopened)
load_file absolute c path (some file) =
    let (values, result) = load_lines 0 (lines_of file) c.values in
    elim result [
      | err e ↦ (record c { values = values }, err e)
      | ok _ ↦ (record { values = values; loaded_file = some (absolute path) }, ok tt)
    ]

unfoldable pub get : LayoutConfig → Bytes → Result ℕ
get c key = elim (lookup key c.values) [ none ↦ err (missing_key key) | some v ↦ ok v ]

unfoldable pub contains : LayoutConfig → Bytes → Bool
contains c key = elim (lookup key c.values) [ none ↦ false | some v ↦ true ]
