-- ===== src/Config/Layout.antt =====
-- runtime_config.cpp, the class `LayoutConfig`: what a file of assignments does to the values.
use hardware_assisted_game_s.Base.{
  ℕ, ◌+◌, ◌≡◌, refl, ap, ◌∙◌, Bool, true, false, Option, none, some, List, [], ◌∷◌, Bytes, bytes_eq,
  arith, if◌then◌else◌,
}
use hardware_assisted_game_s.Base.Maps.{lookup, insert, lookup-insert, bytes_key}
use hardware_assisted_game_s.Config.Text.{Result, ok, err, lines_of, trim, missing_key}
use hardware_assisted_game_s.Config.{
  Values, LayoutConfig, is_skipped, assignment, load_lines, load_file, get, contains,
}

-- The assignments of the lines in their order up to the first line in error, and that error.
unfoldable pub readings : ℕ → List Bytes → List (Bytes × ℕ) × Result (Unit {0})
readings line_no [] = ([], ok tt)
readings line_no (raw ∷ rest) =
    let later = readings (line_no + 1) rest in
    elim (is_skipped (trim raw)) [
      | true ↦ later
      | false ↦ elim (assignment (line_no + 1) (trim raw)) [
        | err e ↦ ([], err e)
        | ok r ↦ (r ∷ later.0, later.1)
      ]
    ]

-- The last value that the assignments have for a key, or else what it had before.
unfoldable pub latest : Bytes → List (Bytes × ℕ) → Option ℕ → Option ℕ
latest key [] before = before
latest key (r ∷ rs) before = latest key rs (if bytes_eq r.0 key then some r.1 else before)

-- The loop leaves for a key the latest of the readings, and its result is theirs.
abbrev Loaded : Bytes → ℕ → List Bytes → Values → Type 0
Loaded key line_no ls values =
    (lookup key (load_lines line_no ls values).0
      ≡ latest key (readings line_no ls).0 (lookup key values))
    × ((load_lines line_no ls values).1 ≡ (readings line_no ls).1)

load_lines-latest :
    (key : Bytes) (line_no : ℕ) (ls : List Bytes) (values : Values) → Loaded key line_no ls values
unfolding load_lines readings latest
load_lines-latest key line_no [] values = (refl, refl)
load_lines-latest key line_no (raw ∷ rest) values =
    skipped (is_skipped (trim raw)) refl (load_lines-latest key (line_no + 1) rest)
  where
    read :
        (r : Result (Bytes × ℕ))
        → assignment (line_no + 1) (trim raw) ≡ r
        → is_skipped (trim raw) ≡ false
        → ((vs : Values) → Loaded key (line_no + 1) rest vs)
        → Loaded key line_no (raw ∷ rest) values
    read (err e) same kept later = rw (Loaded, load_lines, readings, kept, same) (refl, refl)
    read (ok (k, v)) same kept later =
        rw (Loaded, load_lines, readings, kept, same)
          (let (values_are, result_is) = later (insert k v values) in
            (
              values_are
                  ∙ ap (latest key (readings (line_no + 1) rest).0) (lookup-insert k key v values),
              result_is,
            ))

    skipped :
        (b : Bool)
        → is_skipped (trim raw) ≡ b
        → ((vs : Values) → Loaded key (line_no + 1) rest vs)
        → Loaded key line_no (raw ∷ rest) values
    skipped true same later = rw (Loaded, load_lines, readings, same) (later values)
    skipped false same later = read (assignment (line_no + 1) (trim raw)) refl same later

-- What `get` says after `load_file` on a file that opens: the last value that the file assigns
-- before its first bad line, or the value that was there, or the error on a missing key; and the
-- call's result is the error of that line. `contains` is true exactly where `get` has a value.
pub load_file-get :
    (absolute : Bytes → Bytes) (c : LayoutConfig) (path file key : Bytes)
    → (get (load_file absolute c path (some file)).0 key
        ≡ (elim (latest key (readings 0 (lines_of file)).0 (lookup key c.values)) [
          | none ↦ err (missing_key key)
          | some v ↦ ok v
        ]))
      × ((load_file absolute c path (some file)).1 ≡ (readings 0 (lines_of file)).1)
      × (contains (load_file absolute c path (some file)).0 key
          ≡ (elim (get (load_file absolute c path (some file)).0 key) [
            | err e ↦ false
            | ok v ↦ true
          ]))
unfolding load_file get contains
load_file-get absolute c path file key =
    ground (arith, load_lines-latest key 0 (lines_of file) c.values)
