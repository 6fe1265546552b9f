-- ===== src/Config/Tests.antt =====
-- Small files of signatures and of assignments, and the theorems at them.
use hardware_assisted_game_s.Base.{
  ◌≡◌, ◌⊎◌, refl, Bool, true, false, ◌&&◌, none, some, List, [], ◌∷◌, ◌++◌, Bytes, bytes_eq, codes,
  if◌then◌else◌,
}
use hardware_assisted_game_s.Base.Maps.{lookup, insert, bytes_key, pair_key, bytes_less}
use hardware_assisted_game_s.Pattern.{
  Ops, parse, parse_until, token, skip_spaces, read_digits, close_skip, read_size, follow,
  low_digit,
}
use hardware_assisted_game_s.Pattern
use hardware_assisted_game_s.Config.Text.{
  Error, Result, ok, err, missing_key, invalid_integer, invalid_layout_line, lines_of, pieces,
  drop_last_empty, trim, trim_start, trim_end, parse_integer, stoull, base_of, read_number,
  starts_with,
}
use hardware_assisted_game_s.Config.{
  SignatureCandidate, LayoutConfig, candidates, matching, prepend_file, or_empty, offset_groups,
  load_file, load_lines, split_first, assignment, get, contains, is_skipped,
}
use hardware_assisted_game_s.Config.Defaults.{default_signatures}
use hardware_assisted_game_s.Config.Candidates.{
  AreLines, Fails, prepend_file-candidates, offset_groups-candidates,
}
use hardware_assisted_game_s.Config.Layout.{readings, latest, load_file-get}

abbrev signature_file : Bytes
signature_file = codes "# newer build\n a.dll | dwView | rva | none | 48 8b${'}\n\n"

prepend_file-candidates_example :
    ((e : Error) × (prepend_file (λ p. p) default_signatures (codes "s") (some signature_file)
        ≡ (default_signatures, err e))
      × Fails (some signature_file) e)
    ⊎ ((text : Bytes) × (external : List SignatureCandidate) × (some signature_file ≡ some text)
        × AreLines (lines_of text) external
        × ((prepend_file (λ p. p) default_signatures (codes "s") (some signature_file)).1 ≡ ok tt)
        × ((prepend_file
              (λ p. p)
              default_signatures
              (codes "s")
              (some signature_file)).0.loaded_file
            ≡ some (codes "s"))
        × ((m n : Bytes)
            → candidates
                (prepend_file (λ p. p) default_signatures (codes "s") (some signature_file)).0
                m
                n
              ≡ matching m n external ++ candidates default_signatures m n))
prepend_file-candidates_example =
    prepend_file-candidates (λ p. p) default_signatures (codes "s") (some signature_file)

offset_groups-candidates_example :
    or_empty (lookup (codes "client.dll", codes "dwEntityList") (offset_groups default_signatures))
    ≡ (if starts_with (codes "dwEntityList") (codes "__")
        then []
        else candidates default_signatures (codes "client.dll") (codes "dwEntityList"))
offset_groups-candidates_example =
    offset_groups-candidates default_signatures (codes "client.dll") (codes "dwEntityList")

abbrev two_values : LayoutConfig
two_values = record { values = (codes "a", 1) ∷ (codes "b", 2) ∷ []; loaded_file = none }

-- The third line is in error: what the second assigned stays.
abbrev layout_file : Bytes
layout_file = codes "# offsets\nb = 0x20\nc 3\na = 9\n"

abbrev after : LayoutConfig × Result (Unit {0})
after = load_file (λ p. p) two_values (codes "f") (some layout_file)

partly_loaded :
    (get after.0 (codes "b") ≡ ok 32)
    × (get after.0 (codes "a") ≡ ok 1)
    × (after.1 ≡ err (invalid_layout_line 3))
unfolding load_file load_lines lines_of pieces drop_last_empty trim trim_start trim_end is_skipped
    assignment split_first parse_integer stoull base_of read_number insert lookup get bytes_less
    bytes_eq
partly_loaded = (refl, refl, refl)

load_file-get_example :
    (get after.0 (codes "b")
      ≡ (elim (latest
          (codes "b")
          (readings 0 (lines_of layout_file)).0
          (lookup (codes "b") two_values.values)) [
            | none ↦ err (missing_key (codes "b"))
            | some v ↦ ok v
          ]))
    × (after.1 ≡ (readings 0 (lines_of layout_file)).1)
    × (contains after.0 (codes "b")
        ≡ (elim (get after.0 (codes "b")) [ err e ↦ false | ok v ↦ true ]))
load_file-get_example = load_file-get (λ p. p) two_values (codes "f") layout_file (codes "b")

-- Base 0 of `std::stoull`: a leading zero is octal.
octal : (parse_integer (codes "010") ≡ ok 8) × (parse_integer (codes "09") ≡ err invalid_integer)
unfolding parse_integer stoull base_of read_number trim trim_start trim_end
octal = (refl, refl)

-- Every built-in pattern is one that the pattern parser reads.
abbrev is_pattern : Pattern.Result Ops → Bool
is_pattern (Pattern.ok _) = true
is_pattern _ = false

all_read : List SignatureCandidate → Bool
all_read [] = true
all_read (c ∷ cs) = is_pattern (parse c.pattern_text) && all_read cs

built_in_patterns : all_read default_signatures.candidates_ ≡ true
unfolding all_read default_signatures parse parse_until token skip_spaces read_digits close_skip
    read_size follow low_digit
built_in_patterns = refl
