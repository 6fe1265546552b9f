-- ===== src/Offsets/Tests.antt =====
-- A process in which every word of four bytes is 14008, a build number, and one whose only module has
-- a signature.
use hardware_assisted_game_s.Base.{
  ℕ, ◌+◌, ◌%◌, ◌≤◌, ◌≡◌, refl, some, [], ◌∷◌, codes, u64_mod, le_word,
}
use hardware_assisted_game_s.Base.Maps.{
  lookup, insert, erase, bytes_key, bytes_less, pair_key, pair_eq,
}
use hardware_assisted_game_s.Base.{bytes_eq}
use hardware_assisted_game_s.Offsets.{
  OffsetMap, engine, validate_runtime_offsets, check_build, check_window, is_build,
}
use hardware_assisted_game_s.Offsets.Validated.{offset_at, validate_runtime_offsets-is_build}
use hardware_assisted_game_s.Config.{candidates, matching, offset_groups, group_from}
use hardware_assisted_game_s.Config.Defaults.{default_layout}
use hardware_assisted_game_s.Config.Text.{starts_with}
use hardware_assisted_game_s.Pattern.{
  parse, parse_until, token, skip_spaces, read_digits, close_skip, read_size, follow, low_digit,
}
use hardware_assisted_game_s.Pe.{
  pe_image, read_headers, read_optional, read_tables, read_at, read_word, file_header,
  section_header, field_at, code_sections, widen, or_whole_image,
}
use hardware_assisted_game_s.Scanner.{
  first_literal, execute, execute_op, rel_target, scan, find_unique_code,
}
use hardware_assisted_game_s.Signatures.{
  module_view, pattern_of, is_rejected, candidate_value, first_value, resolve_signature,
  load_module,
}
use hardware_assisted_game_s.Signatures.Tests.{code_module, code_image, two_candidates}
use hardware_assisted_game_s.Offsets.Origin.{HasOrigin, analyze_offsets-HasOrigin}
use hardware_assisted_game_s.Offsets.{
  analyze_offsets, offsets_of, view_of, put_group, put_offset, put_callback, put_sensitivity,
}
use hardware_assisted_game_s.Process.{read_bytes}
use hardware_assisted_game_s.Process.{ModuleInfo, Process, returned, read, or_memory_error}

abbrev engine_module : ModuleInfo
engine_module = record { name = engine; path = engine; base = 0x10000; size = 0x200 }

abbrev builds : Process
builds = record {
  World = Unit {0};
  read_raw = λ address n w. (some (0xb8 ∷ 0x36 ∷ 0 ∷ 0 ∷ []), w);
  module_list = λ w. (returned (engine_module ∷ []), w);
  module_by_name = λ name w. (returned engine_module, w);
}

abbrev build_offsets : OffsetMap
build_offsets = (engine, (codes "dwBuildNumber", 64) ∷ []) ∷ []

validate_runtime_offsets-is_build_example :
    (build : ℕ) × ((read builds 4 ((0x10000 + 64) % u64_mod) tt).0 ≡ returned build)
    × (1000 ≤ build)
    × (build ≤ 10000000)
unfolding validate_runtime_offsets offset_at lookup insert erase check_build check_window is_build
    read or_memory_error le_word bytes_eq
validate_runtime_offsets-is_build_example =
    validate_runtime_offsets-is_build builds build_offsets tt 64 engine_module tt refl refl

-- A process whose one module has the signature dwView.
abbrev viewed : Process
viewed = record {
  World = Unit {0};
  read_raw = λ address n w. (some code_image, w);
  module_list = λ w. (returned (code_module ∷ []), w);
  module_by_name = λ name w. (returned code_module, w);
}

abbrev view_offsets : OffsetMap
view_offsets = (codes "a.dll", (codes "dwView", 0x1d0) ∷ []) ∷ []

offsets_told : (analyze_offsets viewed two_candidates default_layout tt).0 ≡ returned view_offsets
unfolding analyze_offsets offsets_of view_of put_group put_offset put_callback put_sensitivity
    validate_runtime_offsets offset_groups group_from starts_with load_module read_bytes
    or_memory_error module_view lookup insert bytes_less resolve_signature first_value
    candidate_value pattern_of is_rejected candidates matching bytes_eq parse parse_until token
    skip_spaces read_digits close_skip read_size follow low_digit pe_image read_headers
    read_optional read_tables read_word read_at file_header code_sections widen section_header
    or_whole_image field_at le_word find_unique_code scan execute execute_op rel_target
    first_literal pair_eq
offsets_told = refl

analyze_offsets-HasOrigin_example :
    HasOrigin viewed two_candidates default_layout (codes "a.dll") (codes "dwView", 0x1d0)
unfolding offset_at lookup bytes_eq
analyze_offsets-HasOrigin_example =
    analyze_offsets-HasOrigin viewed two_candidates default_layout tt view_offsets (codes "a.dll")
      (codes "dwView") 0x1d0 offsets_told refl
