-- ===== src/Signatures/Tests.antt =====
-- A module with some bytes of code, and a signature of two candidates, of which the second one matches.
use hardware_assisted_game_s.Base.{
  ◌≡◌, refl, false, none, some, [], ◌∷◌, Bytes, codes, bytes_eq, le_word,
}
use hardware_assisted_game_s.Config.{
  SignatureDatabase, SignatureCandidate, rva, no_callback, candidates, matching,
}
use hardware_assisted_game_s.Pattern.{
  parse, parse_until, token, skip_spaces, read_digits, close_skip, read_size, follow, low_digit,
}
use hardware_assisted_game_s.Pe.{
  pe_image, read_headers, read_optional, read_tables, read_at, read_word, file_header,
  section_header, field_at, code_sections, widen, or_whole_image,
}
use hardware_assisted_game_s.Pe.Tests.{put, small_image}
use hardware_assisted_game_s.Process.{ModuleInfo, returned}
use hardware_assisted_game_s.Scanner.{
  first_literal, execute, execute_op, rel_target, scan, find_unique_code,
}
use hardware_assisted_game_s.Signatures.{
  ModuleView, module_view, pattern_of, is_rejected, candidate_value, first_value, resolve_signature,
}
use hardware_assisted_game_s.Signatures.Resolved.{IsFirst, resolve_signature-Gives}

abbrev pub code_image : Bytes
code_image = put 0x1c8 (0x48 ∷ 0x8b ∷ 0x15 ∷ 1 ∷ 0 ∷ 0 ∷ 0 ∷ 0x48 ∷ []) small_image

abbrev pub code_module : ModuleInfo
code_module = record { name = codes "a.dll"; path = codes "a.dll"; base = 0x10000; size = 0x200 }

abbrev code_view : ModuleView
code_view = record { info = code_module; bytes = code_image; pe = pe_image code_image }

abbrev candidate : Bytes → SignatureCandidate
candidate text = record {
  module_name = codes "a.dll";
  name = codes "dwView";
  kind = rva;
  callback = no_callback;
  pattern_text = text;
  external = false;
}

abbrev pub two_candidates : SignatureDatabase
two_candidates = record {
  candidates_ = candidate (codes "99") ∷ candidate (codes "488b15${'}") ∷ [];
  loaded_file = none;
}

code_viewed : module_view code_module code_image ≡ returned code_view
unfolding module_view pe_image read_headers read_optional read_tables read_word read_at file_header
    code_sections widen section_header or_whole_image field_at le_word
code_viewed = refl

view_found : resolve_signature code_view two_candidates (codes "dwView") ≡ some 0x1d0
unfolding resolve_signature first_value candidate_value pattern_of is_rejected candidates matching
    bytes_eq parse parse_until token skip_spaces read_digits close_skip read_size follow low_digit
    pe_image read_headers read_optional read_tables read_word read_at file_header code_sections
    widen section_header or_whole_image field_at le_word find_unique_code scan execute execute_op
    rel_target first_literal
view_found = refl

resolve_signature-Gives_example :
    IsFirst code_view 0x1d0 (candidates two_candidates (codes "a.dll") (codes "dwView"))
resolve_signature-Gives_example =
    resolve_signature-Gives code_module code_image code_view two_candidates (codes "dwView") 0x1d0
      code_viewed view_found
