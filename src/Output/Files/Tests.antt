-- ===== src/Output/Files/Tests.antt =====
-- The files of a small result.
use hardware_assisted_game_s.Base.{
  ◌≢◌, inl, inr, refl, Bool, true, List, [], ◌∷◌, ◌++◌, Bytes, codes, bytes_eq, bytes_eq-false,
}
use hardware_assisted_game_s.Analysis.{AnalysisResult}
use hardware_assisted_game_s.Output.Files.{Output, dump_all}
use hardware_assisted_game_s.Output.Files.Names.{
  types_files, schemas_files, dump_all-Writes, dump_all-Fails,
}
use hardware_assisted_game_s.Output.Files.Writes.{Leaves, Writes}
use hardware_assisted_game_s.Process.{thrown, unsupported_type}
use hardware_assisted_game_s.Schemas.Blocks.Tests.{same_pointers}

abbrev small_result : AnalysisResult
small_result = record {
  buttons = (codes "attack", 64) ∷ [];
  interfaces = [];
  offsets = (codes "a.dll", (codes "dwBuildNumber", 64) ∷ []) ∷ [];
  schemas = (codes "client.dll", ([], [])) ∷ [];
}

abbrev output_of : List Bytes → Output
output_of types = record {
  file_types = types;
  indent_size = 4;
  result = small_result;
  timestamp_rfc3339 = codes "2026-01-01T00:00:00Z";
  timestamp_banner = codes "2026-01-01 00:00:00 UTC";
}

abbrev two_types : Output
two_types = output_of (codes "hpp" ∷ codes "json" ∷ [])

abbrev bad_types : Output
bad_types = output_of (codes "json" ∷ codes "txt" ∷ codes "hpp" ∷ [])

abbrev all_open : Bytes → Bool
all_open name = true

dump_all-Writes_example : Writes (dump_all same_pointers all_open two_types) (
    types_files two_types.file_types
    ++ schemas_files two_types.file_types small_result.schemas
    ++ (codes "info.json" ∷ []))
dump_all-Writes_example =
    dump_all-Writes same_pointers all_open (λ name. refl) two_types (inl refl, (inr refl, tt))

txt_ne_hpp : codes "txt" ≢ codes "hpp"
unfolding bytes_eq
txt_ne_hpp = bytes_eq-false (codes "txt") (codes "hpp") refl

txt_ne_json : codes "txt" ≢ codes "json"
unfolding bytes_eq
txt_ne_json = bytes_eq-false (codes "txt") (codes "json") refl

dump_all-Fails_example :
    Leaves
      (dump_all same_pointers all_open bad_types)
      (thrown (unsupported_type (codes "txt")))
      (types_files (codes "json" ∷ []))
dump_all-Fails_example =
    dump_all-Fails same_pointers all_open (λ name. refl) bad_types (codes "json" ∷ [])
      (codes "hpp" ∷ []) (codes "txt") refl (inr refl, tt) (txt_ne_hpp, txt_ne_json)
