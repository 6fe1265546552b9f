-- ===== src/Output/Files.antt =====
-- output.cpp, `Output::dump_all`: the files one after the other. The file system is a parameter that
-- says which files can be opened, and the files that were written are kept in order, by their names in
-- `out_dir_`. The clock's two texts are fields.
pub mod Writes
pub mod Names
mod Tests
use hardware_assisted_game_s.Base.{
  ℕ, ◌+◌, ◌%◌, Bool, true, false, Option, none, some, List, [], ◌∷◌, ◌++◌, Bytes, codes, u64_mod,
  bytes_eq, if◌then◌else◌,
}
use hardware_assisted_game_s.Base.Maps.{lookup, bytes_key}
use hardware_assisted_game_s.Analysis.{AnalysisResult}
use hardware_assisted_game_s.Offsets.{OffsetMap}
use hardware_assisted_game_s.Output.Header.{buttons_hpp, nested_hpp, offsets_hpp, schemas_hpp}
use hardware_assisted_game_s.Output.Json.{buttons_json, nested_json, offsets_json, schemas_json}
use hardware_assisted_game_s.Output.Text.{q, slugify, to_string}
use hardware_assisted_game_s.Process.{
  ModuleInfo, Outcome, returned, thrown, no_output_file, unsupported_type, Process, M, return,
  throw, ◌>>=◌, read,
}
use hardware_assisted_game_s.Schemas.Bindings.{ClassInfo, EnumInfo}

pub record Output : Type 0 where
  pub file_types : List Bytes
  pub indent_size : ℕ
  pub result : AnalysisResult
  pub timestamp_rfc3339 : Bytes
  pub timestamp_banner : Bytes

-- The files that were written, the last one at the end.
abbrev pub Files : Type 0
Files = List (Bytes × Bytes)

abbrev pub Done : Type 0
Done = Unit

-- `a; b`.
infixl 5 ◌>>◌
abbrev pub ◌>>◌ : {W : Type 0} → M W Done → M W Done → M W Done
◌>>◌ a b = a >>= λ done. b

unfoldable pub for_each : {W A : Type 0} → (A → M W Done) → List A → M W Done
for_each act [] w = (returned tt, w)
for_each act (a ∷ as') w = (act a >> for_each act as') w

abbrev pub Schema : Type 0
Schema = Bytes × (List ClassInfo × List EnumInfo)

module _ (opens : Bytes → Bool) where
  unfoldable pub write_file : {World : Type 0} → Bytes → Bytes → M (Files × World) Done
  write_file name data_ (files, w) =
      if opens name
      then (returned tt, (files ++ ((name, data_) ∷ []), w))
      else (thrown (no_output_file name), (files, w))

  -- The files of one type, but for those of the schemas.
  unfoldable pub write_type : {World : Type 0} → Output → Bytes → M (Files × World) Done
  write_type o type =
      if bytes_eq type (codes "hpp")
      then (write_file (codes "buttons.hpp")
            (buttons_hpp o.result.buttons o.indent_size o.timestamp_banner)
          >> write_file (codes "interfaces.hpp")
              (nested_hpp o.result.interfaces (codes "interfaces") o.indent_size o.timestamp_banner)
          >> write_file (codes "offsets.hpp")
              (offsets_hpp o.result.offsets o.indent_size o.timestamp_banner))
      else if bytes_eq type (codes "json")
      then (write_file (codes "buttons.json") (buttons_json o.result.buttons)
          >> write_file (codes "interfaces.json") (nested_json o.result.interfaces)
          >> write_file (codes "offsets.json") (offsets_json o.result.offsets))
      else throw (unsupported_type type)

  -- The file of a schema for one type.
  unfoldable pub write_schema_type :
      {World : Type 0} → Output → Schema → Bytes → M (Files × World) Done
  write_schema_type o s type =
      if bytes_eq type (codes "hpp")
      then write_file (slugify s.0 ++ codes ".hpp")
          (schemas_hpp (s ∷ []) o.indent_size o.timestamp_banner)
      else if bytes_eq type (codes "json")
      then write_file (slugify s.0 ++ codes ".json") (schemas_json (s ∷ []))
      else return tt

  unfoldable pub write_schema : {World : Type 0} → Output → Schema → M (Files × World) Done
  write_schema o s = for_each (write_schema_type o s) o.file_types

abbrev pub build_json : Option ℕ → Bytes
build_json none = codes ",\n  \"build_number\": null"
build_json (some build) = codes ",\n  \"build_number\": " ++ to_string build

unfoldable pub info_json : Bytes → Option ℕ → Bytes
info_json timestamp build =
    codes "{\n  \"timestamp\": " ++ q timestamp ++ build_json build ++ codes "\n}"

module _ (p : Process) where
  open p use {World, module_by_name}

  unfoldable pub module_build : Bytes → ℕ → M World ℕ
  module_build name rva = do m ← module_by_name name; read p 4 ((m.base + rva) % u64_mod)

  -- The build number of the first module that has one which can be read.
  unfoldable pub build_number : OffsetMap → World → Option ℕ × World
  build_number [] w = (none, w)
  build_number ((name, offsets) ∷ rest) w = elim (lookup (codes "dwBuildNumber") offsets) [
    | none ↦ build_number rest w
    | some rva ↦ elim (module_build name rva w).0 [
      | thrown e ↦ build_number rest (module_build name rva w).1
      | returned build ↦ (some build, (module_build name rva w).1)
    ]
  ]

  unfoldable pub write_info : (Bytes → Bool) → Output → M (Files × World) Done
  write_info opens o (files, w) =
      let build = build_number o.result.offsets w in
      write_file opens (codes "info.json") (info_json o.timestamp_rfc3339 build.0) (files, build.1)

  unfoldable pub dump_all : (Bytes → Bool) → Output → M (Files × World) Done
  dump_all opens o =
      for_each (write_type opens o) o.file_types
      >> for_each (write_schema opens o) o.result.schemas
      >> write_info opens o
