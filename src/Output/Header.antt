-- ===== src/Output/Header.antt =====
-- output.cpp: the C++ headers, `buttons_hpp`, `nested_hpp`, `offsets_hpp` and `schemas_hpp`, with
-- `banner` and `write_metadata`.
use hardware_assisted_game_s.Base.{
  ℕ, true, false, Option, none, some, List, [], ◌++◌, Bytes, codes, is_empty, length, if◌then◌else◌,
}
use hardware_assisted_game_s.Buttons.{ButtonMap}
use hardware_assisted_game_s.Offsets.{OffsetMap}
use hardware_assisted_game_s.Output.Formatter.{Formatter, formatter, line, block, each}
use hardware_assisted_game_s.Output.Json.{widen}
use hardware_assisted_game_s.Output.Text.{
  hex, extend32, to_string, snake_case, slugify, enum_cpp_type, enum_hex,
}
use hardware_assisted_game_s.Schemas.Bindings.{
  unknown, network_change_callback, network_var_names, ClassMetadataKind, ClassMetadata, ClassField,
  ClassInfo, EnumMember, EnumInfo,
}
use hardware_assisted_game_s.Schemas.Scopes.{SchemaMap}

-- Writing one thing after another.
infixl 5 ◌>>◌
abbrev pub ◌>>◌ : (Formatter → Formatter) → (Formatter → Formatter) → Formatter → Formatter
◌>>◌ first second f = second (first f)

unfoldable pub banner : Bytes → Formatter → Formatter
banner timestamp =
    line (codes "// Generated by cs2-dumper-cpp-standalone")
    >> line (codes "// " ++ timestamp)
    >> line []

abbrev pub metadata_text : ClassMetadataKind → Bytes → Bytes → Bytes
metadata_text network_change_callback name type_name = codes "// NetworkChangeCallback: " ++ name
metadata_text network_var_names name type_name =
    codes "// NetworkVarNames: " ++ name ++ codes " (" ++ type_name ++ codes ")"
metadata_text unknown name type_name = codes "// " ++ name

unfoldable pub write_metadata : List ClassMetadata → Formatter → Formatter
write_metadata metadata f =
    if is_empty metadata
    then f
    else each (λ m. line (metadata_text m.kind m.name m.type_name)) metadata
        (line (codes "// Metadata:") f)

-- `inline constexpr <type> <name> = <value>;`, with what follows.
abbrev pub constant : Bytes → Bytes → ℕ → Bytes → Formatter → Formatter
constant type name value rest = line (
    codes "inline constexpr "
    ++ type
    ++ codes " "
    ++ slugify name
    ++ codes " = "
    ++ hex value
    ++ codes ";"
    ++ rest)

abbrev pub namespace_ : Bytes → (Formatter → Formatter) → Formatter → Formatter
namespace_ name = block (codes "namespace " ++ name) false

abbrev pub two_includes : Formatter → Formatter
two_includes = line (codes "#include <cstddef>") >> line (codes "#include <cstdint>") >> line []

abbrev pub pragma : Formatter → Formatter
pragma = line (codes "#pragma once") >> line []

unfoldable pub buttons_hpp : ButtonMap → ℕ → Bytes → Bytes
buttons_hpp map indent timestamp =
    let write =
      banner timestamp
      >> pragma
      >> line (codes "#include <cstddef>")
      >> line []
      >> namespace_ (codes "cs2_dumper") (
          namespace_ (codes "buttons")
            (each (λ (e : Bytes × ℕ). constant (codes "std::ptrdiff_t") e.0 e.1 []) map)) in
    (write (formatter indent)).out

unfoldable pub nested_module : Bytes × List (Bytes × ℕ) → Formatter → Formatter
nested_module e =
    line (codes "// Module: " ++ e.0)
    >> namespace_ (snake_case (slugify e.0))
        (each (λ (v : Bytes × ℕ). constant (codes "std::uintptr_t") v.0 v.1 []) e.1)

unfoldable pub nested_hpp : OffsetMap → Bytes → ℕ → Bytes → Bytes
nested_hpp map root_name indent timestamp =
    let write =
      banner timestamp
      >> pragma
      >> two_includes
      >> namespace_ (codes "cs2_dumper") (namespace_ root_name (each nested_module map)) in
    (write (formatter indent)).out

abbrev pub offsets_hpp : OffsetMap → ℕ → Bytes → Bytes
offsets_hpp map = nested_hpp (widen map []) (codes "offsets")

unfoldable pub enum_hpp : EnumInfo → Formatter → Formatter
enum_hpp e f =
    let type = enum_cpp_type e.alignment in
    let write =
      line (codes "// Alignment: " ++ to_string e.alignment)
      >> block (codes "enum class " ++ slugify e.name ++ codes " : " ++ type) true (
          each
            (λ (m : EnumMember).
              line (slugify m.name ++ codes " = " ++ enum_hex m.value e.alignment ++ codes ","))
            e.members) in
    if is_empty type then f else write f

abbrev pub parent_text : Option Bytes → Bytes
parent_text none = codes "None"
parent_text (some name) = name

abbrev pub field_hpp : ClassField → Formatter → Formatter
field_hpp d =
    constant (codes "std::ptrdiff_t") d.name (extend32 d.offset) (codes " // " ++ d.type_name)

unfoldable pub class_hpp : ClassInfo → Formatter → Formatter
class_hpp c =
    line (codes "// Parent: " ++ parent_text c.parent_name)
    >> write_metadata c.metadata
    >> namespace_ (slugify c.name) (each field_hpp c.fields)

unfoldable pub schema_hpp : Bytes × (List ClassInfo × List EnumInfo) → Formatter → Formatter
schema_hpp (m, (classes, enums)) =
    line (codes "// Module: " ++ m)
    >> line (codes "// Class count: " ++ to_string (length classes))
    >> line (codes "// Enum count: " ++ to_string (length enums))
    >> namespace_ (snake_case (slugify m)) (each enum_hpp enums >> each class_hpp classes)

unfoldable pub schemas_hpp : SchemaMap → ℕ → Bytes → Bytes
schemas_hpp map indent timestamp =
    let write =
      banner timestamp
      >> pragma
      >> two_includes
      >> namespace_ (codes "cs2_dumper") (namespace_ (codes "schemas") (each schema_hpp map)) in
    (write (formatter indent)).out
