-- ===== src/Output/Json.antt =====
-- output.cpp: the files in JSON, `buttons_json`, `nested_json`, `offsets_json` and `schemas_json`. The
-- formatter is used for raw text only there, so these are the texts themselves.
pub mod Reader
pub mod Object
pub mod Nested
mod Tests
use hardware_assisted_game_s.Base.{
  ℕ, Bool, true, false, Option, none, some, List, [], ◌∷◌, ◌++◌, Bytes, codes, is_empty,
  if◌then◌else◌,
}
use hardware_assisted_game_s.Base.Maps.{insert, bytes_key}
use hardware_assisted_game_s.Buttons.{ButtonMap}
use hardware_assisted_game_s.Offsets.{OffsetMap, put_offset}
use hardware_assisted_game_s.Output.Text.{q, to_string, to_string32, to_string64}
use hardware_assisted_game_s.Schemas.Bindings.{
  ClassMetadataKind, unknown, network_change_callback, network_var_names, ClassMetadata, ClassField,
  ClassInfo, EnumMember, EnumInfo,
}
use hardware_assisted_game_s.Schemas.Scopes.{SchemaMap}

-- The loops over entries, with what stands in front of the first and of each further one.
unfoldable pub entries : {A : Type 0} → Bytes → Bytes → (A → Bytes) → List A → Bytes
entries first between write [] = []
entries first between write (a ∷ as') = first ++ write a ++ entries between between write as'

-- What is written only if there was an entry.
abbrev pub if_any : {A : Type 0} → List A → Bytes → Bytes
if_any xs s = if is_empty xs then [] else s

abbrev pub first_line : Bytes
first_line = codes "\n"

abbrev pub next_line : Bytes
next_line = codes ",\n"

-- `    "name": value`.
abbrev pub number_entry : (ℕ → Bytes) → Bytes × ℕ → Bytes
number_entry show e = codes "    " ++ q e.0 ++ codes ": " ++ show e.1

unfoldable pub buttons_json : ButtonMap → Bytes
buttons_json map =
    codes "{\n  \"client.dll\": {"
    ++ entries first_line next_line (number_entry to_string64) map
    ++ if_any map (codes "\n")
    ++ codes "  }\n}"

unfoldable pub module_entry : Bytes × List (Bytes × ℕ) → Bytes
module_entry e =
    codes "  "
    ++ q e.0
    ++ codes ": {"
    ++ entries first_line next_line (number_entry to_string) e.1
    ++ if_any e.1 (codes "\n")
    ++ codes "  }"

unfoldable pub nested_json : OffsetMap → Bytes
nested_json map =
    codes "{"
    ++ entries first_line next_line module_entry map
    ++ if_any map (codes "\n")
    ++ codes "}"

-- The copy with wider values: entry after entry.
unfoldable pub widen_module : Bytes → List (Bytes × ℕ) → OffsetMap → OffsetMap
widen_module m [] wide = wide
widen_module m ((n, v) ∷ values) wide = widen_module m values (put_offset m n v wide)

unfoldable pub widen : OffsetMap → OffsetMap → OffsetMap
widen [] wide = wide
widen ((m, values) ∷ rest) wide = widen rest (widen_module m values wide)

abbrev pub offsets_json : OffsetMap → Bytes
offsets_json map = nested_json (widen map [])

unfoldable pub sorted_fields : List ClassField → List (Bytes × ℕ) → List (Bytes × ℕ)
sorted_fields [] sorted = sorted
sorted_fields (f ∷ fs) sorted = sorted_fields fs (insert f.name f.offset sorted)

abbrev pub kind_name : ClassMetadataKind → Bytes
kind_name network_change_callback = codes "NetworkChangeCallback"
kind_name network_var_names = codes "NetworkVarNames"
kind_name unknown = codes "Unknown"

abbrev pub type_name_entry : ClassMetadataKind → Bytes → Bytes
type_name_entry network_var_names type_name = codes ", \"type_name\": " ++ q type_name
type_name_entry network_change_callback type_name = []
type_name_entry unknown type_name = []

unfoldable pub metadata_entry : ClassMetadata → Bytes
metadata_entry m =
    codes "\n          {\"type\": "
    ++ q (kind_name m.kind)
    ++ codes ", \"name\": "
    ++ q m.name
    ++ type_name_entry m.kind m.type_name
    ++ codes "}"

-- An entry on a line of its own, ten blanks in.
abbrev pub deep_entry : (ℕ → Bytes) → Bytes × ℕ → Bytes
deep_entry show e = codes "\n          " ++ q e.0 ++ codes ": " ++ show e.1

abbrev pub parent_json : Option Bytes → Bytes
parent_json none = codes "null"
parent_json (some name) = q name

unfoldable pub class_json : ClassInfo → Bytes
class_json c =
    let fields = sorted_fields c.fields [] in
    codes "\n      "
    ++ q c.name
    ++ codes ": {\n"
    ++ codes "        \"parent\": "
    ++ parent_json c.parent_name
    ++ codes ",\n"
    ++ codes "        \"fields\": {"
    ++ entries [] (codes ",") (deep_entry to_string32) fields
    ++ if_any fields (codes "\n        ")
    ++ codes "},\n        \"metadata\": ["
    ++ entries [] (codes ",") metadata_entry c.metadata
    ++ if_any c.metadata (codes "\n        ")
    ++ codes "]\n      }"

abbrev pub member_json : EnumMember → Bytes
member_json m = deep_entry to_string64 (m.name, m.value)

unfoldable pub enum_json : EnumInfo → Bytes
enum_json e =
    codes "\n      "
    ++ q e.name
    ++ codes ": {\n"
    ++ codes "        \"alignment\": "
    ++ to_string e.alignment
    ++ codes ",\n"
    ++ codes "        \"members\": {"
    ++ entries [] (codes ",") member_json e.members
    ++ if_any e.members (codes "\n        ")
    ++ codes "}\n      }"

unfoldable pub schema_json : Bytes × (List ClassInfo × List EnumInfo) → Bytes
schema_json (m, (classes, enums)) =
    codes "  "
    ++ q m
    ++ codes ": {\n    \"classes\": {"
    ++ entries [] (codes ",") class_json classes
    ++ if_any classes (codes "\n    ")
    ++ codes "},\n    \"enums\": {"
    ++ entries [] (codes ",") enum_json enums
    ++ if_any enums (codes "\n    ")
    ++ codes "}\n  }"

unfoldable pub schemas_json : SchemaMap → Bytes
schemas_json map = codes "{\n" ++ entries [] next_line schema_json map ++ codes "\n}"
