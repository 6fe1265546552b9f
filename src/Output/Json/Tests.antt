-- ===== src/Output/Json/Tests.antt =====
-- A map of two modules, one of them without values.
use hardware_assisted_game_s.Base.{◌≡◌, refl, some, [], ◌∷◌, ◌++◌, codes, arith}
use hardware_assisted_game_s.Offsets.{OffsetMap}
use hardware_assisted_game_s.Output.Json.{nested_json, module_entry, entries}
use hardware_assisted_game_s.Output.Json.Reader.{read_object, read_number}
use hardware_assisted_game_s.Output.Json.Nested.{read_object-nested_json}
use hardware_assisted_game_s.Output.Text.{digits, json_escape, escape_char}

abbrev two_modules : OffsetMap
two_modules =
    (codes "a.dll", (codes "dwView", 64) ∷ (codes "dwWindow", 1234567) ∷ [])
    ∷ (codes "b.dll", [])
    ∷ []

one_written :
    nested_json ((codes "a", (codes "x", 10) ∷ []) ∷ [])
    ≡ codes "{\n  \"a\": {\n    \"x\": 10\n  }\n}"
unfolding nested_json module_entry entries digits json_escape escape_char
one_written = refl

read_object-nested_json_example :
    read_object (read_object read_number 2) 2 (nested_json two_modules ++ codes "\n")
    ≡ some (two_modules, codes "\n")
read_object-nested_json_example =
    read_object-nested_json 2 two_modules (codes "\n") (omega arith)
      ((omega arith, (omega arith, (omega arith, tt))), ((omega arith, tt), tt))
