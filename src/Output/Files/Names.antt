-- ===== src/Output/Files/Names.antt =====
-- output.cpp: which files `dump_all` writes, and when it fails.
use mathlib.Core.Path.{subst}
use hardware_assisted_game_s.Base.{
  ◌≡◌, ◌≢◌, ◌⊎◌, inl, inr, refl, sym, Bool, true, List, [], ◌∷◌, ◌++◌, append-nil, All, Bytes,
  codes, bytes_eq, bytes_eq-ne,
}
use hardware_assisted_game_s.Output.Files.{
  Output, Files, Done, for_each, Schema, write_file, write_type, write_schema_type, write_schema,
  write_info, info_json, build_number, dump_all, ◌>>◌,
}
use hardware_assisted_game_s.Output.Header.{buttons_hpp, nested_hpp, offsets_hpp, schemas_hpp}
use hardware_assisted_game_s.Output.Json.{buttons_json, nested_json, offsets_json, schemas_json}
use hardware_assisted_game_s.Output.Text.{slugify}
use hardware_assisted_game_s.Process.{Outcome, returned, thrown, unsupported_type, Process, M}
use hardware_assisted_game_s.Output.Files.Writes.{
  names, Leaves, Writes, names-append, then-Leaves, then-Fails, for_each-nil, for_each-Leaves,
  for_each-Fails,
}

abbrev pub IsSupported : Bytes → Type 0
IsSupported type = (type ≡ codes "hpp") ⊎ (type ≡ codes "json")

-- The names of the files of one type, of one schema, and of all.
abbrev pub type_files : Bytes → List Bytes
type_files type =
    (codes "buttons." ++ type) ∷ (codes "interfaces." ++ type) ∷ (codes "offsets." ++ type) ∷ []

abbrev pub types_files : List Bytes → List Bytes
types_files [] = []
types_files (t ∷ ts) = type_files t ++ types_files ts

abbrev pub schema_files : Bytes → List Bytes → List Bytes
schema_files m [] = []
schema_files m (t ∷ ts) = (slugify m ++ (b'.' ∷ t)) ∷ schema_files m ts

abbrev pub schemas_files : List Bytes → List Schema → List Bytes
schemas_files ts [] = []
schemas_files ts (s ∷ ss) = schema_files s.0 ts ++ schemas_files ts ss

-- A type that is not supported.
abbrev pub IsUnsupported : Bytes → Type 0
IsUnsupported t = (t ≢ codes "hpp") × (t ≢ codes "json")

module _ (opens : Bytes → Bool) (all_open : (name : Bytes) → opens name ≡ true) {World : Type 0}
    (o : Output) where
  write_file-Writes :
      (name data_ : Bytes) → Writes {World = World} (write_file opens name data_) (name ∷ [])
  unfolding write_file
  write_file-Writes name data_ files w =
      rw (all_open name) (refl, names-append files ((name, data_) ∷ []))

  three-Writes :
      (n1 d1 n2 d2 n3 d3 : Bytes)
      → Writes {World = World}
          (write_file opens n1 d1 >> write_file opens n2 d2 >> write_file opens n3 d3)
          (n1 ∷ n2 ∷ n3 ∷ [])
  three-Writes n1 d1 n2 d2 n3 d3 =
      let a : M (Files × World) Done = write_file opens n1 d1 in
      let b : M (Files × World) Done = write_file opens n2 d2 in
      let c : M (Files × World) Done = write_file opens n3 d3 in
      then-Leaves (a >> b) c _ (n1 ∷ n2 ∷ []) (n3 ∷ [])
        (then-Leaves a b _ (n1 ∷ []) (n2 ∷ []) (write_file-Writes n1 d1) (write_file-Writes n2 d2))
        (write_file-Writes n3 d3)

  write_type-Writes :
      (t : Bytes) → IsSupported t → Writes {World = World} (write_type opens o t) (type_files t)
  unfolding write_type bytes_eq
  write_type-Writes t (inl hpp) = rw hpp (
      three-Writes (codes "buttons.hpp")
        (buttons_hpp o.result.buttons o.indent_size o.timestamp_banner) (codes "interfaces.hpp")
        (nested_hpp o.result.interfaces (codes "interfaces") o.indent_size o.timestamp_banner)
        (codes "offsets.hpp") (offsets_hpp o.result.offsets o.indent_size o.timestamp_banner))
  write_type-Writes t (inr json) = rw json (
      three-Writes (codes "buttons.json") (buttons_json o.result.buttons) (codes "interfaces.json")
        (nested_json o.result.interfaces) (codes "offsets.json") (offsets_json o.result.offsets))

  write_schema_type-Writes :
      (s : Schema) (t : Bytes)
      → IsSupported t
      → Writes {World = World} (write_schema_type opens o s t) ((slugify s.0 ++ (b'.' ∷ t)) ∷ [])
  unfolding write_schema_type bytes_eq
  write_schema_type-Writes s t (inl hpp) = rw hpp (
      write_file-Writes (slugify s.0 ++ codes ".hpp")
        (schemas_hpp (s ∷ []) o.indent_size o.timestamp_banner))
  write_schema_type-Writes s t (inr json) =
      rw json (write_file-Writes (slugify s.0 ++ codes ".json") (schemas_json (s ∷ [])))

  types-Leaves :
      (ts us : List Bytes) (r : Outcome Done) (ms : List Bytes)
      → All IsSupported ts
      → Leaves {World = World} (for_each (write_type opens o) us) r ms
      → Leaves {World = World} (for_each (write_type opens o) (ts ++ us)) r (types_files ts ++ ms)
  types-Leaves [] us r ms a h files w = h files w
  types-Leaves (t ∷ ts) us r ms a h files w =
      let later =
        for_each-Leaves (write_type opens o) t (ts ++ us) r (type_files t) (types_files ts ++ ms)
          (write_type-Writes t a.0) (types-Leaves ts us r ms a.1 h) files w in
      (later.0, later.1)

  write_schema-Writes :
      (s : Schema) (ts : List Bytes)
      → All IsSupported ts
      → Writes {World = World} (for_each (write_schema_type opens o s) ts) (schema_files s.0 ts)
  write_schema-Writes s [] a = for_each-nil (write_schema_type opens o s)
  write_schema-Writes s (t ∷ ts) a =
      for_each-Leaves (write_schema_type opens o s) t ts (returned tt)
        ((slugify s.0 ++ (b'.' ∷ t)) ∷ []) (schema_files s.0 ts) (write_schema_type-Writes s t a.0)
        (write_schema-Writes s ts a.1)

  types-Writes :
      (ts : List Bytes)
      → All IsSupported ts
      → Writes {World = World} (for_each (write_type opens o) ts) (types_files ts)
  types-Writes [] a = for_each-nil (write_type opens o)
  types-Writes (t ∷ ts) a =
      for_each-Leaves (write_type opens o) t ts (returned tt) (type_files t) (types_files ts)
        (write_type-Writes t a.0) (types-Writes ts a.1)

  write_type-Fails :
      (t : Bytes)
      → IsUnsupported t
      → Leaves {World = World} (write_type opens o t) (thrown (unsupported_type t)) []
  unfolding write_type
  write_type-Fails t u files w =
      rw (bytes_eq-ne t (codes "hpp") u.0, bytes_eq-ne t (codes "json") u.1)
        (refl, sym (append-nil (names files)))

  types-Fails :
      (ts us : List Bytes) (t : Bytes)
      → o.file_types ≡ ts ++ (t ∷ us)
      → All IsSupported ts
      → IsUnsupported t
      → Leaves {World = World}
          (for_each (write_type opens o) o.file_types)
          (thrown (unsupported_type t))
          (types_files ts)
  types-Fails ts us t same supported unsupported files w =
      let failed = types-Leaves ts (t ∷ us) (thrown (unsupported_type t)) [] supported (
        for_each-Fails (write_type opens o) t us (unsupported_type t) []
          (write_type-Fails t unsupported)) in
      subst
        (λ all.
          Leaves {World = World} (for_each (write_type opens o) all) (thrown (unsupported_type t))
            (types_files ts))
        (sym same)
        (subst
          (λ ns.
            Leaves {World = World} (for_each (write_type opens o) (ts ++ (t ∷ us)))
              (thrown (unsupported_type t)) ns)
          (append-nil (types_files ts)) failed)
        files w

  schemas-Writes :
      (ss : List Schema)
      → All IsSupported o.file_types
      → Writes {World = World} (for_each (write_schema opens o) ss) (schemas_files o.file_types ss)
  unfolding write_schema
  schemas-Writes [] a = for_each-nil (write_schema opens o)
  schemas-Writes (s ∷ ss) a =
      for_each-Leaves (write_schema opens o) s ss (returned tt) (schema_files s.0 o.file_types)
        (schemas_files o.file_types ss) (write_schema-Writes s o.file_types a) (schemas-Writes ss a)

module _ (p : Process) (opens : Bytes → Bool) (all_open : (name : Bytes) → opens name ≡ true)
    (o : Output) where
  open p use {World}

  write_info-Writes : Writes {World = World} (write_info p opens o) (codes "info.json" ∷ [])
  unfolding write_info
  write_info-Writes files w =
      let build = build_number p o.result.offsets w in
      write_file-Writes opens all_open o (codes "info.json") (info_json o.timestamp_rfc3339 build.0)
        files build.1

  -- If every file can be opened and every type is `hpp` or `json`, `dump_all` returns, and the files
  -- that it writes are, in this order: for each type the buttons, interfaces and offsets; for each
  -- schema and each type the schema, under its slug; and info.json.
  pub dump_all-Writes :
      All IsSupported o.file_types
      → Writes {World = World} (dump_all p opens o) (
          types_files o.file_types
          ++ schemas_files o.file_types o.result.schemas
          ++ (codes "info.json" ∷ []))
  unfolding dump_all
  dump_all-Writes supported files w =
      let types : M (Files × World) Done = for_each (write_type opens o) o.file_types in
      let schemas : M (Files × World) Done = for_each (write_schema opens o) o.result.schemas in
      let info : M (Files × World) Done = write_info p opens o in
      let ts = types_files o.file_types in
      let ss = schemas_files o.file_types o.result.schemas in
      let is = codes "info.json" ∷ [] in
      then-Leaves (types >> schemas) info (returned tt) (ts ++ ss) is
        (then-Leaves types schemas (returned tt) ts ss
          (types-Writes opens all_open o o.file_types supported)
          (schemas-Writes opens all_open o o.result.schemas supported))
        write_info-Writes files w

  -- If every file can be opened, and of the types all in front of one are `hpp` or `json`, but this one
  -- is neither, then `dump_all` throws because of it. It has written the files of the types in front,
  -- and neither a schema nor info.json.
  pub dump_all-Fails :
      (ts us : List Bytes) (t : Bytes)
      → o.file_types ≡ ts ++ (t ∷ us)
      → All IsSupported ts
      → IsUnsupported t
      → Leaves {World = World} (dump_all p opens o) (thrown (unsupported_type t)) (types_files ts)
  unfolding dump_all
  dump_all-Fails ts us t same supported unsupported files w =
      let types : M (Files × World) Done = for_each (write_type opens o) o.file_types in
      let schemas : M (Files × World) Done = for_each (write_schema opens o) o.result.schemas in
      then-Fails (types >> schemas) (write_info p opens o) (unsupported_type t) (types_files ts)
        (then-Fails types schemas (unsupported_type t) (types_files ts)
          (types-Fails opens all_open o ts us t same supported unsupported))
        files w
