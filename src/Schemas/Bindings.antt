-- ===== src/Schemas/Bindings.antt =====
-- analysis.cpp: the bindings of classes and enums, `read_class_binding` and `read_enum_binding`, with
-- their data types from types.hpp. A number with a sign is kept as its bits.
use hardware_assisted_game_s.Base.{
  ℕ, zero, suc, ◌+◌, ◌-◌, ◌*◌, ◌%◌, Bool, true, not, ◌&&◌, ◌||◌, Option, none, some, List, [], ◌∷◌,
  ◌++◌, Bytes, codes, u64_mod, length, drop, ltb, leb, bytes_eq, is_empty, ◌==◌, if◌then◌else◌,
}
use Prim.Native.String.{String}
use hardware_assisted_game_s.Config.{LayoutConfig}
use hardware_assisted_game_s.Process.{
  Outcome, returned, thrown, empty_class_name, empty_enum_name, Process, M, return, throw, try_or,
  ◌>>=◌, read_utf8,
}
use hardware_assisted_game_s.Schemas.Blocks.{offset_of, read_field}

pub data ClassMetadataKind : Type 0 where
  unknown network_change_callback network_var_names : ClassMetadataKind

pub record ClassMetadata : Type 0 where
  pub kind : ClassMetadataKind
  pub name : Bytes
  pub type_name : Bytes

pub record ClassField : Type 0 where
  pub name : Bytes
  pub type_name : Bytes
  pub offset : ℕ

pub record ClassInfo : Type 0 where
  pub name : Bytes
  pub module_name : Bytes
  pub parent_name : Option Bytes
  pub metadata : List ClassMetadata
  pub fields : List ClassField

pub record EnumMember : Type 0 where
  pub name : Bytes
  pub value : ℕ

pub record EnumInfo : Type 0 where
  pub name : Bytes
  pub alignment : ℕ
  pub size : ℕ
  pub members : List EnumMember

-- `module_name += ".dll"`, unless it is empty or ends so.
unfoldable pub with_dll : Bytes → Bytes
with_dll name =
    let ending = codes ".dll" in
    if is_empty name || (leb 4 (length name) && bytes_eq (drop (length name - 4) name) ending)
    then name
    else name ++ ending

-- A type's name without its blanks.
unfoldable pub without_spaces : Bytes → Bytes
without_spaces [] = []
without_spaces (b ∷ bs) = let rest = without_spaces bs in if b == 32 then rest else b ∷ rest

-- The loops over items: `n` items from number `i` on, each under a `try` of its own. An item that
-- throws, or that is passed over, leaves nothing.
abbrev pub keep : {A : Type 0} → Outcome (Option A) → List A → List A
keep (thrown e) items = items
keep (returned none) items = items
keep (returned (some a)) items = a ∷ items

unfoldable pub collect : {W A : Type 0} → (ℕ → M W (Option A)) → ℕ → ℕ → W → List A × W
collect item zero i w = ([], w)
collect item (suc n) i w =
    let later = collect item n (i + 1) (item i w).1 in (keep (item i w).0 later.0, later.1)

-- The whole loop, as a call that cannot throw.
abbrev pub collected : {W A : Type 0} → (ℕ → M W (Option A)) → ℕ → M W (List A)
collected item n w = let r = collect item n 0 w in (returned r.0, r.1)

-- A count of 16 bits with a sign that the loops accept.
unfoldable pub is_count16 : ℕ → Bool
is_count16 n = ltb 0 n && ltb n 32767

module _ (p : Process) (l : LayoutConfig) where
  open p use {World}

  -- `mem.read_utf8` in the two sizes that are used; errors leave an empty text.
  abbrev pub long_text : ℕ → M World Bytes
  long_text at_ = read_utf8 p at_ 4096 true

  abbrev pub short_text : ℕ → M World Bytes
  short_text at_ = read_utf8 p at_ 256 true

  abbrev pub some_name : Bytes → Option Bytes
  some_name name = if is_empty name then none else some name

  unfoldable pub parent_at : ℕ → M World (Option Bytes)
  parent_at parent = if parent == 0 then return none else do
    parent_name ← read_field p l 8 parent "base_class.name"
    name ← long_text parent_name
    return (some_name name)

  -- The name of the parent, with none where an error is met.
  unfoldable pub parent_of : ℕ → M World (Option Bytes)
  parent_of bases =
      if bases == 0
      then return none
      else try_or (do parent ← read_field p l 8 bases "base_class_info.class"; parent_at parent)
          (return none)

  -- The items at `base`, whose distance is a key of the layout, where there are any.
  abbrev pub items_at :
      {A : Type 0} → Bool → String → (ℕ → M World (Option A)) → ℕ → ℕ → M World (List A)
  items_at there key item base n =
      if there
      then (offset_of p l key >>= λ stride. collected (λ i. item ((base + i * stride) % u64_mod)) n)
      else return []

  unfoldable pub typed_field : ℕ → ℕ → ℕ → M World (Option ClassField)
  typed_field f f_name_ptr type_ptr = if type_ptr == 0 then return none else do
    offset ← read_field p l 4 f "field.offset"
    type_name_ptr ← read_field p l 8 type_ptr "schema_type.name"
    type_name ← short_text type_name_ptr
    name ← long_text f_name_ptr
    return (some (record { name = name; type_name = without_spaces type_name; offset = offset }))

  unfoldable pub class_field : ℕ → M World (Option ClassField)
  class_field f = do
    f_name_ptr ← read_field p l 8 f "field.name"
    type_ptr ← read_field p l 8 f "field.type"
    typed_field f f_name_ptr type_ptr

  unfoldable pub change_callback : ℕ → M World (Option ClassMetadata)
  change_callback nv = do
    value ← read_field p l 8 nv "network_value.name_ptr"
    name ← long_text value
    return (some (record { kind = network_change_callback; name = name; type_name = [] }))

  unfoldable pub var_names : ℕ → M World (Option ClassMetadata)
  var_names nv = do
    var_name ← read_field p l 8 nv "network_value.var_name"
    var_type ← read_field p l 8 nv "network_value.var_type"
    type_name ← short_text var_type
    name ← long_text var_name
    return (
        some
          (record { kind = network_var_names; name = name; type_name = without_spaces type_name }))

  -- The metadata of a name, with its network value.
  unfoldable pub named_metadata : ℕ → Bytes → M World (Option ClassMetadata)
  named_metadata nv name =
      if bytes_eq name (codes "MNetworkChangeCallback")
      then change_callback nv
      else if bytes_eq name (codes "MNetworkVarNames")
      then var_names nv
      else return (some (record { kind = unknown; name = name; type_name = [] }))

  unfoldable pub class_metadata : ℕ → M World (Option ClassMetadata)
  class_metadata md = do
    md_name_ptr ← read_field p l 8 md "metadata.name"
    nv ← read_field p l 8 md "metadata.network_value"
    if nv == 0 then return none else (long_text md_name_ptr >>= named_metadata nv)

  -- What follows once the class is known to have a name.
  unfoldable pub named_class : ℕ → Bytes → Bytes → M World ClassInfo
  named_class ptr name module_name = do
    bases ← read_field p l 8 ptr "class.base_classes"
    parent ← parent_of bases
    field_count ← read_field p l 2 ptr "class.field_count"
    fields ← read_field p l 8 ptr "class.fields"
    fs ←
        items_at (not (fields == 0) && is_count16 field_count) "field.stride" class_field fields
          field_count
    metadata_count ← read_field p l 2 ptr "class.metadata_count"
    metadata ← read_field p l 8 ptr "class.metadata"
    ms ←
        items_at (not (metadata == 0) && is_count16 metadata_count) "metadata.stride" class_metadata
          metadata metadata_count
    return (record {
      name = name;
      module_name = with_dll module_name;
      parent_name = parent;
      metadata = ms;
      fields = fs;
    })

  unfoldable pub read_class_binding : ℕ → M World ClassInfo
  read_class_binding ptr = do
    name_ptr ← read_field p l 8 ptr "class.name"
    module_ptr ← read_field p l 8 ptr "class.module_name"
    name ← long_text name_ptr
    module_name ← short_text module_ptr
    if is_empty name then throw empty_class_name else named_class ptr name module_name

  unfoldable pub enum_member : ℕ → M World (Option EnumMember)
  enum_member e = do
    e_name ← read_field p l 8 e "enumerator.name"
    value ← read_field p l 8 e "enumerator.value"
    name ← long_text e_name
    return (some (record { name = name; value = value }))

  unfoldable pub named_enum : ℕ → Bytes → M World EnumInfo
  named_enum ptr name = do
    alignment ← read_field p l 1 ptr "enum.alignment"
    size ← read_field p l 2 ptr "enum.enumerator_count"
    enumerators ← read_field p l 8 ptr "enum.enumerators"
    members ←
        items_at (not (enumerators == 0) && ltb 0 size) "enumerator.stride" enum_member enumerators
          size
    return (record { name = name; alignment = alignment; size = size; members = members })

  unfoldable pub read_enum_binding : ℕ → M World EnumInfo
  read_enum_binding ptr = do
    name_ptr ← read_field p l 8 ptr "enum.name"
    name ← long_text name_ptr
    if is_empty name then throw empty_enum_name else named_enum ptr name
