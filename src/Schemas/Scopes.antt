-- ===== src/Schemas/Scopes.antt =====
-- analysis.cpp: from the schema system to its type scopes and their bindings, `probe_schema_system`,
-- `resolve_schema_system`, `read_type_scopes` and `analyze_schemas`. What reads a hash table takes the
-- fuel of its loop over the free blocks; `none` means that such a loop is still running.
pub mod Yields
use hardware_assisted_game_s.Base.{
  ℕ, zero, suc, ◌+◌, ◌*◌, ◌%◌, Bool, true, false, not, ◌&&◌, Option, none, some, List, [], ◌∷◌,
  Bytes, codes, u64_mod, is_empty, ltb, leb, ◌==◌, if◌then◌else◌,
}
use hardware_assisted_game_s.Base.Maps.{insert, bytes_key}
use hardware_assisted_game_s.Config.{LayoutConfig, SignatureDatabase}
use hardware_assisted_game_s.Interfaces.{plausible_user_pointer, find_interface_instance}
use hardware_assisted_game_s.Process.{
  Outcome, returned, thrown, no_schema_system, no_scopes, Process, M, return, throw, try_or, ◌>>=◌,
  read, read_utf8,
}
use hardware_assisted_game_s.Schemas.Blocks.{offset_of, read_field, hash_elements}
use hardware_assisted_game_s.Schemas.Bindings.{
  ClassInfo, EnumInfo, read_class_binding, read_enum_binding,
}
use hardware_assisted_game_s.Signatures.{ModuleView, load_module, resolve_signature}

pub record TypeScope : Type 0 where
  pub module_name : Bytes
  pub classes : List ClassInfo
  pub enums : List EnumInfo

abbrev pub SchemaMap : Type 0
SchemaMap = List (Bytes × (List ClassInfo × List EnumInfo))

-- A call that may still be running.
abbrev pub Partial : Type 0 → Type 0 → Type 0
Partial W A = W → Option (Outcome A × W)

abbrev pub ended : {W A : Type 0} → M W A → Partial W A
ended m w = some (m w)

abbrev pub after_result :
    {W A B : Type 0} → (A → Partial W B) → Option (Outcome A × W) → Option (Outcome B × W)
after_result f none = none
after_result f (some (thrown e, w)) = some (thrown e, w)
after_result f (some (returned a, w)) = f a w

infixl 5 ◌>>>◌
abbrev pub ◌>>>◌ : {W A B : Type 0} → Partial W A → (A → Partial W B) → Partial W B
◌>>>◌ m f w = after_result f (m w)

-- A loop over pointers, each under a `try` of its own.
unfoldable pub all_of : {W A : Type 0} → (ℕ → M W A) → List ℕ → W → List A × W
all_of binding [] w = ([], w)
all_of binding (q ∷ qs) w =
    let later = all_of binding qs (binding q w).1 in
    elim (binding q w).0 [ thrown e ↦ later | returned a ↦ (a ∷ later.0, later.1) ]

abbrev pub kept_scope : TypeScope → Option TypeScope
kept_scope s = if is_empty s.classes && is_empty s.enums then none else some s

-- The loop over the scopes, each under a `try` of its own: `n` of them from number `i` on.
abbrev pub kept : Outcome (Option TypeScope) → List TypeScope → List TypeScope
kept (returned (some s)) scopes = s ∷ scopes
kept (returned none) scopes = scopes
kept (thrown e) scopes = scopes

abbrev pub put_kept :
    {W : Type 0}
    → Outcome (Option TypeScope)
    → Option (List TypeScope × W)
    → Option (List TypeScope × W)
put_kept r none = none
put_kept r (some (scopes, w)) = some (kept r scopes, w)

unfoldable pub walk_scopes :
    {W : Type 0} → (ℕ → Partial W (Option TypeScope)) → ℕ → ℕ → W → Option (List TypeScope × W)
walk_scopes scope zero i w = some ([], w)
walk_scopes scope (suc n) i w = elim (scope i w) [
  | none ↦ none
  | some r ↦ put_kept r.0 (walk_scopes scope n (i + 1) r.1)
]

abbrev pub scopes_returned :
    {W : Type 0} → Option (List TypeScope × W) → Option (Outcome (List TypeScope) × W)
scopes_returned none = none
scopes_returned (some (scopes, w)) = some (returned scopes, w)

-- `out[scope.module_name] = …`, scope after scope.
unfoldable pub put_scopes : List TypeScope → SchemaMap → SchemaMap
put_scopes [] out = out
put_scopes (s ∷ ss) out = put_scopes ss (insert s.module_name (s.classes, s.enums) out)

abbrev pub or_no_scopes : {W : Type 0} → SchemaMap → M W SchemaMap
or_no_scopes out = if is_empty out then throw no_scopes else return out

module _ (p : Process) (l : LayoutConfig) where
  open p use {World}

  unfoldable pub probe_schema_system : ℕ → M World Bool
  probe_schema_system base =
      try_or
        (do
          scopes ← offset_of p l "schema_system.type_scopes"
          count ← read_field p l 4 ((base + scopes) % u64_mod) "utl_vector.count"
          data_ ← read_field p l 8 ((base + scopes) % u64_mod) "utl_vector.data"
          registrations ← read_field p l 4 base "schema_system.registration_count"
          return (
              ltb 0 count
              && ltb count 4096
              && plausible_user_pointer data_
              && ltb 0 registrations
              && ltb registrations 100000000))
        (return false)

  -- The base that a signature gives, if the probe accepts it.
  abbrev pub or_no_system : ℕ → Bool → M World ℕ
  or_no_system base accepted = if accepted then return base else throw no_schema_system

  abbrev pub probed : ModuleView → Option ℕ → M World ℕ
  probed mv none = throw no_schema_system
  probed mv (some rva) =
      let base = (mv.info.base + rva) % u64_mod in probe_schema_system base >>= or_no_system base

  unfoldable pub system_by_signature : SignatureDatabase → M World ℕ
  system_by_signature signatures = do
    mv ← load_module p (codes "schemasystem.dll")
    probed mv (resolve_signature mv signatures (codes "__SchemaSystem"))

  abbrev pub or_by_signature : SignatureDatabase → ℕ → Bool → M World ℕ
  or_by_signature signatures base accepted =
      if accepted then return base else system_by_signature signatures

  abbrev pub first_probed : SignatureDatabase → Option ℕ → M World ℕ
  first_probed signatures none = system_by_signature signatures
  first_probed signatures (some iface) =
      probe_schema_system iface >>= or_by_signature signatures iface

  unfoldable pub resolve_schema_system : SignatureDatabase → M World ℕ
  resolve_schema_system signatures = do
    iface ← find_interface_instance p (codes "schemasystem.dll") (codes "SchemaSystem_001") l
    first_probed signatures iface

  abbrev pub bindings : {A : Type 0} → (ℕ → M World A) → List ℕ → M World (List A)
  bindings binding qs w = let r = all_of binding qs w in (returned r.0, r.1)

  unfoldable pub scope_name : ℕ → M World Bytes
  scope_name scope = do
    name ← offset_of p l "type_scope.name"
    size ← offset_of p l "type_scope.name_size"
    read_utf8 p ((scope + name) % u64_mod) size true

  -- The bindings of a hash table of a scope.
  unfoldable pub table : {A : Type 0} → ℕ → ℕ → M World ℕ → (ℕ → M World A) → Partial World (List A)
  table fuel scope key binding = ended key >>> λ off.
      hash_elements p l fuel ((scope + off) % u64_mod) >>> λ qs. ended (bindings binding qs)

  unfoldable pub read_scope : ℕ → ℕ → Partial World (Option TypeScope)
  read_scope fuel scope = ended (scope_name scope) >>> λ name.
      table fuel scope (offset_of p l "type_scope.class_bindings") (read_class_binding p l)
      >>> λ classes.
          table fuel scope (offset_of p l "type_scope.enum_bindings") (read_enum_binding p l)
          >>> λ enums. ended (
              return (kept_scope (record { module_name = name; classes = classes; enums = enums })))

  unfoldable pub scope_at : ℕ → ℕ → ℕ → Partial World (Option TypeScope)
  scope_at fuel data_ i = ended (read p 8 ((data_ + i * 8) % u64_mod)) >>> λ scope.
      if scope == 0 then ended (return none) else read_scope fuel scope

  abbrev pub scopes_from : ℕ → ℕ → ℕ → Partial World (List TypeScope)
  scopes_from fuel count data_ w =
      if ltb 0 count && leb count 4096 && not (data_ == 0)
      then scopes_returned (walk_scopes (scope_at fuel data_) count 0 w)
      else some (returned [], w)

  unfoldable pub read_type_scopes : ℕ → ℕ → Partial World (List TypeScope)
  read_type_scopes fuel system = ended (offset_of p l "schema_system.type_scopes") >>> λ scopes.
      ended (read_field p l 4 ((system + scopes) % u64_mod) "utl_vector.count") >>> λ count.
      ended (read_field p l 8 ((system + scopes) % u64_mod) "utl_vector.data") >>> λ data_.
      scopes_from fuel count data_

  unfoldable pub analyze_schemas : ℕ → SignatureDatabase → Partial World SchemaMap
  analyze_schemas fuel signatures = ended (resolve_schema_system signatures) >>> λ system.
      read_type_scopes fuel system >>> λ scopes. ended (or_no_scopes (put_scopes scopes []))
