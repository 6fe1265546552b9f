-- ===== src/Schemas/Filled.antt =====
-- analysis.cpp: what `read_type_scopes` and `analyze_schemas` return, composed of what the readers of
-- the bindings do.
use hardware_assisted_game_s.Base.{
  ℕ, zero, suc, ◌+◌, ◌*◌, ◌%◌, ◌≡◌, inl, inr, false, not, ◌&&◌, Option, none, some, Option-cases,
  Bool-cases, List, [], ◌∷◌, All, u64_mod, is_empty, ltb, leb, ◌==◌,
}
use hardware_assisted_game_s.Base.Maps.{insert, All-insert, bytes_key}
use hardware_assisted_game_s.Config.{LayoutConfig, SignatureDatabase}
use hardware_assisted_game_s.Process.{
  Outcome, Outcome-cases, returned, thrown, Process, M, Ensures, read,
}
use hardware_assisted_game_s.Schemas.Blocks.{offset_of, read_field, hash_elements}
use hardware_assisted_game_s.Schemas.Bindings.{
  ClassInfo, EnumInfo, read_class_binding, read_enum_binding,
}
use hardware_assisted_game_s.Schemas.Named.{
  IsClass, IsEnum, read_class_binding-IsClass, read_enum_binding-IsEnum,
}
use hardware_assisted_game_s.Schemas.Scopes.{
  TypeScope, SchemaMap, Partial, ended, kept_scope, kept, put_kept, walk_scopes, put_scopes,
  or_no_scopes, all_of, table, scope_name, read_scope, scope_at, scopes_returned, scopes_from,
  resolve_schema_system, read_type_scopes, analyze_schemas,
}
use hardware_assisted_game_s.Schemas.Scopes.Yields.{Yields, >>>-Yields, >>>-Yields_any}

-- Classes and enums of which there is at least one, each as its reader gives it.
abbrev pub AreBindings : List ClassInfo × List EnumInfo → Type 0
AreBindings s = ((is_empty s.0 && is_empty s.1) ≡ false) × All IsClass s.0 × All IsEnum s.1

abbrev pub IsScope : TypeScope → Type 0
IsScope s = AreBindings (s.classes, s.enums)

abbrev IsKept : Option TypeScope → Type 0
IsKept none = Unit
IsKept (some s) = IsScope s

all_of-All :
    {W A : Type 0} (P : A → Type 0) (binding : ℕ → M W A) (qs : List ℕ) (w : W)
    → ((q : ℕ) (w' : W) → Ensures P (binding q w').0)
    → All P (all_of binding qs w).0
unfolding all_of
all_of-All P binding [] w h = tt
all_of-All P binding (q ∷ qs) w h =
    let later = all_of-All P binding qs (binding q w).1 h in
    elim (Outcome-cases (binding q w).0) [
      | inr (e, bad) ↦ rw (bad, all_of) later
      | inl (a, good) ↦ rw (good, all_of) (rw good at (h q w), later)
    ]

kept_scope-IsKept :
    (s : TypeScope) → All IsClass s.classes → All IsEnum s.enums → IsKept (kept_scope s)
kept_scope-IsKept s cs es = elim (Bool-cases (is_empty s.classes && is_empty s.enums)) [
  | inl empty ↦ rw empty tt
  | inr filled ↦ rw filled (filled, cs, es)
]

kept-All :
    (r : Outcome (Option TypeScope)) (scopes : List TypeScope)
    → Ensures IsKept r
    → All IsScope scopes
    → All IsScope (kept r scopes)
kept-All (thrown e) scopes h a = a
kept-All (returned none) scopes h a = a
kept-All (returned (some s)) scopes h a = (h, a)

put_scopes-All :
    (scopes : List TypeScope) (out : SchemaMap)
    → All IsScope scopes
    → All (λ e. AreBindings e.1) out
    → All (λ e. AreBindings e.1) (put_scopes scopes out)
unfolding put_scopes
put_scopes-All [] out a b = b
put_scopes-All (s ∷ ss) out a b =
    put_scopes-All ss (insert s.module_name (s.classes, s.enums) out) a.1
      (All-insert (λ e. AreBindings e.1) s.module_name (s.classes, s.enums) out a.0 b)

-- What the loop over the scopes leaves, where it ends.
abbrev AllScopes : {W : Type 0} → Option (List TypeScope × W) → Type 0
AllScopes none = Unit
AllScopes (some r) = All IsScope r.0

put_kept-AllScopes :
    {W : Type 0} (r : Outcome (Option TypeScope)) (later : Option (List TypeScope × W))
    → Ensures IsKept r
    → AllScopes later
    → AllScopes (put_kept r later)
put_kept-AllScopes r none h a = tt
put_kept-AllScopes r (some (scopes, w)) h a = kept-All r scopes h a

walk_scopes-AllScopes :
    {W : Type 0} (scope : ℕ → Partial W (Option TypeScope)) (n i : ℕ) (w : W)
    → ((j : ℕ) (w' : W) → Yields IsKept (scope j w'))
    → AllScopes (walk_scopes scope n i w)
unfolding walk_scopes
walk_scopes-AllScopes scope zero i w h = tt
walk_scopes-AllScopes scope (suc n) i w h = elim (Option-cases (scope i w)) [
  | inl running ↦ rw (running, walk_scopes) tt
  | inr (r, done) ↦
      rw (done, walk_scopes)
        (put_kept-AllScopes r.0 (walk_scopes scope n (i + 1) r.1) (rw done at (h i w))
          (walk_scopes-AllScopes scope n (i + 1) r.1 h))
]

scopes_returned-All :
    {W : Type 0} (r : Option (List TypeScope × W))
    → AllScopes r
    → Yields (All IsScope) (scopes_returned r)
scopes_returned-All none a = tt
scopes_returned-All (some (scopes, w)) a = a

or_no_scopes-IsFilled :
    {W : Type 0} (out : SchemaMap) (w : W)
    → All (λ e. AreBindings e.1) out
    → Ensures (λ m. (is_empty m ≡ false) × All (λ e. AreBindings e.1) m) (or_no_scopes out w).0
or_no_scopes-IsFilled out w a = elim (Bool-cases (is_empty out)) [
  | inl empty ↦ rw empty tt
  | inr filled ↦ rw filled (filled, a)
]

module _ (p : Process) (l : LayoutConfig) where
  open p use {World}

  table-All :
      {A : Type 0} (P : A → Type 0) (fuel scope : ℕ) (key : M World ℕ) (binding : ℕ → M World A)
      (w : World)
      → ((q : ℕ) (w' : World) → Ensures P (binding q w').0)
      → Yields (All P) (table p l fuel scope key binding w)
  unfolding table
  table-All P fuel scope key binding w h = >>>-Yields_any _ (ended key) _ w λ off w1.
      >>>-Yields_any _ (hash_elements p l fuel ((scope + off) % u64_mod)) _ w1
        λ qs w2. all_of-All P binding qs w2 h

  read_scope-IsKept : (fuel scope : ℕ) (w : World) → Yields IsKept (read_scope p l fuel scope w)
  unfolding read_scope
  read_scope-IsKept fuel scope w = >>>-Yields_any _ (ended (scope_name p l scope)) _ w λ name w1.
      >>>-Yields (All IsClass) IsKept
        (table p l fuel scope (offset_of p l "type_scope.class_bindings") (read_class_binding p l))
        _ w1 (table-All IsClass fuel scope _ _ w1 (read_class_binding-IsClass p l))
        λ classes w2 cs.
          >>>-Yields (All IsEnum) IsKept
            (table p l fuel scope (offset_of p l "type_scope.enum_bindings")
              (read_enum_binding p l))
            _ w2 (table-All IsEnum fuel scope _ _ w2 (read_enum_binding-IsEnum p l))
            λ enums w3 es.
              kept_scope-IsKept (record { module_name = name; classes = classes; enums = enums }) cs
                es

  scope_at-IsKept : (fuel data_ i : ℕ) (w : World) → Yields IsKept (scope_at p l fuel data_ i w)
  unfolding scope_at
  scope_at-IsKept fuel data_ i w =
      >>>-Yields_any _ (ended (read p 8 ((data_ + i * 8) % u64_mod))) _ w λ scope w1.
        elim (Bool-cases (scope == 0)) [
          | inl null ↦ rw null tt
          | inr there ↦ rw there (read_scope-IsKept fuel scope w1)
        ]

  scopes_from-All :
      (fuel count data_ : ℕ) (w : World) → Yields (All IsScope) (scopes_from p l fuel count data_ w)
  scopes_from-All fuel count data_ w =
      elim (Bool-cases (ltb 0 count && leb count 4096 && not (data_ == 0))) [
        | inr bad ↦ rw bad tt
        | inl good ↦ rw good (
            scopes_returned-All (walk_scopes (scope_at p l fuel data_) count 0 w)
              (walk_scopes-AllScopes _ count 0 w (λ j w'. scope_at-IsKept fuel data_ j w')))
      ]

  -- If `read_type_scopes` ends and returns, each of its scopes has a class or an enum, and these are as
  -- `read_class_binding` and `read_enum_binding` give them.
  pub read_type_scopes-All :
      (fuel system : ℕ) (w : World) → Yields (All IsScope) (read_type_scopes p l fuel system w)
  unfolding read_type_scopes
  read_type_scopes-All fuel system w =
      >>>-Yields_any _ (ended (offset_of p l "schema_system.type_scopes")) _ w λ scopes w1.
        >>>-Yields_any _ (ended (read_field p l 4 ((system + scopes) % u64_mod) "utl_vector.count"))
          _ w1
          λ count w2.
            >>>-Yields_any _
              (ended (read_field p l 8 ((system + scopes) % u64_mod) "utl_vector.data")) _ w2
              λ data_ w3. scopes_from-All fuel count data_ w3

  -- If `analyze_schemas` ends and returns, its map is not empty, and every module in it has a class or
  -- an enum. Each class and enum has a name; a class has fewer than 32767 fields and pieces of metadata
  -- each, and an enum no more members than its size says.
  pub analyze_schemas-IsFilled :
      (fuel : ℕ) (signatures : SignatureDatabase) (w : World)
      → Yields
          (λ out. (is_empty out ≡ false) × All (λ e. AreBindings e.1) out)
          (analyze_schemas p l fuel signatures w)
  unfolding analyze_schemas
  analyze_schemas-IsFilled fuel signatures w =
      >>>-Yields_any _ (ended (resolve_schema_system p l signatures)) _ w λ system w1.
        >>>-Yields (All IsScope) _ (read_type_scopes p l fuel system) _ w1
          (read_type_scopes-All fuel system w1)
          λ scopes w2 a.
            or_no_scopes-IsFilled (put_scopes scopes []) w2 (put_scopes-All scopes [] a tt)
