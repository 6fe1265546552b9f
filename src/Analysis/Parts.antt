-- ===== src/Analysis/Parts.antt =====
-- analysis.cpp: what the parts of the result of `analyze_all` are, from what each analysis returns.
use hardware_assisted_game_s.Base.{
  ℕ, ◌≡◌, refl, ◌⊎◌, ◌≢◌, inl, inr, ap, false, Option, none, some, List, [], All, Bytes, is_empty,
  arith,
}
use hardware_assisted_game_s.Analysis.{AnalysisResult, or_nothing, with_schemas, analyze_all}
use hardware_assisted_game_s.Base.Maps.{lookup}
use hardware_assisted_game_s.Buttons.{ButtonMap, analyze_buttons}
use hardware_assisted_game_s.Config.{LayoutConfig, SignatureDatabase}
use hardware_assisted_game_s.Interfaces.{InterfaceMap, analyze_interfaces}
use hardware_assisted_game_s.Interfaces.Plausible.{IsOneOf, analyze_interfaces-All}
use hardware_assisted_game_s.Offsets.{OffsetMap, analyze_offsets}
use hardware_assisted_game_s.Offsets.Origin.{HasOrigin, analyze_offsets-HasOrigin}
use hardware_assisted_game_s.Offsets.Validated.{offset_at}
use hardware_assisted_game_s.Process.{Outcome, Outcome-cases, returned, thrown, Process, ModuleInfo}
use hardware_assisted_game_s.Schemas.Scopes.{SchemaMap, analyze_schemas}
use hardware_assisted_game_s.Schemas.Filled.{AreBindings, analyze_schemas-IsFilled}
use hardware_assisted_game_s.Schemas.Scopes.Yields.{Yields}

-- The process has listed modules, and the interfaces are theirs, if there are any.
abbrev pub AreListed : Process → InterfaceMap → Type 0
AreListed p interfaces =
    (interfaces ≡ [])
    ⊎ ((ms : List ModuleInfo) × (w : p.World) × ((p.module_list w).0 ≡ returned ms)
        × All (IsOneOf ms) interfaces)

-- What is known of a result.
pub record IsAnalysis (p : Process) (db : SignatureDatabase) (layout : LayoutConfig)
    (r : AnalysisResult) : Type 0 where
  listed : AreListed p r.interfaces
  found : (m n : Bytes) (v : ℕ) → offset_at m n r.offsets ≡ some v → HasOrigin p db layout m (n, v)
  filled : All (λ e. AreBindings e.1) r.schemas

-- What is said of a result, where there is one.
abbrev pub Finishes : {W A : Type 0} → (A → Type 0) → Option (A × W) → Type 0
Finishes P none = Unit
Finishes P (some r) = P r.0

with_schemas-IsAnalysis :
    {W : Type 0} (p : Process) (db : SignatureDatabase) (layout : LayoutConfig) (b : ButtonMap)
    (i : InterfaceMap) (o : OffsetMap) (s : Option (Outcome SchemaMap × W))
    → AreListed p i
    → ((m n : Bytes) (v : ℕ) → offset_at m n o ≡ some v → HasOrigin p db layout m (n, v))
    → Yields (λ out. (is_empty out ≡ false) × All (λ e. AreBindings e.1) out) s
    → Finishes (IsAnalysis p db layout) (with_schemas b i o s)
with_schemas-IsAnalysis p db layout b i o none listed found h = tt
with_schemas-IsAnalysis p db layout b i o (some (thrown f, w)) listed found h = record {
  listed = listed;
  found = found;
  filled = tt;
}
with_schemas-IsAnalysis p db layout b i o (some (returned m, w)) listed found h = record {
  listed = listed;
  found = found;
  filled = h.1;
}

nothing_at : (m n : Bytes) (v : ℕ) → offset_at m n [] ≢ some v
unfolding offset_at lookup
nothing_at m n v e = ground arith

module _ (p : Process) where
  open p use {World}

  interfaces-listed :
      (layout : LayoutConfig) (w : World)
      → AreListed p (or_nothing (analyze_interfaces p layout w).0)
  unfolding analyze_interfaces
  interfaces-listed layout w = elim (Outcome-cases (p.module_list w).0) [
    | inr (e, unlisted) ↦ inl (rw unlisted refl)
    | inl (ms, listed) ↦
        let ran =
          analyze_interfaces-All p layout w (p.module_list w).1 ms
            (ap (λ o. (o, (p.module_list w).1)) listed) in
        inr (ms, w, listed, rw ran.1 ran.2)
  ]

  offsets-found :
      (db : SignatureDatabase) (layout : LayoutConfig) (w : World) (m n : Bytes) (v : ℕ)
      → offset_at m n (or_nothing (analyze_offsets p db layout w).0) ≡ some v
      → HasOrigin p db layout m (n, v)
  offsets-found db layout w m n v e = elim (Outcome-cases (analyze_offsets p db layout w).0) [
    | inl (out, told) ↦ analyze_offsets-HasOrigin p db layout w out m n v told (rw told at e)
    | inr (failure, silent) ↦ absurd (nothing_at m n v (rw silent at e))
  ]

  -- If `analyze_all` ends, whatever the memory of the process holds: its interfaces are those of
  -- modules that the process has listed, each with a name and an offset below the module's size; each
  -- of its offsets has its origin in the module that it is told for; and each module of its schemas
  -- has a class or an enum, all of which have names, with no more items than their counts can say.
  analyze_all-IsAnalysis :
      (fuel : ℕ) (db : SignatureDatabase) (layout : LayoutConfig) (w : World)
      → Finishes (IsAnalysis p db layout) (analyze_all p fuel db layout w)
  unfolding analyze_all
  analyze_all-IsAnalysis fuel db layout w =
      let buttons = analyze_buttons p db layout w in
      let interfaces = analyze_interfaces p layout buttons.1 in
      let offsets = analyze_offsets p db layout interfaces.1 in
      with_schemas-IsAnalysis p db layout (or_nothing buttons.0) (or_nothing interfaces.0)
        (or_nothing offsets.0) (analyze_schemas p layout fuel db offsets.1)
        (interfaces-listed layout buttons.1) (offsets-found db layout interfaces.1)
        (analyze_schemas-IsFilled p layout fuel db offsets.1)
