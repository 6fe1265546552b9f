-- ===== src/Analysis.antt =====
-- `analyze_all` of projects/cs2-dumper-cpp-standalone/src/analysis.cpp: the four analyses one after
-- the other, each of which leaves its part of the result empty where it throws.
pub mod Parts
use hardware_assisted_game_s.Base.{ℕ, Option, none, some, List, []}
use hardware_assisted_game_s.Buttons.{ButtonMap, analyze_buttons}
use hardware_assisted_game_s.Config.{LayoutConfig, SignatureDatabase}
use hardware_assisted_game_s.Interfaces.{InterfaceMap, analyze_interfaces}
use hardware_assisted_game_s.Offsets.{OffsetMap, analyze_offsets}
use hardware_assisted_game_s.Process.{Outcome, returned, thrown, Process}
use hardware_assisted_game_s.Schemas.Scopes.{SchemaMap, analyze_schemas}

pub record AnalysisResult : Type 0 where
  pub buttons : ButtonMap
  pub interfaces : InterfaceMap
  pub offsets : OffsetMap
  pub schemas : SchemaMap

-- What the handler of a part leaves.
abbrev pub or_nothing : {A : Type 0} → Outcome (List A) → List A
or_nothing (returned xs) = xs
or_nothing (thrown e) = []

abbrev pub with_schemas :
    {W : Type 0}
    → ButtonMap
    → InterfaceMap
    → OffsetMap
    → Option (Outcome SchemaMap × W)
    → Option (AnalysisResult × W)
with_schemas buttons interfaces offsets none = none
with_schemas buttons interfaces offsets (some r) = some (
  record {
    buttons = buttons;
    interfaces = interfaces;
    offsets = offsets;
    schemas = or_nothing r.0;
  },
  r.1,
)

module _ (p : Process) where
  open p use {World}

  -- `none` means that a loop over the free blocks of a hash table is still running.
  unfoldable pub analyze_all :
      ℕ → SignatureDatabase → LayoutConfig → World → Option (AnalysisResult × World)
  analyze_all fuel signatures layout w =
      let buttons = analyze_buttons p signatures layout w in
      let interfaces = analyze_interfaces p layout buttons.1 in
      let offsets = analyze_offsets p signatures layout interfaces.1 in
      with_schemas (or_nothing buttons.0) (or_nothing interfaces.0) (or_nothing offsets.0)
        (analyze_schemas p layout fuel signatures offsets.1)
