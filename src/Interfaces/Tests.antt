-- ===== src/Interfaces/Tests.antt =====
-- A process with one module, whose image is small and exports nothing.
use hardware_assisted_game_s.Base.{
  ◌-◌, ◌≡◌, refl, none, [], ◌∷◌, All, codes, get_elem?, ltb, if◌then◌else◌,
}
use hardware_assisted_game_s.Config.Defaults.{default_layout}
use hardware_assisted_game_s.Interfaces.{InterfaceMap, analyze_interfaces}
use hardware_assisted_game_s.Interfaces.Plausible.{IsOneOf, analyze_interfaces-All}
use hardware_assisted_game_s.Pe.Tests.{small_image}
use hardware_assisted_game_s.Process.{ModuleInfo, Process, returned}
use hardware_assisted_game_s.Process.Strings.{Cells, read_cells}

abbrev pub image_cells : Cells
image_cells a = if ltb a 0x10000 then none else get_elem? small_image (a - 0x10000)

abbrev pub small_module : ModuleInfo
small_module = record { name = codes "a.dll"; path = codes "a.dll"; base = 0x10000; size = 0x200 }

abbrev pub one_module : Process
one_module = record {
  World = Unit {0};
  read_raw = λ address n w. (read_cells image_cells address n, w);
  module_list = λ w. (returned (small_module ∷ []), w);
  module_by_name = λ name w. (returned small_module, w);
}

analyze_interfaces-All_example :
    (out : InterfaceMap) × ((analyze_interfaces one_module default_layout tt).0 ≡ returned out)
    × All (IsOneOf (small_module ∷ [])) out
analyze_interfaces-All_example =
    analyze_interfaces-All one_module default_layout tt tt (small_module ∷ []) refl
