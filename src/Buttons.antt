-- ===== src/Buttons.antt =====
-- `analyze_buttons` of projects/cs2-dumper-cpp-standalone/src/analysis.cpp: the list of buttons that a
-- signature of client.dll leads to. An `int64_t` is kept as its 64 bits.
pub mod Walk
use hardware_assisted_game_s.Base.{
  ℕ, zero, suc, ◌+◌, ◌-◌, ◌%◌, Bool, true, false, not, ◌&&◌, ◌||◌, Option, none, some, List, [],
  ◌∷◌, Bytes, codes, u64_mod, is_empty, leb, ◌==◌, if◌then◌else◌,
}
use hardware_assisted_game_s.Base.Maps.{insert, bytes_key}
use hardware_assisted_game_s.Config.{LayoutConfig, SignatureDatabase, get}
use hardware_assisted_game_s.Interfaces.{contains_address}
use hardware_assisted_game_s.Process.{
  Outcome, returned, thrown, no_button_list, Process, M, return, throw, lift, continue, ◌>>=◌, read,
  read_utf8,
}
use hardware_assisted_game_s.Signatures.{ModuleView, load_module, resolve_signature}

abbrev pub ButtonMap : Type 0
ButtonMap = List (Bytes × ℕ)

-- The button at an address, where it has a name and lies behind the base.
unfoldable pub add_button : ℕ → ℕ → ℕ → Bytes → ButtonMap → ButtonMap
add_button base state_off cur name out =
    if not (is_empty name) && leb base cur
    then insert name ((cur - base + state_off) % u64_mod) out
    else out

abbrev pub or_no_list : {W : Type 0} → Option ℕ → M W ℕ
or_no_list none = throw no_button_list
or_no_list (some rva) = return rva

-- The loop, of which `n` rounds may follow; a round tells the name and the next address.
unfoldable pub walk_buttons :
    {W : Type 0} → (ℕ → M W (Bytes × ℕ)) → ℕ → ℕ → ℕ → ℕ → List ℕ → ButtonMap → M W ButtonMap
walk_buttons round base state_off zero cur seen out w = (returned out, w)
walk_buttons round base state_off (suc n) cur seen out w =
    elim (cur == 0 || contains_address seen cur) [
      | true ↦ (returned out, w)
      | false ↦ elim (round cur w).0 [
        | thrown e ↦ (thrown e, (round cur w).1)
        | returned r ↦
            walk_buttons round base state_off n r.1 (cur ∷ seen)
              (add_button base state_off cur r.0 out) (round cur w).1
      ]
    ]

module _ (p : Process) where
  open p use {World}

  unfoldable pub button : ℕ → ℕ → ℕ → M World (Bytes × ℕ)
  button name_off next_off cur = do
    name_ptr ← read p 8 ((cur + name_off) % u64_mod)
    name ← read_utf8 p name_ptr 64 true
    next ← read p 8 ((cur + next_off) % u64_mod)
    return (name, next)

  unfoldable pub analyze_buttons : SignatureDatabase → LayoutConfig → M World ButtonMap
  analyze_buttons signatures layout = do
    mv ← load_module p (codes "client.dll")
    rva ← or_no_list (resolve_signature mv signatures (codes "__ButtonList"))
    head ← read p 8 ((mv.info.base + rva) % u64_mod)
    name_off ← lift (get layout (codes "button.name"))
    state_off ← lift (get layout (codes "button.state"))
    next_off ← lift (get layout (codes "button.next"))
    walk_buttons (button name_off next_off) mv.info.base state_off 10000 head [] []
