-- ===== src/Interfaces.antt =====
-- The interfaces of projects/cs2-dumper-cpp-standalone/src/analysis.cpp: the list of registrations
-- that the exported `CreateInterface` of a module leads to, and the instances that they make.
pub mod Plausible
pub mod Tests
use hardware_assisted_game_s.Base.{
  ℕ, zero, suc, ◌+◌, ◌-◌, ◌%◌, bit_and, Bool, true, false, not, ◌&&◌, ◌||◌, Option, none, some,
  List, [], ◌∷◌, Bytes, codes, u32_mod, u64_mod, le_word, length, get_or, take, drop, is_empty, ltb,
  leb, bytes_eq, ◌==◌, if◌then◌else◌,
}
use hardware_assisted_game_s.Base.Maps.{lookup, insert, bytes_key}
use hardware_assisted_game_s.Config.{LayoutConfig, get}
use hardware_assisted_game_s.Pe.{PeImage, pe_image, export_rva, field_at}
use hardware_assisted_game_s.Process.{
  ModuleInfo, Failure, Outcome, returned, thrown, Process, M, return, throw, try_or, handled, lift,
  continue, ◌>>=◌, read, read_bytes, read_utf8,
}

-- `add_signed` at a displacement of 32, 8 bits.
unfoldable pub add_signed32 : ℕ → ℕ → ℕ
add_signed32 a d =
    if ltb d 0x8000_0000 then (a + d) % u64_mod else (a + (u64_mod - u32_mod) + d) % u64_mod

unfoldable pub add_signed8 : ℕ → ℕ → ℕ
add_signed8 a d = if ltb d 0x80 then (a + d) % u64_mod else (a + (u64_mod - 256) + d) % u64_mod

unfoldable pub plausible_user_pointer : ℕ → Bool
plausible_user_pointer p = leb 0x10000 p && ltb p 0x0000_8000_0000_0000

-- REX, an opcode, and a ModRM byte that is relative to RIP, from byte `i` on.
unfoldable pub is_rip_relative : Bytes → ℕ → Bool → Bool
is_rip_relative b i opcode =
    bit_and (get_or b i 0) 0xf0 == 0x40 && opcode && bit_and (get_or b (i + 2) 0) 0xc7 == 0x05

abbrev pub when_plausible : ℕ → Option ℕ
when_plausible p = if plausible_user_pointer p then some p else none

abbrev pub Interfaces : Type 0
Interfaces = List (Bytes × ℕ)

-- The entry that a registration makes, if it makes one.
unfoldable pub entry_of : Bytes → Option ℕ → Option (Bytes × ℕ)
entry_of name none = none
entry_of name (some instance_) =
    if plausible_user_pointer instance_ then some (name, instance_) else none

abbrev pub put_entry : Option (Bytes × ℕ) → Interfaces → Interfaces
put_entry none out = out
put_entry (some e) out = insert e.0 e.1 out

abbrev pub contains_address : List ℕ → ℕ → Bool
contains_address [] a = false
contains_address (b ∷ bs) a = b == a || contains_address bs a

-- `analyze_interfaces`: the instances inside the module, relative to its base.
unfoldable pub inside_module : ModuleInfo → Interfaces → Interfaces
inside_module m [] = []
inside_module m ((name, instance_) ∷ rest) =
    let later = inside_module m rest in
    if leb m.base instance_ && ltb instance_ ((m.base + m.size) % u64_mod)
    then (name, instance_ - m.base) ∷ later
    else later

abbrev pub InterfaceMap : Type 0
InterfaceMap = List (Bytes × List (Bytes × ℕ))

unfoldable pub add_module : ModuleInfo → Outcome Interfaces → InterfaceMap → InterfaceMap
add_module m (thrown e) out = out
add_module m (returned interfaces) out =
    if is_empty (inside_module m interfaces)
    then out
    else insert m.name (inside_module m interfaces) out

module _ (p : Process) where
  open p use {World, read_raw, module_list, module_by_name}

  -- The value behind a slot, where it can be read and is plausible; else the slot itself.
  unfoldable pub loaded_or_slot : ℕ → Outcome ℕ × World → Option ℕ × World
  loaded_or_slot slot (returned loaded, w) =
      (some (if plausible_user_pointer loaded then loaded else slot), w)
  loaded_or_slot slot (thrown e, w) = (some slot, w)

  -- The operand of LEA is the address itself.
  unfoldable pub rip_operand : Bool → ℕ → World → Option ℕ × World
  rip_operand is_lea slot w =
      if is_lea then (some slot, w) else loaded_or_slot slot (read p 8 slot w)

  -- The first instruction of a factory, from its 16 bytes; `jump` follows a thunk.
  unfoldable pub decode_instruction :
      (ℕ → World → Option ℕ × World) → ℕ → Bytes → World → Option ℕ × World
  decode_instruction jump fn b w =
      if get_or b 0 0 == 0xe9
      then jump (add_signed32 ((fn + 5) % u64_mod) (field_at b 1 4)) w
      else if get_or b 0 0 == 0xeb
      then jump (add_signed8 ((fn + 2) % u64_mod) (get_or b 1 0)) w
      else if is_rip_relative b 0 (get_or b 1 0 == 0x8d || get_or b 1 0 == 0x8b)
      then rip_operand (get_or b 1 0 == 0x8d) (add_signed32 ((fn + 7) % u64_mod) (field_at b 3 4)) w
      else if get_or b 0 0 == 0x48 && get_or b 1 0 == 0xb8
      then (when_plausible (field_at b 2 8), w)
      else (none, w)

  -- `decode_factory_target` at a depth of `5 - n`.
  unfoldable pub decode_factory_target : ℕ → ℕ → World → Option ℕ × World
  decode_factory_target zero fn w = (none, w)
  decode_factory_target (suc n) fn w = elim (fn == 0) [
    | true ↦ (none, w)
    | false ↦ elim (read_raw fn 16 w).0 [
      | none ↦ (none, (read_raw fn 16 w).1)
      | some b ↦ decode_instruction (decode_factory_target n) fn b (read_raw fn 16 w).1
    ]
  ]

  -- The search for a load relative to RIP: `n` places from byte `i` on.
  unfoldable pub find_load : ℕ → Bytes → ℕ → ℕ → Option ℕ
  find_load fn b i zero = none
  find_load fn b i (suc n) =
      let later = find_load fn b (i + 1) n in
      if is_rip_relative b i (get_or b (i + 1) 0 == 0x8b)
      then some (add_signed32 ((fn + i + 7) % u64_mod) (field_at b (i + 3) 4))
      else later

  -- The slot of the list, from 24 bytes of code at `fn`.
  unfoldable pub list_slot : ℕ → Bytes → Option ℕ
  list_slot fn b = elim (find_load fn b 0 18) [
    | some slot ↦ some slot
    | none ↦ when_plausible (add_signed32 ((fn + 7) % u64_mod) (field_at b 3 4))
  ]

  unfoldable pub decode_create_interface_list : ℕ → World → Option ℕ × World
  decode_create_interface_list export_fn w =
      if export_fn == 0 then (none, w) else elim (read_raw export_fn 24 w).0 [
        | none ↦ (none, (read_raw export_fn 24 w).1)
        | some b ↦
            let w' = (read_raw export_fn 24 w).1 in
            let fn = add_signed32 ((export_fn + 5) % u64_mod) (field_at b 1 4) in
            if get_or b 0 0 == 0xe9
            then elim (read_raw fn 24 w').0 [
              | none ↦ (none, (read_raw fn 24 w').1)
              | some b' ↦ (list_slot fn b', (read_raw fn 24 w').1)
            ]
            else (list_slot export_fn b, w')
      ]

  unfoldable pub factory_entry : Bytes → ℕ → M World (Option (Bytes × ℕ))
  factory_entry name create_fn w =
      if is_empty name
      then (returned none, w)
      else let r = decode_factory_target 5 create_fn w in (returned (entry_of name r.0), r.1)

  -- One round of the loop, with the next address.
  unfoldable pub registration : ℕ → ℕ → ℕ → ℕ → M World (Option (Bytes × ℕ) × ℕ)
  registration create_off name_off next_off cur = do
    create_fn ← read p 8 ((cur + create_off) % u64_mod)
    name_ptr ← read p 8 ((cur + name_off) % u64_mod)
    next ← read p 8 ((cur + next_off) % u64_mod)
    name ← read_utf8 p name_ptr 256 true
    entry ← factory_entry name create_fn
    return (entry, next)

  -- The loop, of which `n` rounds may follow.
  unfoldable pub walk_registrations :
      (ℕ → M World (Option (Bytes × ℕ) × ℕ))
      → ℕ
      → ℕ
      → List ℕ
      → Interfaces
      → World
      → Interfaces × World
  walk_registrations round zero cur seen out w = (out, w)
  walk_registrations round (suc n) cur seen out w = elim (cur == 0 || contains_address seen cur) [
    | true ↦ (out, w)
    | false ↦ elim (round cur w).0 [
      | thrown e ↦ (out, (round cur w).1)
      | returned r ↦ walk_registrations round n r.1 (cur ∷ seen) (put_entry r.0 out) (round cur w).1
    ]
  ]

  -- What follows once the head of the list is read.
  unfoldable pub read_registrations : LayoutConfig → ℕ → M World Interfaces
  read_registrations layout head = do
    create_off ← lift (get layout (codes "interface.create_fn"))
    name_off ← lift (get layout (codes "interface.name"))
    next_off ← lift (get layout (codes "interface.next"))
    λ w.
        let r = walk_registrations (registration create_off name_off next_off) 10000 head [] [] w in
        (returned r.0, r.1)

  -- The list at a slot; an error of the reading of its head leaves no interfaces.
  unfoldable pub interfaces_at : LayoutConfig → Option ℕ × World → Outcome Interfaces × World
  interfaces_at layout (none, w) = (returned [], w)
  interfaces_at layout (some slot, w) = elim (read p 8 slot w).0 [
    | thrown e ↦ (returned [], (read p 8 slot w).1)
    | returned head ↦ read_registrations layout head (read p 8 slot w).1
  ]

  -- The same from the image of the module.
  unfoldable pub interfaces_in : LayoutConfig → ModuleInfo → PeImage → M World Interfaces
  interfaces_in layout m image w =
      if not image.valid
      then (returned [], w)
      else elim (export_rva image (codes "CreateInterface")) [
        | none ↦ (returned [], w)
        | some rva ↦
            interfaces_at layout (decode_create_interface_list ((m.base + rva) % u64_mod) w)
      ]

  unfoldable pub read_module_interfaces : ModuleInfo → LayoutConfig → M World Interfaces
  read_module_interfaces m layout = do
    bytes ← read_bytes p m.base m.size
    interfaces_in layout m (pe_image bytes)

  unfoldable pub find_interface_instance : Bytes → Bytes → LayoutConfig → M World (Option ℕ)
  find_interface_instance module_name interface_name layout = do
    m ← module_by_name module_name
    interfaces ← read_module_interfaces m layout
    return (lookup interface_name interfaces)

  unfoldable pub interfaces_of :
      LayoutConfig → List ModuleInfo → InterfaceMap → World → InterfaceMap × World
  interfaces_of layout [] out w = (out, w)
  interfaces_of layout (m ∷ ms) out w = elim (bytes_eq m.name (codes "crashandler64.dll")) [
    | true ↦ interfaces_of layout ms out w
    | false ↦
        interfaces_of layout ms (add_module m (read_module_interfaces m layout w).0 out)
          (read_module_interfaces m layout w).1
  ]

  unfoldable pub analyze_interfaces : LayoutConfig → M World InterfaceMap
  analyze_interfaces layout = do
    ms ← module_list
    λ w. let r = interfaces_of layout ms [] w in (returned r.0, r.1)
