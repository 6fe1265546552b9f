-- ===== src/Interfaces/Plausible.antt =====
-- analysis.cpp: what every interface that is told has, whatever the memory of the process holds.
use hardware_assisted_game_s.Base.{
  ℕ, zero, suc, ◌+◌, ◌%◌, ◌<◌, ◌≡◌, ◌⊎◌, inl, inr, refl, true, false, Option, none, some, List, [],
  ◌∷◌, Bytes, codes, u64_mod, is_empty, All, bytes_eq, arith, Bool-cases, Option-cases,
}
use hardware_assisted_game_s.Base.Maps.{bytes_key, All-insert}
use hardware_assisted_game_s.Config.{LayoutConfig, get}
use hardware_assisted_game_s.Pe.{PeImage, pe_image, export_rva}
use hardware_assisted_game_s.Process.{
  ModuleInfo, Outcome, returned, thrown, Process, lift, Ensures, >>=-Ensures, >>=-Ensures_any, read,
  read_bytes, read_utf8,
}
use hardware_assisted_game_s.Interfaces.{
  Interfaces, InterfaceMap, plausible_user_pointer, entry_of, factory_entry, registration,
  put_entry, walk_registrations, read_registrations, interfaces_at, interfaces_in,
  decode_create_interface_list, read_module_interfaces, inside_module, add_module, interfaces_of,
  analyze_interfaces,
}

-- A name that is not empty, and an instance in the range of user addresses.
abbrev pub IsEntry : Bytes × ℕ → Type 0
IsEntry e = (is_empty e.0 ≡ false) × (plausible_user_pointer e.1 ≡ true)

abbrev OptionalEntry : Option (Bytes × ℕ) → Type 0
OptionalEntry none = Unit
OptionalEntry (some e) = IsEntry e

put_entry-All :
    (e : Option (Bytes × ℕ)) (out : Interfaces)
    → OptionalEntry e
    → All IsEntry out
    → All IsEntry (put_entry e out)
put_entry-All none out h a = a
put_entry-All (some e) out h a = All-insert IsEntry e.0 e.1 out h a

-- What the map tells of a module: it is one of those listed, and has interfaces, each of them with a
-- name and inside the module.
abbrev pub IsInside : ℕ → Bytes × ℕ → Type 0
IsInside size e = (is_empty e.0 ≡ false) × (e.1 < size)

abbrev pub IsOneOf : List ModuleInfo → Bytes × Interfaces → Type 0
IsOneOf [] entry = ⊥
IsOneOf (m ∷ ms) entry =
    ((entry.0 ≡ m.name) × (is_empty entry.1 ≡ false) × All (IsInside m.size) entry.1)
    ⊎ IsOneOf ms entry

inside_module-All :
    (m : ModuleInfo) (interfaces : Interfaces)
    → All IsEntry interfaces
    → All (IsInside m.size) (inside_module m interfaces)
unfolding inside_module
inside_module-All m [] a = tt
inside_module-All m ((name, instance_) ∷ rest) a = ground (arith, inside_module-All m rest)

add_module-All :
    (m : ModuleInfo) (r : Outcome Interfaces) (out : InterfaceMap) (P : Bytes × Interfaces → Type 0)
    → Ensures (All IsEntry) r
    → ((is : Interfaces) → is_empty is ≡ false → All (IsInside m.size) is → P (m.name, is))
    → All P out
    → All P (add_module m r out)
unfolding add_module
add_module-All m (thrown e) out P ensured one a = a
add_module-All m (returned is) out P ensured one a =
    elim (Bool-cases (is_empty (inside_module m is))) [
      | inl empty ↦ rw empty a
      | inr some_inside ↦ rw some_inside (
          All-insert P m.name (inside_module m is) out
            (one (inside_module m is) some_inside (inside_module-All m is ensured)) a)
    ]

module _ (p : Process) where
  open p use {World}

  factory_entry-OptionalEntry :
      (name : Bytes) (create_fn : ℕ) (w : World)
      → Ensures OptionalEntry (factory_entry p name create_fn w).0
  unfolding factory_entry entry_of
  factory_entry-OptionalEntry name create_fn w = ground arith

  registration-OptionalEntry :
      (create_off name_off next_off cur : ℕ) (w : World)
      → Ensures (λ r. OptionalEntry r.0) (registration p create_off name_off next_off cur w).0
  unfolding registration
  registration-OptionalEntry create_off name_off next_off cur w =
      >>=-Ensures_any _ (read p 8 ((cur + create_off) % u64_mod)) _ w λ create_fn w1.
        >>=-Ensures_any _ (read p 8 ((cur + name_off) % u64_mod)) _ w1 λ name_ptr w2.
          >>=-Ensures_any _ (read p 8 ((cur + next_off) % u64_mod)) _ w2 λ next w3.
            >>=-Ensures_any _ (read_utf8 p name_ptr 256 true) _ w3 λ name w4.
              >>=-Ensures OptionalEntry _ (factory_entry p name create_fn) _ w4
                (factory_entry-OptionalEntry name create_fn w4) (λ entry w5 h. h)

  walk_registrations-All :
      (create_off name_off next_off n cur : ℕ) (seen : List ℕ) (out : Interfaces) (w : World)
      → All IsEntry out
      → All IsEntry
          (walk_registrations p (registration p create_off name_off next_off) n cur seen out w).0
  unfolding walk_registrations
  walk_registrations-All create_off name_off next_off zero cur seen out w a = a
  walk_registrations-All create_off name_off next_off (suc n) cur seen out w a = grind (
    arith,
    registration-OptionalEntry create_off name_off next_off cur w,
    walk_registrations-All create_off name_off next_off n,
    put_entry-All,
  )

  read_registrations-All :
      (layout : LayoutConfig) (head : ℕ) (w : World)
      → Ensures (All IsEntry) (read_registrations p layout head w).0
  unfolding read_registrations
  read_registrations-All layout head w =
      >>=-Ensures_any _ (lift (get layout (codes "interface.create_fn"))) _ w λ create_off w1.
        >>=-Ensures_any _ (lift (get layout (codes "interface.name"))) _ w1 λ name_off w2.
          >>=-Ensures_any _ (lift (get layout (codes "interface.next"))) _ w2 λ next_off w3.
            walk_registrations-All create_off name_off next_off 10000 head [] [] w3 tt

  interfaces_at-All :
      (layout : LayoutConfig) (slot : Option ℕ) (w : World)
      → Ensures (All IsEntry) (interfaces_at p layout (slot, w)).0
  unfolding interfaces_at
  interfaces_at-All layout none w = tt
  interfaces_at-All layout (some slot) w = grind (arith, read_registrations-All layout)

  interfaces_in-All :
      (layout : LayoutConfig) (m : ModuleInfo) (image : PeImage) (w : World)
      → Ensures (All IsEntry) (interfaces_in p layout m image w).0
  unfolding interfaces_in
  interfaces_in-All layout m image w =
      elim (Option-cases (export_rva image (codes "CreateInterface"))) [
        | inl no_export ↦ ground arith
        | inr (rva, exported) ↦
            let slot = decode_create_interface_list p ((m.base + rva) % u64_mod) w in
            ground (arith, interfaces_at-All layout slot.0 slot.1)
      ]

  -- Whatever the memory of the process holds, each interface that is told for a module has a name
  -- that is not empty and an instance in the range of user addresses.
  pub read_module_interfaces-All :
      (m : ModuleInfo) (layout : LayoutConfig) (w : World)
      → Ensures (All IsEntry) (read_module_interfaces p m layout w).0
  unfolding read_module_interfaces
  read_module_interfaces-All m layout w =
      >>=-Ensures_any _ (read_bytes p m.base m.size) _ w
        λ bytes w1. interfaces_in-All layout m (pe_image bytes) w1

  interfaces_of-All :
      (layout : LayoutConfig) (ms : List ModuleInfo) (out : InterfaceMap) (w : World)
      (P : Bytes × Interfaces → Type 0)
      → ((e : Bytes × Interfaces) → IsOneOf ms e → P e)
      → All P out
      → All P (interfaces_of p layout ms out w).0
  unfolding interfaces_of
  interfaces_of-All layout [] out w P one a = a
  interfaces_of-All layout (m ∷ ms) out w P one a =
      let r = read_module_interfaces p m layout w in
      let added =
        add_module-All m r.0 out P (read_module_interfaces-All m layout w)
          (λ is full inside. one (m.name, is) (inl (refl, full, inside))) a in
      elim (Bool-cases (bytes_eq m.name (codes "crashandler64.dll"))) [
        | inl skipped ↦
            rw (skipped, interfaces_of)
              (interfaces_of-All layout ms out w P (λ e h. one e (inr h)) a)
        | inr looked_at ↦
            rw (looked_at, interfaces_of)
              (interfaces_of-All layout ms (add_module m r.0 out) r.1 P (λ e h. one e (inr h))
                added)
      ]

  -- Whatever the memory of the process holds: if the modules can be listed, `analyze_interfaces`
  -- returns, and each module that it tells of is one of the list, with at least one interface; each
  -- interface has a name and an offset below the module's size.
  pub analyze_interfaces-All :
      (layout : LayoutConfig) (w w' : World) (ms : List ModuleInfo)
      → p.module_list w ≡ (returned ms, w')
      → (out : InterfaceMap) × ((analyze_interfaces p layout w).0 ≡ returned out)
        × All (IsOneOf ms) out
  unfolding analyze_interfaces
  analyze_interfaces-All layout w w' ms listed = (
    (interfaces_of p layout ms [] w').0,
    rw listed refl,
    interfaces_of-All layout ms [] w' (IsOneOf ms) (λ e h. h) tt,
  )
