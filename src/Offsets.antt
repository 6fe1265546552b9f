-- ===== src/Offsets.antt =====
-- `analyze_offsets` and `validate_runtime_offsets` of
-- projects/cs2-dumper-cpp-standalone/src/analysis.cpp: a value for each name of the signatures, and
-- the test of some of the values against the memory that they lead to.
pub mod Validated
pub mod Origin
mod Tests
use hardware_assisted_game_s.Base.{
  ℕ, ◌+◌, ◌%◌, Bool, true, false, ◌&&◌, ◌||◌, Option, none, some, List, [], ◌∷◌, Bytes, codes,
  u32_mod, u64_mod, ltb, bytes_eq, if◌then◌else◌,
}
use hardware_assisted_game_s.Base.Maps.{lookup, insert, erase, bytes_key}
use hardware_assisted_game_s.Config.{
  LayoutConfig, SignatureDatabase, SignatureCandidate, SignatureCallback, no_callback, view_angles,
  local_player_pawn, get, offset_groups, Groups, or_empty,
}
use hardware_assisted_game_s.Config.Text
use hardware_assisted_game_s.Process.{ModuleInfo, Outcome, returned, thrown, Process, M, read}
use hardware_assisted_game_s.Signatures.{ModuleView, load_module, resolve_signature}

abbrev pub Rvas : Type 0
Rvas = List (Bytes × ℕ)

abbrev pub OffsetMap : Type 0
OffsetMap = List (Bytes × Rvas)

-- `out[module][name] = value`.
unfoldable pub put_offset : Bytes → Bytes → ℕ → OffsetMap → OffsetMap
put_offset m n value out = insert m (insert n value (or_empty (lookup m out))) out

-- The sum of a value and of one more signature's, if that is found.
unfoldable pub put_sum :
    ModuleView → SignatureDatabase → Bytes → Bytes → Bytes → ℕ → OffsetMap → OffsetMap
put_sum mv db m name target value out = elim (resolve_signature mv db name) [
  | none ↦ out
  | some extra ↦ put_offset m target ((value + extra) % u32_mod) out
]

abbrev pub first_callback : List SignatureCandidate → SignatureCallback
first_callback [] = no_callback
first_callback (c ∷ cs) = c.callback

unfoldable pub put_callback :
    SignatureCallback → ModuleView → SignatureDatabase → Bytes → ℕ → OffsetMap → OffsetMap
put_callback no_callback mv db m value out = out
put_callback view_angles mv db m value out =
    put_sum mv db m (codes "__ViewAngles") (codes "dwViewAngles") value out
put_callback local_player_pawn mv db m value out =
    put_sum mv db m (codes "__LocalPlayerPawn") (codes "dwLocalPlayerPawn") value out

-- One name more, from the layout; the error of a missing key leaves what there is.
unfoldable pub put_sensitivity : LayoutConfig → Bytes → Bytes → OffsetMap → OffsetMap
put_sensitivity layout m name out =
    if bytes_eq name (codes "dwSensitivity")
    then elim (get layout (codes "offset.dwSensitivity_sensitivity")) [
      | Text.err e ↦ out
      | Text.ok v ↦ put_offset m (codes "dwSensitivity_sensitivity") (v % u32_mod) out
    ]
    else out

-- What a group leaves once its module is loaded.
unfoldable pub put_group :
    LayoutConfig
    → SignatureDatabase
    → ModuleView
    → Bytes
    → Bytes
    → List SignatureCandidate
    → OffsetMap
    → OffsetMap
put_group layout db mv m name cs out = elim (resolve_signature mv db name) [
  | none ↦ out
  | some value ↦
      put_sensitivity layout m name
        (put_callback (first_callback cs) mv db m value (put_offset m name value out))
]

-- `build < 1000 || build > 10000000`, and the same for a size of the window.
unfoldable pub is_build : ℕ → Bool
is_build build = ltb 999 build && ltb build 10000001

unfoldable pub is_window_size : ℕ → Bool
is_window_size size = ltb 199 size && ltb size 20001

abbrev pub Modules : Type 0
Modules = List (Bytes × ModuleView)

unfoldable pub without_window : Rvas → Rvas
without_window m = erase (codes "dwWindowHeight") (erase (codes "dwWindowWidth") m)

abbrev pub engine : Bytes
engine = codes "engine2.dll"

module _ (p : Process) where
  open p use {World, module_by_name}

  -- The view of a module, kept from before or loaded.
  unfoldable pub view_of : Bytes → Modules → M World ModuleView
  view_of m modules w = elim (lookup m modules) [
    | some mv ↦ (returned mv, w)
    | none ↦ load_module p m w
  ]

  unfoldable pub offsets_of :
      LayoutConfig → SignatureDatabase → Groups → Modules → OffsetMap → World → OffsetMap × World
  offsets_of layout db [] modules out w = (out, w)
  offsets_of layout db (((m, name), cs) ∷ groups) modules out w = elim (view_of m modules w).0 [
    | thrown e ↦ offsets_of layout db groups modules out (view_of m modules w).1
    | returned mv ↦
        offsets_of layout db groups (insert m mv modules) (put_group layout db mv m name cs out)
          (view_of m modules w).1
  ]

  -- The test of `dwBuildNumber`; a value that cannot be read is taken out too.
  unfoldable pub check_build : ModuleInfo → Rvas → World → Rvas × World
  check_build info m w = elim (lookup (codes "dwBuildNumber") m) [
    | none ↦ (m, w)
    | some rva ↦
        let build = read p 4 ((info.base + rva) % u64_mod) w in
        elim build.0 [
          | thrown e ↦ (erase (codes "dwBuildNumber") m, build.1)
          | returned b ↦ (if is_build b then m else erase (codes "dwBuildNumber") m, build.1)
        ]
  ]

  -- The two sizes of the window: values that cannot be read stay.
  unfoldable pub window_sizes : ℕ → ℕ → World → Outcome (ℕ × ℕ) × World
  window_sizes width_at height_at w = elim (read p 4 width_at w).0 [
    | thrown e ↦ (thrown e, (read p 4 width_at w).1)
    | returned width ↦
        let height = read p 4 height_at (read p 4 width_at w).1 in
        elim height.0 [
          | thrown e ↦ (thrown e, height.1)
          | returned h ↦ (returned (width, h), height.1)
        ]
  ]

  unfoldable pub check_window : ModuleInfo → Rvas → World → Rvas × World
  check_window info m w = elim (lookup (codes "dwWindowWidth") m) [
    | none ↦ (m, w)
    | some width_rva ↦ elim (lookup (codes "dwWindowHeight") m) [
      | none ↦ (m, w)
      | some height_rva ↦
          let sizes =
            window_sizes ((info.base + width_rva) % u64_mod) ((info.base + height_rva) % u64_mod)
              w in
          elim sizes.0 [
            | thrown e ↦ (m, sizes.1)
            | returned s ↦
                (if is_window_size s.0 && is_window_size s.1 then m else without_window m, sizes.1)
          ]
    ]
  ]

  unfoldable pub validate_runtime_offsets : OffsetMap → World → OffsetMap × World
  validate_runtime_offsets out w = elim (lookup engine out) [
    | none ↦ (out, w)
    | some m ↦ elim (module_by_name engine w).0 [
      | thrown e ↦ (out, (module_by_name engine w).1)
      | returned info ↦
          let built = check_build info m (module_by_name engine w).1 in
          let sized = check_window info built.0 built.1 in (insert engine sized.0 out, sized.1)
    ]
  ]

  unfoldable pub analyze_offsets : SignatureDatabase → LayoutConfig → M World OffsetMap
  analyze_offsets signatures layout w =
      let found = offsets_of layout signatures (offset_groups signatures) [] [] w in
      let valid = validate_runtime_offsets found.0 found.1 in (returned valid.0, valid.1)
