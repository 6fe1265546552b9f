-- ===== src/Offsets/Validated.antt =====
-- analysis.cpp: what `validate_runtime_offsets` does to the offsets.
use hardware_assisted_game_s.Base.{
  ℕ, ◌+◌, ◌%◌, ◌≤◌, ◌≡◌, ◌⊎◌, inl, inr, refl, Bool, true, ◌||◌, Option, none, some, Option-cases,
  Bytes, codes, u64_mod, bytes_eq, bytes_eq_iff, arith,
}
use hardware_assisted_game_s.Base.Maps.{lookup, erase, bytes_key, lookup-insert, lookup-erase}
use hardware_assisted_game_s.Process.{ModuleInfo, Outcome-cases, returned, Process, read}
use hardware_assisted_game_s.Offsets.{
  Rvas, OffsetMap, check_build, check_window, without_window, is_build, engine,
  validate_runtime_offsets,
}

-- The value of a name in a module.
unfoldable pub offset_at : Bytes → Bytes → OffsetMap → Option ℕ
offset_at m n out = elim (lookup m out) [ none ↦ none | some rvas ↦ lookup n rvas ]

-- A name whose value is tested.
unfoldable pub is_tested : Bytes → Bool
is_tested n =
    bytes_eq n (codes "dwBuildNumber")
    || bytes_eq n (codes "dwWindowWidth")
    || bytes_eq n (codes "dwWindowHeight")

-- A map of which only tested names may have been taken out.
abbrev Kept : Bytes → Rvas → Rvas → Type 0
Kept n before after =
    (lookup n after ≡ lookup n before) ⊎ ((lookup n after ≡ none) × (is_tested n ≡ true))

erase-Kept :
    (k n : Bytes) (before m : Rvas)
    → is_tested k ≡ true
    → Kept n before m
    → Kept n before (erase k m)
erase-Kept k n before m tested kept = ground (arith, lookup-erase k n m, bytes_eq_iff k n)

build_tested : is_tested (codes "dwBuildNumber") ≡ true
unfolding is_tested bytes_eq
build_tested = refl

width_tested : is_tested (codes "dwWindowWidth") ≡ true
unfolding is_tested bytes_eq
width_tested = refl

height_tested : is_tested (codes "dwWindowHeight") ≡ true
unfolding is_tested bytes_eq
height_tested = refl

without_window-Kept :
    (n : Bytes) (before m : Rvas) → Kept n before m → Kept n before (without_window m)
unfolding without_window
without_window-Kept n before m kept =
    erase-Kept (codes "dwWindowHeight") n before (erase (codes "dwWindowWidth") m) height_tested
      (erase-Kept (codes "dwWindowWidth") n before m width_tested kept)

module _ (p : Process) where
  open p use {World}

  check_build-Kept :
      (info : ModuleInfo) (m : Rvas) (w : World) (n : Bytes) → Kept n m (check_build p info m w).0
  unfolding check_build
  check_build-Kept info m w n =
      ground (arith, erase-Kept (codes "dwBuildNumber") n m m build_tested (inl refl))

  check_window-Kept :
      (info : ModuleInfo) (before m : Rvas) (w : World) (n : Bytes)
      → Kept n before m
      → Kept n before (check_window p info m w).0
  unfolding check_window
  check_window-Kept info before m w n kept = ground (arith, without_window-Kept n before m kept)

  -- The validation changes no value: a name of a module has the value that it had, or the module is
  -- engine2.dll, the name is one of the three that are tested, and it is gone.
  pub validate_runtime_offsets-offset_at :
      (out : OffsetMap) (w : World) (m n : Bytes)
      → (offset_at m n (validate_runtime_offsets p out w).0 ≡ offset_at m n out)
        ⊎ ((offset_at m n (validate_runtime_offsets p out w).0 ≡ none)
            × (m ≡ engine)
            × (is_tested n ≡ true))
  unfolding validate_runtime_offsets offset_at
  validate_runtime_offsets-offset_at out w m n = elim (Option-cases (lookup engine out)) [
    | inl no_engine ↦ ground arith
    | inr (rvas, there) ↦ elim (Outcome-cases (p.module_by_name engine w).0) [
      | inr (e, unlisted) ↦ ground arith
      | inl (info, listed) ↦
          let w1 = (p.module_by_name engine w).1 in
          let built = check_build p info rvas w1 in
          ground (
            arith,
            lookup-insert engine m (check_window p info built.0 built.1).0 out,
            bytes_eq_iff engine m,
            check_window-Kept info rvas built.0 built.1 n (check_build-Kept info rvas w1 n),
          )
    ]
  ]

  check_build-is_build :
      (info : ModuleInfo) (m : Rvas) (w : World) (rva : ℕ)
      → lookup (codes "dwBuildNumber") (check_build p info m w).0 ≡ some rva
      → (build : ℕ) × ((read p 4 ((info.base + rva) % u64_mod) w).0 ≡ returned build)
        × (1000 ≤ build)
        × (build ≤ 10000000)
  unfolding check_build is_build
  check_build-is_build info m w rva e =
      let name = codes "dwBuildNumber" in
      let gone : lookup name (erase name m) ≡ none =
        ground (arith, lookup-erase name name m, bytes_eq_iff name name) in
      elim (Option-cases (lookup (codes "dwBuildNumber") m)) [
        | inl absent ↦ ground arith
        | inr (r, there) ↦ elim (Outcome-cases (read p 4 ((info.base + r) % u64_mod) w).0) [
          | inl (build, told) ↦
              let same : rva ≡ r = ground arith in (build, rw same told, ground arith, ground arith)
          | inr (failure, unread) ↦ absurd (ground arith)
        ]
      ]

  -- A build number that the validation leaves is plausible: where engine2.dll is listed, its value
  -- has been read in the process as a number from 1000 to 10000000.
  pub validate_runtime_offsets-is_build :
      (out : OffsetMap) (w : World) (rva : ℕ) (info : ModuleInfo) (w1 : World)
      → p.module_by_name engine w ≡ (returned info, w1)
      → offset_at engine (codes "dwBuildNumber") (validate_runtime_offsets p out w).0 ≡ some rva
      → (build : ℕ) × ((read p 4 ((info.base + rva) % u64_mod) w1).0 ≡ returned build)
        × (1000 ≤ build)
        × (build ≤ 10000000)
  unfolding validate_runtime_offsets offset_at
  validate_runtime_offsets-is_build out w rva info w1 found e =
      elim (Option-cases (lookup engine out)) [
        | inl no_engine ↦ absurd (ground arith)
        | inr (rvas, there) ↦
            let built = check_build p info rvas w1 in
            let sized = check_window p info built.0 built.1 in
            check_build-is_build info rvas w1 rva (
              ground (
                arith,
                lookup-insert engine engine sized.0 out,
                bytes_eq_iff engine engine,
                check_window-Kept info built.0 built.0 built.1 (codes "dwBuildNumber") (inl refl),
              ))
      ]
