-- ===== src/Offsets/Origin.antt =====
-- analysis.cpp: where the offsets come from.
use hardware_assisted_game_s.Base.{
  ℕ, ◌+◌, ◌%◌, ◌≡◌, ◌⊎◌, inl, inr, refl, some, Option-cases, List, [], ◌∷◌, Bytes, Bool-cases, All,
  codes, u32_mod, bytes_eq, bytes_eq_iff, arith,
}
use hardware_assisted_game_s.Base.Maps.{lookup, insert, bytes_key, All-insert, lookup-All}
use hardware_assisted_game_s.Config.{
  LayoutConfig, SignatureDatabase, SignatureCandidate, SignatureCallback, no_callback, view_angles,
  local_player_pawn, Groups, or_empty, offset_groups, get,
}
use hardware_assisted_game_s.Config.Text
use hardware_assisted_game_s.Process.{Outcome, Outcome-cases, returned, thrown, Process, Ensures}
use hardware_assisted_game_s.Signatures.{ModuleView, load_module, resolve_signature}
use hardware_assisted_game_s.Offsets.{
  Rvas, OffsetMap, Modules, put_offset, put_sum, first_callback, put_callback, put_sensitivity,
  put_group, view_of, offsets_of, analyze_offsets,
}
use hardware_assisted_game_s.Offsets.Validated.{offset_at, validate_runtime_offsets-offset_at}

-- The sum of the values of two signatures, under a name of its own.
abbrev pub IsSum : SignatureDatabase → ModuleView → Bytes → Bytes → Bytes → ℕ → Type 0
IsSum db mv hidden target n v =
    (n ≡ target)
    × (name : Bytes) × (value : ℕ) × (extra : ℕ) × (resolve_signature mv db name ≡ some value)
    × (resolve_signature mv db hidden ≡ some extra)
    × (v ≡ (value + extra) % u32_mod)

-- The value of the layout that stands beside the signature of dwSensitivity.
abbrev pub IsSensitivity : SignatureDatabase → LayoutConfig → ModuleView → Bytes → ℕ → Type 0
IsSensitivity db layout mv n v =
    (n ≡ codes "dwSensitivity_sensitivity")
    × (value : ℕ) × (raw : ℕ) × (resolve_signature mv db (codes "dwSensitivity") ≡ some value)
    × (get layout (codes "offset.dwSensitivity_sensitivity") ≡ Text.ok raw)
    × (v ≡ raw % u32_mod)

-- The value that a name has in a module: that of its signature, or one of the three that are made
-- from other names.
abbrev pub IsOffset : SignatureDatabase → LayoutConfig → ModuleView → Bytes → ℕ → Type 0
IsOffset db layout mv n v =
    (resolve_signature mv db n ≡ some v)
    ⊎ IsSum db mv (codes "__ViewAngles") (codes "dwViewAngles") n v
    ⊎ IsSum db mv (codes "__LocalPlayerPawn") (codes "dwLocalPlayerPawn") n v
    ⊎ IsSensitivity db layout mv n v

-- The view that the process gives when the module of this name is loaded.
abbrev pub IsLoaded : Process → Bytes → ModuleView → Type 0
IsLoaded p m mv = (w : p.World) × ((load_module p m w).0 ≡ returned mv)

abbrev pub HasOrigin : Process → SignatureDatabase → LayoutConfig → Bytes → Bytes × ℕ → Type 0
HasOrigin p db layout m e = (mv : ModuleView) × IsLoaded p m mv × IsOffset db layout mv e.0 e.1

module _ (p : Process) (db : SignatureDatabase) (layout : LayoutConfig) where
  open p use {World}

  abbrev AllFound : OffsetMap → Type 0
  AllFound out = All (λ (r : Bytes × Rvas). All (HasOrigin p db layout r.0) r.1) out

  or_empty-All :
      (m : Bytes) (out : OffsetMap)
      → AllFound out
      → All (HasOrigin p db layout m) (or_empty (lookup m out))
  or_empty-All m out a = elim (Option-cases (lookup m out)) [
    | inl absent ↦ rw absent tt
    | inr (rvas, there) ↦
        rw there (lookup-All (λ r. All (HasOrigin p db layout r.0) r.1) m rvas out a there)
  ]

  put_offset-AllFound :
      (m n : Bytes) (v : ℕ) (out : OffsetMap)
      → HasOrigin p db layout m (n, v)
      → AllFound out
      → AllFound (put_offset m n v out)
  unfolding put_offset
  put_offset-AllFound m n v out h a =
      All-insert _ m (insert n v (or_empty (lookup m out))) out
        (All-insert (HasOrigin p db layout m) n v (or_empty (lookup m out)) h
          (or_empty-All m out a))
        a

  -- One more name, whose value is a sum.
  put_sum-AllFound :
      (mv : ModuleView) (m hidden target : Bytes) (v : ℕ) (out : OffsetMap)
      → ((extra : ℕ)
          → resolve_signature mv db hidden ≡ some extra
          → HasOrigin p db layout m (target, (v + extra) % u32_mod))
      → AllFound out
      → AllFound (put_sum mv db m hidden target v out)
  unfolding put_sum
  put_sum-AllFound mv m hidden target v out sums a =
      elim (Option-cases (resolve_signature mv db hidden)) [
        | inl missing ↦ rw (missing, put_sum) a
        | inr (extra, found) ↦
            rw (found, put_sum)
              (put_offset-AllFound m target ((v + extra) % u32_mod) out (sums extra found) a)
      ]

  put_callback-AllFound :
      (callback : SignatureCallback) (mv : ModuleView) (m name : Bytes) (v : ℕ) (out : OffsetMap)
      → IsLoaded p m mv
      → resolve_signature mv db name ≡ some v
      → AllFound out
      → AllFound (put_callback callback mv db m v out)
  unfolding put_callback
  put_callback-AllFound no_callback mv m name v out loads found a = a
  put_callback-AllFound view_angles mv m name v out loads found a =
      put_sum-AllFound mv m (codes "__ViewAngles") (codes "dwViewAngles") v out
        (λ extra e. (mv, loads, inr (inl (refl, name, v, extra, found, e, refl)))) a
  put_callback-AllFound local_player_pawn mv m name v out loads found a =
      put_sum-AllFound mv m (codes "__LocalPlayerPawn") (codes "dwLocalPlayerPawn") v out
        (λ extra e. (mv, loads, inr (inr (inl (refl, name, v, extra, found, e, refl))))) a

  put_sensitivity-AllFound :
      (mv : ModuleView) (m name : Bytes) (v : ℕ) (out : OffsetMap)
      → IsLoaded p m mv
      → resolve_signature mv db name ≡ some v
      → AllFound out
      → AllFound (put_sensitivity layout m name out)
  unfolding put_sensitivity
  put_sensitivity-AllFound mv m name v out loads found a =
      elim (Bool-cases (bytes_eq name (codes "dwSensitivity"))) [
        | inr other ↦ rw other a
        | inl same ↦ rw same (
            stored (get layout (codes "offset.dwSensitivity_sensitivity")) refl
              (rw ((bytes_eq_iff name (codes "dwSensitivity")).0 same) at found))
      ]
    where
      stored :
          (r : Text.Result ℕ)
          → get layout (codes "offset.dwSensitivity_sensitivity") ≡ r
          → resolve_signature mv db (codes "dwSensitivity") ≡ some v
          → AllFound (elim r [
            | Text.err e ↦ out
            | Text.ok raw ↦ put_offset m (codes "dwSensitivity_sensitivity") (raw % u32_mod) out
          ])
      stored (Text.err e) missing resolved = a
      stored (Text.ok raw) there resolved =
          put_offset-AllFound m (codes "dwSensitivity_sensitivity") (raw % u32_mod) out
            (mv, loads, inr (inr (inr (refl, v, raw, resolved, there, refl)))) a

  put_group-AllFound :
      (mv : ModuleView) (m name : Bytes) (cs : List SignatureCandidate) (out : OffsetMap)
      → IsLoaded p m mv
      → AllFound out
      → AllFound (put_group layout db mv m name cs out)
  unfolding put_group
  put_group-AllFound mv m name cs out loads a = elim (Option-cases (resolve_signature mv db name)) [
    | inl missing ↦ rw (missing, put_group) a
    | inr (v, found) ↦
        rw (found, put_group)
          (put_sensitivity-AllFound mv m name v _ loads found (
            put_callback-AllFound (first_callback cs) mv m name v (put_offset m name v out) loads
              found (put_offset-AllFound m name v out (mv, loads, inl found) a)))
  ]

  offset_at-HasOrigin :
      (m n : Bytes) (v : ℕ) (out : OffsetMap)
      → AllFound out
      → offset_at m n out ≡ some v
      → HasOrigin p db layout m (n, v)
  unfolding offset_at
  offset_at-HasOrigin m n v out a e = elim (Option-cases (lookup m out)) [
    | inl absent ↦ absurd (ground arith)
    | inr (rvas, there) ↦
        lookup-All (HasOrigin p db layout m) n v rvas
          (lookup-All (λ r. All (HasOrigin p db layout r.0) r.1) m rvas out a there) (ground arith)
  ]

  -- The views that are kept are those of the modules under whose names they are kept.
  abbrev AllLoaded : Modules → Type 0
  AllLoaded modules = All (λ (e : Bytes × ModuleView). IsLoaded p e.0 e.1) modules

  view_of-IsLoaded :
      (m : Bytes) (modules : Modules) (w : World)
      → AllLoaded modules
      → Ensures (IsLoaded p m) (view_of p m modules w).0
  unfolding view_of
  view_of-IsLoaded m modules w a = elim (Option-cases (lookup m modules)) [
    | inl absent ↦ rw (absent, view_of) (loads (load_module p m w).0 refl)
    | inr (mv, there) ↦
        rw (there, view_of) (lookup-All (λ e. IsLoaded p e.0 e.1) m mv modules a there)
  ]
    where
      loads : (r : Outcome ModuleView) → (load_module p m w).0 ≡ r → Ensures (IsLoaded p m) r
      loads (returned mv) same = (w, same)
      loads (thrown e) same = tt

  offsets_of-AllFound :
      (groups : Groups) (modules : Modules) (out : OffsetMap) (w : World)
      → AllLoaded modules
      → AllFound out
      → AllFound (offsets_of p layout db groups modules out w).0
  unfolding offsets_of
  offsets_of-AllFound [] modules out w views a = a
  offsets_of-AllFound (((m, name), cs) ∷ groups) modules out w views a =
      elim (Outcome-cases (view_of p m modules w).0) [
        | inr (e, unloaded) ↦
            rw (unloaded, offsets_of)
              (offsets_of-AllFound groups modules out (view_of p m modules w).1 views a)
        | inl (mv, loaded) ↦
            let loads = rw loaded at (view_of-IsLoaded m modules w views) in
            rw (loaded, offsets_of)
              (offsets_of-AllFound groups (insert m mv modules)
                (put_group layout db mv m name cs out) (view_of p m modules w).1
                (All-insert _ m mv modules loads views)
                (put_group-AllFound mv m name cs out loads a))
      ]

  -- Each offset that `analyze_offsets` tells for a module is found in what that very module looks
  -- like when the process has it loaded by its name. It is the value of the signature of its name; or
  -- it is dwViewAngles or dwLocalPlayerPawn, and the sum modulo 2 ^ 32 of the values of a signature
  -- and of the hidden one beside it; or it is dwSensitivity_sensitivity, the signature of
  -- dwSensitivity has a value there, and it is the value of the layout modulo 2 ^ 32.
  pub analyze_offsets-HasOrigin :
      (w : World) (out : OffsetMap) (m n : Bytes) (v : ℕ)
      → (analyze_offsets p db layout w).0 ≡ returned out
      → offset_at m n out ≡ some v
      → HasOrigin p db layout m (n, v)
  unfolding analyze_offsets
  analyze_offsets-HasOrigin w out m n v e at_n =
      let found = offsets_of p layout db (offset_groups db) [] [] w in
      let kept = validate_runtime_offsets-offset_at p found.0 found.1 m n in
      offset_at-HasOrigin m n v found.0 (offsets_of-AllFound (offset_groups db) [] [] w tt tt)
        (ground (arith, kept))
