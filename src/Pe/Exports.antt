-- ===== src/Pe/Exports.antt =====
-- pe.cpp: `PeImage::export_rva` against a description of what it looks for.
use native.Mathlib.Decide.{ℕ_discrete}
use hardware_assisted_game_s.Base.{
  ℕ, zero, suc, ◌+◌, ◌*◌, ◌%◌, ◌≤◌, ◌<◌, ◌≡◌, ◌≢◌, ◌↔◌, ◌⊎◌, inl, inr, refl, sym, Option, some,
  arith, length, Bytes, Bool-cases, Option-cases, ◌>>=◌, ◌>>◌, require, >>=-eq-some, ltb, ◌==◌,
  ◌&&◌, not, ap, ◌∙◌, bytes_eq-false, bytes_eq-ne, bytes_eq, bytes_eq_iff, u32_mod,
}
use hardware_assisted_game_s.Pe.{
  PeImage, ExportDirectory, read_at, read_word, cstr_at, export_directory, export_directory_size,
  exported_function, scan_names, export_rva,
}

-- The `i`-th name of the directory, if its entry lies in the image.
abbrev pub name_at : PeImage → ExportDirectory → ℕ → Option Bytes
name_at p dir i = read_word p.image (dir.address_of_names + i * 4 % u32_mod) 4 >>= λ rva.
    some (cstr_at p.image rva)

abbrev pub IsOther : PeImage → ExportDirectory → Bytes → ℕ → Type 0
IsOther p dir wanted j = (s : Bytes) × (name_at p dir j ≡ some s) × (s ≢ wanted)

-- The first of the names from `i` on that is the wanted one leads to the function at `r`.
pub record FirstMatch (p : PeImage) (dir : ExportDirectory) (wanted : Bytes) (i n r : ℕ)
    : Type 0 where
  pub index : ℕ
  pub from : i ≤ index
  pub below : index < i + n
  pub named : name_at p dir index ≡ some wanted
  pub first : (j : ℕ) → i ≤ j → j < index → IsOther p dir wanted j
  pub leads_to : exported_function p dir index ≡ some r

module _ (p : PeImage) (dir : ExportDirectory) (wanted : Bytes) (r : ℕ) where
  FirstMatch-later :
      (i n : ℕ)
      → IsOther p dir wanted i
      → FirstMatch p dir wanted (i + 1) n r
      → FirstMatch p dir wanted i (suc n) r
  FirstMatch-later i n o f = record {
    index = f.index;
    from = omega (arith, f.from);
    below = omega (arith, f.below);
    named = f.named;
    first = λ j a b. elim (ℕ_discrete i j) [
      | yes same ↦ rw (← same) o
      | no apart ↦ f.first j (omega arith) b
    ];
    leads_to = f.leads_to;
  }

  scan_names_sound :
      (n i : ℕ) → scan_names p dir wanted n i ≡ some r → FirstMatch p dir wanted i n r
  unfolding scan_names
  scan_names_sound zero i e = cc
  scan_names_sound (suc n) i e =
      elim (Option-cases (read_word p.image (dir.address_of_names + i * 4 % u32_mod) 4)) [
        | inl m ↦ ground arith
        | inr (rva, m) ↦ elim (Bool-cases (bytes_eq (cstr_at p.image rva) wanted)) [
          | inl same ↦ record {
            index = i;
            from = omega arith;
            below = omega arith;
            named = rw m (ap some ((bytes_eq_iff (cstr_at p.image rva) wanted).0 same));
            first = λ j a b. absurd (omega arith);
            leads_to = ground arith;
          }
          | inr other ↦
              FirstMatch-later i n
                (cstr_at p.image rva, rw m, bytes_eq-false (cstr_at p.image rva) wanted other)
                (scan_names_sound n (i + 1) (ground arith))
        ]
      ]

  scan_names_skip :
      (n i : ℕ)
      → IsOther p dir wanted i
      → scan_names p dir wanted (suc n) i ≡ scan_names p dir wanted n (i + 1)
  unfolding scan_names
  scan_names_skip n i (s, e, ne) = ground (arith, bytes_eq-ne s wanted ne)

  scan_names_hit :
      (n i : ℕ)
      → name_at p dir i ≡ some wanted
      → scan_names p dir wanted (suc n) i ≡ exported_function p dir i
  unfolding scan_names
  scan_names_hit n i e = ground (arith, (bytes_eq_iff wanted wanted).1 refl)

  scan_names_complete :
      (n i : ℕ) → FirstMatch p dir wanted i n r → scan_names p dir wanted n i ≡ some r
  scan_names_complete zero i f = absurd (omega (arith, f.from, f.below))
  scan_names_complete (suc n) i f = elim (ℕ_discrete i f.index) [
    | yes same ↦ scan_names_hit n i (rw same f.named) ∙ rw same f.leads_to
    | no apart ↦
        scan_names_skip n i (f.first i (omega arith) (omega (arith, f.from)))
        ∙ scan_names_complete n (i + 1) (record {
          index = f.index;
          from = omega (arith, f.from);
          below = omega (arith, f.below);
          named = f.named;
          first = λ j a b. f.first j (omega arith) b;
          leads_to = f.leads_to;
        })
  ]

-- The export directory that the look-up reads, if the image is valid and the directory inside.
abbrev pub directory_of : PeImage → Option ExportDirectory
directory_of p =
    require (p.valid && not (p.export_dir == 0) && ltb p.export_dir (length p.image))
    >> (read_at p.image p.export_dir export_directory_size >>= λ bs. some (export_directory bs))

export_rva-directory_of :
    (p : PeImage) (wanted : Bytes)
    → export_rva p wanted
      ≡ (directory_of p >>= λ dir. scan_names p dir wanted dir.number_of_names 0)
unfolding export_rva
export_rva-directory_of p wanted = ground arith

-- `export_rva` finds `r` exactly when the image is valid, its export directory lies inside, and the
-- first name of the directory that equals the wanted one leads to `r`, where all names before it
-- can be read and differ.
pub export_rva_iff :
    (p : PeImage) (wanted : Bytes) (r : ℕ)
    → (export_rva p wanted ≡ some r) ↔ (
        (dir : ExportDirectory) × (directory_of p ≡ some dir)
        × FirstMatch p dir wanted 0 dir.number_of_names r)
export_rva_iff p wanted r = (to, from)
  where
    to :
        export_rva p wanted ≡ some r
        → (dir : ExportDirectory) × (directory_of p ≡ some dir)
          × FirstMatch p dir wanted 0 dir.number_of_names r
    to e =
        let (dir, d, s) =
          >>=-eq-some (directory_of p) (λ dir. scan_names p dir wanted dir.number_of_names 0)
            (sym (export_rva-directory_of p wanted) ∙ e) in
        (dir, d, scan_names_sound p dir wanted r dir.number_of_names 0 s)

    from :
        (dir : ExportDirectory) × (directory_of p ≡ some dir)
          × FirstMatch p dir wanted 0 dir.number_of_names r
        → export_rva p wanted ≡ some r
    from (dir, d, f) =
        export_rva-directory_of p wanted
        ∙ rw d (scan_names_complete p dir wanted r dir.number_of_names 0 f)

exported_function-not_forwarded :
    (p : PeImage) (dir : ExportDirectory) (i r : ℕ)
    → exported_function p dir i ≡ some r
    → (r < p.export_dir) ⊎ (p.export_dir + p.export_size ≤ r)
unfolding exported_function
exported_function-not_forwarded p dir i r e = ground arith

-- No forwarded export is returned: the result lies outside the export directory.
export_rva-not_forwarded :
    (p : PeImage) (wanted : Bytes) (r : ℕ)
    → export_rva p wanted ≡ some r
    → (r < p.export_dir) ⊎ (p.export_dir + p.export_size ≤ r)
export_rva-not_forwarded p wanted r e =
    let (dir, _, f) = (export_rva_iff p wanted r).0 e in
    exported_function-not_forwarded p dir f.index r f.leads_to
