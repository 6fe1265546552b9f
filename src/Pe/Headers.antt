-- ===== src/Pe/Headers.antt =====
-- pe.cpp: what the constructor has checked of the headers once it calls an image valid.
use native.Mathlib.Decide.{ℕ_discrete}
use hardware_assisted_game_s.Base.{
  ℕ, ◌+◌, ◌*◌, ◌%◌, ◌≤◌, ◌<◌, ◌≡◌, ◌⊎◌, inl, inr, refl, true, false, Option, some, arith, length,
  Bytes, get_or, u32_mod, Option-cases, ◌>>=◌, ◌>>◌, require, Bool-cases, ◌==◌, leb, ◌-◌,
  >>=-eq-some, le_word, zero, suc,
}
use hardware_assisted_game_s.Pe.{
  PeImage, FileHeader, blank, read_at, read_word, file_header, read_headers, code_sections, widen,
  section_header, read_tables, read_optional, pe_image, file_header_size, section_header_size, pe32,
  pe32_plus,
}

-- The headers of a PE image, at offsets that are worked out without wrapping.
pub record IsPe (image : Bytes) : Type 0 where
  pub nt_off : ℕ
  pub file : Bytes
  pub magic : ℕ
  pub dos_size : 0x100 ≤ length image
  pub mark_m : get_or image 0 0 ≡ b'M'
  pub mark_z : get_or image 1 0 ≡ b'Z'
  pub e_lfanew : read_word image 0x3c 4 ≡ some nt_off
  pub signature : read_word image nt_off 4 ≡ some 0x4550
  pub file_read : read_at image (nt_off + 4) file_header_size ≡ some file
  pub optional_fits :
      nt_off + 4 + file_header_size + (file_header file).size_of_optional_header ≤ length image
  pub magic_read : read_word image (nt_off + 4 + file_header_size) 2 ≡ some magic
  pub magic_known : (magic ≡ pe32_plus) ⊎ (magic ≡ pe32)
  pub sections_fit :
      (k : ℕ)
      → k < (file_header file).number_of_sections
      → nt_off
          + 4
          + file_header_size
          + (file_header file).size_of_optional_header
          + (k + 1) * section_header_size
        ≤ length image

read_at-fits :
    (image : Bytes) (off n : ℕ) {bs : Bytes}
    → read_at image off n ≡ some bs
    → off + n ≤ length image
unfolding read_at
read_at-fits image off n e = ground arith

read_word-fits :
    (image : Bytes) (off n : ℕ) {v : ℕ} → read_word image off n ≡ some v → off + n ≤ length image
unfolding read_word
read_word-fits image off n e =
    let (bs, r, _) = >>=-eq-some (read_at image off n) (λ bs. some (le_word bs)) e in
    read_at-fits image off n r

code_sections-fit :
    (image : Bytes) (off n i : ℕ) (r s : ℕ × ℕ)
    → code_sections image off n i r ≡ some s
    → (k : ℕ) → i ≤ k
    → k < i + n
    → off + (k + 1) * section_header_size ≤ length image
unfolding code_sections
code_sections-fit image off zero i r s e k a b = absurd (omega arith)
code_sections-fit image off (suc n) i r s e k a b =
    elim (Option-cases (read_at image (off + i * section_header_size) section_header_size)) [
      | inl m ↦ ground arith
      | inr (bs, m) ↦ elim (ℕ_discrete i k) [
        | yes same ↦
            omega (arith, read_at-fits image (off + i * section_header_size) section_header_size m)
        | no apart ↦
            code_sections-fit image off n (i + 1) (widen (length image) (section_header bs) r) s
              (ground arith) k (omega arith) (omega arith)
      ]
    ]

-- What a valid image says of the magic number and of the section table.
abbrev TablesFit : Bytes → ℕ → ℕ → FileHeader → Type 0
TablesFit image opt magic fh =
    ((magic ≡ pe32_plus) ⊎ (magic ≡ pe32))
    × ((k : ℕ)
        → k < fh.number_of_sections
        → opt + fh.size_of_optional_header + (k + 1) * section_header_size ≤ length image)

read_tables-fit :
    (p : PeImage) (opt off : ℕ) (fh : FileHeader)
    → p.valid ≡ false
    → (read_tables p opt off fh).valid ≡ true
    → (k : ℕ) → k < fh.number_of_sections
    → opt + fh.size_of_optional_header + (k + 1) * section_header_size ≤ length p.image
unfolding read_tables
read_tables-fit p opt off fh v e k h =
    elim (Option-cases
      (code_sections p.image (opt + fh.size_of_optional_header) fh.number_of_sections 0 (0, 0))) [
        | inl m ↦ ground arith
        | inr (s, m) ↦
            code_sections-fit p.image (opt + fh.size_of_optional_header) fh.number_of_sections 0
              (0, 0) s m k (omega arith) (omega arith)
      ]

read_optional-fit :
    (p : PeImage) (opt magic : ℕ) (fh : FileHeader)
    → p.valid ≡ false
    → (read_optional p opt magic fh).valid ≡ true
    → TablesFit p.image opt magic fh
unfolding read_optional
read_optional-fit p opt magic fh v e = (ground arith, sections)
  where
    sections :
        (k : ℕ)
        → k < fh.number_of_sections
        → opt + fh.size_of_optional_header + (k + 1) * section_header_size ≤ length p.image
    sections k h = elim (Option-cases (read_word p.image (opt + 24) 8)) [
      | inl a ↦ elim (Option-cases (read_word p.image (opt + 28) 4)) [
        | inl b ↦ ground arith
        | inr (base32, b) ↦ ground (
          arith,
          read_tables-fit (record p { image_base = base32 }) opt (opt + 96) fh v (ground arith) k h,
        )
      ]
      | inr (base, a) ↦ elim (Option-cases (read_word p.image (opt + 28) 4)) [
        | inl b ↦ ground (
          arith,
          read_tables-fit (record p { image_base = base }) opt (opt + 112) fh v (ground arith) k h,
        )
        | inr (base32, b) ↦ elim (Bool-cases (magic == pe32_plus)) [
          | inl plus ↦
              read_tables-fit (record p { image_base = base }) opt (opt + 112) fh v (ground arith) k
                h
          | inr no_plus ↦
              read_tables-fit (record p { image_base = base32 }) opt (opt + 96) fh v (ground arith)
                k h
        ]
      ]
    ]

-- The steps behind the signature, at offsets without wrapping.
abbrev rest_of_headers : Bytes → ℕ → Option (ℕ × ℕ × FileHeader)
rest_of_headers image opt = do
  bs ← read_at image (opt - file_header_size) file_header_size
  require (leb (opt + (file_header bs).size_of_optional_header) (length image))
  magic ← read_word image opt 2
  some (opt, magic, file_header bs)

read_headers-start :
    (image : Bytes) {h : ℕ × ℕ × FileHeader}
    → length image < u32_mod
    → read_headers image ≡ some h
    → (nt_off : ℕ) × (0x100 ≤ length image)
      × (get_or image 0 0 ≡ b'M')
      × (get_or image 1 0 ≡ b'Z')
      × (read_word image 0x3c 4 ≡ some nt_off)
      × (read_word image nt_off 4 ≡ some 0x4550)
      × (rest_of_headers image (nt_off + 4 + file_header_size) ≡ some h)
unfolding read_headers
read_headers-start image small e = elim (Option-cases (read_word image 0x3c 4)) [
  | inl m ↦ ground arith
  | inr (nt_off, m) ↦ elim (Option-cases (read_word image nt_off 4)) [
    | inl m' ↦ ground arith
    | inr (sig, m') ↦
        let fits = read_word-fits image nt_off 4 m' in
        let unwrapped : (nt_off + 4) % u32_mod ≡ nt_off + 4 = omega arith in
        let back : nt_off + 4 + file_header_size - file_header_size ≡ nt_off + 4 = omega arith in
        (nt_off, ground arith, ground arith, ground arith, m, ground arith, rw back (ground arith))
  ]
]

rest_of_headers-parts :
    (image : Bytes) (start opt magic : ℕ) (fh : FileHeader)
    → rest_of_headers image start ≡ some (opt, magic, fh)
    → (bs : Bytes) × (read_at image (start - file_header_size) file_header_size ≡ some bs)
      × (opt ≡ start)
      × (fh ≡ file_header bs)
      × (read_word image start 2 ≡ some magic)
      × (start + (file_header bs).size_of_optional_header ≤ length image)
rest_of_headers-parts image start opt magic fh e =
    elim (Option-cases (read_at image (start - file_header_size) file_header_size)) [
      | inl a ↦ ground arith
      | inr (bs, a) ↦ elim (Option-cases (read_word image start 2)) [
        | inl b ↦ ground arith
        | inr (m, b) ↦ (bs, a, ground arith, ground arith, ground arith, ground arith)
      ]
    ]

read_headers-IsPe :
    (image : Bytes) (opt magic : ℕ) (fh : FileHeader)
    → length image < u32_mod
    → read_headers image ≡ some (opt, magic, fh)
    → TablesFit image opt magic fh
    → IsPe image
read_headers-IsPe image opt magic fh small e fit =
    let (nt_off, size, m, z, lfanew, sig, rest) = read_headers-start image small e in
    let start = nt_off + 4 + file_header_size in
    let back : start - file_header_size ≡ nt_off + 4 = omega arith in
    let (bs, read, at_start, header, magic_read, fits) =
      rest_of_headers-parts image start opt magic fh rest in
    record {
      nt_off = nt_off;
      file = bs;
      magic = magic;
      dos_size = size;
      mark_m = m;
      mark_z = z;
      e_lfanew = lfanew;
      signature = sig;
      file_read = rw back at read;
      optional_fits = fits;
      magic_read = magic_read;
      magic_known = fit.0;
      sections_fit = λ k h. rw (← header, ← at_start) (fit.1 k (rw (← header) at h));
    }

-- A valid image below 4 GiB has its headers inside, and its magic number is one of the two known
-- ones: the sums of 32 bits in the constructor have not wrapped.
pub pe_image-IsPe :
    (image : Bytes) → length image < u32_mod → (pe_image image).valid ≡ true → IsPe image
unfolding pe_image
pe_image-IsPe image small v = elim (Option-cases (read_headers image)) [
  | inl e ↦ ground arith
  | inr ((opt, magic, fh), e) ↦
      read_headers-IsPe image opt magic fh small e
        (read_optional-fit (blank image) opt magic fh refl (ground arith))
]
