-- ===== src/Pe/Bounds.antt =====
-- pe.cpp: the range of code of an image that the constructor accepts.
use hardware_assisted_game_s.Base.{
  ℕ, zero, suc, ◌+◌, ◌*◌, ◌≡◌, ◌≤◌, ◌<◌, true, false, Option, none, some, arith, length, Bytes,
}
use hardware_assisted_game_s.Pe.{
  PeImage, FileHeader, SectionHeader, read_at, read_headers, code_sections, widen, or_whole_image,
  read_tables, read_optional, pe_image, section_header, section_header_size,
}

widen-le : (size : ℕ) (sh : SectionHeader) (r : ℕ × ℕ) → r.1 ≤ size → (widen size sh r).1 ≤ size
unfolding widen
widen-le size sh (f, l) h = ground arith

abbrev Below : ℕ → Option (ℕ × ℕ) → Type 0
Below size none = Unit
Below size (some r) = r.1 ≤ size

code_sections-Below :
    (image : Bytes) (off n i : ℕ) (r : ℕ × ℕ)
    → r.1 ≤ length image
    → Below (length image) (code_sections image off n i r)
unfolding code_sections
code_sections-Below image off zero i r h = h
code_sections-Below image off (suc n) i r h =
    elim (read_at image (off + i * section_header_size) section_header_size)
      as (λ o. Below (length image) (elim o [
        | none ↦ none
        | some bs ↦ code_sections image off n (i + 1) (widen (length image) (section_header bs) r)
      ])) [
        | none ↦ tt
        | some bs ↦
            code_sections-Below image off n (i + 1) (widen (length image) (section_header bs) r)
              (widen-le (length image) (section_header bs) r h)
      ]

-- What is known of the range once `valid` is set.
abbrev pub Ranged : PeImage → Type 0
Ranged p = p.valid ≡ true → (p.code_begin < p.code_end) × (p.code_end ≤ length p.image)

or_whole_image-bounds :
    (size : ℕ) (r : ℕ × ℕ)
    → 0 < size
    → r.1 ≤ size
    → ((or_whole_image size r).0 < (or_whole_image size r).1) × ((or_whole_image size r).1 ≤ size)
unfolding or_whole_image
or_whole_image-bounds size (f, l) p h = ground arith

read_tables-Ranged :
    (p : PeImage) (opt off : ℕ) (fh : FileHeader)
    → p.valid ≡ false
    → 0 < length p.image
    → Ranged (read_tables p opt off fh)
unfolding read_tables
read_tables-Ranged p opt off fh v h = grind (arith, code_sections-Below, or_whole_image-bounds)

read_tables-image :
    (p : PeImage) (opt off : ℕ) (fh : FileHeader) → (read_tables p opt off fh).image ≡ p.image
unfolding read_tables
read_tables-image p opt off fh = ground arith

read_optional-Ranged :
    (p : PeImage) (opt magic : ℕ) (fh : FileHeader)
    → p.valid ≡ false
    → 0 < length p.image
    → Ranged (read_optional p opt magic fh)
unfolding read_optional
read_optional-Ranged p opt magic fh v h = grind (arith, read_tables-Ranged)

read_optional-image :
    (p : PeImage) (opt magic : ℕ) (fh : FileHeader) → (read_optional p opt magic fh).image ≡ p.image
unfolding read_optional
read_optional-image p opt magic fh = grind (arith, read_tables-image)

pub pe_image-image : (image : Bytes) → (pe_image image).image ≡ image
unfolding pe_image
pe_image-image image = grind (arith, read_optional-image)

read_headers-size :
    (image : Bytes) (h : ℕ × ℕ × FileHeader) → read_headers image ≡ some h → 0x100 ≤ length image
unfolding read_headers
read_headers-size image h e = ground arith

-- The constructor calls an image valid only with a non-empty range of code inside it.
pub pe_image-bounds :
    (image : Bytes)
    → (pe_image image).valid ≡ true
    → ((pe_image image).code_begin < (pe_image image).code_end)
      × ((pe_image image).code_end ≤ length image)
unfolding pe_image
pe_image-bounds image v =
    grind (arith, read_headers-size, read_optional-Ranged, read_optional-image)
