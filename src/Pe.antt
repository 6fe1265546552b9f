-- ===== src/Pe.antt =====
-- projects/cs2-dumper-cpp-standalone/src/pe.cpp and include/cs2dumper/pe.hpp: the constructor of
-- `PeImage`, and the look-up of an exported name. An image is the list of its bytes. A `size_t` is
-- a number, since no sum of offsets comes near 2 ^ 64; a `uint32_t` wraps where the source lets it.
pub mod Bounds
pub mod Exports
pub mod Headers
pub mod Tests
use hardware_assisted_game_s.Base.{
  ℕ, zero, suc, ◌+◌, ◌-◌, ◌*◌, ◌%◌, ◌≤◌, ◌<◌, min, max, bit_and, Bool, true, false, not, ◌&&◌, ◌||◌,
  Option, none, some, List, [], ◌∷◌, length, get_or, take, drop, Bytes, u32_mod, le_word, bytes_eq,
  ltb, leb, ◌==◌, if◌then◌else◌, ◌>>=◌, ◌>>◌, require,
}

pub record FileHeader : Type 0 where
  pub machine : ℕ
  pub number_of_sections : ℕ
  pub time_date_stamp : ℕ
  pub pointer_to_symbol_table : ℕ
  pub number_of_symbols : ℕ
  pub size_of_optional_header : ℕ
  pub characteristics : ℕ

pub record SectionHeader : Type 0 where
  pub name : Bytes
  pub virtual_size : ℕ
  pub virtual_address : ℕ
  pub size_of_raw_data : ℕ
  pub pointer_to_raw_data : ℕ
  pub pointer_to_relocations : ℕ
  pub pointer_to_linenumbers : ℕ
  pub number_of_relocations : ℕ
  pub number_of_linenumbers : ℕ
  pub characteristics : ℕ

pub record ExportDirectory : Type 0 where
  pub characteristics : ℕ
  pub time_date_stamp : ℕ
  pub major_version : ℕ
  pub minor_version : ℕ
  pub name : ℕ
  pub base : ℕ
  pub number_of_functions : ℕ
  pub number_of_names : ℕ
  pub address_of_functions : ℕ
  pub address_of_names : ℕ
  pub address_of_name_ordinals : ℕ

-- The fields of the class. `valid` is set at the end of the constructor only.
pub record PeImage : Type 0 where
  pub image : Bytes
  pub valid : Bool
  pub image_base : ℕ
  pub code_begin : ℕ
  pub code_end : ℕ
  pub export_dir : ℕ
  pub export_size : ℕ

-- The `sizeof` of the packed headers, the flag of a code section and the two magic numbers.
abbrev pub file_header_size : ℕ
file_header_size = 20

abbrev pub section_header_size : ℕ
section_header_size = 40

abbrev pub export_directory_size : ℕ
export_directory_size = 40

abbrev pub scn_cnt_code : ℕ
scn_cnt_code = 0x20

abbrev pub pe32_plus : ℕ
pe32_plus = 0x20b

abbrev pub pe32 : ℕ
pe32 = 0x10b

-- `read_at` at a type of `n` bytes: these bytes, or nothing if they do not all lie in the image.
unfoldable pub read_at : Bytes → ℕ → ℕ → Option Bytes
read_at image off n =
    if ltb (length image) off || ltb (length image - off) n
    then none
    else some (take n (drop off image))

-- `read_at` at an unsigned integer type.
unfoldable pub read_word : Bytes → ℕ → ℕ → Option ℕ
read_word image off n = do bs ← read_at image off n; some (le_word bs)

-- The bytes before the first NUL, if there is one: `memchr`.
unfoldable pub until_nul : Bytes → Option Bytes
until_nul [] = none
until_nul (b ∷ bs) =
    let rest = until_nul bs in if b == 0 then some [] else rest >>= λ s. some (b ∷ s)

unfoldable pub cstr_at : Bytes → ℕ → Bytes
cstr_at image off =
    if leb (length image) off
    then []
    else elim (until_nul (drop off image)) [ none ↦ [] | some s ↦ s ]

-- A word of a packed structure that has been copied out.
unfoldable pub field_at : Bytes → ℕ → ℕ → ℕ
field_at bs off n = le_word (take n (drop off bs))

unfoldable pub file_header : Bytes → FileHeader
file_header bs = record {
  machine = field_at bs 0 2;
  number_of_sections = field_at bs 2 2;
  time_date_stamp = field_at bs 4 4;
  pointer_to_symbol_table = field_at bs 8 4;
  number_of_symbols = field_at bs 12 4;
  size_of_optional_header = field_at bs 16 2;
  characteristics = field_at bs 18 2;
}

unfoldable pub section_header : Bytes → SectionHeader
section_header bs = record {
  name = take 8 bs;
  virtual_size = field_at bs 8 4;
  virtual_address = field_at bs 12 4;
  size_of_raw_data = field_at bs 16 4;
  pointer_to_raw_data = field_at bs 20 4;
  pointer_to_relocations = field_at bs 24 4;
  pointer_to_linenumbers = field_at bs 28 4;
  number_of_relocations = field_at bs 32 2;
  number_of_linenumbers = field_at bs 34 2;
  characteristics = field_at bs 36 4;
}

unfoldable pub export_directory : Bytes → ExportDirectory
export_directory bs = record {
  characteristics = field_at bs 0 4;
  time_date_stamp = field_at bs 4 4;
  major_version = field_at bs 8 2;
  minor_version = field_at bs 10 2;
  name = field_at bs 12 4;
  base = field_at bs 16 4;
  number_of_functions = field_at bs 20 4;
  number_of_names = field_at bs 24 4;
  address_of_functions = field_at bs 28 4;
  address_of_names = field_at bs 32 4;
  address_of_name_ordinals = field_at bs 36 4;
}

-- One section's part in the range of code that was found before it.
unfoldable pub widen : ℕ → SectionHeader → ℕ × ℕ → ℕ × ℕ
widen size sh (first_code, last_code) =
    if bit_and sh.characteristics scn_cnt_code == 0
    then (first_code, last_code)
    else let begin : ℕ = sh.virtual_address in
      let span = max sh.virtual_size sh.size_of_raw_data in
      let end = min (begin + span) size % u32_mod in
      (
        if first_code == 0 || ltb begin first_code then begin else first_code,
        if ltb last_code end then end else last_code,
      )

-- The loop over the section table: `n` headers are left, and `i` is the index of the next.
unfoldable pub code_sections : Bytes → ℕ → ℕ → ℕ → ℕ × ℕ → Option (ℕ × ℕ)
code_sections image sec_off zero i range = some range
code_sections image sec_off (suc n) i range =
    elim (read_at image (sec_off + i * section_header_size) section_header_size) [
      | none ↦ none
      | some bs ↦
          code_sections image sec_off n (i + 1) (widen (length image) (section_header bs) range)
    ]

-- The whole image stands in for a module without a section of code.
unfoldable pub or_whole_image : ℕ → ℕ × ℕ → ℕ × ℕ
or_whole_image size (first_code, last_code) =
    if first_code == 0 || leb last_code first_code
    then (0, min size 0xffff_ffff)
    else (first_code, last_code)

-- The export directory's entry, then the section table.
unfoldable pub read_tables : PeImage → ℕ → ℕ → FileHeader → PeImage
read_tables p opt data_dir_off fh = elim (read_word p.image data_dir_off 4) [
  | none ↦ p
  | some rva ↦
      let q = record p { export_dir = rva } in
      elim (read_word p.image (data_dir_off + 4) 4) [
        | none ↦ q
        | some size ↦
            let r = record q { export_size = size } in
            elim (code_sections p.image (opt + fh.size_of_optional_header) fh.number_of_sections 0
              (0, 0)) [
                | none ↦ r
                | some found ↦
                    let range = or_whole_image (length p.image) found in
                    record r { code_begin = range.0; code_end = range.1; valid = true }
              ]
      ]
]

-- The optional header, PE32+ or PE32.
unfoldable pub read_optional : PeImage → ℕ → ℕ → FileHeader → PeImage
read_optional p opt magic fh =
    if magic == pe32_plus
    then elim (read_word p.image (opt + 24) 8) [
      | none ↦ p
      | some base ↦ read_tables (record p { image_base = base }) opt (opt + 112) fh
    ]
    else if magic == pe32
    then elim (read_word p.image (opt + 28) 4) [
      | none ↦ p
      | some base32 ↦ read_tables (record p { image_base = base32 }) opt (opt + 96) fh
    ]
    else p

-- The optional header's offset, its magic number and the file header, if the file header is sound.
-- `nt_off + 4` is a sum of 32 bits; `sizeof` takes the rest to 64.
unfoldable pub read_headers : Bytes → Option (ℕ × ℕ × FileHeader)
read_headers image = do
  require (leb 0x100 (length image) && get_or image 0 0 == b'M' && get_or image 1 0 == b'Z')
  nt_off ← read_word image 0x3c 4
  let opt = (nt_off + 4) % u32_mod + file_header_size
  require (leb opt (length image))
  sig ← read_word image nt_off 4
  require (sig == 0x4550)
  bs ← read_at image ((nt_off + 4) % u32_mod) file_header_size
  let fh = file_header bs
  require (leb (opt + fh.size_of_optional_header) (length image))
  magic ← read_word image opt 2
  some (opt, magic, fh)

-- The members before the constructor's body runs.
abbrev pub blank : Bytes → PeImage
blank image = record {
  image = image;
  valid = false;
  image_base = 0;
  code_begin = 0;
  code_end = 0;
  export_dir = 0;
  export_size = 0;
}

-- The constructor: an early return leaves the members as they are.
unfoldable pub pe_image : Bytes → PeImage
pe_image image = elim (read_headers image) [
  | none ↦ blank image
  | some (opt, magic, fh) ↦ read_optional (blank image) opt magic fh
]

-- The look-up of one exported name, once its index `i` is found.
unfoldable pub exported_function : PeImage → ExportDirectory → ℕ → Option ℕ
exported_function p dir i = do
  ordinal ← read_word p.image (dir.address_of_name_ordinals + i * 2 % u32_mod) 2
  require (ltb ordinal dir.number_of_functions)
  function_rva ← read_word p.image (dir.address_of_functions + ordinal * 4) 4
  require (not (leb p.export_dir function_rva && ltb function_rva (p.export_dir + p.export_size)))
  some function_rva

-- The loop over the names: `n` are left, and `i` is the index of the next.
unfoldable pub scan_names : PeImage → ExportDirectory → Bytes → ℕ → ℕ → Option ℕ
scan_names p dir wanted zero i = none
scan_names p dir wanted (suc n) i =
    elim (read_word p.image (dir.address_of_names + i * 4 % u32_mod) 4) [
      | none ↦ none
      | some name_rva ↦ elim (bytes_eq (cstr_at p.image name_rva) wanted) [
        | false ↦ scan_names p dir wanted n (i + 1)
        | true ↦ exported_function p dir i
      ]
    ]

unfoldable pub export_rva : PeImage → Bytes → Option ℕ
export_rva p wanted = do
  require (p.valid && not (p.export_dir == 0) && ltb p.export_dir (length p.image))
  bs ← read_at p.image p.export_dir export_directory_size
  let dir = export_directory bs
  scan_names p dir wanted dir.number_of_names 0
