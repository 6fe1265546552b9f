-- ===== src/Pe/Tests.antt =====
-- A small PE32+ image with one section of code and one export, and the theorems at it.
use hardware_assisted_game_s.Base.{
  ℕ, ◌+◌, ◌≤◌, ◌<◌, ◌≡◌, ◌↔◌, refl, true, none, some, [], ◌∷◌, length, set, replicate, Bytes,
  bytes_eq, codes, le_word, arith,
}
use hardware_assisted_game_s.Pe.{
  ExportDirectory, pe_image, read_headers, read_optional, read_tables, read_at, read_word, cstr_at,
  until_nul, field_at, file_header, section_header, export_directory, code_sections, widen,
  or_whole_image, exported_function, scan_names, export_rva,
}
use hardware_assisted_game_s.Pe.Bounds.{pe_image-bounds}
use hardware_assisted_game_s.Pe.Headers.{IsPe, pe_image-IsPe}
use hardware_assisted_game_s.Pe.Exports.{directory_of, FirstMatch, export_rva_iff}

abbrev pub put : ℕ → Bytes → Bytes → Bytes
put off [] image = image
put off (b ∷ bs) image = put (off + 1) bs (set image off b)

-- The test image of tests/pattern_tests.cpp, shortened, with an export directory at 0x200.
abbrev pub small_image : Bytes
small_image = put 0 (codes "MZ") (
    put 0x3c (0x80 ∷ []) (
      put 0x80 (0x50 ∷ 0x45 ∷ 0 ∷ 0 ∷ 0x64 ∷ 0x86 ∷ 1 ∷ []) (
        put 0x94 (0xf0 ∷ []) (
          put 0x98 (0x0b ∷ 0x02 ∷ []) (
            put 0x108 (0 ∷ 2 ∷ 0 ∷ 0 ∷ 0x40 ∷ []) (
              put 0x188 (codes ".text") (
                put 0x190 (0x30 ∷ 0 ∷ 0 ∷ 0 ∷ 0xc0 ∷ 1 ∷ 0 ∷ 0 ∷ 0x30 ∷ []) (
                  put 0x1ac (0x20 ∷ 0 ∷ 0 ∷ 0x60 ∷ []) (
                    put 0x214
                      (1 ∷ 0 ∷ 0 ∷ 0 ∷ 1 ∷ 0 ∷ 0 ∷ 0 ∷ 0x28 ∷ 2 ∷ 0 ∷ 0 ∷ 0x2c ∷ 2 ∷ 0 ∷ 0 ∷ 0x30
                        ∷ 2 ∷ 0 ∷ 0 ∷ 0xd0 ∷ 1 ∷ 0 ∷ 0 ∷ 0x34 ∷ 2 ∷ 0 ∷ 0 ∷ 0 ∷ 0 ∷ 0 ∷ 0 ∷ [])
                      (put 0x234 (codes "Go") (replicate 0x240 0)))))))))))

accepted : (pe_image small_image).valid ≡ true
unfolding pe_image read_headers read_optional read_tables read_word read_at file_header
    code_sections widen section_header or_whole_image field_at le_word
accepted = refl

code : ((pe_image small_image).code_begin ≡ 0x1c0) × ((pe_image small_image).code_end ≡ 0x1f0)
unfolding pe_image read_headers read_optional read_tables read_word read_at file_header
    code_sections widen section_header or_whole_image field_at le_word
code = (refl, refl)

exported : export_rva (pe_image small_image) (codes "Go") ≡ some 0x1d0
unfolding pe_image read_headers read_optional read_tables read_word read_at file_header
    code_sections widen section_header or_whole_image field_at le_word export_rva scan_names
    exported_function export_directory cstr_at until_nul bytes_eq
exported = refl

missing : export_rva (pe_image small_image) (codes "Stop") ≡ none
unfolding pe_image read_headers read_optional read_tables read_word read_at file_header
    code_sections widen section_header or_whole_image field_at le_word export_rva scan_names
    exported_function export_directory cstr_at until_nul bytes_eq
missing = refl

pe_image-bounds_example :
    ((pe_image small_image).code_begin < (pe_image small_image).code_end)
    × ((pe_image small_image).code_end ≤ length small_image)
pe_image-bounds_example = pe_image-bounds small_image accepted

pe_image-IsPe_example : IsPe small_image
pe_image-IsPe_example = pe_image-IsPe small_image (omega arith) accepted

export_rva_iff_example : (export_rva (pe_image small_image) (codes "Go") ≡ some 0x1d0) ↔ (
    (dir : ExportDirectory) × (directory_of (pe_image small_image) ≡ some dir)
    × FirstMatch (pe_image small_image) dir (codes "Go") 0 dir.number_of_names 0x1d0)
export_rva_iff_example = export_rva_iff (pe_image small_image) (codes "Go") 0x1d0
