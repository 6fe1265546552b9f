-- ===== src/Scanner/Tests.antt =====
-- A scan of a few bytes of code, and the theorems at it.
use hardware_assisted_game_s.Base.{
  ℕ, suc, ◌+◌, ◌≤◌, ◌≡◌, refl, true, none, some, List, [], ◌∷◌, length, get_elem?, Bytes, le_word,
  arith,
}
use hardware_assisted_game_s.Pattern.{Ops, nil, cons, byte, save, follow_rel32}
use hardware_assisted_game_s.Pe.{
  PeImage, pe_image, read_headers, read_optional, read_tables, read_at, read_word, file_header,
  section_header, field_at, code_sections, widen, or_whole_image, blank,
}
use hardware_assisted_game_s.Pe.Tests.{put, small_image}
use hardware_assisted_game_s.Scanner.{
  first_literal, execute, execute_op, rel_target, scan, find_unique_code,
}
use hardware_assisted_game_s.Scanner.Cursor.{width, captures}
use hardware_assisted_game_s.Scanner.Unique.{matches, the_only, find_unique_code-matches}
use hardware_assisted_game_s.Scanner.Found.{OnlyMatch, find_unique_code-saves}

-- 488b15${'} 48, at 0x1c8 of the image, where it leads to 0x1d0.
abbrev code_image : Bytes
code_image = put 0x1c8 (0x48 ∷ 0x8b ∷ 0x15 ∷ 1 ∷ 0 ∷ 0 ∷ 0 ∷ 0x48 ∷ []) small_image

abbrev load_saves : List ℕ
load_saves = 0x1c8 ∷ 0x1d0 ∷ []

abbrev load_slot : Ops
load_slot = cons (byte 0x48) (
    cons (byte 0x8b)
      (cons (byte 0x15) (cons (follow_rel32 (cons save nil)) (cons (byte 0x48) nil))))

code_image_valid : (pe_image code_image).valid ≡ true
unfolding pe_image read_headers read_optional read_tables read_word read_at file_header
    code_sections widen section_header or_whole_image field_at le_word
code_image_valid = refl

found : find_unique_code (pe_image code_image) load_slot ≡ some (0x1c8 ∷ 0x1d0 ∷ [])
unfolding pe_image read_headers read_optional read_tables read_word read_at file_header
    code_sections widen section_header or_whole_image field_at le_word find_unique_code scan execute
    execute_op rel_target first_literal
found = refl

-- Two places match a lone prefix.
ambiguous : find_unique_code (pe_image code_image) (cons (byte 0x48) nil) ≡ none
unfolding pe_image read_headers read_optional read_tables read_word read_at file_header
    code_sections widen section_header or_whole_image field_at le_word find_unique_code scan execute
    execute_op rel_target first_literal
ambiguous = refl

abbrev whole : PeImage
whole = record (blank (1 ∷ 2 ∷ 3 ∷ 2 ∷ [])) { valid = true; code_end = 4 }

find_unique_code-matches_example :
    find_unique_code whole (cons (byte 2) (cons (byte 3) nil))
    ≡ the_only (matches whole.image (cons (byte 2) (cons (byte 3) nil)) 4 0)
find_unique_code-matches_example =
    find_unique_code-matches whole (cons (byte 2) (cons (byte 3) nil)) (omega arith) (omega arith)

find_unique_code-saves_example :
    (m : OnlyMatch code_image load_slot
      (pe_image code_image).code_begin
      (pe_image code_image).code_end
      load_saves)
    × (m.stop ≡ m.start + width load_slot)
    × (m.stop ≤ length code_image)
    × (get_elem? load_saves 0 ≡ some m.start)
    × (length load_saves ≡ suc (captures load_slot))
find_unique_code-saves_example =
    find_unique_code-saves code_image load_slot load_saves (omega arith) code_image_valid found
