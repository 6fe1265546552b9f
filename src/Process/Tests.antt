-- ===== src/Process/Tests.antt =====
-- A text that ends at a page which cannot be read.
use hardware_assisted_game_s.Base.{
  ◌-◌, ◌≡◌, refl, true, none, codes, get_elem?, ltb, if◌then◌else◌, arith,
}
use hardware_assisted_game_s.Process.{returned, read_utf8}
use hardware_assisted_game_s.Process.Strings.{Cells, still, text_at, read_utf8-text_at}

abbrev last_bytes : Cells
last_bytes a = if ltb a 4093 then none else get_elem? (codes "abc") (a - 4093)

text_there : text_at last_bytes 4094 16 ≡ codes "bc"
unfolding text_at
text_there = refl

read_utf8-text_at_example :
    read_utf8 (still last_bytes) 4094 16 true tt ≡ (returned (text_at last_bytes 4094 16), tt)
read_utf8-text_at_example = read_utf8-text_at last_bytes 4094 16 (omega arith)
