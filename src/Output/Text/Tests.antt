-- ===== src/Output/Text/Tests.antt =====
-- Texts as they stand in the files.
use hardware_assisted_game_s.Base.{
  ◌≡◌, ◌%◌, ◌*◌, ◌^◌, inl, inr, refl, true, some, [], ◌∷◌, ◌++◌, Bytes, codes, arith,
}
use hardware_assisted_game_s.Output.Text.{
  q, slugify, slug_front, slug_chars, snake_case, snake_from, snake_char, enum_hex, escape_char,
  json_escape,
}
use hardware_assisted_game_s.Output.Text.Escape.{unquote, unquote-q}
use hardware_assisted_game_s.Output.Text.Numbers.{read_hex, read_hex-enum_hex}
use hardware_assisted_game_s.Output.Text.Slug.{
  is_identifier, is_small_identifier, slugify-is_identifier,
}

abbrev odd_text : Bytes
odd_text = b'a' ∷ b'"' ∷ b'\\' ∷ 10 ∷ 1 ∷ 200 ∷ []

quoted : q (b'"' ∷ 1 ∷ []) ≡ codes "\"\\\"\\u0001\""
unfolding escape_char json_escape
quoted = refl

namespace_of : snake_case (slugify (codes "pan-UI.dll")) ≡ codes "pan_u_i_dll"
unfolding snake_from snake_char slug_front slug_chars
namespace_of = refl

unquote-q_example : unquote (q odd_text ++ codes ": 1") ≡ some (odd_text, codes ": 1")
unquote-q_example = unquote-q odd_text (codes ": 1")

read_hex-enum_hex_example :
    read_hex (enum_hex 0xffff_ffff_ffff_fffe 2) ≡ some (0xffff_ffff_ffff_fffe % 2 ^ (8 * 2))
read_hex-enum_hex_example = read_hex-enum_hex 0xffff_ffff_ffff_fffe 2 (omega arith) (inr (inl refl))

slugify-is_identifier_example :
    (is_identifier (slugify (codes "2D-view.dll")) ≡ true)
    × (slugify (slugify (codes "2D-view.dll")) ≡ slugify (codes "2D-view.dll"))
    × (is_small_identifier (snake_case (slugify (codes "2D-view.dll"))) ≡ true)
slugify-is_identifier_example = slugify-is_identifier (codes "2D-view.dll")
