-- ===== src/Arguments/Tests.antt =====
-- A few command lines.
use hardware_assisted_game_s.Base.{◌≡◌, refl, [], ◌∷◌, List, Bytes, codes, bytes_eq}
use hardware_assisted_game_s.Config.Text.{pieces, drop_last_empty, trim_start, read_number}
use hardware_assisted_game_s.Arguments.{
  default_args, parsed, failed, indent_too_large, parse_args, parse_from, set_value, split_types,
  first_unsupported, stoull, action_of, is_many_v,
}
use hardware_assisted_game_s.Arguments.Accepted.{IsAccepted, ParsedHolds, parse_args-IsAccepted}

abbrev some_options : List Bytes
some_options = codes "-f" ∷ codes "json,,hpp" ∷ codes "-i" ∷ codes "2" ∷ codes "-vv" ∷ []

options_parsed :
    parse_args some_options
    ≡ parsed (record default_args {
      file_types = codes "json" ∷ codes "hpp" ∷ [];
      indent_size = 2;
      verbosity = 2;
    })
unfolding parse_from set_value split_types first_unsupported stoull action_of is_many_v pieces
    drop_last_empty trim_start read_number bytes_eq
options_parsed = refl

wide_refused : parse_args (codes "-i" ∷ codes "33" ∷ []) ≡ failed indent_too_large
unfolding parse_from set_value stoull action_of is_many_v trim_start read_number bytes_eq
wide_refused = refl

parse_args-IsAccepted_example : ParsedHolds IsAccepted (parse_args some_options)
parse_args-IsAccepted_example = parse_args-IsAccepted some_options
