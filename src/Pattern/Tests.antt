-- ===== src/Pattern/Tests.antt =====
-- Texts of signatures, and the parser's theorems at them.
use hardware_assisted_game_s.Base.{◌≡◌, ◌≢◌, refl, codes, [], arith}
use hardware_assisted_game_s.Pattern.Termination.{parse-ne-stuck}
use hardware_assisted_game_s.Pattern.RoundTrip.{show, show_op, decimal, AreWritable, parse-show}
use hardware_assisted_game_s.Pattern.{
  Ops, stuck, parse, parse_until, token, skip_spaces, read_digits, close_skip, read_size, follow,
  low_digit, ok, err, cons, nil, byte, skip, save, read_u, follow_rel32, odd_hex_digit,
}

button_list :
    parse (codes "48${[8]'} 74? u4")
    ≡ ok (
        cons (byte 0x48) (
          cons
            (follow_rel32 (cons (skip 8) (cons save nil)))
            (cons (byte 0x74) (cons (skip 1) (cons (read_u 4) nil)))))
unfolding parse parse_until token skip_spaces read_digits close_skip read_size follow low_digit
button_list = refl

abbrev slot_ops : Ops
slot_ops =
    cons (byte 0x48) (cons (follow_rel32 (cons (skip 18) (cons save nil))) (cons (read_u 4) nil))

slot_text : show slot_ops [] ≡ codes "48${[18]'}u4"
unfolding show show_op decimal
slot_text = refl

parse-show_example : parse (show slot_ops []) ≡ ok slot_ops
unfolding AreWritable
parse-show_example = parse-show slot_ops (omega arith)

odd : parse (codes "48 8") ≡ err odd_hex_digit
unfolding parse parse_until token skip_spaces read_digits close_skip read_size follow low_digit
odd = refl

parse-ne-stuck_example : parse (codes "48 8") ≢ stuck
parse-ne-stuck_example = parse-ne-stuck (codes "48 8")
