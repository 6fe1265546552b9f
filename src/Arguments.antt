-- ===== src/Arguments.antt =====
-- The command line of projects/cs2-dumper-cpp-standalone/src/main.cpp: `parse_args`, `split_types`,
-- `discover_config` and the counts that are told. The arguments are those behind the program's name,
-- and the count of `-v` is a number of any size.
pub mod Accepted
mod Tests
use hardware_assisted_game_s.Base.{
  ℕ, ◌+◌, ◌-◌, ◌%◌, Bool, true, false, not, ◌&&◌, ◌||◌, Option, none, some, List, [], ◌∷◌, Bytes,
  codes, u64_mod, bytes_eq, is_empty, length, ltb, leb, ◌==◌, if◌then◌else◌,
}
use hardware_assisted_game_s.Config.Text
use hardware_assisted_game_s.Config.Text.{
  pieces, drop_last_empty, trim_start, sign_of, read_number, starts_with_digit,
}
use hardware_assisted_game_s.Offsets.{OffsetMap}
use hardware_assisted_game_s.Schemas.Scopes.{SchemaMap}

pub record Args : Type 0 where
  pub file_types : List Bytes
  pub indent_size : ℕ
  pub output : Bytes
  pub process_name : Bytes
  pub signatures : Option Bytes
  pub layout : Option Bytes
  pub verbosity : ℕ
  pub no_log_file : Bool

abbrev pub default_args : Args
default_args = record {
  file_types = codes "hpp" ∷ codes "json" ∷ [];
  indent_size = 4;
  output = codes "output";
  process_name = codes "cs2.exe";
  signatures = none;
  layout = none;
  verbosity = 0;
  no_log_file = false;
}

pub data ValueOption : Type 0 where
  file_types_option indent_option output_option process_option signatures_option layout_option :
      ValueOption

pub data ArgumentError : Type 0 where
  missing_value : ValueOption → ArgumentError
  empty_types not_a_number out_of_range indent_too_large : ArgumentError
  unsupported_file_type unknown_option : Bytes → ArgumentError

pub data Result (A : Type 0) : Type 0 where
  ok : A → Result A
  err : ArgumentError → Result A

abbrev pub non_empty : List Bytes → List Bytes
non_empty [] = []
non_empty (p ∷ ps) = let rest = non_empty ps in if is_empty p then rest else p ∷ rest

abbrev pub is_supported : Bytes → Bool
is_supported type = bytes_eq type (codes "hpp") || bytes_eq type (codes "json")

unfoldable pub first_unsupported : List Bytes → Option Bytes
first_unsupported [] = none
first_unsupported (t ∷ ts) =
    let later = first_unsupported ts in if is_supported t then later else some t

abbrev pub checked_types : List Bytes → Option Bytes → Result (List Bytes)
checked_types ts none = if is_empty ts then err empty_types else ok ts
checked_types ts (some t) = err (unsupported_file_type t)

unfoldable pub split_types : Bytes → Result (List Bytes)
split_types value =
    let types = non_empty (drop_last_empty (pieces b',' value)) in
    checked_types types (first_unsupported types)

-- `std::stoull` in base 10, which leaves what follows the digits.
unfoldable pub stoull : Bytes → Result ℕ
stoull text =
    let (negative, s) = sign_of (trim_start text) in
    let (n, rest) = read_number 10 0 s in
    if not (starts_with_digit 10 s)
    then err not_a_number
    else if leb u64_mod n
    then err out_of_range
    else ok (if negative then (u64_mod - n) % u64_mod else n)

abbrev pub with_types : Args → Result (List Bytes) → Result Args
with_types args (ok types) = ok (record args { file_types = types })
with_types args (err e) = err e

abbrev pub with_indent : Args → Result ℕ → Result Args
with_indent args (ok n) =
    if ltb 32 n then err indent_too_large else ok (record args { indent_size = n })
with_indent args (err e) = err e

-- What an option does with its value.
unfoldable pub set_value : ValueOption → Bytes → Args → Result Args
set_value file_types_option v args = with_types args (split_types v)
set_value indent_option v args = with_indent args (stoull v)
set_value output_option v args = ok (record args { output = v })
set_value process_option v args = ok (record args { process_name = v })
set_value signatures_option v args = ok (record args { signatures = some v })
set_value layout_option v args = ok (record args { layout = some v })

pub data Action : Type 0 where
  show_help show_version set_no_log : Action
  take_value : ValueOption → Action
  raise_verbosity : ℕ → Action
  unknown : Action

abbrev pub is_one_of : Bytes → Bytes → Bytes → Bool
is_one_of arg short long = bytes_eq arg short || bytes_eq arg long

abbrev pub all_v : Bytes → Bool
all_v [] = true
all_v (c ∷ s) = c == b'v' && all_v s

-- `-vv`, `-vvv` and so on.
unfoldable pub is_many_v : Bytes → Bool
is_many_v [] = false
is_many_v (c ∷ s) = ltb 1 (length s) && c == b'-' && all_v s

unfoldable pub action_of : Bytes → Action
action_of arg =
    if is_one_of arg (codes "-h") (codes "--help")
    then show_help
    else if is_one_of arg (codes "-V") (codes "--version")
    then show_version
    else if is_one_of arg (codes "-f") (codes "--file-types")
    then take_value file_types_option
    else if is_one_of arg (codes "-i") (codes "--indent-size")
    then take_value indent_option
    else if is_one_of arg (codes "-o") (codes "--output")
    then take_value output_option
    else if is_one_of arg (codes "-p") (codes "--process-name")
    then take_value process_option
    else if is_one_of arg (codes "-s") (codes "--signatures")
    then take_value signatures_option
    else if is_one_of arg (codes "-l") (codes "--layout")
    then take_value layout_option
    else if is_one_of arg (codes "-n") (codes "--no-log-file")
    then set_no_log
    else if is_one_of arg (codes "-v") (codes "--verbose")
    then raise_verbosity 1
    else if is_many_v arg
    then raise_verbosity (length arg - 1)
    else unknown

-- The program exits after its help or its version.
pub data Parsed : Type 0 where
  parsed : Args → Parsed
  helped told_version : Parsed
  failed : ArgumentError → Parsed

abbrev pub after_value : (Args → Parsed) → Result Args → Parsed
after_value next (ok args) = next args
after_value next (err e) = failed e

-- What one argument does; `next` is the loop over the further ones, maybe at the value of an option.
abbrev pub act : (Option ValueOption → Args → Parsed) → Args → Bytes → Action → Parsed
act next args arg show_help = helped
act next args arg show_version = told_version
act next args arg set_no_log = next none (record args { no_log_file = true })
act next args arg (take_value o) = next (some o) args
act next args arg (raise_verbosity n) = next none (record args { verbosity = args.verbosity + n })
act next args arg unknown = failed (unknown_option arg)

-- The loop, at an argument or at the value of an option.
unfoldable pub parse_from : Option ValueOption → Args → List Bytes → Parsed
parse_from none args [] = parsed args
parse_from (some o) args [] = failed (missing_value o)
parse_from (some o) args (v ∷ rest) =
    after_value (λ set. parse_from none set rest) (set_value o v args)
parse_from none args (arg ∷ rest) = act (λ o next. parse_from o next rest) args arg (action_of arg)

abbrev pub parse_args : List Bytes → Parsed
parse_args argv = parse_from none default_args argv

-- The paths of the file system are a parameter: how they are joined, the current one, and which exist.
module _ (join : Bytes → Bytes → Bytes) (current_path : Bytes) (exists_ : Bytes → Bool) where
  abbrev first_existing : List Bytes → Option Bytes
  first_existing [] = none
  first_existing (p ∷ ps) = if exists_ p then some p else first_existing ps

  unfoldable discover_config : Bytes → Bytes → Bytes → Option Bytes
  discover_config explicit_path exe_dir filename =
      if not (is_empty explicit_path)
      then some explicit_path
      else first_existing (
          join exe_dir filename
          ∷ join current_path filename
          ∷ join (join current_path (codes "config")) filename
          ∷ [])

unfoldable pub nested_count : OffsetMap → ℕ
nested_count [] = 0
nested_count ((m, values) ∷ rest) = length values + nested_count rest

unfoldable pub schema_count : SchemaMap → ℕ
schema_count [] = 0
schema_count ((m, (classes, enums)) ∷ rest) = length classes + length enums + schema_count rest
