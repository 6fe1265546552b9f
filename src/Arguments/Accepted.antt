-- ===== src/Arguments/Accepted.antt =====
-- main.cpp: what `parse_args` accepts, and the files of `dump_all` under arguments that it accepts.
use hardware_assisted_game_s.Base.{
  ℕ, ◌≤◌, ◌≡◌, inl, inr, refl, true, false, Option, none, some, List, [], ◌∷◌, All, Bytes, codes,
  bytes_eq, bytes_eq_iff, is_empty, ltb, arith, Bool-cases,
}
use hardware_assisted_game_s.Arguments.{
  Args, default_args, ValueOption, file_types_option, indent_option, output_option, process_option,
  signatures_option, layout_option, Result, ok, err, is_supported, first_unsupported, checked_types,
  split_types, stoull, with_types, with_indent, set_value, after_value, act, Action, show_help,
  show_version, set_no_log, take_value, raise_verbosity, unknown, action_of, Parsed, parsed, failed,
  helped, told_version, parse_from, parse_args,
}
use hardware_assisted_game_s.Output.Files.Names.{IsSupported}

pub record IsAccepted (a : Args) : Type 0 where
  some_types : is_empty a.file_types ≡ false
  supported : All IsSupported a.file_types
  indented : a.indent_size ≤ 32

is_supported-IsSupported : (t : Bytes) → is_supported t ≡ true → IsSupported t
is_supported-IsSupported t h = elim (Bool-cases (bytes_eq t (codes "hpp"))) [
  | inl hpp ↦ inl ((bytes_eq_iff t (codes "hpp")).0 hpp)
  | inr other ↦ inr ((bytes_eq_iff t (codes "json")).0 (rw other at h))
]

first_unsupported-All : (ts : List Bytes) → first_unsupported ts ≡ none → All IsSupported ts
unfolding first_unsupported
first_unsupported-All [] h = tt
first_unsupported-All (t ∷ ts) h = elim (Bool-cases (is_supported t)) [
  | inl good ↦ (is_supported-IsSupported t good, first_unsupported-All ts (rw good at h))
  | inr bad ↦ absurd (ground arith)
]

-- What is said of an accepted result; nothing of an error.
abbrev pub Holds : {A : Type 0} → (A → Type 0) → Result A → Type 0
Holds P (ok a) = P a
Holds P (err e) = Unit

abbrev AreTypes : List Bytes → Type 0
AreTypes ts = (is_empty ts ≡ false) × All IsSupported ts

checked_types-AreTypes :
    (ts : List Bytes) (o : Option Bytes)
    → first_unsupported ts ≡ o
    → Holds AreTypes (checked_types ts o)
checked_types-AreTypes ts (some t) h = tt
checked_types-AreTypes ts none h = elim (Bool-cases (is_empty ts)) [
  | inl empty ↦ rw empty tt
  | inr filled ↦ rw filled (filled, first_unsupported-All ts h)
]

split_types-AreTypes : (value : Bytes) → Holds AreTypes (split_types value)
unfolding split_types
split_types-AreTypes value = checked_types-AreTypes _ _ refl

with_types-IsAccepted :
    (args : Args) (r : Result (List Bytes))
    → IsAccepted args
    → Holds AreTypes r
    → Holds IsAccepted (with_types args r)
with_types-IsAccepted args (ok ts) a h = record {
  some_types = h.0;
  supported = h.1;
  indented = a.indented;
}
with_types-IsAccepted args (err e) a h = tt

with_indent-IsAccepted :
    (args : Args) (r : Result ℕ) → IsAccepted args → Holds IsAccepted (with_indent args r)
with_indent-IsAccepted args (ok n) a = elim (Bool-cases (ltb 32 n)) [
  | inl large ↦ rw large tt
  | inr small ↦
      let fits : n ≤ 32 = ground arith in
      rw small (record { some_types = a.some_types; supported = a.supported; indented = fits })
]
with_indent-IsAccepted args (err e) a = tt

set_value-IsAccepted :
    (o : ValueOption) (v : Bytes) (args : Args)
    → IsAccepted args
    → Holds IsAccepted (set_value o v args)
unfolding set_value
set_value-IsAccepted file_types_option v args a =
    with_types-IsAccepted args (split_types v) a (split_types-AreTypes v)
set_value-IsAccepted indent_option v args a = with_indent-IsAccepted args (stoull v) a
set_value-IsAccepted output_option v args a = record {
  some_types = a.some_types;
  supported = a.supported;
  indented = a.indented;
}
set_value-IsAccepted process_option v args a = record {
  some_types = a.some_types;
  supported = a.supported;
  indented = a.indented;
}
set_value-IsAccepted signatures_option v args a = record {
  some_types = a.some_types;
  supported = a.supported;
  indented = a.indented;
}
set_value-IsAccepted layout_option v args a = record {
  some_types = a.some_types;
  supported = a.supported;
  indented = a.indented;
}

abbrev pub ParsedHolds : (Args → Type 0) → Parsed → Type 0
ParsedHolds P (parsed args) = P args
ParsedHolds P helped = Unit
ParsedHolds P told_version = Unit
ParsedHolds P (failed e) = Unit

after_value-IsAccepted :
    (next : Args → Parsed) (r : Result Args)
    → Holds IsAccepted r
    → ((args : Args) → IsAccepted args → ParsedHolds IsAccepted (next args))
    → ParsedHolds IsAccepted (after_value next r)
after_value-IsAccepted next (ok args) h k = k args h
after_value-IsAccepted next (err e) h k = tt

act-IsAccepted :
    (next : Option ValueOption → Args → Parsed) (args : Args) (arg : Bytes) (x : Action)
    → IsAccepted args
    → ((o : Option ValueOption) (set : Args) → IsAccepted set → ParsedHolds IsAccepted (next o set))
    → ParsedHolds IsAccepted (act next args arg x)
act-IsAccepted next args arg show_help a k = tt
act-IsAccepted next args arg show_version a k = tt
act-IsAccepted next args arg set_no_log a k =
    k none _ (record { some_types = a.some_types; supported = a.supported; indented = a.indented })
act-IsAccepted next args arg (take_value o) a k = k (some o) args a
act-IsAccepted next args arg (raise_verbosity n) a k =
    k none _ (record { some_types = a.some_types; supported = a.supported; indented = a.indented })
act-IsAccepted next args arg unknown a k = tt

parse_from-IsAccepted :
    (pending : Option ValueOption) (args : Args) (argv : List Bytes)
    → IsAccepted args
    → ParsedHolds IsAccepted (parse_from pending args argv)
unfolding parse_from
parse_from-IsAccepted none args [] a = a
parse_from-IsAccepted (some o) args [] a = tt
parse_from-IsAccepted (some o) args (v ∷ rest) a =
    after_value-IsAccepted _ (set_value o v args) (set_value-IsAccepted o v args a)
      (λ set h. parse_from-IsAccepted none set rest h)
parse_from-IsAccepted none args (arg ∷ rest) a =
    act-IsAccepted _ args arg (action_of arg) a (λ o next h. parse_from-IsAccepted o next rest h)

default_args-IsAccepted : IsAccepted default_args
default_args-IsAccepted = record {
  some_types = refl;
  supported = (inl refl, (inr refl, tt));
  indented = omega arith;
}

-- If the arguments are accepted, there is at least one file type, each type is `hpp` or `json`, and the
-- indentation is at most 32.
pub parse_args-IsAccepted : (argv : List Bytes) → ParsedHolds IsAccepted (parse_args argv)
parse_args-IsAccepted argv = parse_from-IsAccepted none default_args argv default_args-IsAccepted
