-- ===== src/Output/Formatter.antt =====
-- output.cpp, `Formatter`: a text that grows by lines, at a level of indentation.
use hardware_assisted_game_s.Base.{
  ℕ, ◌+◌, ◌*◌, ◌-◌, Bool, List, [], ◌∷◌, ◌++◌, Bytes, codes, is_empty, replicate, ◌==◌,
  if◌then◌else◌,
}

pub record Formatter : Type 0 where
  pub out : Bytes
  pub indent_size : ℕ
  pub level : ℕ

abbrev pub formatter : ℕ → Formatter
formatter indent_size = record { out = []; indent_size = indent_size; level = 0 }

abbrev pub newline : Bytes
newline = 10 ∷ []

abbrev pub raw : Bytes → Formatter → Formatter
raw s f = record { out = f.out ++ s; indent_size = f.indent_size; level = f.level }

-- One part of a line, between newlines.
abbrev pub part : Bytes → Formatter → Formatter
part s f =
    raw ((if is_empty s then [] else (replicate (f.level * f.indent_size) 32 ++ s)) ++ newline) f

-- The loop of `line` over the parts of a text; `before` is what the part has so far.
unfoldable pub parts : Bytes → Bytes → Formatter → Formatter
parts before [] f = part before f
parts before (c ∷ s) f =
    let next = parts [] s (part before f) in
    let more = parts (before ++ (c ∷ [])) s f in if c == 10 then next else more

unfoldable pub line : Bytes → Formatter → Formatter
line s f = if is_empty s then raw newline f else parts [] s f

abbrev pub at_level : ℕ → Formatter → Formatter
at_level n f = record { out = f.out; indent_size = f.indent_size; level = n }

unfoldable pub block : Bytes → Bool → (Formatter → Formatter) → Formatter → Formatter
block heading semicolon fn f =
    let opened = line (heading ++ codes " {") f in
    let inside = fn (at_level (opened.level + 1) opened) in
    line (if semicolon then codes "};" else codes "}") (at_level (inside.level - 1) inside)

-- A loop whose rounds write to the formatter.
unfoldable pub each : {A : Type 0} → (A → Formatter → Formatter) → List A → Formatter → Formatter
each write [] f = f
each write (a ∷ as') f = each write as' (write a f)
