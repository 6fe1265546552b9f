-- ===== src/Signatures.antt =====
-- The signatures of projects/cs2-dumper-cpp-standalone/src/analysis.cpp: a module with its image, and
-- the value of a signature in it, from the first candidate that gives one.
pub mod Resolved
pub mod Tests
use hardware_assisted_game_s.Base.{
  ℕ, Bool, true, false, not, Option, none, some, List, [], ◌∷◌, Bytes, get_elem?, ltb, leb,
  if◌then◌else◌, ◌>>=◌,
}
use hardware_assisted_game_s.Config.{
  SignatureCandidate, SignatureDatabase, SignatureValueKind, rva, immediate, candidates,
}
use hardware_assisted_game_s.Pattern
use hardware_assisted_game_s.Pattern.{Ops, parse}
use hardware_assisted_game_s.Pe.{PeImage, pe_image}
use hardware_assisted_game_s.Scanner.{find_unique_code}
use hardware_assisted_game_s.Process.{
  ModuleInfo, Outcome, returned, thrown, invalid_image, Process, M, return, read_bytes,
}
use hardware_assisted_game_s.Process

pub record ModuleView : Type 0 where
  pub info : ModuleInfo
  pub bytes : Bytes
  pub pe : PeImage

-- The constructor, which throws on an image that is not valid.
unfoldable pub module_view : ModuleInfo → Bytes → Outcome ModuleView
module_view m bytes =
    if (pe_image bytes).valid
    then returned (record { info = m; bytes = bytes; pe = pe_image bytes })
    else thrown invalid_image

-- The pattern of a candidate, or nothing where its text is in error.
unfoldable pub pattern_of : SignatureCandidate → Option Ops
pattern_of c = elim (parse c.pattern_text) [ Pattern.ok ops ↦ some ops | _ ↦ none ]

-- A value that is out of bounds: outside the module, or too large an immediate.
unfoldable pub is_rejected : ModuleView → SignatureValueKind → ℕ → Bool
is_rejected mv rva value = leb mv.info.size value
is_rejected mv immediate value = ltb 0x10000000 value

-- One round of the loop of `resolve_signature`.
unfoldable pub candidate_value : ModuleView → SignatureCandidate → Option ℕ
candidate_value mv c = do
  ops ← pattern_of c
  saves ← find_unique_code mv.pe ops
  value ← get_elem? saves 1
  if is_rejected mv c.kind value then none else some value

unfoldable pub first_value : ModuleView → List SignatureCandidate → Option ℕ
first_value mv [] = none
first_value mv (c ∷ cs) =
    let later = first_value mv cs in
    elim (candidate_value mv c) [ none ↦ later | some value ↦ some value ]

unfoldable pub resolve_signature : ModuleView → SignatureDatabase → Bytes → Option ℕ
resolve_signature mv db name = first_value mv (candidates db mv.info.name name)

module _ (p : Process) where
  open p use {World, module_by_name}

  abbrev pub view_of : ModuleInfo → Outcome Bytes × World → Outcome ModuleView × World
  view_of m (returned bytes, w) = (module_view m bytes, w)
  view_of m (thrown e, w) = (thrown e, w)

  abbrev pub loaded : Outcome ModuleInfo × World → Outcome ModuleView × World
  loaded (returned m, w) = view_of m (read_bytes p m.base m.size w)
  loaded (thrown e, w) = (thrown e, w)

  unfoldable pub load_module : Bytes → M World ModuleView
  load_module name w = loaded (module_by_name name w)
