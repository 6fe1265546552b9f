-- ===== src/Signatures/Resolved.antt =====
-- analysis.cpp: which candidate gives a signature its value.
use hardware_assisted_game_s.Base.{
  ℕ, ◌<◌, ◌≤◌, ◌≡◌, inl, inr, refl, ap, true, false, none, some, Option-cases, List, [], ◌∷◌, ◌++◌,
  Bytes, All, get_elem?, >>=-eq-some, arith,
}
use hardware_assisted_game_s.Config.{
  SignatureCandidate, SignatureDatabase, SignatureValueKind, rva, immediate, candidates,
}
use hardware_assisted_game_s.Pattern
use hardware_assisted_game_s.Pattern.{Ops, parse}
use hardware_assisted_game_s.Pe.{pe_image}
use hardware_assisted_game_s.Scanner.{find_unique_code}
use hardware_assisted_game_s.Scanner.Found.{OnlyMatch, find_unique_code-OnlyMatch}
use hardware_assisted_game_s.Process.{
  ModuleInfo, Outcome, returned, thrown, Process, Ensures, read_bytes,
}
use hardware_assisted_game_s.Signatures.{
  ModuleView, module_view, pattern_of, is_rejected, candidate_value, first_value, resolve_signature,
  load_module, view_of, loaded,
}

-- A view that the constructor has made.
abbrev pub IsView : ModuleView → Type 0
IsView mv = (mv.pe ≡ pe_image mv.bytes) × ((pe_image mv.bytes).valid ≡ true)

-- The bound of a value: the module's size for an RVA, and 2 ^ 28 for an immediate.
abbrev pub IsBounded : ModuleView → SignatureValueKind → ℕ → Type 0
IsBounded mv rva value = value < mv.info.size
IsBounded mv immediate value = value ≤ 0x10000000

-- What gives a candidate its value: its text is a pattern, with one match in the range of code, whose
-- second save is the value.
pub record Gives (mv : ModuleView) (c : SignatureCandidate) (value : ℕ) : Type 0 where
  pub ops : Ops
  pub saves : List ℕ
  pub reads : parse c.pattern_text ≡ Pattern.ok ops
  pub match :
      OnlyMatch mv.bytes ops (pe_image mv.bytes).code_begin (pe_image mv.bytes).code_end saves
  pub second : get_elem? saves 1 ≡ some value
  pub bounded : IsBounded mv c.kind value

pattern_of-eq-some :
    (c : SignatureCandidate) (ops : Ops)
    → pattern_of c ≡ some ops
    → parse c.pattern_text ≡ Pattern.ok ops
unfolding pattern_of
pattern_of-eq-some c ops e = ground arith

is_rejected-IsBounded :
    (mv : ModuleView) (kind : SignatureValueKind) (v : ℕ)
    → is_rejected mv kind v ≡ false
    → IsBounded mv kind v
unfolding is_rejected
is_rejected-IsBounded mv rva v e = ground arith
is_rejected-IsBounded mv immediate v e = ground arith

candidate_value-Gives :
    (mv : ModuleView) (c : SignatureCandidate) (value : ℕ)
    → IsView mv
    → candidate_value mv c ≡ some value
    → Gives mv c value
unfolding candidate_value
candidate_value-Gives mv c value (same, valid) e =
    let (ops, read, e1) = >>=-eq-some (pattern_of c) _ e in
    let (saves, found, e2) = >>=-eq-some (find_unique_code mv.pe ops) _ e1 in
    let (v, second, e3) = >>=-eq-some (get_elem? saves 1) _ e2 in
    record {
      ops = ops;
      saves = saves;
      reads = pattern_of-eq-some c ops read;
      match = find_unique_code-OnlyMatch mv.bytes ops saves valid (rw same at found);
      second = ground arith;
      bounded = is_rejected-IsBounded mv c.kind value (ground arith);
    }

-- The candidates with no value, and then the one that gives it.
abbrev pub IsFirst : ModuleView → ℕ → List SignatureCandidate → Type 0
IsFirst mv value cs =
    (before : List SignatureCandidate) × (c : SignatureCandidate) × (after : List
      SignatureCandidate)
    × (cs ≡ before ++ (c ∷ after))
    × All (λ b. candidate_value mv b ≡ none) before
    × Gives mv c value

first_value-Gives :
    (mv : ModuleView) (cs : List SignatureCandidate) (value : ℕ)
    → IsView mv
    → first_value mv cs ≡ some value
    → IsFirst mv value cs
unfolding first_value
first_value-Gives mv [] value view e = cc
first_value-Gives mv (c ∷ cs) value view e = elim (Option-cases (candidate_value mv c)) [
  | inl fails ↦
      let (before, d, after, split, failed, gives) =
        first_value-Gives mv cs value view (ground arith) in
      (c ∷ before, d, after, ap (λ l. c ∷ l) split, (fails, failed), gives)
  | inr (v, gave) ↦ ([], c, cs, refl, tt, candidate_value-Gives mv c value view (ground arith))
]

pub module_view-IsView :
    (m : ModuleInfo) (bytes : Bytes) (mv : ModuleView)
    → module_view m bytes ≡ returned mv
    → IsView mv
unfolding module_view
module_view-IsView m bytes mv e = ground arith

-- If `resolve_signature` tells a value in a module whose image is valid, the candidates of the name in
-- their order are some that give no value, then the one that gives it, then any others. Its text is a
-- pattern with one match in the range of code of the image; the value is the second save of the match,
-- below the module's size or, where it is an immediate, at most 2 ^ 28.
pub resolve_signature-Gives :
    (m : ModuleInfo) (bytes : Bytes) (mv : ModuleView) (db : SignatureDatabase) (name : Bytes)
    (value : ℕ)
    → module_view m bytes ≡ returned mv
    → resolve_signature mv db name ≡ some value
    → IsFirst mv value (candidates db mv.info.name name)
unfolding resolve_signature
resolve_signature-Gives m bytes mv db name value viewed e =
    first_value-Gives mv (candidates db mv.info.name name) value
      (module_view-IsView m bytes mv viewed) e

module _ (p : Process) where
  open p use {World}

  view_of-IsView : (m : ModuleInfo) (r : Outcome Bytes × World) → Ensures IsView (view_of p m r).0
  unfolding module_view
  view_of-IsView m (returned bytes, w) = ground arith
  view_of-IsView m (thrown e, w) = tt

  loaded-IsView : (r : Outcome ModuleInfo × World) → Ensures IsView (loaded p r).0
  loaded-IsView (returned m, w) = view_of-IsView m (read_bytes p m.base m.size w)
  loaded-IsView (thrown e, w) = tt

  -- A module that is loaded has a view with a valid image.
  pub load_module-IsView : (name : Bytes) (w : World) → Ensures IsView (load_module p name w).0
  unfolding load_module
  load_module-IsView name w = loaded-IsView (p.module_by_name name w)
