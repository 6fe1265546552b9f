-- ===== src/Process.antt =====
-- The dumper's view of a process: include/cs2dumper/memory.hpp and include/cs2dumper/types.hpp, both
-- under projects/cs2-dumper-cpp-standalone. The implementation behind the interface is a parameter
-- with a state of its own, since the process runs on between two reads. A call returns or throws.
pub mod Strings
mod Tests
use hardware_assisted_game_s.Base.{
  ◌≡◌, ◌⊎◌, inl, inr, refl, ℕ, zero, suc, ◌+◌, ◌%◌, Bool, true, false, ◌||◌, Option, none, some,
  List, [], ◌∷◌, Bytes, u64_mod, le_word, ltb, leb, ◌==◌, if◌then◌else◌,
}
use hardware_assisted_game_s.Config.Text
use hardware_assisted_game_s.Config.Text.{Error}

-- Addresses and RVAs are numbers, below 2 ^ 64 and 2 ^ 32.
pub record ModuleInfo : Type 0 where
  pub name : Bytes
  pub path : Bytes
  pub base : ℕ
  pub size : ℕ

-- What is thrown: all of these are exceptions of the standard library.
pub data Failure : Type 0 where
  memory_error : ℕ → Failure
  no_module invalid_image empty_class_name empty_enum_name : Failure
  no_button_list no_schema_system no_scopes : Failure
  configuration : Error → Failure
  no_output_file unsupported_type : Bytes → Failure

pub data Outcome (A : Type 0) : Type 0 where
  returned : A → Outcome A
  thrown : Failure → Outcome A

pub Outcome-cases :
    {A : Type 0} (r : Outcome A) → ((a : A) × (r ≡ returned a)) ⊎ ((e : Failure) × (r ≡ thrown e))
Outcome-cases (returned a) = inl (a, refl)
Outcome-cases (thrown e) = inr (e, refl)

-- `IProcessMemory`. A read gives as many bytes as it was asked for, or fails.
pub record Process : Type 1 where
  pub World : Type 0
  pub read_raw : ℕ → ℕ → World → Option Bytes × World
  pub module_list : World → Outcome (List ModuleInfo) × World
  pub module_by_name : Bytes → World → Outcome ModuleInfo × World

-- A call, on a world.
abbrev pub M : Type 0 → Type 0 → Type 0
M W A = W → Outcome A × W

module _ {W A : Type 0} where
  abbrev pub return : A → M W A
  return a w = (returned a, w)

  abbrev pub throw : Failure → M W A
  throw e w = (thrown e, w)

  abbrev pub handled : M W A → Outcome A × W → Outcome A × W
  handled handler (returned a, w) = (returned a, w)
  handled handler (thrown e, w) = handler w

  -- `try { m } catch (...) { handler }`.
  abbrev pub try_or : M W A → M W A → M W A
  try_or m handler w = handled handler (m w)

  -- What `LayoutConfig::get` returns or throws.
  abbrev pub lift : Text.Result A → M W A
  lift (Text.ok a) w = (returned a, w)
  lift (Text.err e) w = (thrown (configuration e), w)

abbrev pub continue : {W A B : Type 0} → (A → M W B) → Outcome A × W → Outcome B × W
continue f (returned a, w) = f a w
continue f (thrown e, w) = (thrown e, w)

infixl 5 ◌>>=◌
abbrev pub ◌>>=◌ : {W A B : Type 0} → M W A → (A → M W B) → M W B
◌>>=◌ m f w = continue f (m w)

-- What is said of the value that a call returns; nothing where it throws.
abbrev pub Ensures : {A : Type 0} → (A → Type 0) → Outcome A → Type 0
Ensures P (returned a) = P a
Ensures P (thrown e) = Unit

Ensures-Unit : {A : Type 0} (r : Outcome A) → Ensures (λ a. Unit {0}) r
Ensures-Unit (returned a) = tt
Ensures-Unit (thrown e) = tt

continue-Ensures :
    {W A B : Type 0} (P : A → Type 0) (Q : B → Type 0) (f : A → M W B) (r : Outcome A × W)
    → Ensures P r.0
    → ((a : A) (w : W) → P a → Ensures Q (f a w).0)
    → Ensures Q (continue f r).0
continue-Ensures P Q f (returned a, w) h k = k a w h
continue-Ensures P Q f (thrown e, w) h k = tt

-- The rules for a chain of calls: with what the first call ensures, and with nothing.
pub >>=-Ensures :
    {W A B : Type 0} (P : A → Type 0) (Q : B → Type 0) (m : M W A) (f : A → M W B) (w : W)
    → Ensures P (m w).0
    → ((a : A) (w' : W) → P a → Ensures Q (f a w').0)
    → Ensures Q ((m >>= f) w).0
>>=-Ensures P Q m f w h k = continue-Ensures P Q f (m w) h k

pub >>=-Ensures_any :
    {W A B : Type 0} (Q : B → Type 0) (m : M W A) (f : A → M W B) (w : W)
    → ((a : A) (w' : W) → Ensures Q (f a w').0)
    → Ensures Q ((m >>= f) w).0
>>=-Ensures_any {A} Q m f w k =
    >>=-Ensures (λ (a : A). Unit {0}) Q m f w (Ensures-Unit (m w).0) (λ a w' h. k a w')

-- The bytes in front of the first NUL, or all.
unfoldable pub before_nul : Bytes → Bytes
before_nul [] = []
before_nul (b ∷ bs) = let rest = before_nul bs in if b == 0 then [] else b ∷ rest

module _ (p : Process) where
  open p use {World, read_raw}

  unfoldable pub or_memory_error : ℕ → Option Bytes × World → Outcome Bytes × World
  or_memory_error address (none, w) = (thrown (memory_error address), w)
  or_memory_error address (some bs, w) = (returned bs, w)

  -- `read<T>` at an integer type of `n` bytes, as the bits of the value.
  unfoldable pub read : ℕ → ℕ → M World ℕ
  read n address =
      (λ w. or_memory_error address (read_raw address n w)) >>= λ bs. return (le_word bs)

  unfoldable pub read_bytes : ℕ → ℕ → M World Bytes
  read_bytes address size w =
      if size == 0 then (returned [], w) else or_memory_error address (read_raw address size w)

  -- The loop of `read_utf8` over single characters, of which `n` may follow.
  unfoldable pub read_chars : ℕ → ℕ → World → Bytes × World
  read_chars address zero w = ([], w)
  read_chars address (suc n) w = elim (read_raw address 1 w).0 [
    | none ↦ ([], (read_raw address 1 w).1)
    | some bs ↦ elim (le_word bs == 0) [
      | true ↦ ([], (read_raw address 1 w).1)
      | false ↦
          let rest = read_chars ((address + 1) % u64_mod) n (read_raw address 1 w).1 in
          (le_word bs ∷ rest.0, rest.1)
    ]
  ]

  unfoldable pub read_utf8 : ℕ → ℕ → Bool → M World Bytes
  read_utf8 address max_len lossy w =
      if address == 0 || max_len == 0
      then (returned [], w)
      else elim (read_raw address max_len w).0 [
        | some buf ↦ (returned (before_nul buf), (read_raw address max_len w).1)
        | none ↦
            let chars = read_chars address max_len (read_raw address max_len w).1 in
            if lossy
            then (returned chars.0, chars.1)
            else (thrown (memory_error address), (read_raw address max_len w).1)
      ]
