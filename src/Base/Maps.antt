-- ===== src/Base/Maps.antt =====
-- `std::map`: a list of pairs in the order of their keys. Its laws say what a look-up finds.
use mathlib.Core.Path.{◌≡◌, refl, subst}
use mathlib.Core.Logic.{◌↔◌, inl, inr}
use mathlib.Core.Bool.{Bool, true, false, ◌&&◌, ◌||◌}
use mathlib.Core.Option.{Option, none, some}
use mathlib.Core.List.{List, [], ◌∷◌}
use native.Mathlib.Omega.{arith}
use hardware_assisted_game_s.Base.Tests.{if◌then◌else◌, ltb, ◌==◌, Bool-cases}
use hardware_assisted_game_s.Base.Lists.{All}
use hardware_assisted_game_s.Base.Words.{Bytes, bytes_eq, bytes_eq_iff}

-- What a map needs of its keys.
pub record Key {ℓ} (K : Type ℓ) : Type ℓ where
  pub equal : K → K → Bool
  pub less : K → K → Bool
  pub equal_iff : (a b : K) → (equal a b ≡ true) ↔ (a ≡ b)

unfoldable pub bytes_less : Bytes → Bytes → Bool
bytes_less [] [] = false
bytes_less [] (b ∷ bs) = true
bytes_less (a ∷ as') [] = false
bytes_less (a ∷ as') (b ∷ bs) = ltb a b || (a == b && bytes_less as' bs)

instance abbrev pub bytes_key : Key Bytes
bytes_key = record { equal = bytes_eq; less = bytes_less; equal_iff = bytes_eq_iff }

unfoldable pub pair_eq : Bytes × Bytes → Bytes × Bytes → Bool
pair_eq (a, b) (c, d) = bytes_eq a c && bytes_eq b d

unfoldable pub pair_less : Bytes × Bytes → Bytes × Bytes → Bool
pair_less (a, b) (c, d) = bytes_less a c || (bytes_eq a c && bytes_less b d)

pub pair_eq_iff : (p q : Bytes × Bytes) → (pair_eq p q ≡ true) ↔ (p ≡ q)
unfolding pair_eq
pair_eq_iff (a, b) (c, d) = ground (arith, bytes_eq_iff a c, bytes_eq_iff b d)

instance abbrev pub pair_key : Key (Bytes × Bytes)
pair_key = record { equal = pair_eq; less = pair_less; equal_iff = pair_eq_iff }

module _ {ℓ κ} {K : Type ℓ} {V : Type κ} ⦃key : Key K⦄ where
  unfoldable pub lookup : K → List (K × V) → Option V
  lookup k [] = none
  lookup k ((j, v) ∷ m) = if key.equal j k then some v else lookup k m

  -- `m[k] = v`.
  unfoldable pub insert : K → V → List (K × V) → List (K × V)
  insert k v [] = (k, v) ∷ []
  insert k v ((j, w) ∷ m) =
      if key.equal j k
      then (k, v) ∷ m
      else if key.less k j
      then (k, v) ∷ (j, w) ∷ m
      else (j, w) ∷ insert k v m

  pub lookup-insert :
      (k j : K) (v : V) (m : List (K × V))
      → lookup j (insert k v m) ≡ (if key.equal k j then some v else lookup j m)
  unfolding lookup insert
  lookup-insert k j v [] = refl
  lookup-insert k j v ((i, w) ∷ m) =
      ground (arith, key.equal_iff k j, key.equal_iff i k, key.equal_iff i j, lookup-insert k j v m)

  -- `erase` of a key, which stands once at most.
  unfoldable pub erase : K → List (K × V) → List (K × V)
  erase k [] = []
  erase k ((j, w) ∷ m) = let rest = erase k m in if key.equal j k then rest else (j, w) ∷ rest

  pub lookup-erase :
      (k j : K) (m : List (K × V))
      → lookup j (erase k m) ≡ (if key.equal k j then none else lookup j m)
  unfolding lookup erase
  lookup-erase k j [] = ground arith
  lookup-erase k j ((i, w) ∷ m) =
      ground (arith, key.equal_iff k j, key.equal_iff i k, key.equal_iff i j, lookup-erase k j m)

  same_entry : (k j : K) (v w : V) → j ≡ k → some w ≡ some v → ◌≡◌ {A = K × V} (j, w) (k, v)
  same_entry k j v w a b = ground arith

  pub lookup-All :
      (P : K × V → Type 0) (k : K) (v : V) (m : List (K × V))
      → All P m
      → lookup k m ≡ some v
      → P (k, v)
  unfolding lookup
  lookup-All P k v [] a e = cc
  lookup-All P k v ((j, w) ∷ m) a e = elim (Bool-cases (key.equal j k)) [
    | inl same ↦ subst P (same_entry k j v w ((key.equal_iff j k).0 same) (rw same at e)) a.0
    | inr other ↦ lookup-All P k v m a.1 (rw other at e)
  ]

  pub All-insert :
      (P : K × V → Type 0) (k : K) (v : V) (m : List (K × V))
      → P (k, v)
      → All P m
      → All P (insert k v m)
  unfolding insert
  All-insert P k v [] h a = (h, tt)
  All-insert P k v ((j, w) ∷ m) h a = ground (arith, All-insert P k v m h)
