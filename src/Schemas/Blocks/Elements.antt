-- ===== src/Schemas/Blocks/Elements.antt =====
-- analysis.cpp: what `hash_elements` returns, whatever the memory of the process holds.
use hardware_assisted_game_s.Base.{
  ℕ, zero, suc, ◌+◌, ◌≤◌, ◌≡◌, inl, inr, refl, true, false, Option, none, some, List, [], ◌∷◌, All,
  length, length-append, arith,
}
use hardware_assisted_game_s.Config.{LayoutConfig}
use hardware_assisted_game_s.Interfaces.{plausible_user_pointer, contains_address}
use hardware_assisted_game_s.Process.{
  Outcome, Outcome-cases, returned, thrown, Process, M, Ensures, >>=-Ensures_any,
}
use hardware_assisted_game_s.Schemas.Blocks.{
  hard_cap, positive32, offset_of, read_field, node, Taken, take_data, has_room, unique_plausible,
  walk_chain, walk_buckets, walk_free, free_block, bucket_elements, free_head, unique_result,
  with_free, hash_elements,
}

-- No element is among those seen, or stands twice.
abbrev pub AreDistinct : List ℕ → List ℕ → Type 0
AreDistinct seen [] = Unit
AreDistinct seen (q ∷ qs) = (contains_address seen q ≡ false) × AreDistinct (q ∷ seen) qs

-- At most `k` elements more than were counted, and these at most the cap.
record IsTaken (k : ℕ) (t : Taken) : Type 0 where
  few : length t.elements ≤ t.count + k
  capped : t.count ≤ hard_cap

unique_plausible_facts :
    (seen qs : List ℕ)
    → AreDistinct seen (unique_plausible seen qs)
      × All (λ q. plausible_user_pointer q ≡ true) (unique_plausible seen qs)
      × (length (unique_plausible seen qs) ≤ length qs)
unfolding unique_plausible
unique_plausible_facts seen [] = (tt, tt, omega arith)
unique_plausible_facts seen (q ∷ qs) =
    ground (arith, unique_plausible_facts seen qs, unique_plausible_facts (q ∷ seen) qs)

take_data-IsTaken :
    (k blocks data_ : ℕ) (t : Taken)
    → has_room blocks t ≡ true
    → IsTaken k t
    → IsTaken k (take_data data_ t)
take_data-IsTaken k blocks data_ t room v = ground (arith, length-append t.elements (data_ ∷ []))

module _ {W : Type 0} (round : ℕ → M W (ℕ × ℕ)) (k blocks : ℕ) where
  walk_chain-IsTaken :
      (n cur : ℕ) (t : Taken) (w : W)
      → IsTaken k t
      → IsTaken k (walk_chain round blocks n cur t w).0
  unfolding walk_chain
  walk_chain-IsTaken zero cur t w v = v
  walk_chain-IsTaken (suc n) cur t w v =
      grind (arith, walk_chain-IsTaken n, take_data-IsTaken k blocks)

  walk_buckets-IsTaken :
      (head : ℕ → M W ℕ) (n i : ℕ) (t : Taken) (w : W)
      → IsTaken k t
      → IsTaken k (walk_buckets head round blocks n i t w).0
  unfolding walk_buckets
  walk_buckets-IsTaken head zero i t w v = v
  walk_buckets-IsTaken head (suc n) i t w v =
      grind (arith, walk_buckets-IsTaken head n, walk_chain-IsTaken)

  walk_free-IsTaken :
      (fuel blob : ℕ) (t t' : Taken) (w w' : W)
      → IsTaken k t
      → walk_free round blocks fuel blob t w ≡ some (t', w')
      → IsTaken k t'
  unfolding walk_free
  walk_free-IsTaken zero blob t t' w w' v e = ground arith
  walk_free-IsTaken (suc fuel) blob t t' w w' v e = elim (Outcome-cases (round blob w).0) [
    | inr (failure, unread) ↦ ground arith
    | inl (r, told) ↦ ground (
      arith,
      walk_free-IsTaken fuel r.1 (take_data r.0 t) t' (round blob w).1 w',
      take_data-IsTaken k blocks r.0 t,
    )
  ]

module _ (p : Process) (l : LayoutConfig) where
  open p use {World}

  bucket_elements-IsTaken :
      (hash_base : ℕ) (w : World) → Ensures (λ r. IsTaken 0 r.1) (bucket_elements p l hash_base w).0
  unfolding bucket_elements
  bucket_elements-IsTaken hash_base w =
      >>=-Ensures_any _ (offset_of p l "hash.entry_mem") _ w λ entry_mem w1.
        >>=-Ensures_any _ (read_field p l 4 _ "memory_pool.blocks_allocated") _ w1 λ blocks w2.
          >>=-Ensures_any _ (read_field p l 4 _ "memory_pool.peak_allocated") _ w2 λ peak w3.
            >>=-Ensures_any _ (offset_of p l "hash.buckets") _ w3 λ buckets w4.
              >>=-Ensures_any _ (offset_of p l "hash.bucket_count") _ w4 λ bucket_count w5.
                >>=-Ensures_any _ (offset_of p l "hash.bucket_stride") _ w5 λ bucket_stride w6.
                  >>=-Ensures_any _ (offset_of p l "hash.bucket.first_uncommitted") _ w6 λ first w7.
                    >>=-Ensures_any _ (offset_of p l "hash_node.next") _ w7 λ node_next w8.
                      >>=-Ensures_any _ (offset_of p l "hash_node.data") _ w8 λ node_data w9.
                        walk_buckets-IsTaken (node p l node_data node_next) 0 (positive32 blocks) _
                          bucket_count 0 _ w9 (record { few = omega arith; capped = omega arith })

  unique_result-Elements :
      (r : Option (Taken × World)) (qs : List ℕ) (w' : World)
      → ((t : Taken) (w1 : World) → r ≡ some (t, w1) → IsTaken hard_cap t)
      → unique_result p l r ≡ some (returned qs, w')
      → AreDistinct [] qs × All (λ q. plausible_user_pointer q ≡ true) qs × (length qs ≤ 2000000)
  unique_result-Elements none qs w' v e = absurd (ground arith)
  unique_result-Elements (some (t, w1)) qs w' v e =
      let taken = v t w1 refl in
      let facts = unique_plausible_facts [] t.elements in
      let same : unique_plausible [] t.elements ≡ qs = ground arith in
      let few : length (unique_plausible [] t.elements) ≤ 2000000 =
        omega (arith, facts.2, taken.few, taken.capped) in
      (rw same at facts.0, rw same at facts.1, rw same at few)

  with_free-Elements :
      (fuel hash_base : ℕ) (r : Outcome (ℕ × Taken) × World) (qs : List ℕ) (w' : World)
      → Ensures (λ b. IsTaken 0 b.1) r.0
      → with_free p l fuel hash_base r ≡ some (returned qs, w')
      → AreDistinct [] qs × All (λ q. plausible_user_pointer q ≡ true) qs × (length qs ≤ 2000000)
  unfolding with_free
  with_free-Elements fuel hash_base (thrown failure, w) qs w' v e = absurd (ground arith)
  with_free-Elements fuel hash_base (returned (peak, t), w) qs w' v e =
      let head = free_head p l hash_base w in
      unique_result-Elements
        (walk_free (free_block p l) peak fuel head.0 (record { count = 0; elements = t.elements })
          head.1)
        qs w'
        (λ t' w1.
          walk_free-IsTaken (free_block p l) hard_cap peak fuel head.0 _ t' head.1 w1
            (record { few = omega (arith, v.few, v.capped); capped = omega arith }))
        e

  -- Whatever the memory of the process holds and however long the loop over the free blocks may run:
  -- if `hash_elements` returns, its elements are plausible pointers, each of them once, and at most
  -- two million.
  pub hash_elements-AreDistinct :
      (fuel hash_base : ℕ) (w w' : World) (qs : List ℕ)
      → hash_elements p l fuel hash_base w ≡ some (returned qs, w')
      → AreDistinct [] qs × All (λ q. plausible_user_pointer q ≡ true) qs × (length qs ≤ 2000000)
  unfolding hash_elements
  hash_elements-AreDistinct fuel hash_base w w' qs e =
      with_free-Elements fuel hash_base (bucket_elements p l hash_base w) qs w'
        (bucket_elements-IsTaken hash_base w) e
