-- ===== src/Schemas/Blocks/Ending.antt =====
-- analysis.cpp, `hash_elements`: when the loop over the free blocks ends. It counts the data pointers
-- that it took and not its rounds, so it ends if a block without data is the last one, and it does not
-- if such a block is its own successor.
use hardware_assisted_game_s.Base.{
  ℕ, zero, suc, ◌+◌, ◌<◌, ◌≡◌, ◌≢◌, ◌⊎◌, inl, inr, true, none, some, arith,
}
use hardware_assisted_game_s.Process.{Outcome-cases, returned, M}
use hardware_assisted_game_s.Schemas.Blocks.{hard_cap, Taken, take_data, has_room, walk_free}

module _ {W : Type 0} (round : ℕ → M W (ℕ × ℕ)) where
  -- A block without data, which can be read again and again, and which names itself as the next block.
  pub record IsStuck (blob : ℕ) : Type 0 where
    pub there : blob ≢ 0
    pub same : (w : W) → (round blob w).0 ≡ returned (0, blob)

  -- Every block that can be read has data, or is the last one.
  abbrev pub HasData : Type 0
  HasData = (blob : ℕ) (w : W) (r : ℕ × ℕ) → (round blob w).0 ≡ returned r → (r.0 ≢ 0) ⊎ (r.1 ≡ 0)

module _ {W : Type 0} (round : ℕ → M W (ℕ × ℕ)) (peak : ℕ) where
  walk_free-null : (fuel : ℕ) (t : Taken) (w : W) → walk_free round peak fuel 0 t w ≡ some (t, w)
  unfolding walk_free
  walk_free-null zero t w = ground arith
  walk_free-null (suc fuel) t w = ground arith

  -- At a block that can always be read, has no data and names itself as the next one, the loop runs on
  -- while there is room for a data pointer: it is still running on every fuel.
  pub walk_free-runs_on :
      (fuel blob : ℕ) (t : Taken) (w : W)
      → IsStuck round blob
      → has_room peak t ≡ true
      → walk_free round peak fuel blob t w ≡ none
  unfolding walk_free
  walk_free-runs_on zero blob t w stuck room = let there = stuck.there in ground arith
  walk_free-runs_on (suc fuel) blob t w stuck room =
      let there = stuck.there in
      let same = stuck.same w in
      ground (arith, walk_free-runs_on fuel blob t (round blob w).1 stuck)

  -- When every block that can be read has data or is the last one, the loop ends: fuel and data
  -- pointers taken so far above the cap of a million are enough.
  pub walk_free-ends :
      (fuel blob : ℕ) (t : Taken) (w : W)
      → HasData round
      → hard_cap < fuel + t.count
      → walk_free round peak fuel blob t w ≢ none
  unfolding walk_free
  walk_free-ends zero blob t w has long = ground arith
  walk_free-ends (suc fuel) blob t w has long = elim (Outcome-cases (round blob w).0) [
    | inr (failure, unread) ↦ ground arith
    | inl (r, told) ↦ elim (has blob w r told) [
      | inl data_ ↦ ground (arith, walk_free-ends fuel r.1 (take_data r.0 t) (round blob w).1 has)
      | inr last ↦ ground (arith, walk_free-null fuel (take_data r.0 t) (round blob w).1)
    ]
  ]
