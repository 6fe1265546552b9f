-- ===== src/Buttons/Walk.antt =====
-- analysis.cpp: the walk along a list of buttons.
use hardware_assisted_game_s.Base.{
  ℕ, zero, suc, ◌≤◌, ◌≡◌, ◌≢◌, refl, false, List, [], ◌∷◌, Bytes, length, arith,
}
use hardware_assisted_game_s.Interfaces.{contains_address}
use hardware_assisted_game_s.Process.{returned, M}
use hardware_assisted_game_s.Buttons.{ButtonMap, add_button, walk_buttons}

-- The buttons of a list, each with its address, added in their order.
unfoldable pub add_buttons : ℕ → ℕ → List (ℕ × Bytes) → ButtonMap → ButtonMap
add_buttons base state_off [] out = out
add_buttons base state_off (b ∷ bs) out =
    add_buttons base state_off bs (add_button base state_off b.0 b.1 out)

-- No address stands twice, nor is among those seen.
abbrev pub AreFresh : List ℕ → List (ℕ × Bytes) → Type 0
AreFresh seen [] = Unit
AreFresh seen (b ∷ bs) = (contains_address seen b.0 ≡ false) × AreFresh (b.0 ∷ seen) bs

module _ {W : Type 0} (round : ℕ → M W (Bytes × ℕ)) where
  -- From an address and a world, the rounds tell these buttons, one after the other, up to a null.
  abbrev pub Chain : ℕ → W → List (ℕ × Bytes) → W → Type 0
  Chain cur w [] w' = (cur ≡ 0) × (w ≡ w')
  Chain cur w (b ∷ bs) w' =
      (cur ≡ b.0)
      × (cur ≢ 0)
      × (next : ℕ) × (w1 : W) × (round cur w ≡ (returned (b.1, next), w1))
      × Chain next w1 bs w'

  -- Where the process tells a list that ends in a null pointer, has no address twice and at most `n`
  -- buttons, the loop returns the map with all of these buttons, the last of a name counting.
  pub walk_buttons-add_buttons :
      (base state_off n cur : ℕ) (seen : List ℕ) (out : ButtonMap) (w w' : W)
      (bs : List (ℕ × Bytes))
      → Chain cur w bs w'
      → AreFresh seen bs
      → length bs ≤ n
      → walk_buttons round base state_off n cur seen out w
        ≡ (returned (add_buttons base state_off bs out), w')
  unfolding walk_buttons add_buttons
  walk_buttons-add_buttons base state_off zero cur seen out w w' [] (end, same) fresh few =
      rw same refl
  walk_buttons-add_buttons base state_off (suc n) cur seen out w w' [] (end, same) fresh few =
      rw (same, end) refl
  walk_buttons-add_buttons base state_off zero cur seen out w w' (b ∷ bs) chain fresh few =
      absurd (omega arith)
  walk_buttons-add_buttons base state_off (suc n) cur seen out w w' (b ∷ bs) chain fresh few =
      let (here, placed, next, w1, told, later) = chain in
      let rest =
        walk_buttons-add_buttons base state_off n next (b.0 ∷ seen)
          (add_button base state_off b.0 b.1 out) w1 w' bs later fresh.1 (omega arith) in
      ground (arith, rest)
