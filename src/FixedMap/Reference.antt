-- ===== src/FixedMap/Reference.antt =====
-- fixed_map_radar.hpp: whose height `selectReferenceZ` takes.
use hardware_assisted_game_s.Base.{
  ℕ, ◌≡◌, ◌≢◌, ◌⊎◌, inl, inr, Option-cases, Bool, true, Option, none, some, List, [], ◌∷◌, arith,
}
use hardware_assisted_game_s.PlayerSample.{Floats}
use hardware_assisted_game_s.FixedMap.{
  Team, PlayerSnapshot, GameSnapshot, valid_z, player_with, find_player, z_if, first_z,
  reference_team, is_alive, anyone, lives_in, select_reference_z,
}

module _ (floats : Floats) where
  open floats use {Float}

  -- Some player has this valid height; some living player has.
  abbrev pub HasZ : List (PlayerSnapshot floats) → Float → Type 0
  HasZ [] z = ⊥
  HasZ (p ∷ ps) z = (valid_z floats p ≡ some z) ⊎ HasZ ps z

  abbrev pub HasLiveZ : List (PlayerSnapshot floats) → Float → Type 0
  HasLiveZ [] z = ⊥
  HasLiveZ (p ∷ ps) z = ((p.alive ≡ true) × (valid_z floats p ≡ some z)) ⊎ HasLiveZ ps z

  first_z-HasZ :
      (test : PlayerSnapshot floats → Bool) (ps : List (PlayerSnapshot floats)) (z : Float)
      → first_z floats test ps ≡ some z
      → HasZ ps z
  unfolding first_z z_if
  first_z-HasZ test [] z e = cc
  first_z-HasZ test (p ∷ ps) z e = ground (arith, first_z-HasZ test ps z)

  first_z-HasLiveZ :
      (test : PlayerSnapshot floats → Bool) (ps : List (PlayerSnapshot floats)) (z : Float)
      → ((p : PlayerSnapshot floats) → test p ≡ true → p.alive ≡ true)
      → first_z floats test ps ≡ some z
      → HasLiveZ ps z
  unfolding first_z z_if
  first_z-HasLiveZ test [] z live e = cc
  first_z-HasLiveZ test (p ∷ ps) z live e = ground (arith, first_z-HasLiveZ test ps z live, live p)

  first_z-none :
      (ps : List (PlayerSnapshot floats)) (z : Float)
      → first_z floats (anyone floats) ps ≡ none
      → HasZ ps z
      → ⊥
  unfolding first_z z_if
  first_z-none [] z e h = h
  first_z-none (p ∷ ps) z e h = ground (arith, first_z-none ps z)

  player_with-HasZ :
      (test : PlayerSnapshot floats → Bool) (id : ℕ) (ps : List (PlayerSnapshot floats)) (z : Float)
      → z_if floats test (player_with floats id ps) ≡ some z
      → HasZ ps z
  unfolding player_with z_if
  player_with-HasZ test id [] z e = cc
  player_with-HasZ test id (p ∷ ps) z e = ground (arith, player_with-HasZ test id ps z)

  player_with-HasLiveZ :
      (id : ℕ) (ps : List (PlayerSnapshot floats)) (z : Float)
      → z_if floats (is_alive floats) (player_with floats id ps) ≡ some z
      → HasLiveZ ps z
  unfolding player_with z_if
  player_with-HasLiveZ id [] z e = cc
  player_with-HasLiveZ id (p ∷ ps) z e = ground (arith, player_with-HasLiveZ id ps z)

  find_player-HasZ :
      (test : PlayerSnapshot floats → Bool) (id : Option ℕ) (ps : List (PlayerSnapshot floats))
      (z : Float)
      → z_if floats test (find_player floats ps id) ≡ some z
      → HasZ ps z
  unfolding find_player z_if
  find_player-HasZ test none ps z e = cc
  find_player-HasZ test (some id) ps z e = player_with-HasZ test id ps z e

  find_player-HasLiveZ :
      (id : Option ℕ) (ps : List (PlayerSnapshot floats)) (z : Float)
      → z_if floats (is_alive floats) (find_player floats ps id) ≡ some z
      → HasLiveZ ps z
  unfolding find_player z_if
  find_player-HasLiveZ none ps z e = cc
  find_player-HasLiveZ (some id) ps z e = player_with-HasLiveZ id ps z e

  lives_in-alive :
      (team : Team) (p : PlayerSnapshot floats) → lives_in floats team p ≡ true → p.alive ≡ true
  lives_in-alive team p e = ground arith

  -- The height that is taken is a valid one of a player of the snapshot.
  select_reference_z-HasZ :
      (s : GameSnapshot floats) (z : Float)
      → select_reference_z floats s ≡ some z
      → HasZ s.players z
  unfolding select_reference_z
  select_reference_z-HasZ s z e =
      let team =
        reference_team floats (find_player floats s.players s.local_player_id) s.local_team in
      ground (
        arith,
        find_player-HasZ (is_alive floats) s.local_player_id s.players z,
        find_player-HasZ (is_alive floats) s.observed_player_id s.players z,
        find_player-HasZ (anyone floats) s.local_player_id s.players z,
        first_z-HasZ (lives_in floats team) s.players z,
        first_z-HasZ (is_alive floats) s.players z,
        first_z-HasZ (anyone floats) s.players z,
      )

  -- If any player has a valid height, some height is taken.
  select_reference_z-ne-none :
      (s : GameSnapshot floats) (z : Float) → HasZ s.players z → select_reference_z floats s ≢ none
  unfolding select_reference_z
  select_reference_z-ne-none s z h = ground (arith, first_z-none s.players z)

  taken-HasLiveZ :
      (s : GameSnapshot floats) (z taken : Float)
      → first_z floats (is_alive floats) s.players ≡ some z
      → select_reference_z floats s ≡ some taken
      → HasLiveZ s.players taken
  unfolding select_reference_z
  taken-HasLiveZ s z taken live e =
      let team =
        reference_team floats (find_player floats s.players s.local_player_id) s.local_team in
      ground (
        arith,
        find_player-HasLiveZ s.local_player_id s.players taken,
        find_player-HasLiveZ s.observed_player_id s.players taken,
        first_z-HasLiveZ (lives_in floats team) s.players taken (lives_in-alive team),
        first_z-HasLiveZ (is_alive floats) s.players taken (λ p a. a),
      )

  first_z-live :
      (ps : List (PlayerSnapshot floats)) (z : Float)
      → first_z floats (is_alive floats) ps ≡ none
      → HasLiveZ ps z
      → ⊥
  unfolding first_z z_if
  first_z-live [] z e h = h
  first_z-live (p ∷ ps) z e h = ground (arith, first_z-live ps z)

  -- If some living player has a valid height, a height is taken, and it is one of a living player: the
  -- floor on which a dead player lies is never preferred.
  pub select_reference_z-HasLiveZ :
      (s : GameSnapshot floats) (z : Float)
      → HasLiveZ s.players z
      → (taken : Float) × (select_reference_z floats s ≡ some taken) × HasLiveZ s.players taken
  select_reference_z-HasLiveZ s z live =
      elim (Option-cases (first_z floats (is_alive floats) s.players)) [
        | inl nobody ↦ absurd (first_z-live s.players z nobody live)
        | inr (first, lives) ↦ elim (Option-cases (select_reference_z floats s)) [
          | inl nothing ↦ absurd (
              select_reference_z-ne-none s first
                (first_z-HasZ (is_alive floats) s.players first lives) nothing)
          | inr (taken, same) ↦ (taken, same, taken-HasLiveZ s first taken lives same)
        ]
      ]
