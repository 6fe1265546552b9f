-- ===== src/FixedMap/Tests.antt =====
-- Whole numbers as floats, a map with two floors and three players, and the theorems at them.
use hardware_assisted_game_s.Base.{
  ℕ, ◌+◌, ◌-◌, ◌≡◌, ◌⊎◌, inl, inr, refl, Bool, true, false, Option, none, some, List, [], ◌∷◌, leb,
  ltb,
}
use hardware_assisted_game_s.PlayerSample.{Floats}
use hardware_assisted_game_s.FixedMap.{
  Team, terrorists, counter_terrorists, same_team, is_playing, FloatOrder, PlayerSnapshot,
  GameSnapshot, is_finite_position, valid_z, player_with, find_player, z_if, first_z,
  reference_team, select_reference_z, MapLevel, is_valid_level, is_inside, level_distance,
  select_from, select_level, level_at, keeps_level, select_with_hysteresis,
}
use hardware_assisted_game_s.FixedMap.Reference.{HasLiveZ, select_reference_z-HasLiveZ}
use hardware_assisted_game_s.FixedMap.Level.{
  InBand, IsValidAt, first_inside, select_level-first_inside, select_with_hysteresis-IsValidAt,
}

abbrev whole : Floats
whole = record {
  Float = ℕ;
  is_finite = λ n. true;
  abs = λ n. n;
  less_eq = leb;
  world_coordinate_limit = 10000000;
  zero_position_epsilon = 0;
  maximum_absolute_yaw_degrees = 1000000;
}

abbrev numbers : FloatOrder whole
numbers = record {
  less = ltb;
  minus = λ a b. a - b;
  plus = λ a b. a + b;
  infinity = 1000000000;
  zero_float = 0;
}

abbrev player : ℕ → Team → Bool → ℕ → PlayerSnapshot whole
player id team alive z = record {
  id = id;
  team = team;
  alive = alive;
  position = some (record { x = 1; y = 2; z = z });
}

-- The local player is dead on the lower floor.
abbrev snapshot : GameSnapshot whole
snapshot = record {
  local_player_id = some 1;
  observed_player_id = none;
  local_team = terrorists;
  players =
      player 1 terrorists false 50
      ∷ player 2 counter_terrorists true 300
      ∷ player 3 terrorists true 200
      ∷ [];
}

team_mate : select_reference_z whole snapshot ≡ some 200
unfolding select_reference_z find_player player_with z_if first_z valid_z is_finite_position
    reference_team is_playing same_team
team_mate = refl

third_alive : HasLiveZ whole snapshot.players 200
unfolding valid_z is_finite_position
third_alive = inr (inr (inl (refl, refl)))

select_reference_z-HasLiveZ_example :
    (taken : ℕ) × (select_reference_z whole snapshot ≡ some taken)
    × HasLiveZ whole snapshot.players taken
select_reference_z-HasLiveZ_example = select_reference_z-HasLiveZ whole snapshot 200 third_alive

abbrev floors : List (MapLevel whole)
floors =
    record { minimum_z = 100; maximum_z = 500 } ∷ record { minimum_z = 0; maximum_z = 100 } ∷ []

lower : first_inside whole numbers 60 0 floors ≡ some 1
unfolding first_inside is_valid_level is_inside
lower = refl

select_level-first_inside_example : select_level whole numbers floors 60 ≡ some 1
select_level-first_inside_example = select_level-first_inside whole numbers floors 60 1 refl lower

abbrev upper : Option ℕ
upper = some 0

kept : select_with_hysteresis whole numbers floors 90 upper 24 ≡ some 0
unfolding select_with_hysteresis select_level select_from is_valid_level is_inside level_distance
    level_at keeps_level
kept = refl

select_with_hysteresis-IsValidAt_example :
    ((select_level whole numbers floors 90 ≡ none)
      × (select_with_hysteresis whole numbers floors 90 upper 24 ≡ none))
    ⊎ ((i : ℕ) × (j : ℕ) × (select_level whole numbers floors 90 ≡ some j)
        × InBand whole numbers floors 90 upper 24 i
        × (select_with_hysteresis whole numbers floors 90 upper 24 ≡ some i)
        × IsValidAt whole numbers 0 floors i)
    ⊎ ((j : ℕ) × (select_level whole numbers floors 90 ≡ some j)
        × ((i : ℕ) → InBand whole numbers floors 90 upper 24 i → ⊥)
        × (select_with_hysteresis whole numbers floors 90 upper 24 ≡ some j)
        × IsValidAt whole numbers 0 floors j)
select_with_hysteresis-IsValidAt_example =
    select_with_hysteresis-IsValidAt whole numbers floors 90 upper 24
