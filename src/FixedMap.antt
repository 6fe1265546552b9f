-- ===== src/FixedMap.antt =====
-- core/game/fixed_map_radar.hpp, with what it reads of core/game/game_snapshot.hpp, both under
-- projects/cs2-stage3-esp-radar/external-cheat-base/src: which player's height chooses the floor of
-- a map, and which floor a height is on. Floating-point numbers are a parameter, as in PlayerSample.
pub mod Reference
pub mod Level
mod Tests
use hardware_assisted_game_s.Base.{
  ℕ, ◌+◌, ◌-◌, Bool, true, false, not, ◌&&◌, ◌||◌, Option, none, some, List, [], ◌∷◌, length,
  is_empty, leb, ◌==◌, if◌then◌else◌,
}
use hardware_assisted_game_s.PlayerSample.{Floats, WorldPosition, or_else}

pub data Team : Type 0 where
  unknown spectator terrorists counter_terrorists : Team

unfoldable pub same_team : Team → Team → Bool
same_team unknown unknown = true
same_team spectator spectator = true
same_team terrorists terrorists = true
same_team counter_terrorists counter_terrorists = true
same_team _ _ = false

-- A team that plays, in the two tests of `selectReferenceZ`.
unfoldable pub is_playing : Team → Bool
is_playing terrorists = true
is_playing counter_terrorists = true
is_playing _ = false

-- What the choice of a floor uses of `float` beyond `Floats`.
pub record FloatOrder (floats : Floats) : Type 1 where
  pub less : floats.Float → floats.Float → Bool
  pub minus : floats.Float → floats.Float → floats.Float
  pub plus : floats.Float → floats.Float → floats.Float
  pub infinity : floats.Float
  pub zero_float : floats.Float

module _ (floats : Floats) where
  open floats use {Float, is_finite, less_eq}

  -- The fields that are read here.
  pub record PlayerSnapshot : Type 0 where
    pub id : ℕ
    pub team : Team
    pub alive : Bool
    pub position : Option (WorldPosition floats)

  pub record GameSnapshot : Type 0 where
    pub local_player_id : Option ℕ
    pub observed_player_id : Option ℕ
    pub local_team : Team
    pub players : List PlayerSnapshot

  unfoldable pub is_finite_position : WorldPosition floats → Bool
  is_finite_position p = is_finite p.x && is_finite p.y && is_finite p.z

  unfoldable pub valid_z : PlayerSnapshot → Option Float
  valid_z p = elim p.position [
    | none ↦ none
    | some q ↦ if is_finite_position q then some q.z else none
  ]

  -- `find_if` by the identity.
  unfoldable pub player_with : ℕ → List PlayerSnapshot → Option PlayerSnapshot
  player_with id [] = none
  player_with id (p ∷ ps) = let later = player_with id ps in if p.id == id then some p else later

  unfoldable pub find_player : List PlayerSnapshot → Option ℕ → Option PlayerSnapshot
  find_player ps none = none
  find_player ps (some id) = player_with id ps

  -- The height of a player who is there and passes the test.
  unfoldable pub z_if : (PlayerSnapshot → Bool) → Option PlayerSnapshot → Option Float
  z_if test none = none
  z_if test (some p) = if test p then valid_z p else none

  -- A loop over the players: the first valid height of one who passes the test.
  unfoldable pub first_z : (PlayerSnapshot → Bool) → List PlayerSnapshot → Option Float
  first_z test [] = none
  first_z test (p ∷ ps) = or_else (z_if test (some p)) (first_z test ps)

  unfoldable pub reference_team : Option PlayerSnapshot → Team → Team
  reference_team none local_team = local_team
  reference_team (some p) local_team = if is_playing p.team then p.team else local_team

  abbrev pub is_alive : PlayerSnapshot → Bool
  is_alive p = p.alive

  abbrev pub anyone : PlayerSnapshot → Bool
  anyone p = true

  abbrev pub lives_in : Team → PlayerSnapshot → Bool
  lives_in team p = p.alive && same_team p.team team

  -- `selectReferenceZ`: its early returns, one after the other.
  unfoldable pub select_reference_z : GameSnapshot → Option Float
  select_reference_z s =
      let local_player = find_player s.players s.local_player_id in
      let observed_player = find_player s.players s.observed_player_id in
      let team = reference_team local_player s.local_team in
      or_else (z_if is_alive local_player) (
        or_else (z_if is_alive observed_player) (
          or_else (if is_playing team then first_z (lives_in team) s.players else none) (
            or_else (first_z is_alive s.players)
              (or_else (z_if anyone local_player) (first_z anyone s.players)))))

  pub record MapLevel : Type 0 where
    pub minimum_z : Float
    pub maximum_z : Float

  module _ (order : FloatOrder floats) where
    open order use {less, minus, plus, infinity, zero_float}

    unfoldable pub is_valid_level : MapLevel → Bool
    is_valid_level l =
        is_finite l.minimum_z && is_finite l.maximum_z && less l.minimum_z l.maximum_z

    unfoldable pub is_inside : Float → MapLevel → Bool
    is_inside z l = less_eq l.minimum_z z && less z l.maximum_z

    unfoldable pub level_distance : Float → MapLevel → Float
    level_distance z l = if less z l.minimum_z then minus l.minimum_z z else minus z l.maximum_z

    -- The loop of `selectLevel` from an index on, with the nearest level so far and its distance.
    unfoldable pub select_from : Float → ℕ → List MapLevel → Option ℕ → Float → Option ℕ
    select_from z index [] nearest distance = nearest
    select_from z index (l ∷ ls) nearest distance =
        let further = select_from z (index + 1) ls nearest distance in
        let nearer = select_from z (index + 1) ls (some index) (level_distance z l) in
        if not (is_valid_level l)
        then further
        else if is_inside z l
        then some index
        else if less (level_distance z l) distance
        then nearer
        else further

    unfoldable pub select_level : List MapLevel → Float → Option ℕ
    select_level levels z =
        if not (is_finite z) || is_empty levels then none else select_from z 0 levels none infinity

    unfoldable pub level_at : List MapLevel → ℕ → Option MapLevel
    level_at [] i = none
    level_at (l ∷ ls) i = let later = level_at ls (i - 1) in if i == 0 then some l else later

    -- The previous level, while the height is no further from it than the hysteresis.
    unfoldable pub keeps_level : Float → Float → MapLevel → Bool
    keeps_level z hysteresis l =
        is_valid_level l
        && less_eq (minus l.minimum_z hysteresis) z
        && less z (plus l.maximum_z hysteresis)

    unfoldable pub select_with_hysteresis : List MapLevel → Float → Option ℕ → Float → Option ℕ
    select_with_hysteresis levels z previous_level hysteresis = elim (select_level levels z) [
      | none ↦ none
      | some selected ↦ elim previous_level [
        | none ↦ some selected
        | some previous ↦ elim (level_at levels previous) [
          | none ↦ some selected
          | some level ↦
              if selected == previous || not (is_finite hysteresis) || less_eq hysteresis zero_float
              then some selected
              else if keeps_level z hysteresis level
              then some previous
              else some selected
        ]
      ]
    ]
