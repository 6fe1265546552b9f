-- ===== src/PlayerSample/Position.antt =====
-- radar_player_sample.hpp: the choice between two readings, and the validity of what is kept.
use hardware_assisted_game_s.Base.{
  ◌≡◌, Bool, true, not, ◌&&◌, ◌||◌, Option, none, some, if◌then◌else◌, arith,
}
use hardware_assisted_game_s.PlayerSample.{
  Floats, WorldPosition, PositionRead, is_valid_position, is_usable_yaw, is_zero_position,
  choose_position, PlayerLastKnownState, Observation, checked_position, checked_yaw, rebind, freeze,
  refresh, retain_player_sample,
}

module _ (floats : Floats) where
  -- A reading that may be used.
  abbrev good : PositionRead floats → Bool
  good r = r.succeeded && is_valid_position floats r.value

  abbrev zero_at : PositionRead floats → Bool
  zero_at r = is_zero_position floats r.value

  -- The choice in one equation: the scene node's origin if it may be used and either is not zero or
  -- the old origin is no better; else the old origin, if that may be used.
  choose_position_lem :
      (a b : PositionRead floats)
      → choose_position floats a b ≡ (
          if good a && (not (zero_at a) || not (good b) || zero_at b)
          then some a.value
          else if good b
          then some b.value
          else none)
  unfolding choose_position
  choose_position_lem a b = ground arith

  abbrev pub Holds {ℓ} : {A : Type ℓ} → (A → Bool) → Option A → Type 0
  Holds test none = Unit
  Holds test (some a) = test a ≡ true

  -- Only valid positions and usable directions are kept.
  pub record IsSound (s : PlayerLastKnownState floats) : Type 0 where
    pub position_valid : Holds (is_valid_position floats) s.position
    pub yaw_usable : Holds (is_usable_yaw floats) s.yaw

  checked_position-Holds :
      (p : Option (WorldPosition floats))
      → Holds (is_valid_position floats) (checked_position floats p)
  unfolding checked_position
  checked_position-Holds none = tt
  checked_position-Holds (some p) = ground arith

  checked_yaw-Holds :
      (y : Option floats.Float) → Holds (is_usable_yaw floats) (checked_yaw floats y)
  unfolding checked_yaw
  checked_yaw-Holds none = tt
  checked_yaw-Holds (some y) = ground arith

  rebind-IsSound :
      (s : PlayerLastKnownState floats) (o : Observation floats)
      → IsSound s
      → IsSound (rebind floats s o)
  unfolding rebind
  rebind-IsSound s o v = ground arith

  pub retain-IsSound :
      (s : PlayerLastKnownState floats) (o : Observation floats)
      → IsSound s
      → IsSound (retain_player_sample floats s o).0
        × Holds (is_valid_position floats) (retain_player_sample floats s o).1.position
        × Holds (is_usable_yaw floats) (retain_player_sample floats s o).1.yaw
  unfolding retain_player_sample freeze refresh
  retain-IsSound s o v = ground (
    arith,
    rebind-IsSound s o v,
    checked_position-Holds o.current_position,
    checked_yaw-Holds o.current_yaw,
  )
