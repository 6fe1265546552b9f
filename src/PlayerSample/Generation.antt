-- ===== src/PlayerSample/Generation.antt =====
-- radar_player_sample.hpp: how long a position is shown, and when it stays or goes.
use hardware_assisted_game_s.Base.{◌≡◌, ◌≢◌, ◌⊎◌, refl, true, false, not, ◌||◌, arith}
use hardware_assisted_game_s.PlayerSample.{
  Floats, PlayerLastKnownState, RetainedPlayerSample, Observation, checked_position, checked_yaw,
  no_state, identity_changed, is_compatible, has_same_stable_identity,
  has_conflicting_steam_identity, starts_anew, rebind, or_else, freeze, refresh,
  retain_player_sample,
}

module _ (floats : Floats) (s : PlayerLastKnownState floats) (o : Observation floats) where
  abbrev after : PlayerLastKnownState floats
  after = (retain_player_sample floats s o).0

  abbrev shown : RetainedPlayerSample floats
  shown = (retain_player_sample floats s o).1

  -- Another player, or the player alive again: nothing is known, or one of the five stable parts of the
  -- identity differs, or both Steam identities are known and differ, or a player seen dead is alive.
  abbrev pub IsNewGeneration : Type 0
  IsNewGeneration =
      (s.identity_known ≡ false)
      ⊎ (o.identity.player_id ≢ s.identity.player_id)
      ⊎ (o.identity.controller_address ≢ s.identity.controller_address)
      ⊎ (o.identity.pawn_address ≢ s.identity.pawn_address)
      ⊎ (o.identity.pawn_handle ≢ s.identity.pawn_handle)
      ⊎ (o.identity.team ≢ s.identity.team)
      ⊎ ((o.identity.steam_id_known ≡ true)
          × (s.identity.steam_id_known ≡ true)
          × (o.identity.steam_id ≢ s.identity.steam_id))
      ⊎ ((s.state_known ≡ true) × (s.was_alive ≡ false) × (o.alive ≡ true))

  empty_starts_anew : starts_anew floats (no_state floats) o ≡ true
  unfolding starts_anew identity_changed
  empty_starts_anew = refl

  same_as_empty :
      starts_anew floats s o ≡ true
      → retain_player_sample floats s o ≡ retain_player_sample floats (no_state floats) o
  unfolding retain_player_sample rebind
  same_as_empty anew = rw (anew, empty_starts_anew, rebind) refl

  IsNewGeneration-starts_anew : IsNewGeneration → starts_anew floats s o ≡ true
  unfolding starts_anew identity_changed is_compatible has_same_stable_identity
      has_conflicting_steam_identity
  IsNewGeneration-starts_anew new = ground arith

  -- At another player, by one of the parts of the identity or by the known Steam identities, and at a
  -- player who is alive again, nothing of the earlier state is kept or shown: the call does what it
  -- does on an empty state, and what is kept and shown is what is read now.
  pub retain_starts_anew :
      IsNewGeneration
      → (retain_player_sample floats s o ≡ retain_player_sample floats (no_state floats) o)
        × (shown.position ≡ checked_position floats o.current_position)
        × (after.position ≡ checked_position floats o.current_position)
        × (shown.yaw ≡ checked_yaw floats o.current_yaw)
        × (after.yaw ≡ checked_yaw floats o.current_yaw)
        × (after.identity ≡ o.identity)
  unfolding retain_player_sample freeze refresh rebind
  retain_starts_anew new =
      let anew = IsNewGeneration-starts_anew new in
      (same_as_empty anew, ground arith, ground arith, ground arith, ground arith, ground arith)

  -- A dormant or dead player of the same generation stays at the position that is known, whatever
  -- is read now; a position that is not known is taken once.
  retain_frozen :
      starts_anew floats s o ≡ false
      → (o.dormant || not o.alive) ≡ true
      → (shown.position ≡ or_else s.position (checked_position floats o.current_position))
        × (after.position ≡ shown.position)
        × (shown.yaw ≡ or_else s.yaw (checked_yaw floats o.current_yaw))
        × (after.yaw ≡ shown.yaw)
  unfolding retain_player_sample freeze rebind
  retain_frozen same frozen = (ground arith, ground arith, ground arith, ground arith)
