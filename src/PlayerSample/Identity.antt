-- ===== src/PlayerSample/Identity.antt =====
-- radar_player_sample.hpp: whose state it is.
use hardware_assisted_game_s.Base.{◌≡◌, true, false, not, ◌&&◌, if◌then◌else◌, arith}
use hardware_assisted_game_s.PlayerSample.{
  Floats, PlayerSampleIdentity, has_same_stable_identity, has_conflicting_steam_identity,
  is_compatible, PlayerLastKnownState, Observation, identity_changed, starts_anew, rebind, freeze,
  refresh, retain_player_sample,
}

is_compatible_self : (i : PlayerSampleIdentity) → is_compatible i i ≡ true
unfolding is_compatible has_same_stable_identity has_conflicting_steam_identity
is_compatible_self i = ground arith

module _ (floats : Floats) (s : PlayerLastKnownState floats) (o : Observation floats) where
  -- After the state is bound to the observed player the two identities agree, so the test of the
  -- identity in `canReuseLastKnown` holds whenever the sample is refreshed.
  pub rebind_compatible : is_compatible o.identity (rebind floats s o).identity ≡ true
  unfolding rebind starts_anew identity_changed is_compatible has_same_stable_identity
      has_conflicting_steam_identity
  rebind_compatible = ground arith

  -- With a known Steam identity the state keeps it, unless a new generation begins, which takes the
  -- observed one; an observation with another known Steam identity always begins a generation.
  rebind_steam :
      s.identity_known ≡ true
      → s.identity.steam_id_known ≡ true
      → ((rebind floats s o).identity.steam_id
          ≡ (if starts_anew floats s o then o.identity.steam_id else s.identity.steam_id))
        × ((rebind floats s o).identity.steam_id_known
            ≡ (if starts_anew floats s o then o.identity.steam_id_known else true))
        × ((has_conflicting_steam_identity o.identity s.identity && not (starts_anew floats s o))
            ≡ false)
  unfolding rebind starts_anew identity_changed is_compatible has_same_stable_identity
      has_conflicting_steam_identity
  rebind_steam known steam = (ground arith, ground arith, ground arith)

  -- A player who is alive again under the same identity loses the Steam identity that the state knew,
  -- if the reading of the Steam identity failed.
  pub revival_forgets_steam :
      s.state_known ≡ true
      → s.was_alive ≡ false
      → o.alive ≡ true
      → o.identity.steam_id_known ≡ false
      → (retain_player_sample floats s o).0.identity.steam_id_known ≡ false
  unfolding retain_player_sample rebind starts_anew freeze refresh
  revival_forgets_steam known dead alive unread = ground arith
