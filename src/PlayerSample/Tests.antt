-- ===== src/PlayerSample/Tests.antt =====
-- The player sample over whole numbers as coordinates, all of which are finite.
use hardware_assisted_game_s.Base.{
  ℕ, ◌≡◌, refl, inl, inr, arith, true, false, none, some, [], ◌∷◌, leb,
}
use hardware_assisted_game_s.PlayerSample.{
  Floats, PlayerSampleIdentity, no_identity, has_conflicting_steam_identity, is_compatible,
  has_same_stable_identity, WorldPosition, is_valid_position, PlayerLastKnownState, no_state,
  Observation, checked_position, checked_yaw, identity_changed, starts_anew, rebind, refresh,
  retain_player_sample, can_reuse_last_known,
}
use hardware_assisted_game_s.PlayerSample.Identity.{revival_forgets_steam}
use hardware_assisted_game_s.PlayerSample.Generation.{retain_starts_anew}
use hardware_assisted_game_s.PlayerSample.History.{run, shown_after, Seen, shown_after-Seen}

abbrev whole : Floats
whole = record {
  Float = ℕ;
  is_finite = λ x. true;
  abs = λ x. x;
  less_eq = leb;
  world_coordinate_limit = 10000000;
  zero_position_epsilon = 0;
  maximum_absolute_yaw_degrees = 1000000;
}

abbrev place : ℕ → WorldPosition whole
place n = record { x = n; y = 1; z = 2 }

abbrev player : PlayerSampleIdentity
player = record no_identity { player_id = 7; steam_id = 99; steam_id_known = true }

abbrev seen_at : ℕ → Observation whole
seen_at n = record {
  identity = player;
  now_ms = 1000;
  alive = true;
  dormant = false;
  current_position = some (place n);
  current_yaw = none;
}

abbrev missed : Observation whole
missed = record (seen_at 0) { now_ms = 1100; current_position = none }

abbrev died : Observation whole
died = record (seen_at 8) { now_ms = 1200; alive = false }

abbrev nameless : PlayerSampleIdentity
nameless = record player { steam_id_known = false }

abbrev revived : Observation whole
revived = record (seen_at 9) { now_ms = 1300; identity = nameless }

-- A missing reading shows the place of 100 ms before.
bridged : (shown_after whole missed (seen_at 5 ∷ [])).position ≡ some (place 5)
unfolding shown_after run retain_player_sample refresh rebind starts_anew identity_changed
    can_reuse_last_known is_compatible has_same_stable_identity has_conflicting_steam_identity
    checked_position is_valid_position checked_yaw
bridged = refl

abbrev one_call : PlayerLastKnownState whole
one_call = record (no_state whole) {
  identity = player;
  identity_known = true;
  state_known = true;
  was_alive = true;
  position = some (place 5);
  position_sampled_at_ms = 1000;
}

abbrev dead : PlayerLastKnownState whole
dead = record one_call { was_alive = false }

revival_forgets_steam_example :
    (retain_player_sample whole dead revived).0.identity.steam_id_known ≡ false
revival_forgets_steam_example = revival_forgets_steam whole dead revived refl refl refl refl

abbrev taken_over : Observation whole
taken_over = record (seen_at 9) { now_ms = 1300; identity = record player { steam_id = 98 } }

-- Another known Steam identity under the same pawn: nothing of the player at place 5 is left.
retain_starts_anew_example :
    (retain_player_sample whole one_call taken_over
      ≡ retain_player_sample whole (no_state whole) taken_over)
    × ((retain_player_sample whole one_call taken_over).1.position
        ≡ checked_position whole (some (place 9)))
    × ((retain_player_sample whole one_call taken_over).0.position
        ≡ checked_position whole (some (place 9)))
    × ((retain_player_sample whole one_call taken_over).1.yaw ≡ checked_yaw whole none)
    × ((retain_player_sample whole one_call taken_over).0.yaw ≡ checked_yaw whole none)
    × ((retain_player_sample whole one_call taken_over).0.identity ≡ taken_over.identity)
retain_starts_anew_example =
    retain_starts_anew whole one_call taken_over
      (inr (inr (inr (inr (inr (inr (inl (refl, refl, omega arith))))))))

shown_after-Seen_example :
    (is_valid_position whole (place 5) ≡ true)
    × Seen whole
        (missed ∷ seen_at 5 ∷ [])
        (place 5)
        (run whole (missed ∷ seen_at 5 ∷ [])).position_sampled_at_ms
shown_after-Seen_example = shown_after-Seen whole missed (seen_at 5 ∷ []) (place 5) bridged
