-- ===== src/PlayerSample/History.antt =====
-- radar_player_sample.hpp: the state and the samples over a history of calls, newest first.
use hardware_assisted_game_s.Base.{ℕ, ◌≡◌, ◌⊎◌, inl, inr, sym, true, some, List, [], ◌∷◌, arith}
use hardware_assisted_game_s.PlayerSample.{
  Floats, WorldPosition, is_valid_position, PlayerLastKnownState, RetainedPlayerSample, no_state,
  Observation, checked_position, rebind, freeze, refresh, retain_player_sample,
}
use hardware_assisted_game_s.PlayerSample.Position.{IsSound, retain-IsSound}

module _ (floats : Floats) where
  -- The state after the calls, from the one that a `PlayerLastKnownState` begins with.
  unfoldable pub run : List (Observation floats) → PlayerLastKnownState floats
  run [] = no_state floats
  run (o ∷ os) = (retain_player_sample floats (run os) o).0

  -- What the last of the calls shows.
  unfoldable pub shown_after :
      Observation floats → List (Observation floats) → RetainedPlayerSample floats
  shown_after o os = (retain_player_sample floats (run os) o).1

  run-IsSound : (os : List (Observation floats)) → IsSound floats (run os)
  unfolding run
  run-IsSound [] = record { position_valid = tt; yaw_usable = tt }
  run-IsSound (o ∷ os) = (retain-IsSound floats (run os) o (run-IsSound os)).0

  -- Some call of the history read this valid position at this time.
  abbrev pub Seen : List (Observation floats) → WorldPosition floats → ℕ → Type 0
  Seen [] p t = ⊥
  Seen (o ∷ os) p t =
      ((checked_position floats o.current_position ≡ some p) × (o.now_ms ≡ t)) ⊎ Seen os p t

  retain_position :
      (s : PlayerLastKnownState floats) (o : Observation floats) (p : WorldPosition floats)
      → (retain_player_sample floats s o).0.position ≡ some p
      → ((checked_position floats o.current_position ≡ some p)
          × ((retain_player_sample floats s o).0.position_sampled_at_ms ≡ o.now_ms))
        ⊎ ((s.position ≡ some p)
            × ((retain_player_sample floats s o).0.position_sampled_at_ms
                ≡ s.position_sampled_at_ms))
  unfolding retain_player_sample freeze refresh rebind
  retain_position s o p e = ground arith

  retain_shown :
      (s : PlayerLastKnownState floats) (o : Observation floats) (p : WorldPosition floats)
      → (retain_player_sample floats s o).1.position ≡ some p
      → (retain_player_sample floats s o).0.position ≡ some p
  unfolding retain_player_sample freeze refresh
  retain_shown s o p e = ground arith

  run-Seen :
      (os : List (Observation floats)) (p : WorldPosition floats)
      → (run os).position ≡ some p
      → Seen os p (run os).position_sampled_at_ms
  unfolding run
  run-Seen [] p e = cc
  run-Seen (o ∷ os) p e = elim (retain_position (run os) o p e) [
    | inl (now, t) ↦ inl (now, sym t)
    | inr (before, t) ↦ inr (rw t (run-Seen os p before))
  ]

  -- Whatever the history of calls, a position that is shown is a valid one, and one of the calls has
  -- read it, at the time that the state has noted for it.
  pub shown_after-Seen :
      (o : Observation floats) (os : List (Observation floats)) (p : WorldPosition floats)
      → (shown_after o os).position ≡ some p
      → (is_valid_position floats p ≡ true) × Seen (o ∷ os) p (run (o ∷ os)).position_sampled_at_ms
  unfolding shown_after
  shown_after-Seen o os p e = (
    rw e at ((retain-IsSound floats (run os) o (run-IsSound os)).1),
    run-Seen (o ∷ os) p (unfold run in retain_shown (run os) o p e),
  )
