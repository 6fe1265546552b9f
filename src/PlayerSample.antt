-- ===== src/PlayerSample.antt =====
-- core/game/radar_player_sample.hpp, and `WorldPosition` of core/game/game_snapshot.hpp, both under
-- projects/cs2-stage3-esp-radar/external-cheat-base/src: which position and direction of view are
-- shown for a player, from readings that can be torn, late or missing. Floating-point numbers are a
-- parameter; times in milliseconds are numbers, as 64 bits do not run out.
pub mod History
pub mod Identity
pub mod Position
pub mod Generation
mod Tests
use hardware_assisted_game_s.Base.{
  ℕ, ◌-◌, Bool, true, false, not, ◌&&◌, ◌||◌, Option, none, some, List, [], ◌∷◌, ltb, leb, ◌==◌,
  if◌then◌else◌,
}

-- What the code uses of `float`: `std::isfinite`, `std::abs` and the comparisons, with the three
-- limits of the header.
pub record Floats : Type 1 where
  pub Float : Type 0
  pub is_finite : Float → Bool
  pub abs : Float → Float
  pub less_eq : Float → Float → Bool
  pub world_coordinate_limit : Float
  pub zero_position_epsilon : Float
  pub maximum_absolute_yaw_degrees : Float

abbrev pub last_known_maximum_age_ms : ℕ
last_known_maximum_age_ms = 150

pub record PlayerSampleIdentity : Type 0 where
  pub player_id : ℕ
  pub controller_address : ℕ
  pub pawn_address : ℕ
  pub pawn_handle : ℕ
  pub team : ℕ
  pub steam_id : ℕ
  pub steam_id_known : Bool

abbrev pub no_identity : PlayerSampleIdentity
no_identity = record {
  player_id = 0;
  controller_address = 0;
  pawn_address = 0;
  pawn_handle = 0;
  team = 0;
  steam_id = 0;
  steam_id_known = false;
}

unfoldable pub has_same_stable_identity : PlayerSampleIdentity → PlayerSampleIdentity → Bool
has_same_stable_identity left right =
    left.player_id == right.player_id
    && left.controller_address == right.controller_address
    && left.pawn_address == right.pawn_address
    && left.pawn_handle == right.pawn_handle
    && left.team == right.team

unfoldable pub has_conflicting_steam_identity : PlayerSampleIdentity → PlayerSampleIdentity → Bool
has_conflicting_steam_identity left right =
    left.steam_id_known && right.steam_id_known && not (left.steam_id == right.steam_id)

unfoldable pub is_compatible : PlayerSampleIdentity → PlayerSampleIdentity → Bool
is_compatible current cached =
    has_same_stable_identity current cached && not (has_conflicting_steam_identity current cached)

unfoldable pub can_reuse_last_known : PlayerSampleIdentity → PlayerSampleIdentity → ℕ → ℕ → ℕ → Bool
can_reuse_last_known current cached now_ms sampled_at_ms maximum_age_ms =
    is_compatible current cached
    && leb sampled_at_ms now_ms
    && leb (now_ms - sampled_at_ms) maximum_age_ms

abbrev pub or_else {ℓ} : {A : Type ℓ} → Option A → Option A → Option A
or_else none b = b
or_else (some a) b = some a

abbrev pub is_some {ℓ} : {A : Type ℓ} → Option A → Bool
is_some none = false
is_some (some a) = true

-- Alive and seen: the new reading, or for a short time the last one.
abbrev pub bridge {ℓ} : {A : Type ℓ} → Bool → Option A → Option A → Option A
bridge reusable last none = if reusable then last else none
bridge reusable last (some a) = some a

module _ (floats : Floats) where
  open floats use {
    Float, is_finite, abs, less_eq, world_coordinate_limit, zero_position_epsilon,
    maximum_absolute_yaw_degrees,
  }

  pub record WorldPosition : Type 0 where
    pub x : Float
    pub y : Float
    pub z : Float

  pub record PositionRead : Type 0 where
    pub succeeded : Bool
    pub value : WorldPosition

  -- `std::abs(c) >= kWorldCoordinateLimit`, the negation of the test that lets it pass.
  abbrev pub out_of_world : Float → Bool
  out_of_world c = less_eq world_coordinate_limit (abs c)

  unfoldable pub is_valid_position : WorldPosition → Bool
  is_valid_position p = not (
      not (is_finite p.x)
      || not (is_finite p.y)
      || not (is_finite p.z)
      || out_of_world p.x
      || out_of_world p.y
      || out_of_world p.z)

  unfoldable pub is_usable_yaw : Float → Bool
  is_usable_yaw yaw = is_finite yaw && less_eq (abs yaw) maximum_absolute_yaw_degrees

  unfoldable pub is_zero_position : WorldPosition → Bool
  is_zero_position p =
      less_eq (abs p.x) zero_position_epsilon
      && less_eq (abs p.y) zero_position_epsilon
      && less_eq (abs p.z) zero_position_epsilon

  unfoldable pub choose_position : PositionRead → PositionRead → Option WorldPosition
  choose_position absolute_origin old_origin =
      let absolute_valid = absolute_origin.succeeded && is_valid_position absolute_origin.value in
      let old_valid = old_origin.succeeded && is_valid_position old_origin.value in
      if absolute_valid && not (is_zero_position absolute_origin.value)
      then some absolute_origin.value
      else if old_valid && not (is_zero_position old_origin.value)
      then some old_origin.value
      else if absolute_valid
      then some absolute_origin.value
      else if old_valid
      then some old_origin.value
      else none

  pub record PlayerLastKnownState : Type 0 where
    pub identity : PlayerSampleIdentity
    pub identity_known : Bool
    pub state_known : Bool
    pub was_alive : Bool
    pub was_dormant : Bool
    pub position : Option WorldPosition
    pub position_sampled_at_ms : ℕ
    pub yaw : Option Float
    pub yaw_sampled_at_ms : ℕ
    pub last_observed_at_ms : ℕ

  pub record RetainedPlayerSample : Type 0 where
    pub position : Option WorldPosition
    pub yaw : Option Float

  abbrev pub no_state : PlayerLastKnownState
  no_state = record {
    identity = no_identity;
    identity_known = false;
    state_known = false;
    was_alive = false;
    was_dormant = false;
    position = none;
    position_sampled_at_ms = 0;
    yaw = none;
    yaw_sampled_at_ms = 0;
    last_observed_at_ms = 0;
  }

  -- The arguments of one call.
  pub record Observation : Type 0 where
    pub identity : PlayerSampleIdentity
    pub now_ms : ℕ
    pub alive : Bool
    pub dormant : Bool
    pub current_position : Option WorldPosition
    pub current_yaw : Option Float

  -- A reading that is no valid position, or no usable direction, counts as missing.
  unfoldable pub checked_position : Option WorldPosition → Option WorldPosition
  checked_position none = none
  checked_position (some p) = if is_valid_position p then some p else none

  unfoldable pub checked_yaw : Option Float → Option Float
  checked_yaw none = none
  checked_yaw (some yaw) = if is_usable_yaw yaw then some yaw else none

  unfoldable pub identity_changed : PlayerLastKnownState → Observation → Bool
  identity_changed s o = not s.identity_known || not (is_compatible o.identity s.identity)

  -- A new generation of the state: another player, or a player who is alive again.
  unfoldable pub starts_anew : PlayerLastKnownState → Observation → Bool
  starts_anew s o =
      identity_changed s o
      || (not (identity_changed s o) && s.state_known && not s.was_alive && o.alive)

  -- The state once it stands for the observed player.
  unfoldable pub rebind : PlayerLastKnownState → Observation → PlayerLastKnownState
  rebind s o =
      if starts_anew s o
      then record no_state { identity = o.identity; identity_known = true }
      else if o.identity.steam_id_known
      then record s {
        identity = record (s.identity) { steam_id = o.identity.steam_id; steam_id_known = true };
      }
      else s

  -- Dormant or dead: what is known stays, and what is not known is taken once.
  unfoldable pub freeze :
      PlayerLastKnownState → Observation → PlayerLastKnownState × RetainedPlayerSample
  freeze s o =
      let p = checked_position o.current_position in
      let y = checked_yaw o.current_yaw in
      let s' = record s {
        position = or_else s.position p;
        position_sampled_at_ms =
            if not (is_some s.position) && is_some p then o.now_ms else s.position_sampled_at_ms;
        yaw = or_else s.yaw y;
        yaw_sampled_at_ms =
            if not (is_some s.yaw) && is_some y then o.now_ms else s.yaw_sampled_at_ms;
      } in
      (s', record { position = s'.position; yaw = s'.yaw })

  unfoldable pub refresh :
      PlayerLastKnownState → Observation → PlayerLastKnownState × RetainedPlayerSample
  refresh s o =
      let p = checked_position o.current_position in
      let y = checked_yaw o.current_yaw in
      let reusable = λ (at : ℕ).
        can_reuse_last_known o.identity s.identity o.now_ms at last_known_maximum_age_ms in
      (
        record s {
          position = or_else p s.position;
          position_sampled_at_ms = if is_some p then o.now_ms else s.position_sampled_at_ms;
          yaw = or_else y s.yaw;
          yaw_sampled_at_ms = if is_some y then o.now_ms else s.yaw_sampled_at_ms;
        },
        record {
          position = bridge (reusable s.position_sampled_at_ms) s.position p;
          yaw = bridge (reusable s.yaw_sampled_at_ms) s.yaw y;
        },
      )

  -- `retainPlayerSample`: the new state and the sample to show.
  unfoldable pub retain_player_sample :
      PlayerLastKnownState → Observation → PlayerLastKnownState × RetainedPlayerSample
  retain_player_sample s o =
      let bound = record (rebind s o) { last_observed_at_ms = o.now_ms } in
      let (s', sample) = if o.dormant || not o.alive then freeze bound o else refresh bound o in
      (record s' { state_known = true; was_alive = o.alive; was_dormant = o.dormant }, sample)
