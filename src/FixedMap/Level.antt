-- ===== src/FixedMap/Level.antt =====
-- fixed_map_radar.hpp: the floor that `selectLevel` finds, and the one that is kept.
use hardware_assisted_game_s.Base.{
  ℕ, ◌+◌, ◌-◌, ◌≡◌, ◌⊎◌, inl, inr, refl, true, false, not, Bool, ◌&&◌, ap, Option, none, some, List,
  [], ◌∷◌, ◌==◌, if◌then◌else◌, arith, Option-cases, Bool-cases,
}
use hardware_assisted_game_s.PlayerSample.{Floats}
use hardware_assisted_game_s.FixedMap.{
  FloatOrder, MapLevel, is_valid_level, is_inside, level_distance, select_from, select_level,
  level_at, keeps_level, select_with_hysteresis,
}

module _ (floats : Floats) (order : FloatOrder floats) where
  open floats use {Float}

  -- Counted from `k` on, the level `i` is a valid one of the list.
  abbrev pub IsValidAt : ℕ → List (MapLevel floats) → ℕ → Type 0
  IsValidAt k [] i = ⊥
  IsValidAt k (l ∷ ls) i =
      ((k ≡ i) × (is_valid_level floats order l ≡ true)) ⊎ IsValidAt (k + 1) ls i

  -- The first valid level that has the height inside.
  unfoldable pub first_inside : Float → ℕ → List (MapLevel floats) → Option ℕ
  first_inside z k [] = none
  first_inside z k (l ∷ ls) =
      let later = first_inside z (k + 1) ls in
      if is_valid_level floats order l && is_inside floats order z l then some k else later

  select_from-IsValidAt :
      (z : Float) (k : ℕ) (ls : List (MapLevel floats)) (nearest : Option ℕ) (distance : Float)
      (i : ℕ)
      → select_from floats order z k ls nearest distance ≡ some i
      → (nearest ≡ some i) ⊎ IsValidAt k ls i
  unfolding select_from
  select_from-IsValidAt z k [] nearest distance i e = inl e
  select_from-IsValidAt z k (l ∷ ls) nearest distance i e = ground (
    arith,
    select_from-IsValidAt z (k + 1) ls nearest distance i,
    select_from-IsValidAt z (k + 1) ls (some k) (level_distance floats order z l) i,
  )

  select_from-first_inside :
      (z : Float) (k : ℕ) (ls : List (MapLevel floats)) (nearest : Option ℕ) (distance : Float)
      (i : ℕ)
      → first_inside z k ls ≡ some i
      → select_from floats order z k ls nearest distance ≡ some i
  unfolding select_from first_inside
  select_from-first_inside z k [] nearest distance i e = cc
  select_from-first_inside z k (l ∷ ls) nearest distance i e = ground (
    arith,
    select_from-first_inside z (k + 1) ls nearest distance i,
    select_from-first_inside z (k + 1) ls (some k) (level_distance floats order z l) i,
  )

  -- A finite height inside some valid level is on the first such level.
  pub select_level-first_inside :
      (levels : List (MapLevel floats)) (z : Float) (i : ℕ)
      → floats.is_finite z ≡ true
      → first_inside z 0 levels ≡ some i
      → select_level floats order levels z ≡ some i
  unfolding select_level first_inside
  select_level-first_inside [] z i finite e = cc
  select_level-first_inside (l ∷ ls) z i finite e =
      ground (arith, select_from-first_inside z 0 (l ∷ ls) none order.infinity i e)

  select_level-IsValidAt :
      (levels : List (MapLevel floats)) (z : Float) (i : ℕ)
      → select_level floats order levels z ≡ some i
      → IsValidAt 0 levels i
  unfolding select_level
  select_level-IsValidAt levels z i e =
      ground (arith, select_from-IsValidAt z 0 levels none order.infinity i)

  level_at-IsValidAt :
      (k : ℕ) (levels : List (MapLevel floats)) (i j : ℕ) (l : MapLevel floats)
      → j ≡ k + i
      → level_at floats order levels i ≡ some l
      → is_valid_level floats order l ≡ true
      → IsValidAt k levels j
  unfolding level_at
  level_at-IsValidAt k [] i j l place e v = cc
  level_at-IsValidAt k (m ∷ levels) i j l place e v = elim (Bool-cases (i == 0)) [
    | inl first ↦ ground arith
    | inr later ↦
        inr (level_at-IsValidAt (k + 1) levels (i - 1) j l (ground arith) (rw later at e) v)
  ]

  -- The previous level is a valid one, and the height is no further from it than a hysteresis that is
  -- finite and positive.
  abbrev pub InBand : List (MapLevel floats) → Float → Option ℕ → Float → ℕ → Type 0
  InBand levels z previous hysteresis i =
      (previous ≡ some i)
      × (l : MapLevel floats) × (level_at floats order levels i ≡ some l)
      × (is_valid_level floats order l ≡ true)
      × (floats.is_finite hysteresis ≡ true)
      × (floats.less_eq hysteresis order.zero_float ≡ false)
      × (floats.less_eq (order.minus l.minimum_z hysteresis) z ≡ true)
      × (order.less z (order.plus l.maximum_z hysteresis) ≡ true)

  abbrev in_band : Float → Float → MapLevel floats → Bool
  in_band z hysteresis l =
      is_valid_level floats order l
      && floats.is_finite hysteresis
      && not (floats.less_eq hysteresis order.zero_float)
      && floats.less_eq (order.minus l.minimum_z hysteresis) z
      && order.less z (order.plus l.maximum_z hysteresis)

  in_band_facts :
      (z hysteresis : Float) (l : MapLevel floats)
      → in_band z hysteresis l ≡ true
      → (is_valid_level floats order l ≡ true)
        × (floats.is_finite hysteresis ≡ true)
        × (floats.less_eq hysteresis order.zero_float ≡ false)
        × (floats.less_eq (order.minus l.minimum_z hysteresis) z ≡ true)
        × (order.less z (order.plus l.maximum_z hysteresis) ≡ true)
  in_band_facts z hysteresis l e = ground arith

  no_band :
      (levels : List (MapLevel floats)) (z : Float) (previous : ℕ) (hysteresis : Float) (i : ℕ)
      → level_at floats order levels previous ≡ none
      → InBand levels z (some previous) hysteresis i
      → ⊥
  no_band levels z previous hysteresis i outside (same, l, at_i, v, f, h, a, b) =
      let place : previous ≡ i = ground arith in
      ground (arith, ap (level_at floats order levels) place)

  far_band :
      (levels : List (MapLevel floats)) (z : Float) (previous : ℕ) (hysteresis : Float) (i : ℕ)
      (l : MapLevel floats)
      → level_at floats order levels previous ≡ some l
      → in_band z hysteresis l ≡ false
      → InBand levels z (some previous) hysteresis i
      → ⊥
  far_band levels z previous hysteresis i l at_previous far (same, m, at_i, v, f, h, a, b) =
      let place : previous ≡ i = ground arith in
      let level : l ≡ m = ground (arith, ap (level_at floats order levels) place) in
      absurd (ground (arith, rw level at far))

  kept_in_band :
      (levels : List (MapLevel floats)) (z : Float) (previous : ℕ) (hysteresis : Float) (j : ℕ)
      (l : MapLevel floats)
      → select_level floats order levels z ≡ some j
      → level_at floats order levels previous ≡ some l
      → in_band z hysteresis l ≡ true
      → select_with_hysteresis floats order levels z (some previous) hysteresis ≡ some previous
  unfolding select_with_hysteresis keeps_level
  kept_in_band levels z previous hysteresis j l selected at_previous inside = ground arith

  left_band :
      (levels : List (MapLevel floats)) (z : Float) (previous : ℕ) (hysteresis : Float) (j : ℕ)
      (l : MapLevel floats)
      → select_level floats order levels z ≡ some j
      → level_at floats order levels previous ≡ some l
      → in_band z hysteresis l ≡ false
      → select_with_hysteresis floats order levels z (some previous) hysteresis ≡ some j
  unfolding select_with_hysteresis keeps_level
  left_band levels z previous hysteresis j l selected at_previous far = ground arith

  -- Whatever the previous level and the hysteresis are, one of three holds. There is no level for the
  -- height, with hysteresis or without; or there is one without hysteresis, the height is in the band
  -- of the previous level, and this is the one that is kept; or the level is the one without
  -- hysteresis, and no previous level has the height in its band. A level that is told is a valid one.
  pub select_with_hysteresis-IsValidAt :
      (levels : List (MapLevel floats)) (z : Float) (previous : Option ℕ) (hysteresis : Float)
      → ((select_level floats order levels z ≡ none)
          × (select_with_hysteresis floats order levels z previous hysteresis ≡ none))
        ⊎ ((i : ℕ) × (j : ℕ) × (select_level floats order levels z ≡ some j)
            × InBand levels z previous hysteresis i
            × (select_with_hysteresis floats order levels z previous hysteresis ≡ some i)
            × IsValidAt 0 levels i)
        ⊎ ((j : ℕ) × (select_level floats order levels z ≡ some j)
            × ((i : ℕ) → InBand levels z previous hysteresis i → ⊥)
            × (select_with_hysteresis floats order levels z previous hysteresis ≡ some j)
            × IsValidAt 0 levels j)
  unfolding select_with_hysteresis keeps_level
  select_with_hysteresis-IsValidAt levels z none hysteresis =
      elim (Option-cases (select_level floats order levels z)) [
        | inl nothing ↦ inl (nothing, rw (nothing, select_with_hysteresis) refl)
        | inr (j, selected) ↦ inr (
            inr (
              j,
              selected,
              λ i band. ground arith,
              rw (selected, select_with_hysteresis) refl,
              select_level-IsValidAt levels z j selected,
            ))
      ]
  select_with_hysteresis-IsValidAt levels z (some previous) hysteresis =
      elim (Option-cases (select_level floats order levels z)) [
        | inl nothing ↦ inl (nothing, rw (nothing, select_with_hysteresis) refl)
        | inr (j, selected) ↦ elim (Option-cases (level_at floats order levels previous)) [
          | inl outside ↦ inr (
              inr (
                j,
                selected,
                λ i band. no_band levels z previous hysteresis i outside band,
                rw (selected, outside, select_with_hysteresis) refl,
                select_level-IsValidAt levels z j selected,
              ))
          | inr (l, at_previous) ↦ elim (Bool-cases (in_band z hysteresis l)) [
            | inl inside ↦
                let facts = in_band_facts z hysteresis l inside in
                inr (
                  inl (
                    previous,
                    j,
                    selected,
                    (refl, l, at_previous, facts.0, facts.1, facts.2, facts.3, facts.4),
                    kept_in_band levels z previous hysteresis j l selected at_previous inside,
                    level_at-IsValidAt 0 levels previous previous l (omega arith) at_previous
                        facts.0,
                  ))
            | inr far ↦ inr (
                inr (
                  j,
                  selected,
                  λ i band. far_band levels z previous hysteresis i l at_previous far band,
                  left_band levels z previous hysteresis j l selected at_previous far,
                  select_level-IsValidAt levels z j selected,
                ))
          ]
        ]
      ]
