-- ===== src/WeaponNames/Tests.antt =====
-- An entry of the table, and an index that it does not have.
use hardware_assisted_game_s.Base.{◌≡◌, inl, inr, refl}
use hardware_assisted_game_s.WeaponNames.{
  weapon_map, find_name, get_weapon_name, get_weapon_name-HasEntry,
}

get_weapon_name-HasEntry_example : get_weapon_name 2 ≡ "Dual Berettas"
unfolding weapon_map
get_weapon_name-HasEntry_example =
    get_weapon_name-HasEntry 2 "Dual Berettas" (inr (inl (refl, refl)))

no_name : get_weapon_name 6 ≡ "Unknown"
unfolding get_weapon_name find_name weapon_map
no_name = refl
