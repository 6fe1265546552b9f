-- ===== src/WeaponNames.antt =====
-- utils/weapon_names.hpp, under projects/cs2-stage3-esp-radar/external-cheat-base/src: the names of the
-- items by their index. The hash map is the list that it is built from, of which the first entry of
-- an index counts.
mod Tests
use Prim.Native.String.{String}
use hardware_assisted_game_s.Base.{
  ℕ, ◌≡◌, ◌≢◌, ◌⊎◌, inl, inr, refl, Bool, true, false, not, ◌&&◌, Option, none, some, List, [], ◌∷◌,
  Bytes, codes, ◌==◌, if◌then◌else◌, arith,
}

abbrev pub Table : Type 0
Table = List (ℕ × String)

unfoldable pub weapon_map : Table
weapon_map =
    (1, "Desert Eagle")
    ∷ (2, "Dual Berettas")
    ∷ (3, "Five-SeveN")
    ∷ (4, "Glock-18")
    ∷ (30, "Tec-9")
    ∷ (32, "P2000")
    ∷ (36, "P250")
    ∷ (61, "USP-S")
    ∷ (63, "CZ75-Auto")
    ∷ (64, "R8 Revolver")
    ∷ (7, "AK-47")
    ∷ (8, "AUG")
    ∷ (10, "FAMAS")
    ∷ (13, "Galil AR")
    ∷ (16, "M4A4")
    ∷ (39, "SG 553")
    ∷ (60, "M4A1-S")
    ∷ (9, "AWP")
    ∷ (11, "G3SG1")
    ∷ (38, "SCAR-20")
    ∷ (40, "SSG 08")
    ∷ (17, "MAC-10")
    ∷ (19, "P90")
    ∷ (23, "MP5-SD")
    ∷ (24, "UMP-45")
    ∷ (26, "PP-Bizon")
    ∷ (33, "MP7")
    ∷ (34, "MP9")
    ∷ (14, "M249")
    ∷ (28, "Negev")
    ∷ (25, "XM1014")
    ∷ (27, "MAG-7")
    ∷ (29, "Sawed-Off")
    ∷ (35, "Nova")
    ∷ (43, "Flashbang")
    ∷ (44, "HE Grenade")
    ∷ (45, "Smoke Grenade")
    ∷ (46, "Molotov")
    ∷ (47, "Decoy Grenade")
    ∷ (48, "Incendiary")
    ∷ (68, "TA Grenade")
    ∷ (81, "Frag Grenade")
    ∷ (82, "Snowball")
    ∷ (84, "Breach Charge")
    ∷ (31, "Zeus x27")
    ∷ (42, "Knife (CT)")
    ∷ (49, "C4 Explosive")
    ∷ (50, "Kevlar Vest")
    ∷ (51, "Kevlar + Helmet")
    ∷ (52, "Defuse Kit")
    ∷ (54, "Rescue Kit")
    ∷ (55, "Medi-Shot")
    ∷ (57, "Healthshot")
    ∷ (59, "Knife (T)")
    ∷ (80, "Shield")
    ∷ (500, "Bayonet")
    ∷ (503, "Karambit")
    ∷ (505, "Flip Knife")
    ∷ (506, "Gut Knife")
    ∷ (507, "M9 Bayonet")
    ∷ (508, "Huntsman Knife")
    ∷ (509, "Falchion Knife")
    ∷ (512, "Bowie Knife")
    ∷ (514, "Butterfly Knife")
    ∷ (515, "Shadow Daggers")
    ∷ (516, "Paracord Knife")
    ∷ (517, "Survival Knife")
    ∷ (518, "Ursus Knife")
    ∷ (519, "Navaja Knife")
    ∷ (520, "Nomad Knife")
    ∷ (521, "Stiletto Knife")
    ∷ (522, "Talon Knife")
    ∷ (523, "Classic Knife")
    ∷ (525, "Skeleton Knife")
    ∷ (85, "Tablet")
    ∷ (86, "Axe")
    ∷ (87, "Hammer")
    ∷ (88, "Wrench")
    ∷ (89, "Spanner")
    ∷ (5027, "Hand Wraps")
    ∷ (5028, "Sport Gloves")
    ∷ (5029, "Driver Gloves")
    ∷ (5030, "Specialist Gloves")
    ∷ (5031, "Moto Gloves")
    ∷ (5032, "Bloodhound Gloves")
    ∷ (5033, "Hydra Gloves")
    ∷ (5034, "Broken Fang Gloves")
    ∷ (4619, "Agent | FBI")
    ∷ (4680, "Agent | GIGN")
    ∷ (4711, "Agent | SAS")
    ∷ (4712, "Agent | GSG-9")
    ∷ (4713, "Agent | Phoenix")
    ∷ (4714, "Agent | Elite Crew")
    ∷ (4715, "Agent | Professionals")
    ∷ (4716, "Agent | Sabre")
    ∷ (1314, "Music Kit")
    ∷ (1209, "Sticker")
    ∷ (1348, "Patch")
    ∷ (1349, "Graffiti")
    ∷ (1210, "Case Key")
    ∷ (1200, "Name Tag")
    ∷ (1201, "Stattrak Swap Tool")
    ∷ []

unfoldable pub find_name : ℕ → Table → Option String
find_name index [] = none
find_name index ((k, name) ∷ t) =
    let later = find_name index t in if k == index then some name else later

unfoldable pub get_weapon_name : ℕ → String
get_weapon_name index = elim (find_name index weapon_map) [ none ↦ "Unknown" | some name ↦ name ]

-- The table has this entry.
abbrev pub HasEntry : ℕ → String → Table → Type 0
HasEntry index name [] = ⊥
HasEntry index name ((k, n) ∷ t) = ((k ≡ index) × (n ≡ name)) ⊎ HasEntry index name t

unfoldable absent : ℕ → Table → Bool
absent index [] = true
absent index ((k, n) ∷ t) = not (k == index) && absent index t

unfoldable distinct : Table → Bool
distinct [] = true
distinct ((k, n) ∷ t) = absent k t && distinct t

absent-HasEntry :
    (index : ℕ) (name : String) (t : Table) → absent index t ≡ true → HasEntry index name t → ⊥
unfolding absent
absent-HasEntry index name [] a h = h
absent-HasEntry index name ((k, n) ∷ t) a h = ground (arith, absent-HasEntry index name t)

find_name-HasEntry :
    (index : ℕ) (name : String) (t : Table)
    → distinct t ≡ true
    → HasEntry index name t
    → find_name index t ≡ some name
unfolding distinct find_name
find_name-HasEntry index name [] d h = elim h [ ]
find_name-HasEntry index name ((k, n) ∷ t) d (inl (same, e)) = ground arith
find_name-HasEntry index name ((k, n) ∷ t) d (inr later) =
    grind (arith, find_name-HasEntry index name t, absent-HasEntry index name t)

distinct-weapon_map : distinct weapon_map ≡ true
unfolding distinct absent weapon_map
distinct-weapon_map = refl

-- No entry of the table hides another: each index that it lists has the name that it is listed with.
pub get_weapon_name-HasEntry :
    (index : ℕ) (name : String) → HasEntry index name weapon_map → get_weapon_name index ≡ name
unfolding get_weapon_name
get_weapon_name-HasEntry index name h =
    rw (find_name-HasEntry index name weapon_map distinct-weapon_map h, get_weapon_name) refl
