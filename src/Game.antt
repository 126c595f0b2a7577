-- ===== src/Game.antt =====
-- internal/game/progression.go: the level curve.
pub mod Levels
pub mod Examples
use new_yokosuka_server.Base.{ℕ, zero, suc, ◌-◌, List, [], ◌∷◌, leb, ltb, if◌then◌else◌}
use new_yokosuka_server.Base.Int.{ℤ, pos, negsuc}
use new_yokosuka_server.Base.Lists.{get_elem?}
use mathlib.Core.Option.{get_or}

abbrev pub max_level : ℕ
max_level = 10

abbrev pub level_experience : List ℕ
level_experience = 0 ∷ 100 ∷ 250 ∷ 450 ∷ 700 ∷ 1000 ∷ 1400 ∷ 1900 ∷ 2500 ∷ 3200 ∷ []

-- The index is in range for a level from 1 to `max_level`.
abbrev pub threshold : ℕ → ℕ
threshold i = get_or (get_elem? level_experience i) 0

-- Levels are Go's `int`; one that is not positive is read as level 1.
unfoldable pub experience_for_level : ℤ → ℕ
experience_for_level (negsuc n) = threshold 0
experience_for_level (pos n) =
    if leb n 1 then threshold 0 else threshold ((if ltb max_level n then max_level else n) - 1)

-- `for level := 2; level <= MaxLevel; level++`, with the rounds that are left.
unfoldable pub find_level : ℕ → ℕ → ℕ → ℕ
find_level zero level experience = max_level
find_level (suc rounds) level experience =
    let rest = find_level rounds (suc level) experience in
    if ltb experience (experience_for_level (pos level)) then level - 1 else rest

unfoldable pub level_for_experience : ℤ → ℕ
unfolding find_level experience_for_level
level_for_experience (negsuc n) = 1
level_for_experience (pos n) = if leb n 0 then 1 else find_level 9 2 n
