-- ===== src/Game/Levels.antt =====
-- The level of an experience is the one level whose band of experience holds it.
use new_yokosuka_server.Base.{suc, ◌≤◌, ◌<◌, ◌≡◌, ◌⊎◌, inr, arith}
use new_yokosuka_server.Base.Int.{ℤ, pos, negsuc, pos_part}
use new_yokosuka_server.Game.{level_for_experience, experience_for_level, max_level, find_level}

-- The level lies from 1 to the maximum; the experience, where a negative one counts as 0, reaches
-- the level's threshold, and below the maximal level it does not reach the next one's.
pub level_for_experience_band :
    (e : ℤ)
    → (1 ≤ level_for_experience e)
      × (level_for_experience e ≤ max_level)
      × (experience_for_level (pos (level_for_experience e)) ≤ pos_part e)
      × ((level_for_experience e ≡ max_level)
          ⊎ (pos_part e < experience_for_level (pos (suc (level_for_experience e)))))
unfolding level_for_experience experience_for_level find_level
level_for_experience_band (pos n) = ground arith
level_for_experience_band (negsuc n) = (omega arith, omega arith, omega arith, inr (omega arith))
