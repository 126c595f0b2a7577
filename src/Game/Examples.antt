-- ===== src/Game/Examples.antt =====
-- The level of one experience.
use new_yokosuka_server.Base.{◌≤◌, ◌<◌, ◌≡◌, ◌⊎◌, suc}
use new_yokosuka_server.Base.Int.{pos, pos_part}
use new_yokosuka_server.Game.{level_for_experience, experience_for_level, max_level}
use new_yokosuka_server.Game.Levels.{level_for_experience_band}

level_for_experience_band_example :
    (1 ≤ level_for_experience (pos 260))
    × (level_for_experience (pos 260) ≤ max_level)
    × (experience_for_level (pos (level_for_experience (pos 260))) ≤ pos_part (pos 260))
    × ((level_for_experience (pos 260) ≡ max_level)
        ⊎ (pos_part (pos 260) < experience_for_level (pos (suc (level_for_experience (pos 260))))))
level_for_experience_band_example = level_for_experience_band (pos 260)
