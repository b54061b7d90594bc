-- ===== src/Logger/Tests.antt =====
-- Runs of the logger, and its theorems at a logger with both slots in use.
use xyris.Base.{◌≡◌, refl, [], ◌∷◌}
use xyris.Logger.{Logger, LogLevel, log_helper_print, log, set_level}

abbrev one : Logger
one = record { writers_idx = 1; log_level = LogLevel.l_info; writers = 0x1000 ∷ 0 ∷ [] }

abbrev both : Logger
both = record { writers_idx = 2; log_level = LogLevel.l_info; writers = 0x1000 ∷ 0x2000 ∷ [] }

levels :
    (log both LogLevel.l_error ≡ 0x1000 ∷ 0x2000 ∷ [])
    × (log both LogLevel.l_debug ≡ [])
    × (log (set_level both LogLevel.l_none) LogLevel.l_error ≡ [])
unfolding log log_helper_print
levels = (refl, refl, refl)
