-- ===== src/GeeGorm/Logs/Tests.antt =====
-- Runs of the loggers.
use go_little_project.Base.{◌≡◌, refl, false, List, [], ◌∷◌, str}
use go_little_project.GeeGorm.Logs.{Loggers, set_level, log_error, log_info, disabled}
use go_little_project.GeeGorm.Logs.Levels.{Entry, infos, errors, log_all}

abbrev silent : Loggers
silent = record { error_on = false; info_on = false; printed = [] }

abbrev entries : List Entry
entries = infos (str "connected") ∷ errors (str "no such table") ∷ infos (str "closed") ∷ []

nothing_printed : (log_all entries (set_level disabled silent)).printed ≡ []
unfolding log_all set_level log_error log_info
nothing_printed = refl
