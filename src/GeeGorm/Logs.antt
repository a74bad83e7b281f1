-- ===== src/GeeGorm/Logs.antt =====
-- geeGorm/log/log.go: the two loggers and the level of what they print. A level below InfoLevel
-- prints what InfoLevel prints.
pub mod Levels
mod Tests
use go_little_project.Base.{ℕ, Bool, true, false, List, [], ◌∷◌, ◌++◌, GoString, ltb, if◌then◌else◌}

abbrev pub info_level : ℕ
info_level = 0

abbrev pub error_level : ℕ
error_level = 1

abbrev pub disabled : ℕ
disabled = 2

-- does each logger write to the standard output, and what it has got
pub record Loggers : Type 0 where
  pub error_on : Bool
  pub info_on : Bool
  pub printed : List GoString

unfoldable pub set_level : ℕ → Loggers → Loggers
set_level level l =
    let all : Loggers = record l { error_on = true; info_on = true } in
    let errors : Loggers = if ltb error_level level then record all { error_on = false } else all in
    if ltb info_level level then record errors { info_on = false } else errors

-- `Error` and `Errorf`
unfoldable pub log_error : GoString → Loggers → Loggers
log_error text l = if l.error_on then record l { printed = l.printed ++ text ∷ [] } else l

-- `Info` and `Infof`
unfoldable pub log_info : GoString → Loggers → Loggers
log_info text l = if l.info_on then record l { printed = l.printed ++ text ∷ [] } else l
