-- ===== src/GeeGorm/Engine/Tests.antt =====
-- Runs of an engine.
use go_little_project.Base.{◌≡◌, refl, true, [], ◌∷◌, none, GoString, GoMap, str, insert, lookup}
use go_little_project.GeeGorm.Logs.{Loggers, log_error, log_info}
use go_little_project.GeeGorm.Schema.{Dialect, sqlite3, register_dialect, get_dialect}
use go_little_project.GeeGorm.Engine.{Driver, new_engine, close_engine}

-- a database that always answers
abbrev willing : Driver
willing = record {
  Db = GoString;
  open_db = λ name source. (source, none);
  ping = λ db. none;
  close_db = λ db. none;
}

abbrev known : GoMap GoString Dialect
known = (str "sqlite3", sqlite3) ∷ []

abbrev loud : Loggers
loud = record { error_on = true; info_on = true; printed = [] }

one_known : register_dialect (str "sqlite3") sqlite3 [] ≡ known
unfolding register_dialect insert
one_known = refl

runs : Unit {0}
unfolding new_engine close_engine get_dialect lookup log_error log_info
runs = tt

-- neither an engine nor an error
neither :
    new_engine willing known (str "mysql") (str "gee.db") loud
    ≡ (none, none, record loud { printed = str "dialect mysql not found" ∷ [] })
unfolding runs
neither = refl

closed :
    close_engine willing (record { db = str "gee.db"; dialect = sqlite3 }) loud
    ≡ record loud { printed = str "Close database success" ∷ [] }
unfolding runs
closed = refl
