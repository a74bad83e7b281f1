-- ===== src/GeeGorm/Engine.antt =====
-- geeGorm/geegorm.go: opening and closing an engine. database/sql is a parameter.
mod Tests
use go_little_project.Base.{List, [], ◌∷◌, ◌++◌, Option, none, some, GoString, GoMap, str}
use go_little_project.GeeRpc.Client.{GoError}
use go_little_project.GeeGorm.Logs.{Loggers, log_error, log_info}
use go_little_project.GeeGorm.Schema.{Dialect, get_dialect}

-- `sql.Open`, `Ping` and `Close` of a database
pub record Driver : Type 1 where
  pub Db : Type 0
  pub open_db : GoString → GoString → Db × GoError
  pub ping : Db → GoError
  pub close_db : Db → GoError

module _ (sql : Driver) where
  pub record Engine : Type 0 where
    pub db : sql.Db
    pub dialect : Dialect

  -- `NewEngine`, with what it logs; a nil engine is `none`
  unfoldable pub new_engine :
      GoMap GoString Dialect → GoString → GoString → Loggers → Option Engine × GoError × Loggers
  new_engine dialects drive_name source l =
      let (db, unopened) = sql.open_db drive_name source in
      elim unopened [
        | some err ↦ (none, some err, log_error err l)
        | none ↦ elim (sql.ping db) [
          | some err ↦ (none, some err, log_error err l)
          | none ↦ elim (get_dialect drive_name dialects) [
            | none ↦ (none, none, log_error (str "dialect " ++ (drive_name ++ str " not found")) l)
            | some dial ↦ (
              some (record { db = db; dialect = dial }),
              none,
              log_info (str "Connect database success") l,
            )
          ]
        ]
      ]

  -- `Close`; an error is only logged
  unfoldable pub close_engine : Engine → Loggers → Loggers
  close_engine e l = elim (sql.close_db e.db) [
    | some err ↦ log_error (str "Failed to close database") l
    | none ↦ log_info (str "Close database success") l
  ]
