-- ===== src/GeeGorm/Migrate/Columns.antt =====
-- What a migration sends to the database.
use go_little_project.Base.{
  ◌≡◌, refl, sym, ap, ◌∙◌, ◌↔◌, inl, inr, true, List, [], ◌∷◌, ◌++◌, none, some, GoString, str,
  str_eq, In, arith, Option-cases, ok, subst,
}
use mathlib.Core.List.{append-nil, append_assoc}
use go_little_project.GeeRpc.Client.{GoError}
use go_little_project.GeeGorm.Schema.{Dialect, Model, Field, Schema, get_field, parse}
use go_little_project.GeeGorm.Schema.Fields.{IsTable}
use go_little_project.GeeGorm.Clause.{Sql}
use go_little_project.GeeGorm.Session.{
  Replies, Session, new_session, raw, clear, send_statement, exec_raw, query_rows, query_raw, model,
  ref_table, has_table, is_name,
}
use go_little_project.GeeGorm.Migrate.Alters.{
  plain, fields_at, alters, names-In, alters-In, difference-empty,
}
use go_little_project.GeeGorm.Migrate.{
  difference, difference-In, select_one, alter_add, add_columns, delete_columns, delete_some,
  change_columns, migrate_table,
}

-- A session whose statement has been cleared.
IsClear : Session → Type 0
IsClear s = (s.sql ≡ []) × (s.sql_val ≡ [])

sent-IsClear : (s : Session) → IsClear (send_statement s)
unfolding IsClear send_statement clear
sent-IsClear s = (refl, refl)

raw-plain :
    (s : Session) (sql : GoString)
    → IsClear s
    → ((raw s sql []).sql ≡ (plain sql).0) × ((raw s sql []).sql_val ≡ [])
unfolding IsClear raw
raw-plain s sql (no_sql, no_val) = (rw no_sql refl, rw no_val refl)

sent_one :
    (s : Session) (sql : GoString)
    → IsClear s
    → (send_statement (raw s sql [])).sent ≡ s.sent ++ plain sql ∷ []
unfolding IsClear send_statement raw clear
sent_one s sql (no_sql, no_val) = rw (no_sql, no_val) refl

-- The statement that asks for the table.
abbrev pub asked_of : Dialect → Schema → Sql
asked_of d t = let (sql, args) = d.table_exist t.name in (sql ++ str " ", args)

-- What has been sent for a table with those columns: whether the table is there, one row of it, an
-- ALTER TABLE for exactly the fields without a column, and something else only if there is a
-- column without a field.
pub record IsMigrated (asked : Sql) (t : Schema) (old : List GoString) (sent : List Sql)
    : Type 0 where
  pub added : List Sql
  pub removed : List Sql
  pub all : sent ≡ (asked ∷ plain (select_one t.name) ∷ added) ++ removed
  pub adds :
      (q : Sql)
      → In q added
        ↔ ((f : Field) × In f t.fields × ¬ In f.name old × (q ≡ plain (alter_add t.name f)))
  pub removes : (removed ≡ []) ↔ ((k : GoString) → ¬ (In k old × ¬ In k t.fields_name))

module _ (columns : GoString → List GoString) (d : Dialect) (db : Replies) where
  -- Every column that has a field is added, unless a statement fails.
  add_columns_lem :
      (t : Schema) (cols : List GoString) (s : Session)
      → IsClear s
      → ((c : GoString) → In c cols → (f : Field) × (get_field t c ≡ some f))
      → (s' : Session) × (err : GoError) × (add_columns columns d db t cols s ≡ ok (s', err))
        × (err ≡ none → IsClear s' × (s'.sent ≡ s.sent ++ alters t cols))
  unfolding add_columns exec_raw fields_at alters
  add_columns_lem t [] s clean found = (s, none, refl, λ e. (clean, sym (append-nil s.sent)))
  add_columns_lem t (c ∷ cs) s clean found =
      let (f, at) = found c (inl refl) in
      let written = raw s (alter_add t.name f) [] in
      let (s', err, ran, rest) =
        add_columns_lem t cs (send_statement written) (sent-IsClear written)
          (λ k m. found k (inr m)) in
      elim (Option-cases (db.exec written.sql written.sql_val).1) [
        | inl quiet ↦ (
          s',
          err,
          rw (add_columns, at, exec_raw, quiet) ran,
          λ e.
              let (clear', sent) = rest e in
              (
                clear',
                rw (fields_at, at)
                    (sent
                      ∙ ap (λ l. l ++ alters t cs) (sent_one s (alter_add t.name f) clean)
                      ∙ append_assoc s.sent _ _),
              ),
        )
        | inr (e, failed) ↦ (
          send_statement written,
          some e,
          rw (add_columns, at, exec_raw, failed) refl,
          λ q. absurd (ground (arith, q)),
        )
      ]

  delete_some_lem :
      (t : Schema) (old cols : List GoString) (s : Session)
      → (removed : List Sql) × ((delete_some columns d db t old cols s).0.sent ≡ s.sent ++ removed)
        × ((removed ≡ []) ↔ (cols ≡ []))
  unfolding delete_some delete_columns exec_raw send_statement clear raw
  delete_some_lem t old [] s = ([], sym (append-nil s.sent), (λ e. refl, λ e. refl))
  delete_some_lem t old (c ∷ cs) s =
      (_ ∷ [], refl, (λ e. absurd (ground (arith, e)), λ e. absurd (ground (arith, e))))

  -- The columns of a table that is there: the loop and what follows it.
  change_columns_lem :
      (t : Schema) (s : Session) (asked : Sql)
      → IsClear s
      → IsTable t
      → s.sent ≡ asked ∷ []
      → (db.query (plain (select_one t.name)).0 []).1 ≡ none
      → (s' : Session) × (err : GoError) × (change_columns columns d db t s ≡ ok (s', err))
        × (err ≡ none → IsMigrated asked t (columns (plain (select_one t.name)).0) s'.sent)
  unfolding change_columns query_rows
  change_columns_lem t s asked clean table before answered =
      let query = raw s (select_one t.name) [] in
      let (text, no_vars) = raw-plain s (select_one t.name) clean in
      let quiet : (db.query query.sql query.sql_val).1 ≡ none = rw (text, no_vars) answered in
      let old = columns query.sql in
      let cols = difference old t.fields_name in
      let (s', err, ran, rest) =
        add_columns_lem t cols (send_statement query) (sent-IsClear query) λ c m.
          let (f, into, same) =
            (names-In t c table).0 ((difference-In c old t.fields_name).0 m).0 in
          (f, ap (get_field t) same ∙ table.found f into) in
      elim (Option-cases err) [
        | inr (e, failed) ↦ (
          s',
          some e,
          rw (change_columns, query_rows, quiet, ran, failed) refl,
          λ q. absurd (ground (arith, q)),
        )
        | inl fine ↦
            let (removed, sent, only) = delete_some_lem t old (difference t.fields_name old) s' in
            (
              (delete_some columns d db t old (difference t.fields_name old) s').0,
              (delete_some columns d db t old (difference t.fields_name old) s').1,
              rw (change_columns, query_rows, quiet, ran, fine) refl,
              λ q.
                  subst
                    (λ x.
                      IsMigrated asked t (columns x)
                        (delete_some columns d db t old (difference t.fields_name old) s').0.sent)
                    text
                    (record {
                      added = alters t cols;
                      removed = removed;
                      all =
                          sent
                          ∙ ap (λ l. l ++ removed)
                              ((rest fine).1
                                ∙ ap (λ l. l ++ alters t cols)
                                    (sent_one s (select_one t.name) clean
                                      ∙ ap (λ l. l ++ plain (select_one t.name) ∷ []) before));
                      adds = λ stmt. alters-In t old stmt table;
                      removes = (
                        λ e. (difference-empty old t.fields_name).0 (only.0 e),
                        λ h. only.1 ((difference-empty old t.fields_name).1 h),
                      );
                    }),
            )
      ]

  -- Where the type is a table that the database has, and the query for its columns does not fail,
  -- the function of Migrate returns: no column to add lacks a field. If it returns no error, it has
  -- sent an ALTER TABLE for exactly the fields without a column, and a further statement only if
  -- there is a column without a field.
  pub migrate_table-IsMigrated :
      (value : Model) (t : Schema)
      → parse d value ≡ ok t
      → IsTable t
      → is_name (db.query_row (asked_of d t).0 (asked_of d t).1) t.name ≡ true
      → (db.query (plain (select_one t.name)).0 []).1 ≡ none
      → (s : Session) × (err : GoError) × (migrate_table columns d db value new_session
          ≡ ok (s, err))
        × (err ≡ none → IsMigrated (asked_of d t) t (columns (plain (select_one t.name)).0) s.sent)
  unfolding migrate_table new_session model has_table ref_table query_raw raw send_statement clear
      IsClear
  migrate_table-IsMigrated value t parsed table there answered =
      let (s, err, ran, rest) =
        change_columns_lem t (record new_session { schema = some t; sent = asked_of d t ∷ [] })
          (asked_of d t) (refl, refl) table refl answered in
      (s, err, rw (migrate_table, parsed, there) ran, rest)
