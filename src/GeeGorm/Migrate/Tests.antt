-- ===== src/GeeGorm/Migrate/Tests.antt =====
-- Runs of a migration.
use go_little_project.Base.{
  ◌≡◌, refl, ◌≢◌, true, false, subst, map, Outcome, List, [], ◌∷◌, none, some, GoString, str,
  lookup, insert, str_eq, join, inl, inr, ok, sym,
}
use go_little_project.GeeRpc.Client.{GoError}
use go_little_project.GeeGorm.Clause.{text}
use go_little_project.GeeGorm.Schema
use go_little_project.GeeGorm.Schema.{
  Model, Schema, Field, sqlite3, parse, fields_of, no_struct, string, data_type_of, table_exist_sql,
  get_field,
}
use go_little_project.GeeGorm.Schema.Fields.{IsTable}
use go_little_project.GeeGorm.Session
use go_little_project.GeeGorm.Session.{Replies, Session, new_session, is_name, transaction}
use go_little_project.GeeGorm.Migrate.{
  migrate_table, migrate, change_columns, add_columns, delete_some, difference, mark, unmarked,
  delete_columns,
}
use go_little_project.GeeGorm.Migrate.Columns.{IsMigrated, asked_of, migrate_table-IsMigrated}
use go_little_project.GeeGorm.Migrate.Panics.{migrate-ne}

abbrev pet : Model
pet = record {
  type_id = 1;
  shape = fields_of (str "Pet") (
      record {
        name = str "Name";
        exported = true;
        anonymous = false;
        kind = string;
        is_time = false;
        tag = none;
      }
      ∷ []);
}

abbrev name_field : Field
name_field = record { name = str "Name"; type = str "text"; tag = [] }

abbrev pets : Schema
pets = record {
  model = pet;
  name = str "Pet";
  fields = name_field ∷ [];
  fields_name = str "Name" ∷ [];
  fields_map = (str "Name", name_field) ∷ [];
}

pets-IsTable : IsTable pets
unfolding get_field lookup
pets-IsTable = record {
  found = λ f i. elim i [
    | inl e ↦ subst (λ (x : Field). get_field pets x.name ≡ some x) (sym e) refl
    | inr nowhere ↦ absurd nowhere
  ];
  names = refl;
}

-- the table is there
abbrev there : Replies
there = record {
  exec = λ s vs. (1, none);
  query_row = λ s vs. some (text (str "Pet"));
  query = λ s vs. (([], none), none);
}

-- it has another column
abbrev columns : GoString → List GoString
columns sql = str "Nick" ∷ []

runs : Unit {0}
unfolding parse Schema.parse_fields Schema.add_field data_type_of insert lookup table_exist_sql
    migrate_table change_columns add_columns delete_some delete_columns difference mark unmarked
    join get_field is_name Session.model Session.has_table Session.query_raw Session.query_rows
    Session.exec_raw Session.ref_table Session.raw Session.send_statement Session.clear new_session
runs = tt

-- the texts of the statements that have been sent
abbrev sent_by : Outcome (Session × GoError) → List GoString
sent_by (ok (s, err)) = map (λ q. q.0) s.sent
sent_by _ = []

-- the three statements that delete a column are one text
migrated :
    sent_by (migrate_table columns sqlite3 there pet new_session)
    ≡ str "SELECT name FROM sqlite_master WHERE type = 'table' and name = ? "
      ∷ str "SELECT * FROM Pet LIMIT 1 "
      ∷ str "ALTER TABLE Pet ADD COLUMN Name text "
      ∷ str
          "CREATE TABLE tmp_Pet SELECT AS Nick FROM Pet DROP TABLE Pet ALTER TABLE tmp_Pet RENAME TO Pet "
      ∷ []
unfolding runs
migrated = refl

migrate_table-IsMigrated_example :
    (s : Session) × (err : GoError) × (migrate_table columns sqlite3 there pet new_session
      ≡ ok (s, err))
    × (err ≡ none → IsMigrated (asked_of sqlite3 pets) pets (str "Nick" ∷ []) s.sent)
unfolding runs
migrate_table-IsMigrated_example =
    migrate_table-IsMigrated columns sqlite3 there pet pets refl pets-IsTable refl refl

migrate-ne_example : migrate columns sqlite3 there none none pet ≢ ok (new_session, none)
migrate-ne_example = migrate-ne columns sqlite3 there none pet (new_session, none)
