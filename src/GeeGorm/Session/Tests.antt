-- ===== src/GeeGorm/Session/Tests.antt =====
-- Runs of a session.
use go_little_project.Base.{
  ◌≡◌, refl, ◌≢◌, true, false, List, [], ◌∷◌, none, some, GoString, str, lookup, insert, str_eq,
  nat_eq, join, ok, arith,
}
use go_little_project.GeeGorm.Clause
use go_little_project.GeeGorm.Clause.{Value, text, other, many, Sql, generators}
use go_little_project.GeeGorm.Schema
use go_little_project.GeeGorm.Schema.{
  Model, Schema, StructField, Field, fields_of, no_struct, sqlite3, parse, data_type_of, int,
  string, chan,
}
use go_little_project.GeeGorm.Schema.Fields.{IsTable, parse-IsTable, kept_names}
use go_little_project.GeeGorm.Session
use go_little_project.GeeGorm.Session.{
  Replies, Session, new_session, model, find, insert_rows, delete_rows, transaction, where_by,
  Result, affected,
}
use go_little_project.GeeGorm.Session.Sends.{deletes, method, HasSent, method-HasSent}
use go_little_project.GeeGorm.Session.Panics.{insert_rows-ne}

-- a struct with a name, an age and an unexported field
abbrev user_fields : List StructField
user_fields =
    record {
      name = str "Name";
      exported = true;
      anonymous = false;
      kind = string;
      is_time = false;
      tag = none;
    }
    ∷ record {
      name = str "Age";
      exported = true;
      anonymous = false;
      kind = int;
      is_time = false;
      tag = none;
    }
    ∷ record {
      name = str "done";
      exported = false;
      anonymous = false;
      kind = chan;
      is_time = false;
      tag = none;
    }
    ∷ []

abbrev user : Model
user = record { type_id = 1; shape = fields_of (str "User") user_fields }

abbrev name_field : Field
name_field = record { name = str "Name"; type = str "text"; tag = [] }

abbrev age_field : Field
age_field = record { name = str "Age"; type = str "integer"; tag = [] }

abbrev users : Schema
users = record {
  model = user;
  name = str "User";
  fields = name_field ∷ age_field ∷ [];
  fields_name = str "Name" ∷ str "Age" ∷ [];
  fields_map = (str "Name", name_field) ∷ (str "Age", age_field) ∷ [];
}

parses : Unit {0}
unfolding parse Schema.parse_fields Schema.add_field data_type_of insert lookup kept_names
parses = tt

user_table : parse sqlite3 user ≡ ok users
unfolding parses
user_table = refl

parse-IsTable_example :
    (s : Schema) × (parse sqlite3
        (record { type_id = 1; shape = fields_of (str "User") user_fields })
      ≡ ok s)
    × IsTable s
    × (s.fields_name ≡ kept_names user_fields)
unfolding data_type_of
parse-IsTable_example =
    parse-IsTable sqlite3 1 (str "User") user_fields
      (
        (λ k. (str "text", refl)),
        ((λ k. (str "integer", refl)), ((λ k. absurd (ground (arith, k))), tt)),
      )
      (((λ e. ground arith), ((λ e. ground arith), tt)), (((λ e. ground arith), tt), (tt, tt)))

abbrev show : Value → GoString
show (text s) = s
show _ = str "?"

abbrev quiet : Replies
quiet = record {
  exec = λ s vs. (1, none);
  query_row = λ s vs. none;
  query = λ s vs. (([], none), none);
}

abbrev session : Session
session = record {
  sql = [];
  sql_val = [];
  schema = some users;
  clause = record {
    sql = (4, str "WHERE Name = ?") ∷ [];
    sql_vars = (4, text (str "Tom") ∷ []) ∷ [];
  };
  tx = none;
  sent = [];
}

sends : Unit {0}
unfolding delete_rows Session.ref_table Session.set_clause Session.raw_clauses Session.raw
    Session.exec_raw Session.send_statement Session.clear Session.result_of Clause.set
    Clause.generate Clause.put Clause.generators Clause.gen_delete Clause.build Clause.build_loop
    Clause.slice lookup insert join method new_session model
sends = tt

abbrev after_delete : Session
after_delete = record session {
  clause = record {
    sql = (4, str "WHERE Name = ?") ∷ (7, str "DELETE FROM User") ∷ [];
    sql_vars = (4, text (str "Tom") ∷ []) ∷ (7, []) ∷ [];
  };
  sent =
      (
        str "DELETE FROM User WHERE Name = ? ",
        many (
              Clause.cons (many Clause.nil)
                (Clause.cons (many (Clause.cons (text (str "Tom")) Clause.nil)) Clause.nil))
            ∷ [],
      )
      ∷ [];
}

-- the clause WHERE of the session is used, and kept
deleted : delete_rows (generators show) sqlite3 quiet session [] ≡ ok (after_delete, affected 1)
unfolding sends
deleted = refl

method-HasSent_example : HasSent (some (7 ∷ 4 ∷ [])) session after_delete
unfolding sends
method-HasSent_example =
    method-HasSent (generators show) sqlite3 quiet (deletes []) session after_delete refl

insert_rows-ne_example :
    insert_rows (generators show) sqlite3 quiet new_session (user ∷ [])
    ≢ ok (new_session, affected 1)
unfolding sends parses
insert_rows-ne_example =
    insert_rows-ne (generators show) sqlite3 quiet new_session
      (record new_session { schema = some users }) user [] users (new_session, affected 1) refl refl
      (λ e. ground (arith, e))
