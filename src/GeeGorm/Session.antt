-- ===== src/GeeGorm/Session.antt =====
-- geeGorm/session and `Transaction` of geeGorm/geegorm.go. What the database answers enters as
-- data: `Replies` for a statement with its variables. `sent` records the statements.
pub mod Sends
pub mod Panics
mod Tests
use go_little_project.Base.{
  ℕ, zero, suc, ◌≡◌, Bool, true, false, List, [], ◌∷◌, ◌++◌, Option, none, some, GoString, GoMap,
  lookup, insert, str, str_eq, nat_eq, join, ◌==◌, if◌then◌else◌, Outcome, ok, panic, demand, ◌>>=◌,
}
use go_little_project.GeeRpc.Client.{GoError}
use go_little_project.GeeGorm.Schema.{Dialect, Model, Field, Schema, parse, record_values}
use go_little_project.GeeGorm.Clause.{
  Value, text, texts, many, dict, other, Values, Sql, Clause, new_clause, set, build, slice,
  as_text,
}

-- a result: what `Exec` affects, the row of `QueryRow` (an error of `Scan` leaves none), or the
-- rows of `Query` with the error of `Scan` at the end, if there is one
pub record Replies : Type 0 where
  pub exec : GoString → List Value → ℕ × GoError
  pub query_row : GoString → List Value → Option Value
  pub query : GoString → List Value → (List Value × GoError) × GoError

-- `Session`; a transaction is not nil once it is set
pub record Session : Type 0 where
  pub sql : GoString
  pub sql_val : List Value
  pub schema : Option Schema
  pub clause : Clause
  pub tx : Option ℕ
  pub sent : List Sql

unfoldable pub new_session : Session
new_session = record {
  sql = [];
  sql_val = [];
  schema = none;
  clause = new_clause;
  tx = none;
  sent = [];
}

-- `Raw`
unfoldable pub raw : Session → GoString → List Value → Session
raw s sql value = record s { sql = s.sql ++ (sql ++ str " "); sql_val = s.sql_val ++ value }

-- `Clear`
unfoldable pub clear : Session → Session
clear s = record s { sql = []; sql_val = [] }

-- the statement goes to the database, and then `Clear` is deferred
unfoldable pub send_statement : Session → Session
send_statement s = clear (record s { sent = s.sent ++ (s.sql, s.sql_val) ∷ [] })

-- `Exec`
unfoldable pub exec_raw : Replies → Session → Session × (ℕ × GoError)
exec_raw db s = (send_statement s, db.exec s.sql s.sql_val)

-- `QueryRaw`, with the `Scan` of the row
unfoldable pub query_raw : Replies → Session → Session × Option Value
query_raw db s = (send_statement s, db.query_row s.sql s.sql_val)

-- `QueryRows`
unfoldable pub query_rows : Replies → Session → Session × ((List Value × GoError) × GoError)
query_rows db s = (send_statement s, db.query s.sql s.sql_val)

-- `Model`: a table is parsed unless it is the one of the same type
unfoldable pub model : Dialect → Session → Model → Outcome Session
model d s value = elim s.schema [
  | none ↦ (do t ← parse d value; ok (record s { schema = some t }))
  | some old ↦
      if value.type_id == old.model.type_id
      then ok s
      else (do t ← parse d value; ok (record s { schema = some t }))
]

-- `RefTable`; every use of a nil table panics
unfoldable pub ref_table : Session → Outcome Schema
ref_table s = demand s.schema

-- `s.clause.Set`
unfoldable pub set_clause :
    GoMap ℕ (List Value → Outcome Sql) → Session → ℕ → List Value → Outcome Session
set_clause table s name values = do c ← set table s.clause name values; ok (record s { clause = c })

-- `Build` and `Raw`: the variables come as one value
unfoldable pub raw_clauses : Session → List ℕ → Session
raw_clauses s orders = let (sql, vars) = build s.clause orders in raw s sql (many (slice vars) ∷ [])

-- the columns of CREATE TABLE
unfoldable pub column_texts : List Field → List GoString
column_texts [] = []
column_texts (f ∷ fs) = (f.name ++ (str " " ++ (f.type ++ (str " " ++ f.tag)))) ∷ column_texts fs

-- `CreateTable`
unfoldable pub create_table : Replies → Session → Outcome (Session × GoError)
create_table db s = do
  t ← ref_table s
  let desc = join (column_texts t.fields) (str ",")
  let sql = str "CREATE TABLE " ++ (t.name ++ (str "(" ++ (desc ++ str ");")))
  let (s', (n, err)) = exec_raw db (raw s sql [])
  ok (s', err)

-- `DropTable`: the verb has no operand, and the name goes to `Raw` as a variable
unfoldable pub drop_table : Replies → Session → Outcome (Session × GoError)
drop_table db s = do
  t ← ref_table s
  let (s', (n, err)) =
      exec_raw db (raw s (str "DROP TABLE IF EXISTS %!s(MISSING)") (text t.name ∷ []))
  ok (s', err)

-- whether the scanned text is the name; without a row it stays empty. The column holds texts.
unfoldable pub is_name : Option Value → GoString → Bool
is_name (some (text tmp)) name = tmp == name
is_name _ name = [] == name

-- `HasTable`
unfoldable pub has_table : Dialect → Replies → Session → Outcome (Session × Bool)
has_table d db s = do
  t ← ref_table s
  let (sql, args) = d.table_exist t.name
  let (s', row) = query_raw db (raw s sql args)
  ok (s', is_name row t.name)

-- a result, or an error
pub data Result : Type 0 where
  affected : ℕ → Result
  scanned : Value → Result
  failed : GoString → Result

unfoldable pub result_of : ℕ × GoError → Result
result_of (n, none) = affected n
result_of (n, some err) = failed err

-- the row of COUNT
unfoldable pub scan_count : Option Value → Result
scan_count none = failed (str "scan")
scan_count (some v) = scanned v

-- the pairs of `UPDATE`: a key that is no string and a missing value panic
unfoldable pub pairs_of : List Value → GoMap GoString Value → Outcome (GoMap GoString Value)
pairs_of [] m = ok m
pairs_of (k ∷ []) m = panic
pairs_of (k ∷ v ∷ rest) m = do key ← as_text k; pairs_of rest (insert key v m)

unfoldable pub keys_of : GoMap GoString Value → List GoString
keys_of [] = []
keys_of ((k, v) ∷ m) = k ∷ keys_of m

unfoldable pub values_of : GoMap GoString Value → List Value
values_of [] = []
values_of ((k, v) ∷ m) = v ∷ values_of m

-- the map that `UPDATE` is given, or makes of its arguments
unfoldable pub update_map : List Value → Outcome Value
update_map [] = panic
update_map (dict ks vs ∷ rest) = ok (dict ks vs)
update_map (v ∷ rest) = do m ← pairs_of (v ∷ rest) []; ok (dict (keys_of m) (slice (values_of m)))

-- the methods over a session with its table of generators
module _ (table : GoMap ℕ (List Value → Outcome Sql)) (d : Dialect) (db : Replies) where
  -- `COUNT`: the session itself is the first value, and stands for the table's name
  unfoldable pub count : Session → List Value → Outcome (Session × Result)
  count s values = do
    t ← ref_table s
    c ← set_clause table s 8 (other 0 ∷ text t.name ∷ many (slice values) ∷ [])
    let (s', row) = query_raw db (raw_clauses c (8 ∷ 4 ∷ []))
    ok (s', scan_count row)

  -- `DELETE`
  unfoldable pub delete_rows : Session → List Value → Outcome (Session × Result)
  delete_rows s values = do
    t ← ref_table s
    c ← set_clause table s 7 (text t.name ∷ many (slice values) ∷ [])
    let (s', done) = exec_raw db (raw_clauses c (7 ∷ 4 ∷ []))
    ok (s', result_of done)

  -- `UPDATE`
  unfoldable pub update_rows : Session → List Value → Outcome (Session × Result)
  update_rows s values = do
    m ← update_map values
    t ← ref_table s
    c ← set_clause table s 6 (text t.name ∷ m ∷ [])
    let (s', done) = exec_raw db (raw_clauses c (6 ∷ 4 ∷ []))
    ok (s', result_of done)

  -- the loop of `Insert`, with the rows of VALUES
  unfoldable pub insert_loop : List Model → Session → List Value → Outcome (Session × List Value)
  insert_loop [] s rows = ok (s, rows)
  insert_loop (v ∷ vs) s rows = do
    s' ← model d s v
    t ← ref_table s'
    c ← set_clause table s' 0 (text t.name ∷ texts t.fields_name ∷ [])
    row ← record_values t (v ∷ [])
    insert_loop vs c (rows ++ many (slice row) ∷ [])

  -- `Insert`
  unfoldable pub insert_rows : Session → List Model → Outcome (Session × Result)
  insert_rows s values = do
    (s', rows) ← insert_loop values s []
    c ← set_clause table s' 1 rows
    let (s'', done) = exec_raw db (raw_clauses c (0 ∷ 1 ∷ []))
    ok (s'', result_of done)

  -- `Find`: `values` is a pointer to a slice; the rows that were scanned are appended to it
  unfoldable pub find : Session → Model → Outcome (Session × (List Value × GoError))
  find s values = do
    s' ← model d s values
    t ← ref_table s'
    c ← set_clause table s' 2 (text t.name ∷ texts t.fields_name ∷ [])
    let (s'', (rows, err)) = query_rows db (raw_clauses c (2 ∷ 4 ∷ 3 ∷ 5 ∷ []))
    elim err [ some e ↦ ok (s'', ([], some e)) | none ↦ ok (s'', rows) ]

  -- `LIMIT`, `WHERE` and `ORDERBY`
  unfoldable pub limit : Session → List Value → Outcome Session
  limit s values = set_clause table s 3 values

  unfoldable pub where_by : Session → List Value → Outcome Session
  where_by s values = set_clause table s 4 values

  unfoldable pub order_by : Session → List Value → Outcome Session
  order_by s values = set_clause table s 5 values

  -- `FIRST`: `values` is the pointer to the slice that it makes
  unfoldable pub first : Session → Model → Outcome (Session × Option Value × GoError)
  first s values = do
    c ← limit s (other 1 ∷ [])
    (s', (rows, err)) ← find c values
    elim err [
      | some e ↦ ok (s', none, some e)
      | none ↦ elim rows [
        | [] ↦ ok (s', none, some (str "NOT FOUND"))
        | row ∷ rest ↦ ok (s', some row, none)
      ]
    ]

-- `Begin`: the transaction that the database begins is not kept
unfoldable pub begin : GoError → Session → Session × GoError
begin begun s = (s, begun)

-- `RollBack` and `Commit` of a nil transaction are nil dereferences
unfoldable pub end_tx : GoError → Session → Outcome (Session × GoError)
end_tx ended s = elim s.tx [ none ↦ panic | some t ↦ ok (s, ended) ]

-- `Transaction`; `f` returns with its error, or panics. The deferred function commits unless `f`
-- panicked, since its `err` is the one of its own `if`, to which it also assigns what `Commit`
-- returns. A panic goes on after the rollback.
unfoldable pub transaction :
    GoError → GoError → (Session → Outcome (Session × GoError)) → Outcome (Session × GoError)
transaction begun ended f =
    let (s, err) = begin begun new_session in
    elim err [
      | some e ↦ ok (s, some e)
      | none ↦ do (s', failed_with) ← f s; (s'', committed) ← end_tx ended s'; ok (s'', failed_with)
    ]
