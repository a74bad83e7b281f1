-- ===== src/GeeGorm/Migrate.antt =====
-- geeGorm/geegorm.go: `Migrate`, and `difference`, the columns that it adds or deletes.
pub mod Alters
pub mod Columns
pub mod Panics
mod Tests
use go_little_project.Base.{
  ◌≡◌, ◌↔◌, inl, inr, Bool, true, List, [], ◌∷◌, ◌++◌, none, some, GoString, GoMap, lookup, insert,
  str, join, str_eq, In, arith, str_beq_iff, lookup-insert, Option-cases, if◌then◌else◌, Outcome,
  ok, panic, demand, ◌>>=◌,
}
use go_little_project.GeeRpc.Client.{GoError}
use go_little_project.GeeGorm.Schema.{Dialect, Model, Field, Schema, get_field}
use go_little_project.GeeGorm.Clause.{Value}
use go_little_project.GeeGorm.Session.{
  Replies, Session, raw, exec_raw, query_rows, model, ref_table, create_table, has_table,
  transaction,
}

-- the first loop: the map of the old fields
unfoldable pub mark : List GoString → GoMap GoString Bool → GoMap GoString Bool
mark [] diff_map = diff_map
mark (field ∷ fields) diff_map = mark fields (insert field true diff_map)

-- the second loop: the new fields that the map does not have
unfoldable pub unmarked : GoMap GoString Bool → List GoString → List GoString
unmarked diff_map [] = []
unmarked diff_map (val ∷ vals) =
    let rest = unmarked diff_map vals in
    elim (lookup val diff_map) [ none ↦ val ∷ rest | some b ↦ rest ]

unfoldable pub difference : List GoString → List GoString → List GoString
difference old_fields new_fields = unmarked (mark old_fields []) new_fields

mark-lookup :
    (k : GoString) (fs : List GoString) (m : GoMap GoString Bool)
    → (lookup k (mark fs m) ≡ none) ↔ ((lookup k m ≡ none) × ¬ In k fs)
unfolding mark
mark-lookup k [] m = ((λ h. (h, λ e. e)), λ h. h.0)
mark-lookup k (f ∷ fs) m =
    ground (arith, mark-lookup k fs (insert f true m), lookup-insert f k true m, str_beq_iff f k)

unmarked-In :
    (k : GoString) (m : GoMap GoString Bool) (vs : List GoString)
    → In k (unmarked m vs) ↔ (In k vs × (lookup k m ≡ none))
unfolding unmarked
unmarked-In k m [] = ground arith
unmarked-In k m (v ∷ vs) = elim (Option-cases (lookup v m)) [
  | inl e ↦ rw (unmarked, e) (ground (arith, unmarked-In k m vs))
  | inr (b, e) ↦ rw (unmarked, e) (ground (arith, unmarked-In k m vs))
]

-- The difference holds exactly the new fields that are not old ones.
pub difference-In :
    (k : GoString) (old new : List GoString) → In k (difference old new) ↔ (In k new × ¬ In k old)
unfolding difference lookup
difference-In k old new = ground (arith, unmarked-In k (mark old []) new, mark-lookup k old [])

abbrev pub select_one : GoString → GoString
select_one table = str "SELECT * FROM " ++ (table ++ str " LIMIT 1")

abbrev pub alter_add : GoString → Field → GoString
alter_add table f =
    str "ALTER TABLE " ++ (table ++ (str " ADD COLUMN " ++ (f.name ++ (str " " ++ f.type))))

-- `columns` tells what `Columns` returns of the rows that a statement selects
module _ (columns : GoString → List GoString) (d : Dialect) (db : Replies) where
  -- the loop over the columns to add; a field that is nil is a nil dereference
  unfoldable pub add_columns : Schema → List GoString → Session → Outcome (Session × GoError)
  add_columns t [] s = ok (s, none)
  add_columns t (col ∷ cols) s = do
    field ← demand (get_field t col)
    let (s', (n, err)) = exec_raw db (raw s (alter_add t.name field) [])
    elim err [ some e ↦ ok (s', some e) | none ↦ add_columns t cols s' ]

  -- three statements are written, and sent as one
  unfoldable pub delete_columns : Schema → List GoString → Session → Session × GoError
  delete_columns t old_fields s =
      let tmp = str "tmp_" ++ t.name in
      let field_str = join old_fields (str ", ") in
      let s1 =
        raw s
          (str "CREATE TABLE "
            ++ (tmp ++ (str " SELECT AS " ++ (field_str ++ (str " FROM " ++ t.name)))))
          [] in
      let s2 = raw s1 (str "DROP TABLE " ++ t.name) [] in
      let s3 = raw s2 (str "ALTER TABLE " ++ (tmp ++ (str " RENAME TO " ++ t.name))) [] in
      let (s', (n, err)) = exec_raw db s3 in (s', err)

  -- what follows the test of the columns to delete
  unfoldable pub delete_some : Schema → List GoString → List GoString → Session → Session × GoError
  delete_some t old_fields [] s = (s, none)
  delete_some t old_fields (c ∷ cs) s = delete_columns t old_fields s

  -- the columns of a table that is there; `Columns` of the rows that a failed query returns is a
  -- nil dereference
  unfoldable pub change_columns : Schema → Session → Outcome (Session × GoError)
  change_columns t s = do
    let asked = raw s (select_one t.name) []
    let (s', (rows, err)) = query_rows db asked
    old_fields ← elim err [ none ↦ ok (columns asked.sql) | some e ↦ panic ]
    (added, failed_with) ← add_columns t (difference old_fields t.fields_name) s'
    elim failed_with [
      | some e ↦ ok (added, some e)
      | none ↦ ok (delete_some t old_fields (difference t.fields_name old_fields) added)
    ]

  -- the function that `Migrate` passes to `Transaction`
  unfoldable pub migrate_table : Model → Session → Outcome (Session × GoError)
  migrate_table value s = do
    s1 ← model d s value
    (s2, there) ← has_table d db s1
    if there then (do t ← ref_table s2; change_columns t s2) else create_table db s2

  -- `Migrate`; `begun` and `ended` are the errors of the transaction
  unfoldable pub migrate : GoError → GoError → Model → Outcome (Session × GoError)
  migrate begun ended value = transaction begun ended (migrate_table value)
