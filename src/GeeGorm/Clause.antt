-- ===== src/GeeGorm/Clause.antt =====
-- geeGorm/clause: the clauses of an SQL statement. A Go value of type `interface{}` is a `Value`.
pub mod Builds
mod Fills
use go_little_project.Base.{
  ℕ, zero, suc, ◌+◌, ◌≡◌, List, [], ◌∷◌, ◌++◌, Option, none, some, GoString, GoMap, lookup, insert,
  str, nat_eq, join, length, if◌then◌else◌, ◌==◌, str_eq, Outcome, ok, panic, demand, ◌>>=◌,
}

-- what the calls of the clauses pass: a string, a []string, a slice, a map, or anything else
mutual
  pub data Value : Type 0 where
    text : GoString → Value
    texts : List GoString → Value
    many : Values → Value
    dict : List GoString → Values → Value
    other : ℕ → Value

  pub data Values : Type 0 where
    nil : Values
    cons : Value → Values → Values

unfoldable pub slice : List Value → Values
slice [] = nil
slice (v ∷ vs) = cons v (slice vs)

-- the type assertions
abbrev pub as_text : Value → Outcome GoString
as_text (text s) = ok s
as_text _ = panic

abbrev pub as_texts : Value → Outcome (List GoString)
as_texts (texts ss) = ok ss
as_texts _ = panic

abbrev pub as_slice : Value → Outcome Values
as_slice (many vs) = ok vs
as_slice _ = panic

abbrev pub as_dict : Value → Outcome (List GoString × Values)
as_dict (dict ks vs) = ok (ks, vs)
as_dict _ = panic

unfoldable pub len_values : Values → ℕ
len_values nil = 0
len_values (cons v vs) = suc (len_values vs)

unfoldable pub list_of : Values → List Value
list_of nil = []
list_of (cons v vs) = v ∷ list_of vs

-- the statement's text and its variables
abbrev pub Sql : Type 0
Sql = GoString × List Value

unfoldable pub question_marks : ℕ → List GoString
question_marks zero = []
question_marks (suc num) = str "?" ∷ question_marks num

unfoldable pub gen_bind_vars : ℕ → GoString
gen_bind_vars num = join (question_marks num) (str ", ")

-- the terms of SET, in the order in which the map is ranged over
unfoldable pub assignments : List GoString → List GoString
assignments [] = []
assignments (k ∷ ks) = (k ++ str " = ? ") ∷ assignments ks

-- the loop of `_values`
unfoldable pub values_loop : List Value → GoString → Sql → Outcome Sql
values_loop [] bind_str done = ok done
values_loop (value ∷ values) bind_str (sql, vars) = do
  v ← as_slice value
  let bound = if bind_str == [] then gen_bind_vars (len_values v) else bind_str
  let row = sql ++ (str "(" ++ (bound ++ str ")"))
  let more : GoString = elim values [ [] ↦ row | w ∷ ws ↦ row ++ str "," ]
  values_loop values bound (more, vars ++ many v ∷ [])

unfoldable pub gen_values : List Value → Outcome Sql
gen_values values = values_loop values [] (str "VALUES ", [])

unfoldable pub gen_limit : List Value → Outcome Sql
gen_limit values = ok (str "LIMIT ?", values)

-- `show` is what the verbs %s and %v print for a value.
module _ (show : Value → GoString) where
  unfoldable pub gen_update : List Value → Outcome Sql
  gen_update (table_name ∷ kvs ∷ rest) = do
    (ks, vs) ← as_dict kvs
    ok (
      str "UPDATE " ++ (show table_name ++ (str " SEt " ++ join (assignments ks) (str ","))),
      list_of vs,
    )
  gen_update _ = panic

  unfoldable pub gen_delete : List Value → Outcome Sql
  gen_delete (table_name ∷ rest) = do name ← as_text table_name; ok (str "DELETE FROM " ++ name, [])
  gen_delete [] = panic

  unfoldable pub gen_select : List Value → Outcome Sql
  gen_select (table_name ∷ columns ∷ rest) = do
    fields ← as_texts columns
    ok (str "SELECT " ++ (join fields (str ",") ++ (str " FROM " ++ show table_name)), [])
  gen_select _ = panic

  unfoldable pub gen_count : List Value → Outcome Sql
  gen_count (table_name ∷ rest) = gen_select (table_name ∷ texts (str "count(*)" ∷ []) ∷ [])
  gen_count [] = panic

  unfoldable pub gen_insert : List Value → Outcome Sql
  gen_insert (table_name ∷ columns ∷ rest) = do
    fields ← as_texts columns
    ok (
      str "INSERT INTO " ++ (show table_name ++ (str "(" ++ (join fields (str ",") ++ str ")"))),
      [],
    )
  gen_insert _ = panic

  unfoldable pub gen_where : List Value → Outcome Sql
  gen_where (desc ∷ vars) = ok (str "WHERE " ++ show desc, vars)
  gen_where [] = panic

  unfoldable pub gen_orderby : List Value → Outcome Sql
  gen_orderby (field ∷ rest) = ok (str "ORDER BY " ++ show field, [])
  gen_orderby [] = panic

  -- the table that `init` means to fill, for the constants of `Type`. The source never makes the
  -- map, so that `init` panics (Clause/Fills); what takes a table is stated for any.
  unfoldable pub generators : GoMap ℕ (List Value → Outcome Sql)
  generators =
      (0, gen_insert)
      ∷ (1, gen_values)
      ∷ (2, gen_select)
      ∷ (4, gen_where)
      ∷ (3, gen_limit)
      ∷ (5, gen_orderby)
      ∷ (6, gen_update)
      ∷ (7, gen_delete)
      ∷ (8, gen_count)
      ∷ []

-- `Clause`
pub record Clause : Type 0 where
  pub sql : GoMap ℕ GoString
  pub sql_vars : GoMap ℕ (List Value)

abbrev pub new_clause : Clause
new_clause = record { sql = []; sql_vars = [] }

unfoldable pub put : Clause → ℕ → Sql → Clause
put c name (sql, vars) = record {
  sql = insert name sql c.sql;
  sql_vars = insert name vars c.sql_vars;
}

-- the generator of that name, on these values; a nil function panics
unfoldable pub generate : GoMap ℕ (List Value → Outcome Sql) → ℕ → List Value → Outcome Sql
generate table name values = do generator ← demand (lookup name table); generator values

-- `Set`, with the table of generators
unfoldable pub set : GoMap ℕ (List Value → Outcome Sql) → Clause → ℕ → List Value → Outcome Clause
set table c name values = do made ← generate table name values; ok (put c name made)

-- the variables of a clause, nil if it has none
abbrev pub vars_of : Option (List Value) → List Value
vars_of none = []
vars_of (some vs) = vs

-- the loop of `Build`: the variables of a clause are appended as one value
unfoldable pub build_loop : Clause → List ℕ → List GoString × List Value
build_loop c [] = ([], [])
build_loop c (order ∷ orders) =
    let (sqls, sql_vars) = build_loop c orders in
    elim (lookup order c.sql) [
      | none ↦ (sqls, sql_vars)
      | some s ↦ (s ∷ sqls, many (slice (vars_of (lookup order c.sql_vars))) ∷ sql_vars)
    ]

unfoldable pub build : Clause → List ℕ → Sql
build c orders = let (sqls, sql_vars) = build_loop c orders in (join sqls (str " "), sql_vars)
