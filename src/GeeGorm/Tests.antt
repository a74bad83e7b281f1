-- ===== src/GeeGorm/Tests.antt =====
-- Runs of geeGorm's parts, and the theorems at concrete inputs.
use go_little_project.Base.{
  ◌≡◌, refl, [], ◌∷◌, GoString, str, lookup, insert, str_eq, nat_eq, join, ok, ◌>>=◌,
}
use go_little_project.GeeGorm.Clause
use go_little_project.GeeGorm.Clause.{
  Value, text, texts, many, Values, cons, nil, Sql, Clause, new_clause, generators, generate, set,
  build, gen_select, gen_where, gen_values, gen_bind_vars,
}

-- %s of a string, and of anything else a mark
abbrev show : Value → GoString
show (text s) = s
show _ = str "?"

abbrev user : Value
user = text (str "User")

abbrev columns : Value
columns = texts (str "Name" ∷ str "Age" ∷ [])

clauses : Unit {0}
unfolding generators generate set build Clause.put Clause.build_loop Clause.slice gen_select
    gen_where Clause.gen_insert gen_values Clause.values_loop gen_bind_vars Clause.question_marks
    Clause.len_values join lookup insert
clauses = tt

-- a row of two values and another one
insert_two :
    gen_values (many (cons user (cons columns nil)) ∷ many (cons user (cons user nil)) ∷ [])
    ≡ ok (
      str "VALUES (?, ?),(?, ?)",
      many (cons user (cons columns nil)) ∷ many (cons user (cons user nil)) ∷ [],
    )
unfolding clauses
insert_two = refl

-- the variables of WHERE come as one slice
select_where :
    (set (generators show) new_clause 2 (user ∷ columns ∷ []) >>= λ c.
    set (generators show) c 4 (text (str "Name = ?") ∷ user ∷ []) >>= λ d.
    ok (build d (2 ∷ 4 ∷ 5 ∷ [])))
    ≡ ok (str "SELECT Name,Age FROM User WHERE Name = ?", many nil ∷ many (cons user nil) ∷ [])
unfolding clauses
select_where = refl
