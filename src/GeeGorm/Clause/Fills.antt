-- ===== src/GeeGorm/Clause/Fills.antt =====
-- geeGorm/clause/generator.go: `init`, which fills the table of the generators.
use go_little_project.Base.{
  ℕ, ◌≡◌, refl, List, [], Option, none, some, GoMap, GoString, insert, nat_eq, Outcome, ok, panic,
  ◌>>=◌,
}
use go_little_project.GeeGorm.Clause.{
  Value, Sql, generators, gen_insert, gen_values, gen_select, gen_where, gen_limit, gen_orderby,
  gen_update, gen_delete, gen_count,
}

abbrev Generator : Type 0
Generator = List Value → Outcome Sql

-- an assignment to a map that may be nil
unfoldable assign :
    Option (GoMap ℕ Generator) → ℕ → Generator → Outcome (Option (GoMap ℕ Generator))
assign none name g = panic
assign (some m) name g = ok (some (insert name g m))

module _ (show : Value → GoString) where
  -- `init`, on the value that the variable `generators` has
  unfoldable init_on : Option (GoMap ℕ Generator) → Outcome (Option (GoMap ℕ Generator))
  init_on variable = do
    v1 ← assign variable 0 (gen_insert show)
    v2 ← assign v1 1 gen_values
    v3 ← assign v2 2 (gen_select show)
    v4 ← assign v3 4 (gen_where show)
    v5 ← assign v4 3 gen_limit
    v6 ← assign v5 5 (gen_orderby show)
    v7 ← assign v6 6 (gen_update show)
    v8 ← assign v7 7 (gen_delete show)
    assign v8 8 (gen_count show)

  -- on the map that the source never makes
  init_nil : init_on none ≡ panic
  unfolding init_on assign
  init_nil = refl

  init_made : init_on (some []) ≡ ok (some (generators show))
  unfolding init_on assign insert generators
  init_made = refl
