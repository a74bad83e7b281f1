-- ===== src/GeeGorm/Migrate/Alters.antt =====
-- The statements that add the columns of a table.
use go_little_project.Base.{
  map-In, none_In, ◌≡◌, refl, ◌↔◌, inl, inr, List, [], ◌∷◌, ◌++◌, none, some, GoString, str, map,
  str_eq, In, arith, Option-cases,
}
use go_little_project.GeeGorm.Schema.{Field, Schema, get_field}
use go_little_project.GeeGorm.Schema.Fields.{IsTable}
use go_little_project.GeeGorm.Clause.{Sql}
use go_little_project.GeeGorm.Migrate.{difference, difference-In, alter_add}

-- A statement as it is sent, without variables.
abbrev pub plain : GoString → Sql
plain sql = (sql ++ str " ", [])

-- The fields of the columns.
unfoldable pub fields_at : Schema → List GoString → List Field
fields_at t [] = []
fields_at t (c ∷ cs) = elim (get_field t c) [ none ↦ fields_at t cs | some f ↦ f ∷ fields_at t cs ]

-- The statements that add the columns.
unfoldable pub alters : Schema → List GoString → List Sql
alters t cols = map (λ f. plain (alter_add t.name f)) (fields_at t cols)

pub fields_at-In :
    (t : Schema) (f : Field) (cols : List GoString)
    → In f (fields_at t cols) ↔ ((c : GoString) × In c cols × (get_field t c ≡ some f))
unfolding fields_at
fields_at-In t f [] = (λ m. absurd m, λ m. absurd m.1)
fields_at-In t f (c ∷ cs) =
    let (to, back) = fields_at-In t f cs in
    elim (Option-cases (get_field t c)) [
      | inl e ↦
          rw (fields_at, e)
            (
              λ m. let (k, i, at) = to m in (k, inr i, at),
              λ (k, i, at). elim i [
                | inl same ↦ absurd (ground (arith, same, at, e))
                | inr i' ↦ back (k, i', at)
              ],
            )
      | inr (g, e) ↦
          rw (fields_at, e)
            (
              λ m. elim m [
                | inl same ↦ (c, inl refl, rw same e)
                | inr m' ↦ let (k, i, at) = to m' in (k, inr i, at)
              ],
              λ (k, i, at). elim i [
                | inl same ↦ inl (ground (arith, same, at, e))
                | inr i' ↦ inr (back (k, i', at))
              ],
            )
    ]

-- A name of a table is the name of one of its fields.
pub names-In :
    (t : Schema) (c : GoString)
    → IsTable t
    → In c t.fields_name ↔ ((f : Field) × In f t.fields × (c ≡ f.name))
names-In t c table = rw (table.names) (map-In (λ (f : Field). f.name) c t.fields)

-- The statements that add columns are those of the fields that the old columns do not have.
pub alters-In :
    (t : Schema) (old : List GoString) (q : Sql)
    → IsTable t
    → In q (alters t (difference old t.fields_name))
      ↔ ((f : Field) × In f t.fields × ¬ In f.name old × (q ≡ plain (alter_add t.name f)))
unfolding alters
alters-In t old q table =
    let cols = difference old t.fields_name in
    let (to, back) = map-In (λ f. plain (alter_add t.name f)) q (fields_at t cols) in
    (
      λ m.
          let (f, i, e) = to m in
          let (c, at_c, at) = (fields_at-In t f cols).0 i in
          let (named, fresh) = (difference-In c old t.fields_name).0 at_c in
          let (g, into, same) = (names-In t c table).0 named in
          let it : f ≡ g = ground (arith, same, at, table.found g into) in
          (f, rw it into, rw it (λ o. fresh (rw same o)), e),
      λ (f, into, fresh, e). back (
        f,
        (fields_at-In t f cols).1 (
          f.name,
          (difference-In f.name old t.fields_name).1
              ((names-In t f.name table).1 (f, into, refl), fresh),
          table.found f into,
        ),
        e,
      ),
    )

pub difference-empty :
    (old new : List GoString)
    → (difference new old ≡ []) ↔ ((k : GoString) → ¬ (In k old × ¬ In k new))
difference-empty old new = (
  λ e k h. let m = (difference-In k new old).1 h in absurd (rw e at m),
  λ none_left. none_In (difference new old) λ k m. none_left k ((difference-In k new old).0 m),
)
