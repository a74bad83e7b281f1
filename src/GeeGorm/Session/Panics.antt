-- ===== src/GeeGorm/Session/Panics.antt =====
-- The methods that never return.
use go_little_project.Base.{
  ℕ, ◌≡◌, refl, ◌≢◌, List, [], ◌∷◌, none, some, GoMap, nat_eq, nat_beq_iff, ◌==◌, arith, Outcome,
  ok, panic, Option-cases, inl, inr, Bool-cases, bind-ok, ap, sym, ◌∙◌,
}
use go_little_project.GeeRpc.Client.{GoError}
use go_little_project.GeeGorm.Schema.{
  Dialect, Model, Schema, Field, parse, no_struct, record_values, field_values, field_by_name,
  a_slice,
}
use go_little_project.GeeGorm.Clause.{Value, Sql}
use go_little_project.GeeGorm.Session.{
  Replies, Session, new_session, model, ref_table, set_clause, insert_loop, insert_rows, find,
  Result, begin, end_tx, transaction,
}

-- `Transaction` never returns when the database has begun one, whatever `f` does that does not set
-- the transaction of its session: there is none to commit then.
pub transaction-ne :
    (ended : GoError) (f : Session → Outcome (Session × GoError)) (r : Session × GoError)
    → ((s : Session) (q : Session × GoError) → f s ≡ ok q → q.0.tx ≡ s.tx)
    → transaction none ended f ≢ ok r
unfolding transaction begin end_tx new_session
transaction-ne ended f r keeps done =
    let ((s', err), ran, rest) = bind-ok (f new_session) _ r done in
    let (c, committed, _) = bind-ok (end_tx ended s') _ r rest in
    let none_set : s'.tx ≡ none = keeps new_session (s', err) ran in
    ground (arith, none_set, committed)

-- A value of a type without fields is no table: `Model` panics, unless the session's table has that
-- very type.
model-panics :
    (d : Dialect) (s : Session) (values : Model)
    → values.shape ≡ no_struct
    → ((t : Schema) → s.schema ≡ some t → values.type_id ≢ t.model.type_id)
    → model d s values ≡ panic
unfolding model parse
model-panics d s values flat apart = elim (Option-cases s.schema) [
  | inl e ↦ rw (model, e, parse, flat) refl
  | inr (t, e) ↦ elim (Bool-cases (values.type_id == t.model.type_id)) [
    | inl same ↦ absurd (apart t e ((nat_beq_iff values.type_id t.model.type_id).0 same))
    | inr differs ↦ rw (model, e, differs, parse, flat) refl
  ]
]

slice-no_fields :
    (fs : List Field) (values : List Model) (row : List Value)
    → field_values fs (a_slice values) ≡ ok row
    → fs ≡ []
unfolding field_values field_by_name
slice-no_fields [] values row e = refl
slice-no_fields (f ∷ fs) values row e = absurd (ground (arith, e))

-- `RecordValues` returns only for a table without fields.
record_values-fields :
    (t : Schema) (values : List Model) (row : List Value)
    → record_values t values ≡ ok row
    → t.fields ≡ []
unfolding record_values
record_values-fields t values row kept = slice-no_fields t.fields values row kept

module _ (table : GoMap ℕ (List Value → Outcome Sql)) (d : Dialect) (db : Replies) where
  -- `Find` of a pointer to a slice always panics, where the table of the session, if there is one,
  -- has another type: it asks `Model` for the fields of the slice.
  find-panics :
      (s : Session) (values : Model)
      → values.shape ≡ no_struct
      → ((t : Schema) → s.schema ≡ some t → values.type_id ≢ t.model.type_id)
      → find table d db s values ≡ panic
  unfolding find
  find-panics s values flat apart = rw (model-panics d s values flat apart) refl

  -- `Insert` never returns if the first value's type has a field that is kept: it asks the slice of
  -- its arguments for that field.
  pub insert_rows-ne :
      (s s' : Session) (v : Model) (vs : List Model) (t : Schema) (r : Session × Result)
      → model d s v ≡ ok s'
      → s'.schema ≡ some t
      → t.fields ≢ []
      → insert_rows table d db s (v ∷ vs) ≢ ok r
  unfolding insert_rows insert_loop ref_table record_values set_clause
  insert_rows-ne s s' v vs t r parsed there full done =
      let (rows, looped, _) = bind-ok (insert_loop table d db (v ∷ vs) s []) _ r done in
      let (s1, m, after) = bind-ok (model d s v) _ rows looped in
      let (t1, e, after') = bind-ok (ref_table s1) _ rows after in
      let (c, _, after'') = bind-ok (set_clause table s1 0 _) _ rows after' in
      let (row, kept, _) = bind-ok (record_values t1 (v ∷ [])) _ rows after'' in
      let same : t1 ≡ t = ground (arith, parsed, m, there, e) in
      full (ap (λ q. q.fields) (sym same) ∙ record_values-fields t1 (v ∷ []) row kept)
