-- ===== src/GeeGorm/Migrate/Panics.antt =====
-- A migration in its transaction.
use go_little_project.Base.{
  ◌≡◌, refl, ◌≢◌, List, [], ◌∷◌, none, some, GoString, Outcome, ok, Yields, Yields-ok, Yields-bind,
  Yields-option, Yields-if, Option-cases, Bool-cases, inl, inr, demand, panic, ◌∙◌, ◌==◌, nat_eq,
}
use go_little_project.GeeRpc.Client.{GoError}
use go_little_project.GeeGorm.Schema.{Dialect, Model, Schema, get_field, parse}
use go_little_project.GeeGorm.Session.{
  Replies, Session, raw, clear, send_statement, exec_raw, query_rows, query_raw, model, ref_table,
  has_table, create_table,
}
use go_little_project.GeeGorm.Session.Panics.{transaction-ne}
use go_little_project.GeeGorm.Migrate.{
  difference, alter_add, select_one, add_columns, delete_columns, delete_some, change_columns,
  migrate_table, migrate,
}

-- whatever is returned beside the session, its transaction is that of `s`
abbrev KeepsTx {ℓ} : {R : Type ℓ} → Session → Outcome (Session × R) → Type ℓ
KeepsTx s m = Yields (λ r. r.0.tx ≡ s.tx) m

from_tx :
    {R : Type 0} (s s1 : Session) (m : Outcome (Session × R))
    → s1.tx ≡ s.tx
    → KeepsTx s1 m
    → KeepsTx s m
from_tx s s1 m same kept = record { at = λ r e. kept.at r e ∙ same }

exec_tx : (db : Replies) (s : Session) (sql : GoString) → (exec_raw db (raw s sql [])).0.tx ≡ s.tx
unfolding exec_raw raw send_statement clear
exec_tx db s sql = refl

model_tx : (d : Dialect) (s : Session) (value : Model) → Yields (λ x. x.tx ≡ s.tx) (model d s value)
unfolding model
model_tx d s value = elim (Option-cases s.schema) [
  | inl e ↦ rw (model, e) (Yields-bind _ (parse d value) _ λ t at. Yields-ok _ _ refl)
  | inr (old, e) ↦ elim (Bool-cases (value.type_id == old.model.type_id)) [
    | inl same ↦ rw (model, e, same) (Yields-ok _ s refl)
    | inr differs ↦
        rw (model, e, differs) (Yields-bind _ (parse d value) _ λ t at. Yields-ok _ _ refl)
  ]
]

module _ (columns : GoString → List GoString) (d : Dialect) (db : Replies) where
  add_columns_tx :
      (t : Schema) (cols : List GoString) (s : Session)
      → KeepsTx s (add_columns columns d db t cols s)
  unfolding add_columns exec_raw raw send_statement clear
  add_columns_tx t [] s = Yields-ok _ _ refl
  add_columns_tx t (c ∷ cs) s = Yields-bind _ (demand (get_field t c)) _ λ f at.
      let s' = (exec_raw db (raw s (alter_add t.name f) [])).0 in
      Yields-option _ (exec_raw db (raw s (alter_add t.name f) [])).1.1 _ _
        (from_tx s s' _ refl (add_columns_tx t cs s')) λ e. Yields-ok _ (s', some e) refl

  delete_some_tx :
      (t : Schema) (old cols : List GoString) (s : Session)
      → (delete_some columns d db t old cols s).0.tx ≡ s.tx
  unfolding delete_some delete_columns exec_raw raw send_statement clear
  delete_some_tx t old [] s = refl
  delete_some_tx t old (c ∷ cs) s = refl

  change_columns_tx : (t : Schema) (s : Session) → KeepsTx s (change_columns columns d db t s)
  unfolding change_columns query_rows raw send_statement clear
  change_columns_tx t s =
      let asked = raw s (select_one t.name) [] in
      let s1 = (query_rows db asked).0 in
      Yields-bind _
        (elim (query_rows db asked).1.1 [ none ↦ ok (columns asked.sql) | some e ↦ panic ]) _
        λ old known.
          Yields-bind _ (add_columns columns d db t (difference old t.fields_name) s1) _ λ r ran.
            let kept : r.0.tx ≡ s.tx =
              (add_columns_tx t (difference old t.fields_name) s1).at r ran in
            Yields-option _ r.1 _ _
              (Yields-ok _ _ (delete_some_tx t old (difference t.fields_name old) r.0 ∙ kept))
              λ e. Yields-ok _ (r.0, some e) kept

  has_table_tx : (s : Session) → KeepsTx s (has_table d db s)
  unfolding has_table query_raw raw send_statement clear
  has_table_tx s = Yields-bind _ (ref_table s) _ λ t at. Yields-ok _ _ refl

  create_table_tx : (s : Session) → KeepsTx s (create_table db s)
  unfolding create_table exec_raw raw send_statement clear
  create_table_tx s = Yields-bind _ (ref_table s) _ λ t at. Yields-ok _ _ refl

  migrate_table_tx : (value : Model) (s : Session) → KeepsTx s (migrate_table columns d db value s)
  unfolding migrate_table
  migrate_table_tx value s = Yields-bind _ (model d s value) _ λ s1 parsed.
      Yields-bind _ (has_table d db s1) _ λ r asked.
        let kept : r.0.tx ≡ s.tx =
          (has_table_tx s1).at r asked ∙ (model_tx d s value).at s1 parsed in
        Yields-if _ r.1 _ _
          (Yields-bind _ (ref_table r.0) _ λ t at. from_tx s r.0 _ kept (change_columns_tx t r.0))
          (from_tx s r.0 _ kept (create_table_tx r.0))

  -- `Migrate` never returns when the database has begun a transaction, whatever it answers.
  pub migrate-ne :
      (ended : GoError) (value : Model) (r : Session × GoError)
      → migrate columns d db none ended value ≢ ok r
  unfolding migrate
  migrate-ne ended value r =
      transaction-ne ended (migrate_table columns d db value) r
        (λ s q e. (migrate_table_tx value s).at q e)
