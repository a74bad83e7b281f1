-- ===== src/GeeGorm/Session/Sends.antt =====
-- What the methods send to the database and what they leave in the session.
use go_little_project.Base.{
  ℕ, ◌≡◌, refl, List, [], ◌∷◌, ◌++◌, GoString, GoMap, lookup, nat_eq, nat_beq_iff, arith, Outcome,
  ok, ◌>>=◌, Option, none, some, join, str, bind-ok, Yields, Yields-ok, Yields-bind, ok_inj, sym,
  lookup-insert, ap, ◌∙◌, ◌≢◌,
}
use go_little_project.GeeGorm.Schema.{Dialect}
use go_little_project.GeeGorm.Clause.{
  Value, Sql, Clause, set, put, generate, build, build_loop, vars_of, text, many, slice, other,
}
use go_little_project.GeeGorm.Session.{
  Replies, Session, raw, clear, send_statement, exec_raw, query_raw, ref_table, set_clause,
  raw_clauses, create_table, drop_table, has_table, count, delete_rows, update_rows, update_map,
}

-- the methods that send one statement
pub data Method : Type 0 where
  counts deletes updates : List Value → Method
  creates drops asks : Method

-- the clauses that a method builds its statement of
abbrev pub orders_of : Method → Option (List ℕ)
orders_of (counts vs) = some (8 ∷ 4 ∷ [])
orders_of (deletes vs) = some (7 ∷ 4 ∷ [])
orders_of (updates vs) = some (6 ∷ 4 ∷ [])
orders_of _ = none

-- One statement has been sent, which begins with what the session had before; where it is built of
-- clauses, what follows is what `Build` makes of them.
abbrev pub IsSent : Option (List ℕ) → Session → Session → Type 0
IsSent none s s' =
    (more : GoString) × (vs : List Value) × (s'.sent
      ≡ s.sent ++ (s.sql ++ more, s.sql_val ++ vs) ∷ [])
IsSent (some orders) s s' =
    s'.sent
    ≡ s.sent
      ++ (
        s.sql ++ ((build s'.clause orders).0 ++ str " "),
        s.sql_val ++ many (slice (build s'.clause orders).1) ∷ [],
      )
        ∷ []

-- The statement has been sent, the text and the variables of the session are cleared, and what
-- belongs to the next statement is as before: the table, the transaction and the clause WHERE with
-- its variables, so that `Build` makes the same of it.
pub record HasSent (orders : Option (List ℕ)) (s s' : Session) : Type 0 where
  pub one : IsSent orders s s'
  pub cleared : (s'.sql ≡ []) × (s'.sql_val ≡ [])
  pub same_table : s'.schema ≡ s.schema
  pub same_tx : s'.tx ≡ s.tx
  pub same_where : build s'.clause (4 ∷ []) ≡ build s.clause (4 ∷ [])

sent-HasSent :
    (s : Session) (sql : GoString) (vs : List Value)
    → HasSent none s (send_statement (raw s sql vs))
unfolding send_statement clear raw
sent-HasSent s sql vs = record {
  one = (_, _, refl);
  cleared = (refl, refl);
  same_table = refl;
  same_tx = refl;
  same_where = refl;
}

-- what `Build` makes of one clause
abbrev built : Option GoString → Option (List Value) → Sql
built clause vars =
    let (sqls, sql_vars) : List GoString × List Value = elim clause [
      | none ↦ ([], [])
      | some s ↦ (s ∷ [], many (slice (vars_of vars)) ∷ [])
    ] in
    (join sqls (str " "), sql_vars)

build_where :
    (c c' : Clause)
    → lookup 4 c'.sql ≡ lookup 4 c.sql
    → lookup 4 c'.sql_vars ≡ lookup 4 c.sql_vars
    → build c' (4 ∷ []) ≡ build c (4 ∷ [])
unfolding build build_loop
build_where c c' e e' =
    ap (λ o. built o (lookup 4 c'.sql_vars)) e ∙ ap (λ v. built (lookup 4 c.sql) v) e'

module _ (table : GoMap ℕ (List Value → Outcome Sql)) where
  set_where :
      (s c : Session) (name : ℕ) (values : List Value)
      → name ≢ 4
      → set_clause table s name values ≡ ok c
      → (c.sent ≡ s.sent)
        × (c.schema ≡ s.schema)
        × (c.tx ≡ s.tx)
        × (c.sql ≡ s.sql)
        × (c.sql_val ≡ s.sql_val)
        × (build c.clause (4 ∷ []) ≡ build s.clause (4 ∷ []))
  unfolding set_clause set put
  set_where s c name values ne e =
      let (cl, made, done) = bind-ok (set table s.clause name values) _ c e in
      let (q, generated, stored) = bind-ok (generate table name values) _ cl made in
      let c_is : c ≡ record s { clause = put s.clause name q } =
        sym (ok_inj done) ∙ ap (λ x. record s { clause = x }) (sym (ok_inj stored)) in
      rw c_is (
        refl,
        refl,
        refl,
        refl,
        refl,
        build_where _ _
            (ground (arith, lookup-insert name 4 q.0 s.clause.sql, nat_beq_iff name 4, ne))
            (ground (arith, lookup-insert name 4 q.1 s.clause.sql_vars, nat_beq_iff name 4, ne)),
      )

  clauses-HasSent :
      (s c : Session) (name : ℕ) (values : List Value) (orders : List ℕ)
      → name ≢ 4
      → set_clause table s name values ≡ ok c
      → HasSent (some orders) s (send_statement (raw_clauses c orders))
  unfolding raw_clauses raw send_statement clear
  clauses-HasSent s c name values orders ne e =
      let (sent, schema, tx, sql, sql_val, kept) = set_where s c name values ne e in
      let h =
        sent-HasSent c (build c.clause orders).0 (many (slice (build c.clause orders).1) ∷ []) in
      record {
        one = rw (sym sent, sym sql, sym sql_val) refl;
        cleared = h.cleared;
        same_table = h.same_table ∙ schema;
        same_tx = h.same_tx ∙ tx;
        same_where = h.same_where ∙ kept;
      }

  module _ (d : Dialect) (db : Replies) where
    -- A method, with the session that it leaves.
    unfoldable pub method : Method → Session → Outcome Session
    method (counts vs) s = count table d db s vs >>= λ r. ok r.0
    method (deletes vs) s = delete_rows table d db s vs >>= λ r. ok r.0
    method (updates vs) s = update_rows table d db s vs >>= λ r. ok r.0
    method creates s = create_table db s >>= λ r. ok r.0
    method drops s = drop_table db s >>= λ r. ok r.0
    method asks s = has_table d db s >>= λ r. ok r.0

    -- the name of the table, one clause that is not WHERE, and then the statement
    count-HasSent :
        (s : Session) (vs : List Value)
        → Yields (λ r. HasSent (some (8 ∷ 4 ∷ [])) s r.0) (count table d db s vs)
    unfolding count query_raw
    count-HasSent s vs = Yields-bind _ (ref_table s) _ λ t at.
        Yields-bind _ (set_clause table s 8 (other 0 ∷ text t.name ∷ many (slice vs) ∷ [])) _
          λ c stored. Yields-ok _ _ (
            clauses-HasSent s c 8 (other 0 ∷ text t.name ∷ many (slice vs) ∷ []) (8 ∷ 4 ∷ [])
              (λ e. ground (arith, e)) stored)

    delete_rows-HasSent :
        (s : Session) (vs : List Value)
        → Yields (λ r. HasSent (some (7 ∷ 4 ∷ [])) s r.0) (delete_rows table d db s vs)
    unfolding delete_rows exec_raw
    delete_rows-HasSent s vs = Yields-bind _ (ref_table s) _ λ t at.
        Yields-bind _ (set_clause table s 7 (text t.name ∷ many (slice vs) ∷ [])) _ λ c stored.
          Yields-ok _ _ (
            clauses-HasSent s c 7 (text t.name ∷ many (slice vs) ∷ []) (7 ∷ 4 ∷ [])
              (λ e. ground (arith, e)) stored)

    update_rows-HasSent :
        (s : Session) (vs : List Value)
        → Yields (λ r. HasSent (some (6 ∷ 4 ∷ [])) s r.0) (update_rows table d db s vs)
    unfolding update_rows exec_raw
    update_rows-HasSent s vs = Yields-bind _ (update_map vs) _ λ m given.
        Yields-bind _ (ref_table s) _ λ t at.
          Yields-bind _ (set_clause table s 6 (text t.name ∷ m ∷ [])) _ λ c stored. Yields-ok _ _ (
            clauses-HasSent s c 6 (text t.name ∷ m ∷ []) (6 ∷ 4 ∷ []) (λ e. ground (arith, e))
              stored)

    create_table-HasSent : (s : Session) → Yields (λ r. HasSent none s r.0) (create_table db s)
    unfolding create_table exec_raw
    create_table-HasSent s =
        Yields-bind _ (ref_table s) _ λ t at. Yields-ok _ _ (sent-HasSent s _ _)

    drop_table-HasSent : (s : Session) → Yields (λ r. HasSent none s r.0) (drop_table db s)
    unfolding drop_table exec_raw
    drop_table-HasSent s = Yields-bind _ (ref_table s) _ λ t at. Yields-ok _ _ (sent-HasSent s _ _)

    has_table-HasSent : (s : Session) → Yields (λ r. HasSent none s r.0) (has_table d db s)
    unfolding has_table query_raw
    has_table-HasSent s = Yields-bind _ (ref_table s) _ λ t at. Yields-ok _ _ (sent-HasSent s _ _)

    left-HasSent :
        {R : Type 0} (orders : Option (List ℕ)) (s : Session) (m : Outcome (Session × R))
        → Yields (λ r. HasSent orders s r.0) m
        → Yields (HasSent orders s) (m >>= λ r. ok r.0)
    left-HasSent orders s m y = Yields-bind _ m _ λ r e. Yields-ok _ r.0 (y.at r e)

    -- COUNT, DELETE, UPDATE, CreateTable, DropTable and HasTable, if they return, with whatever
    -- answer of the database: each has sent one statement, which begins with the text and the
    -- variables that the session had, and cleared both; for the first three, what follows is what
    -- `Build` makes of the clause of the method and WHERE. The clause WHERE and its variables are
    -- still there: `Build` makes the same of it for the next statement.
    pub method-HasSent :
        (m : Method) (s s' : Session) → method m s ≡ ok s' → HasSent (orders_of m) s s'
    unfolding method
    method-HasSent (counts vs) s s' e = (left-HasSent _ s _ (count-HasSent s vs)).at s' e
    method-HasSent (deletes vs) s s' e = (left-HasSent _ s _ (delete_rows-HasSent s vs)).at s' e
    method-HasSent (updates vs) s s' e = (left-HasSent _ s _ (update_rows-HasSent s vs)).at s' e
    method-HasSent creates s s' e = (left-HasSent _ s _ (create_table-HasSent s)).at s' e
    method-HasSent drops s s' e = (left-HasSent _ s _ (drop_table-HasSent s)).at s' e
    method-HasSent asks s s' e = (left-HasSent _ s _ (has_table-HasSent s)).at s' e
