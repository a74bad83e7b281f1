-- ===== src/Gee/Router/Keeps.antt =====
-- The invariant of the router, and that no request makes it panic.
use go_little_project.Base.{
  ℕ, ◌≡◌, refl, ◌≢◌, inl, inr, [], ◌∷◌, Option, none, some, GoString, GoMap, lookup, insert, length,
  ◌==◌, str_eq, str_beq_iff, arith, Bool-cases, Option-cases, lookup-insert, lookup-insert_self,
  Outcome, ok, subst,
}
use go_little_project.Gee.Trie.{Node, part_of, pattern_of, insert_node, search}
use go_little_project.Gee.Trie.Shape.{
  IsTrie, IsTrie-mono, empty-IsTrie, insert-IsTrie, insert_empty-IsTrie, part-insert,
}
use go_little_project.Gee.Trie.Search.{search-IsEnd}
use go_little_project.Gee.Router.{
  Router, Params, new_router, parse_patterns, route_key, tree_of, bind_parts, add_route, get_route,
  handle,
}
use go_little_project.Gee.Router.Parse.{parse_patterns_lem, parse_patterns-nil, bind_parts_total}

module _ {H : Type 0} where
  -- The pattern has as many parts as its node is deep, and a handler is stored for it.
  abbrev pub IsRegistered : GoMap GoString H → GoString → ℕ → GoString → Type 0
  IsRegistered handlers method d pattern =
      (length (parse_patterns pattern) ≡ d) × (lookup (route_key method pattern) handlers ≢ none)

  pub record IsRoot (handlers : GoMap GoString H) (method : GoString) (tree : Node) : Type 0 where
    pub shape : IsTrie (IsRegistered handlers method) 0 tree
    pub top : part_of tree ≡ []

  pub record IsValid (r : Router H) : Type 0 where
    pub roots :
        (method : GoString) (tree : Node)
        → lookup method r.root ≡ some tree
        → IsRoot r.handlers method tree

  pub new-IsValid : IsValid (new_router {H = H})
  unfolding new_router lookup
  new-IsValid = record { roots = λ method tree h. absurd (ground arith) }

  insert-IsRoot :
      (hs : GoMap GoString H) (key : GoString) (h : H) (method : GoString) (tree : Node)
      → IsRoot hs method tree
      → IsRoot (insert key h hs) method tree
  insert-IsRoot hs key h method tree t = record {
    shape =
        IsTrie-mono (IsRegistered hs method) (IsRegistered (insert key h hs) method)
          (λ d s p. (p.0, ground (arith, p.1, lookup-insert key (route_key method s) h hs)))
          t.shape;
    top = t.top;
  }

  pub tree-IsRoot :
      (r : Router H) (method : GoString)
      → IsValid r
      → IsRoot r.handlers method (tree_of method r.root)
  tree-IsRoot r method v = elim (Option-cases (lookup method r.root)) [
    | inl e ↦ rw (e, tree_of) (record { shape = empty-IsTrie _; top = refl })
    | inr (tree, e) ↦ rw (e, tree_of) (v.roots method tree e)
  ]

  extend-IsRoot :
      (hs : GoMap GoString H) (method pattern : GoString) (h : H) (tree : Node)
      → IsRoot hs method tree
      → IsRoot
          (insert (route_key method pattern) h hs)
          method
          (insert_node pattern (parse_patterns pattern) tree)
  extend-IsRoot hs method [] h tree t =
      let old = insert-IsRoot hs (route_key method []) h method tree t in
      rw parse_patterns-nil (record {
        shape = insert_empty-IsTrie _ tree old.top old.shape;
        top = rw (part-insert [] [] tree) old.top;
      })
  extend-IsRoot hs method (b ∷ s) h tree t =
      let pattern : GoString = b ∷ s in
      let key = route_key method pattern in
      let old = insert-IsRoot hs key h method tree t in
      record {
        shape =
            insert-IsTrie _ pattern (ground arith) (parse_patterns pattern) 0 tree
              (parse_patterns_lem pattern).1
              (omega arith, λ e. absurd (ground (arith, lookup-insert_self key h hs))) old.shape;
        top = rw (part-insert pattern (parse_patterns pattern) tree) old.top;
      }

  -- To add a route keeps the router valid.
  pub add_route-IsValid :
      (r : Router H) (method pattern : GoString) (h : H)
      → IsValid r
      → IsValid (add_route r method pattern h)
  unfolding add_route
  add_route-IsValid r method pattern h v = record {
    roots = λ other tree found.
        let hs = insert (route_key method pattern) h r.handlers in
        let grown = insert_node pattern (parse_patterns pattern) (tree_of method r.root) in
        let at = lookup-insert method other grown r.root in
        elim (Bool-cases (method == other)) [
          | inl e ↦
              let same : method ≡ other = ground (arith, str_beq_iff method other) in
              let here : grown ≡ tree = ground (arith, at) in
              subst (λ m. IsRoot hs m tree) same
                (subst (λ t. IsRoot hs method t) here
                  (extend-IsRoot r.handlers method pattern h (tree_of method r.root)
                    (tree-IsRoot r method v)))
          | inr e ↦
              insert-IsRoot r.handlers (route_key method pattern) h other tree
                (v.roots other tree (ground (arith, at)))
        ];
  }

  -- What `handle` does on a valid router: it answers 404, or it puts a handler that is not nil
  -- behind the middlewares. It never panics.
  pub data Handled (o : Outcome (Option (Params × Option H))) : Type 0 where
    missed : o ≡ ok none → Handled o
    found : (params : Params) (h : H) → o ≡ ok (some (params, some h)) → Handled o

  pub search-handled :
      (r : Router H) (method path : GoString) (tree n : Node)
      → IsRoot r.handlers method tree
      → search (parse_patterns path) tree ≡ some n
      → (params : Params) × (h : H) × (bind_parts 0
            (parse_patterns (pattern_of n))
            (parse_patterns path)
            []
          ≡ ok params)
        × (lookup (route_key method (pattern_of n)) r.handlers ≡ some h)
  search-handled r method path tree n t e =
      let (k, le, (len, reg), ne) =
        search-IsEnd (IsRegistered r.handlers method) (parse_patterns path) 0 tree n t.shape e in
      let (params, all) =
        bind_parts_total (parse_patterns (pattern_of n)) 0 (parse_patterns path) [] (omega arith) in
      elim (Option-cases (lookup (route_key method (pattern_of n)) r.handlers)) [
        | inl nil_handler ↦ absurd (reg nil_handler)
        | inr (h, at) ↦ (params, h, all, at)
      ]

  pub handle-Handled :
      (r : Router H) (method path : GoString) → IsValid r → Handled (handle r method path)
  unfolding handle get_route
  handle-Handled r method path v = elim (Option-cases (lookup method r.root)) [
    | inl e ↦ missed (ground arith)
    | inr (tree, e) ↦ elim (Option-cases (search (parse_patterns path) tree)) [
      | inl s ↦ missed (ground arith)
      | inr (n, s) ↦
          let (params, h, all, at) =
            search-handled r method path tree n (v.roots method tree e) s in
          found params h (ground (arith, all, at))
    ]
  ]
