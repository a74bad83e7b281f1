-- ===== src/Gee/Router/Routes.antt =====
-- Which requests the registered routes serve.
use go_little_project.Base.{
  subst, ℕ, suc, length, ◌⊎◌, ◌≡◌, ◌≢◌, inl, inr, List, [], ◌∷◌, none, some, GoString, lookup, ◌==◌,
  str_eq, str_beq_iff, arith, Bool-cases, Option-cases, lookup-insert, lookup-insert_self, ok, All,
  In,
}
use go_little_project.Gee.Trie.{Node, insert_node, search}
use go_little_project.Gee.Trie.Search.{insert-found}
use go_little_project.Gee.Trie.Free.{FreeBelow, FreeAt, empty-FreeBelow, insert-FreeBelow}
use go_little_project.Gee.Trie.Rest.{Covers, insert-Covers}
use go_little_project.Gee.Router.{
  Router, Params, new_router, parse_patterns, tree_of, add_route, get_route, handle,
}
use go_little_project.Gee.Router.Parse.{parse_patterns_lem}
use go_little_project.Gee.Router.Keeps.{
  IsValid, new-IsValid, tree-IsRoot, add_route-IsValid, Handled, handle-Handled, search-handled,
}

pub record Route (H : Type 0) : Type 0 where
  pub method : GoString
  pub pattern : GoString
  pub handler : H

module _ {H : Type 0} where
  -- the calls of `GET` and `POST` on a router, one after the other
  unfoldable pub register : Router H → List (Route H) → Router H
  register r [] = r
  register r (x ∷ xs) = register (add_route r x.method x.pattern x.handler) xs

  -- the request gets a handler that is not nil, and not the answer 404
  abbrev pub IsServed : Router H → GoString → GoString → Type 0
  IsServed r method path =
      (params : Params) × (h : H) × (handle r method path ≡ ok (some (params, some h)))

  search_of_served :
      (r : Router H) (method path : GoString)
      → IsServed r method path
      → (tree : Node) × (lookup method r.root ≡ some tree)
        × (search (parse_patterns path) tree ≢ none)
  unfolding handle get_route
  search_of_served r method path (params, h, e) = elim (Option-cases (lookup method r.root)) [
    | inl missing ↦ absurd (ground arith)
    | inr (tree, at) ↦ (tree, at, λ none_there. ground arith)
  ]

  IsServed-of_search :
      (r : Router H) (method path : GoString) (tree : Node)
      → IsValid r
      → lookup method r.root ≡ some tree
      → search (parse_patterns path) tree ≢ none
      → IsServed r method path
  unfolding handle get_route
  IsServed-of_search r method path tree v at ne =
      elim (Option-cases (search (parse_patterns path) tree)) [
        | inl s ↦ absurd (ne s)
        | inr (n, s) ↦
            let (params, h, all, stored) =
              search-handled r method path tree n (v.roots method tree at) s in
            (params, h, ground (arith, all, stored))
      ]

  -- the pattern and the path have as many parts, or the pattern ends where no `:` part stands, in
  -- the tree of its method and in the patterns with that method that are still to come
  abbrev HasRoom : Router H → List (Route H) → Route H → GoString → Type 0
  HasRoom r xs x path =
      (length (parse_patterns x.pattern) ≡ length (parse_patterns path))
      ⊎ ((k : ℕ) × (length (parse_patterns x.pattern) ≡ suc k)
          × FreeBelow k (tree_of x.method r.root)
          × All (λ y. (y.method ≢ x.method) ⊎ FreeAt k (parse_patterns y.pattern)) xs)

  add_route-FreeBelow :
      (r : Router H) (y : Route H) (method : GoString) (k : ℕ)
      → (y.method ≢ method) ⊎ FreeAt k (parse_patterns y.pattern)
      → FreeBelow k (tree_of method r.root)
      → FreeBelow k (tree_of method (add_route r y.method y.pattern y.handler).root)
  unfolding add_route
  add_route-FreeBelow r y method k a h =
      let grown = insert_node y.pattern (parse_patterns y.pattern) (tree_of y.method r.root) in
      let look = lookup-insert y.method method grown r.root in
      elim (Bool-cases (y.method == method)) [
        | inl e ↦
            let same : y.method ≡ method = ground (arith, str_beq_iff y.method method) in
            elim a [
              | inl other ↦ absurd (other same)
              | inr free ↦
                  rw (tree_of, look, e)
                    (insert-FreeBelow y.pattern (parse_patterns y.pattern) k _ free (rw same h))
            ]
        | inr e ↦ rw (tree_of, look, e) h
      ]

  HasRoom-next :
      (r : Router H) (y : Route H) (xs : List (Route H)) (x : Route H) (path : GoString)
      → HasRoom r (y ∷ xs) x path
      → HasRoom (add_route r y.method y.pattern y.handler) xs x path
  HasRoom-next r y xs x path (inl same) = inl same
  HasRoom-next r y xs x path (inr (k, len, free, (a, later))) =
      inr (k, len, add_route-FreeBelow r y x.method k a free, later)

  tree_room :
      (r : Router H) (xs : List (Route H)) (x : Route H) (path : GoString)
      → HasRoom r xs x path
      → (length (parse_patterns x.pattern) ≡ length (parse_patterns path))
        ⊎ ((k : ℕ) × (length (parse_patterns x.pattern) ≡ suc k)
            × FreeBelow k (tree_of x.method r.root))
  tree_room r xs x path (inl same) = inl same
  tree_room r xs x path (inr (k, len, free, later)) = inr (k, len, free)

  -- A route that is added serves every path that its pattern covers, if it has room.
  pub add_route-serves :
      (r : Router H) (xs : List (Route H)) (x : Route H) (path : GoString)
      → IsValid r
      → x.pattern ≢ []
      → HasRoom r xs x path
      → Covers (parse_patterns x.pattern) (parse_patterns path)
      → IsServed (add_route r x.method x.pattern x.handler) x.method path
  unfolding add_route
  add_route-serves r xs x path v ne h c =
      let root = tree-IsRoot r x.method v in
      IsServed-of_search _ x.method path _ (add_route-IsValid r x.method x.pattern x.handler v)
        (lookup-insert_self x.method _ r.root)
        (insert-Covers _ x.pattern ne (parse_patterns x.pattern) (parse_patterns path) _
          (parse_patterns_lem x.pattern).1 c (tree_room r xs x path h) root.shape)

  -- It leaves no path unserved that was served before.
  pub add_route-keeps :
      (r : Router H) (x : Route H) (method path : GoString)
      → IsValid r
      → x.pattern ≢ []
      → IsServed r method path
      → IsServed (add_route r x.method x.pattern x.handler) method path
  unfolding add_route
  add_route-keeps r x method path v ne s =
      let (tree, at, hit) = search_of_served r method path s in
      let valid = add_route-IsValid r x.method x.pattern x.handler v in
      let grown = insert_node x.pattern (parse_patterns x.pattern) (tree_of x.method r.root) in
      let look = lookup-insert x.method method grown r.root in
      elim (Bool-cases (x.method == method)) [
        | inl e ↦
            let same : tree_of x.method r.root ≡ tree =
              ground (arith, str_beq_iff x.method method) in
            IsServed-of_search _ method path grown valid (ground (arith, look)) (
              insert-found x.pattern ne (parse_patterns x.pattern) (parse_patterns path) _
                (rw same hit))
        | inr e ↦ IsServed-of_search _ method path tree valid (ground (arith, look)) hit
      ]

  abbrev pub HasPatterns : List (Route H) → Type 0
  HasPatterns = All (λ x. x.pattern ≢ [])

  register-keeps :
      (xs : List (Route H)) (r : Router H) (method path : GoString)
      → IsValid r
      → HasPatterns xs
      → IsServed r method path
      → IsServed (register r xs) method path
  unfolding register
  register-keeps [] r method path v hp s = s
  register-keeps (x ∷ xs) r method path v (ne, hp) s =
      register-keeps xs _ method path (add_route-IsValid r x.method x.pattern x.handler v) hp
        (add_route-keeps r x method path v ne s)

  register_from-serves :
      (xs : List (Route H)) (r : Router H) (x : Route H) (path : GoString)
      → IsValid r
      → HasPatterns xs
      → In x xs
      → HasRoom r xs x path
      → Covers (parse_patterns x.pattern) (parse_patterns path)
      → IsServed (register r xs) x.method path
  unfolding register
  register_from-serves [] r x path v hp m h c = elim m [ ]
  register_from-serves (y ∷ xs) r x path v (ne, hp) (inl e) h c = rw e (
      register-keeps xs _ y.method path (add_route-IsValid r y.method y.pattern y.handler v) hp (
        add_route-serves r (y ∷ xs) y path v ne (subst (λ z. HasRoom r (y ∷ xs) z path) e h)
          (rw e at c)))
  register_from-serves (y ∷ xs) r x path v (ne, hp) (inr m) h c =
      register_from-serves xs _ x path (add_route-IsValid r y.method y.pattern y.handler v) hp m
        (HasRoom-next r y xs x path h) c

  register-IsValid : (xs : List (Route H)) (r : Router H) → IsValid r → IsValid (register r xs)
  unfolding register
  register-IsValid [] r v = v
  register-IsValid (x ∷ xs) r v =
      register-IsValid xs _ (add_route-IsValid r x.method x.pattern x.handler v)

  -- the pattern and the path have as many parts, or no route of the same method has a `:` part at
  -- the place of the last part of the pattern
  abbrev pub IsApart : List (Route H) → Route H → GoString → Type 0
  IsApart xs x path =
      (length (parse_patterns x.pattern) ≡ length (parse_patterns path))
      ⊎ ((k : ℕ) × (length (parse_patterns x.pattern) ≡ suc k)
          × All (λ y. (y.method ≢ x.method) ⊎ FreeAt k (parse_patterns y.pattern)) xs)

  new-HasRoom :
      (xs : List (Route H)) (x : Route H) (path : GoString)
      → IsApart xs x path
      → HasRoom new_router xs x path
  unfolding new_router lookup
  new-HasRoom xs x path (inl same) = inl same
  new-HasRoom xs x path (inr (k, len, later)) = inr (k, len, empty-FreeBelow k, later)

  -- Whatever routes with patterns that are not empty are registered on a new router, and in
  -- whatever order: a request whose path is covered by the pattern of one of them, with its
  -- method, where a `:` part covers any one part and a last part with `*` the rest of the path, is
  -- given a handler and never the answer 404. The condition is that the path has as many parts as
  -- that pattern, or no route of the method has a `:` part at the place of the pattern's last part.
  pub register-serves :
      (xs : List (Route H)) (x : Route H) (path : GoString)
      → HasPatterns xs
      → In x xs
      → IsApart xs x path
      → Covers (parse_patterns x.pattern) (parse_patterns path)
      → IsServed (register new_router xs) x.method path
  register-serves xs x path hp m apart c =
      register_from-serves xs new_router x path new-IsValid hp m (new-HasRoom xs x path apart) c

  -- Whatever routes are registered on a new router, no request makes the router panic: it is
  -- given a handler that is not nil, or the answer 404.
  pub register-Handled :
      (xs : List (Route H)) (method path : GoString)
      → Handled (handle (register new_router xs) method path)
  register-Handled xs method path =
      handle-Handled _ method path (register-IsValid xs new_router new-IsValid)
