-- ===== src/Gee/Router.antt =====
-- gee/context/mygee/router.go
pub mod Parse
pub mod Keeps
pub mod Routes
pub mod Wildcards
use go_little_project.Base.{
  ℕ, suc, ◌+◌, ◌≡◌, Bool, true, false, ◌&&◌, List, [], ◌∷◌, ◌++◌, Option, none, some, GoString,
  GoMap, lookup, insert, str, split, join, length, get_elem?, drop, ltb, ◌==◌, str_eq,
  if◌then◌else◌, Outcome, ok, demand, ◌>>=◌,
}
use go_little_project.Gee.Trie.{Node, empty_node, first_is, insert_node, search, pattern_of}

-- `root` holds a tree for each method, `handlers` a handler for each method and pattern
pub record Router (H : Type 0) : Type 0 where
  pub root : GoMap GoString Node
  pub handlers : GoMap GoString H

unfoldable pub new_router : {H : Type 0} → Router H
new_router = record { root = []; handlers = [] }

-- the loop of `parsePatterns`: empty parts are left out, and a part that begins with `*` is the last
unfoldable pub parse_parts : List GoString → List GoString
parse_parts [] = []
parse_parts (part ∷ parts) =
    let rest = parse_parts parts in
    if part == [] then rest else if first_is b'*' part then part ∷ [] else part ∷ rest

unfoldable pub parse_patterns : GoString → List GoString
parse_patterns pattern = parse_parts (split pattern b'/')

-- `method + "-" + pattern`
abbrev pub route_key : GoString → GoString → GoString
route_key method pattern = method ++ (str "-" ++ pattern)

-- `r.root[method]`, made if it is missing
abbrev pub tree_of : GoString → GoMap GoString Node → Node
tree_of method root = elim (lookup method root) [ none ↦ empty_node | some n ↦ n ]

abbrev pub Params : Type 0
Params = GoMap GoString GoString

-- one round of the loop of `getRoute`; an index out of range panics
unfoldable pub bind_part : ℕ → GoString → List GoString → Params → Outcome Params
bind_part index part found params = do
  named ←
      if first_is b':' part && ltb 1 (length part)
      then (do value ← demand (get_elem? found index); ok (insert (drop 1 part) value params))
      else ok params
  if first_is b'*' part && ltb 1 (length part)
      then (if ltb (length found) index
          then Outcome.panic
          else ok (insert (drop 1 part) (join (drop index found) (str "/")) named))
      else ok named

-- the loop of `getRoute` over the parts of the pattern, from `index` on
unfoldable pub bind_parts : ℕ → List GoString → List GoString → Params → Outcome Params
bind_parts index [] found params = ok params
bind_parts index (part ∷ parts) found params = do
  params' ← bind_part index part found params
  bind_parts (suc index) parts found params'

module _ {H : Type 0} where
  unfoldable pub add_route : Router H → GoString → GoString → H → Router H
  add_route r method pattern handler = record {
    root =
        insert method (insert_node pattern (parse_patterns pattern) (tree_of method r.root)) r.root;
    handlers = insert (route_key method pattern) handler r.handlers;
  }

  -- `none` is the pair of nils
  unfoldable pub get_route : Router H → GoString → GoString → Outcome (Option (Node × Params))
  get_route r method path =
      let search_parts = parse_patterns path in
      elim (lookup method r.root) [
        | none ↦ ok none
        | some tree ↦ elim (search search_parts tree) [
          | none ↦ ok none
          | some n ↦ do
            params ← bind_parts 0 (parse_patterns (pattern_of n)) search_parts []
            ok (some (n, params))
        ]
      ]

  -- `handle` up to `c.Next()`: the parameters, and the handler that is put behind the middlewares,
  -- nil if the map has none; `none` stands for the handler that answers 404
  unfoldable pub handle : Router H → GoString → GoString → Outcome (Option (Params × Option H))
  handle r method path = do
    found ← get_route r method path
    ok (elim found [
      | none ↦ none
      | some (n, params) ↦ some (params, lookup (route_key method (pattern_of n)) r.handlers)
    ])
