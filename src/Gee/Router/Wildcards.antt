-- ===== src/Gee/Router/Wildcards.antt =====
-- What a route that ends in a wildcard binds.
use go_little_project.Base.{
  ◌≡◌, refl, ◌≢◌, true, false, List, [], ◌∷◌, ◌++◌, some, GoString, lookup, insert, str, join, All,
  IsFree, str_eq, str_beq_iff, beq_refl, arith, ok, has_prefix, lookup-insert_self,
}
use go_little_project.Gee.Trie.{
  Node, node, nil, cons, first_is, empty_node, insert_node, update_child, search, pattern_of,
  match_children, first_found,
}
use go_little_project.Gee.Router.{
  Router, new_router, add_route, handle, get_route, parse_parts, parse_patterns, bind_parts,
  route_key, Params,
}
use go_little_project.Gee.Router.Parse.{bind_part_lem, parse_patterns-nil}

-- A part that is no wildcard.
pub record IsPlain (part : GoString) : Type 0 where
  pub full : part ≢ []
  pub no_name : first_is b':' part ≡ false
  pub no_star : first_is b'*' part ≡ false
  pub one : IsFree b'/' part

pub parse_parts-plain :
    (parts rest : List GoString)
    → All IsPlain parts
    → parse_parts (parts ++ rest) ≡ parts ++ parse_parts rest
unfolding parse_parts
parse_parts-plain [] rest h = refl
parse_parts-plain (p ∷ ps) rest (h, hs) =
    ground (arith, parse_parts-plain ps rest hs, str_beq_iff p [], h.full, h.no_star)

-- the tree with one route
one_route : (pattern p star : GoString) → Node
one_route pattern p star =
    node [] [] (cons (node [] p (cons (node pattern star nil true) nil) false) nil) false

inserted :
    (pattern p name : GoString)
    → IsPlain p
    → insert_node pattern (p ∷ (b'*' ∷ name) ∷ []) empty_node ≡ one_route pattern p (b'*' ∷ name)
unfolding insert_node update_child one_route
inserted pattern p name h = rw (h.no_name, h.no_star) refl

starred : (p : GoString) → first_is b'*' p ≡ false → has_prefix p (str "*") ≡ false
starred [] e = refl
starred (b ∷ s) e = ground (arith, e)

found_below :
    (pattern p q name : GoString) (qs : List GoString)
    → IsPlain p
    → pattern ≢ []
    → search (p ∷ q ∷ qs) (one_route pattern p (b'*' ∷ name))
      ≡ some (node pattern (b'*' ∷ name) nil true)
unfolding search one_route match_children first_found
found_below pattern p q name [] h ne =
    ground (arith, str_beq_iff p p, str_beq_iff pattern [], starred p h.no_star, ne)
found_below pattern p q name (q' ∷ qs) h ne =
    ground (arith, str_beq_iff p p, str_beq_iff pattern [], starred p h.no_star, ne)

binds_rest :
    (p name q : GoString) (qs : List GoString)
    → IsPlain p
    → name ≢ []
    → bind_parts 0 (p ∷ (b'*' ∷ name) ∷ []) (p ∷ q ∷ qs) []
      ≡ ok ((name, join (q ∷ qs) (str "/")) ∷ [])
unfolding bind_parts insert
binds_rest p name q qs h named =
    rw
      (
        bind_part_lem 0 p (p ∷ q ∷ qs) [] p refl (omega arith),
        h.no_name,
        h.no_star,
        bind_part_lem 1 (b'*' ∷ name) (p ∷ q ∷ qs) [] q refl (omega arith),
      )
      (ground arith)

get_route_lem :
    {H : Type 0} (r : Router H) (method path : GoString) (tree n : Node) (params : Params)
    → lookup method r.root ≡ some tree
    → search (parse_patterns path) tree ≡ some n
    → bind_parts 0 (parse_patterns (pattern_of n)) (parse_patterns path) [] ≡ ok params
    → get_route r method path ≡ ok (some (n, params))
unfolding get_route
get_route_lem r method path tree n params at found binds = ground (arith, at, found, binds)

patterns_full :
    (pattern p : GoString) (ps : List GoString) → parse_patterns pattern ≡ p ∷ ps → pattern ≢ []
patterns_full pattern p ps e none_left = ground (arith, parse_patterns-nil, e, none_left)

one_tree :
    {H : Type 0} (method pattern p name : GoString) (h : H)
    → IsPlain p
    → parse_patterns pattern ≡ p ∷ (b'*' ∷ name) ∷ []
    → lookup method (add_route new_router method pattern h).root
      ≡ some (one_route pattern p (b'*' ∷ name))
unfolding add_route new_router lookup insert
one_tree method pattern p name h plain e =
    rw (beq_refl method, e, inserted pattern p name plain) refl

-- A route whose pattern ends in a wildcard answers every path below it: on a router with this route
-- alone, `handle` finds its handler, and binds the wildcard's name to the rest of the path.
pub handle-rest :
    {H : Type 0} (method pattern path p name q : GoString) (qs : List GoString) (h : H)
    → IsPlain p
    → name ≢ []
    → parse_patterns pattern ≡ p ∷ (b'*' ∷ name) ∷ []
    → parse_patterns path ≡ p ∷ q ∷ qs
    → handle (add_route new_router method pattern h) method path
      ≡ ok (some ((name, join (q ∷ qs) (str "/")) ∷ [], some h))
unfolding handle add_route new_router
handle-rest method pattern path p name q qs h plain named e e' =
    let n = node pattern (b'*' ∷ name) nil true in
    let params = (name, join (q ∷ qs) (str "/")) ∷ [] in
    let found =
      get_route_lem (add_route new_router method pattern h) method path
        (one_route pattern p (b'*' ∷ name)) n params (one_tree method pattern p name h plain e)
        (rw e' (found_below pattern p q name qs plain (patterns_full pattern p _ e)))
        (rw (e, e') (binds_rest p name q qs plain named)) in
    rw (found, lookup-insert_self (route_key method pattern) h []) refl
