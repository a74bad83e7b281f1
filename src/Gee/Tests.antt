-- ===== src/Gee/Tests.antt =====
-- Runs of the router, and the theorems at concrete inputs.
use go_little_project.Base.{
  ℕ, ◌≡◌, refl, inl, inr, List, [], ◌∷◌, some, none, GoString, str, lookup, insert, join,
  split_from, arith, ok,
}
use go_little_project.Gee.Trie.{insert_node, update_child, search, match_children, first_found}
use go_little_project.Gee.Router.{
  new_router, parse_parts, parse_patterns, bind_part, bind_parts, add_route, get_route, handle,
}
use go_little_project.Gee.Router.Keeps.{Handled}
use go_little_project.Gee.Router.Routes.{
  Route, register, IsServed, register-serves, register-Handled,
}

router : Unit {0}
unfolding insert_node update_child search match_children first_found new_router parse_parts
    parse_patterns bind_part bind_parts add_route get_route handle register lookup insert join
    split_from
router = tt

abbrev get_method : GoString
get_method = str "GET"

abbrev hello : Route ℕ
hello = record { method = get_method; pattern = str "/hello/:name"; handler = 1 }

abbrev assets : Route ℕ
assets = record { method = get_method; pattern = str "/assets/*file"; handler = 2 }

abbrev routes : List (Route ℕ)
routes = assets ∷ hello ∷ []

named :
    handle (register new_router routes) get_method (str "/hello/gopher")
    ≡ ok (some ((str "name", str "gopher") ∷ [], some 1))
unfolding router
named = refl

rest_of_path :
    handle (register new_router routes) get_method (str "/assets/css/a.css")
    ≡ ok (some ((str "file", str "css/a.css") ∷ [], some 2))
unfolding router
rest_of_path = refl

-- Behind "/:a/x" the route "/b/y" serves "/c/y" too, a path that its pattern does not cover.
captured :
    handle {H = ℕ}
      (register new_router (
        record { method = get_method; pattern = str "/:a/x"; handler = 1 }
        ∷ record { method = get_method; pattern = str "/b/y"; handler = 2 }
        ∷ []))
      get_method
      (str "/c/y")
    ≡ ok (some ([], some 2))
unfolding router
captured = refl

abbrev styles : Route ℕ
styles = record { method = get_method; pattern = str "/assets/css/*file"; handler = 3 }

-- Behind "/a/:id/c" the route "/a/*x" is lost for longer paths, as its part was taken for ":id".
behind_colon :
    handle {H = ℕ}
      (register new_router (
        record { method = get_method; pattern = str "/a/:id/c"; handler = 1 }
        ∷ record { method = get_method; pattern = str "/a/*x"; handler = 2 }
        ∷ []))
      get_method
      (str "/a/b/c/d")
    ≡ ok none
unfolding router
behind_colon = refl

register-serves_example :
    IsServed (register new_router (hello ∷ styles ∷ [])) get_method (str "/assets/css/v1/a.css")
unfolding router
register-serves_example =
    register-serves (hello ∷ styles ∷ []) styles (str "/assets/css/v1/a.css")
      ((λ e. ground arith), ((λ e. ground arith), tt)) (inr (inl refl))
      (inr (2, refl, (inr tt, (inr refl, tt)))) (inr (inl refl, inr (inl refl, inl refl)))

register-Handled_example : Handled (handle (register new_router routes) get_method (str "/hello"))
register-Handled_example = register-Handled routes get_method (str "/hello")
