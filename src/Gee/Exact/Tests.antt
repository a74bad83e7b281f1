-- ===== src/Gee/Exact/Tests.antt =====
-- Runs of the engine with exact paths.
use go_little_project.Base.{
  IsFree, ℕ, ◌≡◌, refl, List, [], ◌∷◌, ◌++◌, str, lookup, insert, str_eq, arith,
}
use go_little_project.Gee.Exact.{runs, writes, new, add_route, get, post, serve_http}
use go_little_project.Gee.Exact.Finds.{Route, add_routes, last_route}

abbrev routes : List (Route ℕ)
routes = (str "GET", str "/", 1) ∷ (str "GET", str "/hello", 2) ∷ (str "GET", str "/", 3) ∷ []

get-IsFree : IsFree b'-' (str "GET")
get-IsFree = ((λ e. ground arith), ((λ e. ground arith), ((λ e. ground arith), tt)))

exact : Unit {0}
unfolding lookup insert new add_route get post serve_http add_routes last_route
exact = tt

posted : serve_http {H = ℕ} (post (get new (str "/") 1) (str "/") 2) (str "POST") (str "/") ≡ runs 2
unfolding exact
posted = refl

missed :
    serve_http (add_routes new routes) (str "GET") (str "/x")
    ≡ writes (str "404 NOT FOUND /x" ++ 10 ∷ [])
unfolding exact
missed = refl
