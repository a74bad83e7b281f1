-- ===== src/Gee/Engine.antt =====
-- gee/context/mygee/gee.go: the engine, its groups and the chain of handlers of a request. A
-- `*RouterGroup` is its place in the engine's list of groups. The middlewares of a group are a slice,
-- whose array a new group shares with its parent.
pub mod Chains
pub mod Shared
pub mod Siblings
mod Tests
use go_little_project.Base.{
  ℕ, zero, suc, ◌≡◌, Bool, List, [], ◌∷◌, ◌++◌, Option, none, some, GoString, str, has_prefix,
  str_eq, get_elem?, length, if◌then◌else◌, Outcome, ok, panic, demand, ◌>>=◌, set_at,
}
use go_little_project.Base.Slices.{Slice, nil_slice, elements, append_to}
use go_little_project.Gee.Router.{Router, new_router, add_route, handle, Params}

pub record RouterGroup : Type 0 where
  pub prefix : GoString
  pub parent : Option ℕ
  pub middlewares : Slice

-- the first group is the engine's own; `cells` are the arrays of the slices
pub record Engine (H : Type 0) : Type 0 where
  pub router : Router H
  pub router_groups : List RouterGroup
  pub cells : List (List H)

-- what a request runs: a handler, a nil one, which panics when it is called, or the answer 404
pub data Link (H : Type 0) : Type 0 where
  runs : H → Link H
  nil_handler : Link H
  not_found : Link H

-- `New`
unfoldable pub new_engine : {H : Type 0} → Engine H
new_engine = record {
  router = new_router;
  router_groups = record { prefix = []; parent = none; middlewares = nil_slice } ∷ [];
  cells = [];
}

module _ {H : Type 0} where
  -- `Use`; `grow` is how the runtime chooses the capacity of a new array
  unfoldable pub use_on : (ℕ → ℕ → ℕ) → Engine H → ℕ → List H → Outcome (Engine H)
  use_on grow e i middlewares = do
    g ← demand (get_elem? e.router_groups i)
    let (cells, used) = append_to grow e.cells g.middlewares middlewares
    ok (record e {
      router_groups = set_at i (record g { middlewares = used }) e.router_groups;
      cells = cells;
    })

  -- `Default`
  unfoldable pub default_engine : (ℕ → ℕ → ℕ) → H → H → Outcome (Engine H)
  default_engine grow logger recovery = use_on grow new_engine 0 (logger ∷ recovery ∷ [])

  -- `Group`, with the new group
  unfoldable pub new_group : Engine H → ℕ → GoString → Outcome (Engine H × ℕ)
  new_group e i prefix = do
    g ← demand (get_elem? e.router_groups i)
    let made : RouterGroup = record {
      prefix = g.prefix ++ prefix;
      parent = some i;
      middlewares = g.middlewares;
    }
    ok (record e { router_groups = e.router_groups ++ made ∷ [] }, length e.router_groups)

  -- `addRoute`: the prefix of the group plays no part
  unfoldable pub add_route_on : Engine H → ℕ → GoString → GoString → H → Outcome (Engine H)
  add_route_on e i method pattern handler = do
    g ← demand (get_elem? e.router_groups i)
    ok (record e { router = add_route e.router method pattern handler })

  unfoldable pub get_on : Engine H → ℕ → GoString → H → Outcome (Engine H)
  get_on e i pattern handler = add_route_on e i (str "GET") pattern handler

  unfoldable pub post_on : Engine H → ℕ → GoString → H → Outcome (Engine H)
  post_on e i pattern handler = add_route_on e i (str "POST") pattern handler

  -- the loop of `ServeHTTP`
  unfoldable pub middlewares_for : List (List H) → List RouterGroup → GoString → List H
  middlewares_for cells [] path = []
  middlewares_for cells (g ∷ gs) path =
      let rest = middlewares_for cells gs path in
      if has_prefix path g.prefix then elements cells g.middlewares ++ rest else rest

  unfoldable pub last_link : Option (Params × Option H) → Link H
  last_link none = not_found
  last_link (some (params, none)) = nil_handler
  last_link (some (params, some h)) = runs h

  unfoldable pub links : List H → List (Link H)
  links [] = []
  links (h ∷ hs) = runs h ∷ links hs

  -- `ServeHTTP`: the chain of handlers that `Next` begins
  unfoldable pub serve_http : Engine H → GoString → GoString → Outcome (List (Link H))
  serve_http e method path = do
    found ← handle e.router method path
    ok (links (middlewares_for e.cells e.router_groups path) ++ last_link found ∷ [])
