-- ===== src/Gee/Exact.antt =====
-- gee/base/base3/mygee/gee.go: an earlier stage of gee, whose routes are found by their exact path.
pub mod Finds
mod Tests
use go_little_project.Base.{[], ◌∷◌, ◌++◌, none, some, GoString, GoMap, lookup, insert, str, str_eq}

-- the method and the path
abbrev pub key_of : GoString → GoString → GoString
key_of method path = method ++ (b'-' ∷ path)

-- `Engine`, with handlers in `H`
pub record Engine {ℓ} (H : Type ℓ) : Type ℓ where
  pub router : GoMap GoString H

-- what a request gets: a handler, or a text
pub data Found {ℓ} (H : Type ℓ) : Type ℓ where
  runs : H → Found H
  writes : GoString → Found H

module _ {ℓ} {H : Type ℓ} where
  -- `New`
  unfoldable pub new : Engine H
  new = record { router = [] }

  unfoldable pub add_route : Engine H → GoString → GoString → H → Engine H
  add_route e method pattern handler = record e {
    router = insert (key_of method pattern) handler e.router;
  }

  -- `GET` and `POST`
  unfoldable pub get : Engine H → GoString → H → Engine H
  get e pattern handler = add_route e (str "GET") pattern handler

  unfoldable pub post : Engine H → GoString → H → Engine H
  post e pattern handler = add_route e (str "POST") pattern handler

  -- `ServeHTTP`
  unfoldable pub serve_http : Engine H → GoString → GoString → Found H
  serve_http e method path = elim (lookup (key_of method path) e.router) [
    | some handler ↦ runs handler
    | none ↦ writes (str "404 NOT FOUND " ++ (path ++ 10 ∷ []))
  ]
