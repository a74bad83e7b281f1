-- ===== src/Gee/Engine/Chains.antt =====
-- Which middlewares a request runs.
use go_little_project.Base.{
  ◌⊎◌, ℕ, ◌≡◌, refl, List, [], ◌∷◌, ◌++◌, some, GoString, has_prefix, get_elem?, length,
  if◌then◌else◌, ok, ap, ◌∙◌, sym, Bool-cases, inl, inr, str_eq,
}
use go_little_project.Base.Slices.{elements}
use mathlib.Core.List.{append_assoc, append-nil}
use go_little_project.Gee.Router.Keeps.{IsValid, handle-Handled, missed, found}
use go_little_project.Gee.Engine.{
  Link, runs, not_found, last_link, links, serve_http, RouterGroup, Engine, new_group,
  middlewares_for,
}

module _ {H : Type 0} where
  middlewares_for-append :
      (cells : List (List H)) (gs hs : List RouterGroup) (path : GoString)
      → middlewares_for cells (gs ++ hs) path
        ≡ middlewares_for cells gs path ++ middlewares_for cells hs path
  unfolding middlewares_for
  middlewares_for-append cells [] hs path = refl
  middlewares_for-append cells (g ∷ gs) hs path = elim (Bool-cases (has_prefix path g.prefix)) [
    | inl e ↦
        rw (e, middlewares_for-append cells gs hs path)
          (sym (
            append_assoc (elements cells g.middlewares) (middlewares_for cells gs path)
              (middlewares_for cells hs path)))
    | inr e ↦ rw (e, middlewares_for-append cells gs hs path) refl
  ]

  -- A new group has the middlewares that its parent has so far, and since the parent stays in the
  -- list, a request below the new group's prefix runs these once more, at the end of the chain.
  -- Other requests run what they ran.
  pub new_group-middlewares :
      (e : Engine H) (i : ℕ) (g : RouterGroup) (prefix path : GoString)
      → get_elem? e.router_groups i ≡ some g
      → (e' : Engine H) × (new_group e i prefix ≡ ok (e', length e.router_groups))
        × (middlewares_for e'.cells e'.router_groups path
            ≡ middlewares_for e.cells e.router_groups path
              ++ (if has_prefix path (g.prefix ++ prefix)
                  then elements e.cells g.middlewares
                  else []))
  unfolding new_group middlewares_for
  new_group-middlewares e i g prefix path at = (
    record e {
      router_groups =
          e.router_groups
          ++ record { prefix = g.prefix ++ prefix; parent = some i; middlewares = g.middlewares }
            ∷ [];
    },
    rw (new_group, at) refl,
    middlewares_for-append e.cells e.router_groups _ path
        ∙ ap (λ t. middlewares_for e.cells e.router_groups path ++ t)
            (elim (Bool-cases (has_prefix path (g.prefix ++ prefix))) [
              | inl below ↦
                  rw (middlewares_for, below) (append-nil (elements e.cells g.middlewares))
              | inr out ↦ rw (middlewares_for, out) refl
            ]),
  )

  -- On an engine whose router is valid, `ServeHTTP` does not panic before the chain begins. The chain is the middlewares of the groups whose prefix the path has,
  -- and then one more link, which is a handler or the answer 404, and never nil.
  pub serve_http-chain :
      (e : Engine H) (method path : GoString)
      → IsValid e.router
      → (l : Link H) × (serve_http e method path
          ≡ ok (links (middlewares_for e.cells e.router_groups path) ++ l ∷ []))
        × ((l ≡ not_found) ⊎ ((h : H) × (l ≡ runs h)))
  unfolding serve_http last_link
  serve_http-chain e method path v = elim (handle-Handled e.router method path v) [
    | missed nothing ↦ (not_found, rw (serve_http, nothing) refl, inl refl)
    | found params h there ↦ (runs h, rw (serve_http, there) refl, inr (h, refl))
  ]
