-- ===== src/Gee/Exact/Finds.antt =====
-- The handlers that requests get by their exact path.
use go_little_project.Base.{
  ◌≡◌, refl, inl, inr, ap, ◌∙◌, Bool-cases, ◌&&◌, Option, Option-cases, Bool, List, [], ◌∷◌, ◌++◌,
  none, some, GoString, lookup, str, str_eq, str_beq_iff, ◌==◌, IsFree, arith, lookup-insert,
  if◌then◌else◌, All,
}
use go_little_project.Gee.Exact.{key_of, Engine, Found, runs, writes, new, add_route, serve_http}

-- Methods without a dash and their paths can be read off the key.
key_of-inj :
    (m n p q : GoString)
    → IsFree b'-' m
    → IsFree b'-' n
    → key_of m p ≡ key_of n q
    → (m ≡ n) × (p ≡ q)
key_of-inj [] [] p q fm fn e = (refl, cc e)
key_of-inj [] (d ∷ n) p q fm (ne, fn) e = absurd (ne (cc e))
key_of-inj (c ∷ m) [] p q (ne, fm) fn e = absurd (ne (cc e))
key_of-inj (c ∷ m) (d ∷ n) p q (_, fm) (_, fn) e =
    let tails : key_of m p ≡ key_of n q = cc e in
    let heads : c ≡ d = cc e in
    let (em, ep) = key_of-inj m n p q fm fn tails in (cc (heads, em), ep)

-- the key's test is that of the method and of the path
key_of_test :
    (m n p q : GoString)
    → IsFree b'-' m
    → IsFree b'-' n
    → (key_of m p == key_of n q) ≡ (m == n && p == q)
key_of_test m n p q fm fn = elim (Bool-cases (key_of m p == key_of n q)) [
  | inl e ↦
      let (em, ep) = key_of-inj m n p q fm fn ((str_beq_iff (key_of m p) (key_of n q)).0 e) in
      ground (arith, e, str_beq_iff m n, str_beq_iff p q, em, ep)
  | inr e ↦ elim (Bool-cases (m == n)) [
    | inr em ↦ ground (arith, e, em)
    | inl em ↦ elim (Bool-cases (p == q)) [
      | inr ep ↦ ground (arith, e, em, ep)
      | inl ep ↦
          let same_m : m ≡ n = (str_beq_iff m n).0 em in
          let same_p : p ≡ q = (str_beq_iff p q).0 ep in
          let keys : key_of m p ≡ key_of n q = cc (same_m, same_p) in
          absurd (ground (arith, e, (str_beq_iff (key_of m p) (key_of n q)).1 keys))
    ]
  ]
]

-- a method, a pattern and a handler
abbrev pub Route : Type 0 → Type 0
Route H = GoString × GoString × H

module _ {H : Type 0} where
  -- The routes are added one after another.
  unfoldable pub add_routes : Engine H → List (Route H) → Engine H
  add_routes e [] = e
  add_routes e ((method, pattern, handler) ∷ routes) =
      add_routes (add_route e method pattern handler) routes

  -- The handler of the last route with that method and that path.
  unfoldable pub last_route : List (Route H) → GoString → GoString → Option H
  last_route [] m p = none
  last_route ((method, pattern, handler) ∷ routes) m p = elim (last_route routes m p) [
    | some later ↦ some later
    | none ↦ if method == m && pattern == p then some handler else none
  ]

  abbrev pub AreMethods : List (Route H) → Type 0
  AreMethods routes = All (λ r. IsFree b'-' r.0) routes

  abbrev or_else : Option H → Found H → Found H
  or_else none f = f
  or_else (some h) f = runs h

  serve_http-added :
      (e : Engine H) (method pattern m p : GoString) (handler : H)
      → IsFree b'-' method
      → IsFree b'-' m
      → serve_http (add_route e method pattern handler) m p
        ≡ or_else (if method == m && pattern == p then some handler else none) (serve_http e m p)
  unfolding add_route serve_http
  serve_http-added e method pattern m p handler fm fn =
      elim (Bool-cases (method == m && pattern == p)) [
        | inl same ↦
            rw
              (
                serve_http,
                add_route,
                lookup-insert (key_of method pattern) (key_of m p) handler e.router,
                key_of_test method m pattern p fm fn,
                same,
              )
              refl
        | inr differs ↦
            rw
              (
                serve_http,
                add_route,
                lookup-insert (key_of method pattern) (key_of m p) handler e.router,
                key_of_test method m pattern p fm fn,
                differs,
              )
              refl
      ]

  or_else_assoc :
      (o : Option H) (b : Bool) (h : H) (f : Found H)
      → or_else o (or_else (if b then some h else none) f)
        ≡ or_else (elim o [ some later ↦ some later | none ↦ if b then some h else none ]) f
  or_else_assoc none b h f = refl
  or_else_assoc (some later) b h f = refl

  added_lem :
      (e : Engine H) (routes : List (Route H)) (m p : GoString)
      → AreMethods routes
      → IsFree b'-' m
      → serve_http (add_routes e routes) m p ≡ or_else (last_route routes m p) (serve_http e m p)
  unfolding add_routes last_route
  added_lem e [] m p h fn = refl
  added_lem e ((method, pattern, handler) ∷ routes) m p (fm, h) fn =
      added_lem (add_route e method pattern handler) routes m p h fn
      ∙ ap (or_else (last_route routes m p)) (serve_http-added e method pattern m p handler fm fn)
      ∙ or_else_assoc (last_route routes m p) (method == m && pattern == p) handler
          (serve_http e m p)

  -- Whatever routes are registered on a new engine, where no method has a dash: a request whose
  -- method has none either runs the handler of the last route with that method and that very path,
  -- and without such a route it gets the text of the answer 404.
  pub serve_http-last :
      (routes : List (Route H)) (m p : GoString)
      → AreMethods routes
      → IsFree b'-' m
      → serve_http (add_routes new routes) m p ≡ elim (last_route routes m p) [
        | some handler ↦ runs handler
        | none ↦ writes (str "404 NOT FOUND " ++ (p ++ 10 ∷ []))
      ]
  unfolding new serve_http lookup
  serve_http-last routes m p h fn = elim (Option-cases (last_route routes m p)) [
    | inl e ↦ added_lem new routes m p h fn ∙ rw e refl
    | inr (handler, e) ↦ added_lem new routes m p h fn ∙ rw e refl
  ]
