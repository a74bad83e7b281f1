-- ===== src/Gee/Engine/Tests.antt =====
-- Runs of the engine.
use go_little_project.Base.{
  inr, some, subst, arith, zero, suc, leb→le, ℕ, ◌+◌, leb, ◌≡◌, refl, [], ◌∷◌, ◌++◌, none, str,
  has_prefix, if◌then◌else◌, ok, ◌>>=◌, str_eq,
}
use go_little_project.Base.Slices.{Slice, append_to, IsSlice, not_longer}
use go_little_project.Gee.Router.{new_router}
use go_little_project.Gee.Engine
use go_little_project.Gee.Engine.{
  RouterGroup, Engine, Link, runs, not_found, new_engine, new_group, use_on, get_on,
  middlewares_for, serve_http,
}
use go_little_project.Gee.Engine.Shared.{Grows, HasSlices, middlewares_at, use_on-keeps}
use go_little_project.Gee.Engine.Siblings.{two_groups, two_groups-overwritten}
use go_little_project.Gee.Engine.Chains.{new_group-middlewares}

engine : Unit {0}
unfolding new_engine new_group use_on get_on middlewares_for serve_http Engine.add_route_on
    Engine.links Engine.last_link append_to
engine = tt

-- the capacity doubles
abbrev twice : ℕ → ℕ → ℕ
twice cap n = if leb n (cap + cap) then cap + cap else n

abbrev one : Slice
one = record { array = 0; len = 1; cap = 1 }

abbrev three : Slice
three = record { array = 2; len = 3; cap = 4 }

-- the engine's group with the middleware 1
abbrev with_logger : Engine ℕ
with_logger = record {
  router = new_router;
  router_groups = record { prefix = []; parent = none; middlewares = one } ∷ [];
  cells = (1 ∷ []) ∷ [];
}

use_logger : use_on twice new_engine 0 (1 ∷ []) ≡ ok with_logger
unfolding engine
use_logger = refl

-- below a new group the middleware 1 runs twice
runs_twice :
    (new_group with_logger 0 (str "/v1") >>= λ r.
    ok (middlewares_for r.0.cells r.0.router_groups (str "/v1/hello")))
    ≡ ok (1 ∷ 1 ∷ [])
unfolding engine
runs_twice = refl

new_group-middlewares_example :
    (e' : Engine ℕ) × (new_group with_logger 0 (str "/v1") ≡ ok (e', 1))
    × (middlewares_for e'.cells e'.router_groups (str "/v1/hello")
        ≡ middlewares_for with_logger.cells with_logger.router_groups (str "/v1/hello")
          ++ (if has_prefix (str "/v1/hello") ([] ++ str "/v1") then 1 ∷ [] else []))
new_group-middlewares_example =
    new_group-middlewares with_logger 0 (record { prefix = []; parent = none; middlewares = one })
      (str "/v1") (str "/v1/hello") refl

-- three calls of `Use` leave room for one more middleware
abbrev with_three : Engine ℕ
with_three = record {
  router = new_router;
  router_groups = record { prefix = []; parent = none; middlewares = three } ∷ [];
  cells = (1 ∷ []) ∷ (1 ∷ 2 ∷ []) ∷ (1 ∷ 2 ∷ 3 ∷ []) ∷ [];
}

use_three : (use_on twice with_logger 0 (2 ∷ []) >>= λ e. use_on twice e 0 (3 ∷ [])) ≡ ok with_three
unfolding engine
use_three = refl

twice-Grows : Grows twice
twice-Grows cap n = ground (arith, leb→le n (cap + cap))

with_three-HasSlices : HasSlices with_three
with_three-HasSlices zero g at =
    let it : three ≡ g.middlewares = cc at in
    subst (λ q. IsSlice with_three.cells q) it
      (record { len_cap = omega arith; there = inr (omega arith, omega arith) })
with_three-HasSlices (suc j) g at = absurd (ground (arith, at))

-- the group /a, which is given 8, runs the 9 of the group /b
overwritten :
    (two_groups twice with_three 0 (str "/a") (str "/b") 8 9 >>= λ r. ok (middlewares_at r.0 r.1))
    ≡ ok (some (1 ∷ 2 ∷ 3 ∷ 9 ∷ []))
unfolding engine middlewares_at two_groups
overwritten = refl

two_groups-overwritten_example :
    (e' : Engine ℕ) × (a : ℕ) × (b : ℕ) × (two_groups twice with_three 0 (str "/a") (str "/b") 8 9
      ≡ ok (e', a, b))
    × (middlewares_at e' a ≡ some (1 ∷ 2 ∷ 3 ∷ 9 ∷ []))
    × (middlewares_at e' b ≡ some (1 ∷ 2 ∷ 3 ∷ 9 ∷ []))
two_groups-overwritten_example =
    two_groups-overwritten twice with_three 0
      (record { prefix = []; parent = none; middlewares = three }) (str "/a") (str "/b") 8 9
      twice-Grows with_three-HasSlices refl (omega arith)

-- a group /a with one middleware of its own
abbrev with_apart : Engine ℕ
with_apart = record with_three {
  router_groups =
      record { prefix = []; parent = none; middlewares = three }
      ∷ record { prefix = str "/a"; parent = some 0; middlewares = one }
      ∷ [];
}

with_apart-HasSlices : HasSlices with_apart
with_apart-HasSlices zero g at = with_three-HasSlices zero g at
with_apart-HasSlices (suc zero) g at =
    let it : one ≡ g.middlewares = cc at in
    subst (λ q. IsSlice with_apart.cells q) it
      (record { len_cap = omega arith; there = inr (omega arith, omega arith) })
with_apart-HasSlices (suc (suc j)) g at = absurd (ground (arith, at))

use_on-keeps_example :
    (e' : Engine ℕ) × (use_on twice with_apart 0 (4 ∷ []) ≡ ok e')
    × HasSlices e'
    × (middlewares_at e' 0 ≡ some (1 ∷ 2 ∷ 3 ∷ 4 ∷ []))
    × (middlewares_at e' 1 ≡ some (1 ∷ []))
unfolding middlewares_at
use_on-keeps_example =
    use_on-keeps twice with_apart 0 1 (record { prefix = []; parent = none; middlewares = three })
      (record { prefix = str "/a"; parent = some 0; middlewares = one }) (4 ∷ []) twice-Grows
      with_apart-HasSlices refl (λ e. omega (arith, e)) refl (not_longer (omega arith))
