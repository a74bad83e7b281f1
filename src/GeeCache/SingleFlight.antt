-- ===== src/GeeCache/SingleFlight.antt =====
-- geeCache/singleflight/singleflight.go: `Do`, as the steps that goroutines take. A step ends where
-- `Do` may wait: at a lock, at `wg.Wait`, and at the call of `fn`.
pub mod Stuck
use go_little_project.Base.{
  ℕ, zero, suc, ◌+◌, Bool, true, false, List, [], ◌∷◌, Option, none, some, GoString, GoMap, lookup,
  insert, delete, str_eq, ◌++◌, get_elem?, length, if◌then◌else◌, str,
}

-- `call`; `val` is none until `fn` has returned
pub record Flight : Type 0 where
  pub wg : ℕ
  pub val : Option GoString

-- where a goroutine stands in `Do`
pub data At : Type 0 where
  at_lock : At
  at_lookup : At
  at_wait : (c : ℕ) → At
  at_relock : At
  at_make : At
  at_fn : (c : ℕ) → At
  at_clean : (c : ℕ) → At
  at_delete : (c : ℕ) → At
  at_return : (v : Option GoString) → At

pub record Goroutine : Type 0 where
  pub key : GoString
  pub at : At

-- `Group`, with the calls it has made and how often a `fn` has run. A `*call` is its index.
pub record Flights : Type 0 where
  pub locked : Bool
  pub m : GoMap GoString ℕ
  pub flights : List Flight
  pub runs : ℕ

abbrev pub new_flights : Flights
new_flights = record { locked = false; m = []; flights = []; runs = 0 }

unfoldable pub set_flight : ℕ → Flight → List Flight → List Flight
set_flight i f [] = []
set_flight zero f (g ∷ gs) = f ∷ gs
set_flight (suc i) f (g ∷ gs) = g ∷ set_flight i f gs

-- `g.mu.Lock()`, which waits while the mutex is held
abbrev pub lock : Flights → At → Option (Flights × At)
lock g next = if g.locked then none else some (record g { locked = true }, next)

-- one step of one goroutine, none while it waits; `fn` is what the loader returns for a key
unfoldable pub advance : (GoString → GoString) → GoString → At → Flights → Option (Flights × At)
advance fn key at_lock g = lock g at_lookup
advance fn key at_lookup g = elim (lookup key g.m) [
  | some c ↦ some (record g { locked = false }, at_wait c)
  | none ↦ some (g, at_relock)
]
advance fn key (at_wait c) g = elim (get_elem? g.flights c) [
  | none ↦ none
  | some f ↦ elim f.wg [ zero ↦ some (g, at_return f.val) | suc n ↦ none ]
]
advance fn key at_relock g = lock g at_make
advance fn key at_make g =
    let c = length g.flights in
    some (
      record g {
        locked = false;
        m = insert key c g.m;
        flights = g.flights ++ record { wg = 1; val = none } ∷ [];
      },
      at_fn c,
    )
advance fn key (at_fn c) g = some (
  record g {
    flights = set_flight c (record { wg = 0; val = some (fn key) }) g.flights;
    runs = suc g.runs;
  },
  at_clean c,
)
advance fn key (at_clean c) g = lock g (at_delete c)
advance fn key (at_delete c) g = some (
  record g { locked = false; m = delete key g.m },
  at_return (elim (get_elem? g.flights c) [ none ↦ none | some f ↦ f.val ]),
)
advance fn key (at_return v) g = none

-- the goroutine of that number takes a step if it can
unfoldable pub step :
    (GoString → GoString) → ℕ → List Goroutine → Flights → List Goroutine × Flights
step fn i [] g = ([], g)
step fn zero (r ∷ rs) g = elim (advance fn r.key r.at g) [
  | none ↦ (r ∷ rs, g)
  | some (g', at) ↦ (record r { at = at } ∷ rs, g')
]
step fn (suc i) (r ∷ rs) g = let (rs', g') = step fn i rs g in (r ∷ rs', g')

-- the scheduler names the goroutine that goes on
unfoldable pub run :
    (GoString → GoString) → List ℕ → List Goroutine → Flights → List Goroutine × Flights
run fn [] rs g = (rs, g)
run fn (i ∷ is) rs g = let (rs', g') = step fn i rs g in run fn is rs' g'

-- goroutines that call `Do`
unfoldable pub callers : List GoString → List Goroutine
callers [] = []
callers (k ∷ ks) = record { key = k; at = at_lock } ∷ callers ks
