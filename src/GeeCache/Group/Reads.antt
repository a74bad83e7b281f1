-- ===== src/GeeCache/Group/Reads.antt =====
-- What `Get` answers, and what a load leaves in the main cache.
use go_little_project.Base.{
  ℕ, ◌≡◌, refl, ◌≢◌, true, [], ◌∷◌, Option, none, some, GoString, lookup, str_eq, Outcome, ok,
  blocked, ◌>>=◌, inl, inr, str, beq_refl, All, Option-cases, Bool-cases, ◌⊎◌, arith, ap,
}
use go_little_project.GeeCache.Lru
use go_little_project.GeeCache.Lru.View.{Entries}
use go_little_project.GeeCache.Lru.Index.{view}
use go_little_project.GeeCache.Lru.Refines.{IsValid, spec_calls, get-refines}
use go_little_project.GeeCache.Lru.Reads.{get-add}
use go_little_project.GeeCache.Group.{
  ByteView, len, clone_bytes, MainCache, lru_of, add_main, get_main, Fetched, fetched, failed,
  Group, populate_cache, get_locally, ask_peer, fetch, do_key, load, get,
}

-- The keys and values of the main cache.
abbrev pub contents : MainCache → Entries ByteView
contents c = view (lru_of c).ll

-- What `Get` answers for a key: the cached value, or nothing at all.
abbrev pub answer : GoString → Option ByteView → Outcome Fetched
answer [] found = ok (failed (str "key is required"))
answer (c ∷ key) none = blocked
answer (c ∷ key) (some v) = ok (fetched v)

abbrev pub answered : Outcome (Group × Fetched) → Outcome Fetched
answered r = r >>= λ p. ok p.1

clone_bytes_lem : (b : GoString) → clone_bytes b ≡ b
unfolding clone_bytes
clone_bytes_lem [] = refl
clone_bytes_lem (c ∷ b) = ap (λ t. c ∷ t) (clone_bytes_lem b)

get_main_at :
    (n : ℕ) (o : Option (Lru.Cache ByteView)) (key : GoString)
    → IsValid len (lru_of (record { lru = o; cache_bytes = n }))
    → (c' : MainCache) × (get_main (record { lru = o; cache_bytes = n }) key
        ≡ ok (c', lookup key (contents (record { lru = o; cache_bytes = n }))))
unfolding get_main lru_of Lru.new lookup
get_main_at n none key h = (record { lru = none; cache_bytes = n }, refl)
get_main_at n (some l) key h =
    let (l', read, _, _) = get-refines len l h key in
    (record { lru = some l'; cache_bytes = n }, rw read refl)

get_main-contents :
    (c : MainCache) (key : GoString)
    → IsValid len (lru_of c)
    → (c' : MainCache) × (get_main c key ≡ ok (c', lookup key (contents c)))
get_main-contents c key h = get_main_at c.cache_bytes c.lru key h

-- A load waits for ever where the mutex is held, or the key is not in flight.
pub load-waits :
    (g : Group) (key : GoString)
    → (g.loader.locked ≡ true) ⊎ (lookup key g.loader.m ≡ none)
    → load g key ≡ blocked
unfolding load do_key
load-waits g key h = elim (Bool-cases g.loader.locked) [
  | inl held ↦ rw held refl
  | inr free ↦ elim h [ inl held ↦ absurd (ground arith) | inr idle ↦ rw (free, idle) refl ]
]

-- On a group whose main cache is valid, in any state of its loader in which the mutex is held or the
-- key is not in flight: an empty key gets an error, a cached key its value, and for every other key
-- `Get` never returns, since the loader locks its mutex twice.
pub get-answer :
    (g : Group) (key : GoString)
    → IsValid len (lru_of g.main_cache)
    → (g.loader.locked ≡ true) ⊎ (lookup key g.loader.m ≡ none)
    → answered (get g key) ≡ answer key (lookup key (contents g.main_cache))
unfolding get
get-answer g [] h waits = refl
get-answer g (b ∷ key) h waits =
    let (c, read) = get_main-contents g.main_cache (b ∷ key) h in
    elim (Option-cases (lookup (b ∷ key) (contents g.main_cache))) [
      | inl miss ↦
          rw (get, read, miss, load-waits (record g { main_cache = c }) (b ∷ key) waits) refl
      | inr (v, hit) ↦ rw (get, read, hit) refl
    ]

-- The function that `load` gives to `Do`, if it is run: where the peers leave the key to the getter,
-- which returns bytes, these are its result, and a `Get` of the main cache then returns them, unless
-- storing them evicted the key itself. It says nothing of `load`, whose `Do` waits before it.
fetch-get_main :
    (g : Group) (key bytes : GoString)
    → IsValid len (lru_of g.main_cache)
    → ask_peer g key ≡ none
    → g.getter key ≡ fetched bytes
    → All
        (λ e. e.0 ≢ key)
        (spec_calls len (lru_of g.main_cache).max_bytes true key bytes (contents g.main_cache))
    → (g' : Group) × (c' : MainCache) × (fetch g key ≡ ok (g', fetched bytes))
      × (get_main g'.main_cache key ≡ ok (c', some bytes))
unfolding fetch get_locally populate_cache add_main get_main
fetch-get_main g key bytes h alone found stays =
    let (l, l', calls, added, read) = get-add len (lru_of g.main_cache) key key bytes h stays in
    (
      record g { main_cache = record { lru = some l; cache_bytes = g.main_cache.cache_bytes } },
      record { lru = some l'; cache_bytes = g.main_cache.cache_bytes },
      rw (fetch, alone, get_locally, found, populate_cache, add_main, clone_bytes_lem bytes, added)
          refl,
      rw (get_main, read, beq_refl key) refl,
    )
