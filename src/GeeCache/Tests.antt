-- ===== src/GeeCache/Tests.antt =====
-- Runs of the cache's parts, and the theorems at concrete inputs.
use go_little_project.Base.{
  inr, ℕ, ◌+◌, ◌-◌, ◌*◌, ◌≡◌, refl, ◌↔◌, ◌≤◌, ◌⊎◌, inl, inr, true, false, List, [], ◌∷◌, some,
  GoString, str, lookup, insert, delete, length, ◌==◌, nat_eq, str_eq, str_beq_iff, arith, In,
  Bool-cases, ok, itoa, none,
}
use go_little_project.Base.Int64.{lt64, add64, sub64}
use go_little_project.GeeCache.Lru.{
  Cache, new, get, add, place, shrink, remove_oldest, deref, remove, back, notify,
}
use go_little_project.GeeCache.Lru.View.{but_last, total}
use go_little_project.GeeCache.Lru.Index.{view}
use go_little_project.GeeCache.Lru.Refines.{
  IsValid, touch, spec_get, spec_add, spec_calls, add-refines, get-refines,
}
use go_little_project.GeeCache.Lru.Reads.{add_within_iff}
use go_little_project.GeeCache.SingleFlight.{
  new_flights, run, callers, At, Goroutine, at_lookup, at_relock, at_lock,
}
use go_little_project.GeeCache.SingleFlight.Stuck.{IsStuck, run-IsStuck, callers-IsStuck}
use go_little_project.GeeCache.Group
use go_little_project.GeeCache.Group.{
  Fetched, fetched, failed, ByteView, MainCache, fetch, get_main, ask_peer,
}
use go_little_project.GeeCache.Group.Reads.{answered, answer, contents, get-answer}
use go_little_project.GeeCache.ConsistentHash
use go_little_project.GeeCache.SingleFlight
use go_little_project.GeeCache.ConsistentHash.{
  Ring, sort_ints, insert_sorted, search_ge, add_replicas, add_all,
}
use go_little_project.GeeCache.ConsistentHash.Owner.{IsRing, add-IsRing, add-moves}

lru : Unit {0}
unfolding new get add place shrink remove_oldest deref remove back notify lookup insert delete lt64
    add64 sub64
lru = tt

abbrev len : GoString → ℕ
len = length

-- a cache of at most 6 bytes that holds "b" and, longer unused, "a"
abbrev filled : Cache GoString
filled = record {
  max_bytes = 6;
  n_bytes = 5;
  ll =
      record { ptr = 1; key = str "b"; value = str "y" }
      ∷ record { ptr = 0; key = str "a"; value = str "xx" }
      ∷ [];
  cache = (str "a", 0) ∷ (str "b", 1) ∷ [];
  on_evicted = true;
  next = 2;
}

filled-IsValid : IsValid len filled
unfolding lru
filled-IsValid = record {
  indexed = (refl, (refl, tt));
  present = λ k p h. elim (Bool-cases (str "a" == k)) [
    | inl e ↦ (str "xx", ground (arith, str_beq_iff (str "a") k))
    | inr e ↦ (str "y", ground (arith, str_beq_iff (str "b") k))
  ];
  bounded = λ k p h. ground arith;
  distinct = (refl, (refl, tt));
  counted = refl;
}

add_evicts :
    add len filled (str "c") (str "z")
    ≡ ok (
      record {
        max_bytes = 6;
        n_bytes = 4;
        ll =
            record { ptr = 2; key = str "c"; value = str "z" }
            ∷ record { ptr = 1; key = str "b"; value = str "y" }
            ∷ [];
        cache = (str "b", 1) ∷ (str "c", 2) ∷ [];
        on_evicted = true;
        next = 3;
      },
      (str "a", str "xx") ∷ [],
    )
unfolding lru
add_evicts = refl

add-refines_example :
    (c' : Cache GoString) × (add len filled (str "c") (str "z")
      ≡ ok (c', spec_calls len 6 true (str "c") (str "z") (view filled.ll)))
    × IsValid len c'
    × (view c'.ll ≡ spec_add len 6 (str "c") (str "z") (view filled.ll))
add-refines_example = add-refines len filled (str "c") (str "z") filled-IsValid

get-refines_example :
    (c' : Cache GoString) × (get filled (str "a") ≡ ok (c', lookup (str "a") (view filled.ll)))
    × IsValid len c'
    × (view c'.ll ≡ spec_get len (str "a") (view filled.ll))
get-refines_example = get-refines len filled filled-IsValid (str "a")

add_within_iff_example :
    (c' : Cache GoString) × (calls : List (GoString × GoString)) × (add len filled
        (str "c")
        (str "zzzzzzzz")
      ≡ ok (c', calls))
    × ((lt64 6 c'.n_bytes ≡ false)
        ↔ (total len (but_last (touch (str "c") (str "zzzzzzzz") (view filled.ll))) ≤ 6))
unfolding lru
add_within_iff_example =
    add_within_iff len filled (str "c") (str "zzzzzzzz") filled-IsValid (omega arith) (omega arith)

ring : Unit {0}
unfolding ConsistentHash.new ConsistentHash.add ConsistentHash.get sort_ints insert_sorted search_ge
    add_replicas add_all itoa lookup insert
ring = tt

-- the hash of the source's test: the number that the digits stand for
abbrev digits : ℕ → GoString → ℕ
digits acc [] = acc
digits acc (c ∷ s) = digits (acc * 10 + (c - b'0')) s

abbrev atoi : GoString → ℕ
atoi = digits 0

abbrev empty_ring : Ring
empty_ring = record { hash = atoi; replicas = 3; keys = []; hash_map = [] }

abbrev test_ring : Ring
test_ring = record {
  hash = atoi;
  replicas = 3;
  keys = 2 ∷ 4 ∷ 6 ∷ 12 ∷ 14 ∷ 16 ∷ 22 ∷ 24 ∷ 26 ∷ [];
  hash_map =
      (6, str "6")
      ∷ (16, str "6")
      ∷ (26, str "6")
      ∷ (4, str "4")
      ∷ (14, str "4")
      ∷ (24, str "4")
      ∷ (2, str "2")
      ∷ (12, str "2")
      ∷ (22, str "2")
      ∷ [];
}

added : ConsistentHash.add empty_ring (str "6" ∷ str "4" ∷ str "2" ∷ []) ≡ test_ring
unfolding ring
added = refl

-- the cases of `TestHashing`
hashing :
    (ConsistentHash.get test_ring (str "11") ≡ ok (str "2"))
    × (ConsistentHash.get test_ring (str "27") ≡ ok (str "2"))
    × (ConsistentHash.get (ConsistentHash.add test_ring (str "8" ∷ [])) (str "27") ≡ ok (str "8"))
unfolding ring
hashing = (refl, refl, refl)

test-IsRing : IsRing test_ring
unfolding ring
test-IsRing = rw (← added) (
    add-IsRing empty_ring (str "6" ∷ str "4" ∷ str "2" ∷ [])
      (record { sorted = tt; owned = λ x m. elim m [ ] }))

add-moves_example :
    (ConsistentHash.get (ConsistentHash.add test_ring (str "8" ∷ [])) (str "27")
      ≡ ConsistentHash.get test_ring (str "27"))
    ⊎ ((s : GoString) × In s (str "8" ∷ [])
        × (ConsistentHash.get (ConsistentHash.add test_ring (str "8" ∷ [])) (str "27") ≡ ok s))
add-moves_example = add-moves test_ring (str "8" ∷ []) (str "27") test-IsRing (λ e. ground arith)

-- two goroutines that want one key
abbrev two_callers : List Goroutine
two_callers = callers (str "Tom" ∷ str "Tom" ∷ [])

-- the first hangs in the second lock, the other one in the first
both_hang :
    (run (λ k. k) (0 ∷ 0 ∷ 1 ∷ 0 ∷ []) two_callers new_flights).0
    ≡ record { key = str "Tom"; at = at_relock } ∷ record { key = str "Tom"; at = at_lock } ∷ []
unfolding run SingleFlight.step SingleFlight.advance callers lookup
both_hang = refl

run-IsStuck_example :
    IsStuck
      (run (λ k. k) (0 ∷ 0 ∷ 1 ∷ 0 ∷ []) two_callers new_flights).0
      (run (λ k. k) (0 ∷ 0 ∷ 1 ∷ 0 ∷ []) two_callers new_flights).1
run-IsStuck_example =
    run-IsStuck (λ k. k) (0 ∷ 0 ∷ 1 ∷ 0 ∷ []) two_callers new_flights
      (callers-IsStuck (str "Tom" ∷ str "Tom" ∷ []))

-- a group whose cache is full, whose getter knows every key and that has no peers
abbrev scores : Group.Group
scores = record {
  name = str "scores";
  getter = λ k. fetched (str "z");
  main_cache = record { lru = some filled; cache_bytes = 6 };
  peers = none;
  loader = record { locked = false; m = [] };
}

get-answer_example :
    answered (Group.get scores (str "q"))
    ≡ answer (str "q") (lookup (str "q") (contents scores.main_cache))
unfolding Group.lru_of lookup
get-answer_example = get-answer scores (str "q") filled-IsValid (inr refl)
