-- ===== src/GeeCache/SingleFlight/Stuck.antt =====
-- `Do` locks its mutex a second time before it makes a call, so it never gets to `fn`.
use go_little_project.Base.{
  ℕ, zero, suc, ◌≡◌, refl, Bool, true, false, List, [], ◌∷◌, none, some, GoString, lookup, str_eq,
  ap, All, inl, inr, Bool-cases, Option, Option-cases,
}
use go_little_project.GeeCache.SingleFlight.{
  At, at_lock, at_lookup, at_wait, at_relock, at_make, at_fn, at_clean, at_delete, at_return,
  Goroutine, Flights, new_flights, advance, step, run, callers,
}

-- A goroutine that is before the second lock, and holds the mutex from the first one on.
abbrev pub IsEarly : Bool → At → Type 0
IsEarly locked at_lock = Unit
IsEarly locked at_lookup = locked ≡ true
IsEarly locked at_relock = locked ≡ true
IsEarly locked _ = ⊥

-- Every goroutine is early, and no call has been made or run.
pub record IsStuck (rs : List Goroutine) (g : Flights) : Type 0 where
  pub none_made : g.m ≡ []
  pub none_run : g.runs ≡ 0
  pub early : All (λ r. IsEarly g.locked r.at) rs

IsEarly-mono : (l l' : Bool) (a : At) → (l ≡ true → l' ≡ true) → IsEarly l a → IsEarly l' a
IsEarly-mono l l' at_lock k h = tt
IsEarly-mono l l' at_lookup k h = k h
IsEarly-mono l l' at_relock k h = k h
IsEarly-mono l l' (at_wait c) k h = h
IsEarly-mono l l' at_make k h = h
IsEarly-mono l l' (at_fn c) k h = h
IsEarly-mono l l' (at_clean c) k h = h
IsEarly-mono l l' (at_delete c) k h = h
IsEarly-mono l l' (at_return v) k h = h

AreEarly-mono :
    (l l' : Bool) (rs : List Goroutine)
    → (l ≡ true → l' ≡ true)
    → All (λ r. IsEarly l r.at) rs
    → All (λ r. IsEarly l' r.at) rs
AreEarly-mono l l' [] k h = tt
AreEarly-mono l l' (r ∷ rs) k (a, h) = (IsEarly-mono l l' r.at k a, AreEarly-mono l l' rs k h)

-- What one step of an early goroutine leaves.
abbrev IsKept : Flights → Option (Flights × At) → Type 0
IsKept g none = Unit
IsKept g (some (g', b)) =
    (g'.m ≡ []) × (g'.runs ≡ 0) × (g.locked ≡ true → g'.locked ≡ true) × IsEarly g'.locked b

advance-IsKept :
    (fn : GoString → GoString) (key : GoString) (a : At) (g : Flights)
    → g.m ≡ []
    → g.runs ≡ 0
    → IsEarly g.locked a
    → IsKept g (advance fn key a g)
unfolding advance lookup
advance-IsKept fn key at_lock g m r h = elim (Bool-cases g.locked) [
  | inl l ↦ rw l tt
  | inr l ↦ rw l (m, r, (λ k. refl), refl)
]
advance-IsKept fn key at_lookup g m r h =
    let miss : lookup key g.m ≡ none = ap (lookup key) m in rw (miss, advance) (m, r, (λ k. k), h)
advance-IsKept fn key at_relock g m r h = rw h tt
advance-IsKept fn key (at_wait c) g m r h = absurd h
advance-IsKept fn key at_make g m r h = absurd h
advance-IsKept fn key (at_fn c) g m r h = absurd h
advance-IsKept fn key (at_clean c) g m r h = absurd h
advance-IsKept fn key (at_delete c) g m r h = absurd h
advance-IsKept fn key (at_return v) g m r h = absurd h

step-IsStuck :
    (fn : GoString → GoString) (i : ℕ) (rs : List Goroutine) (g : Flights)
    → IsStuck rs g
    → IsStuck (step fn i rs g).0 (step fn i rs g).1
      × (g.locked ≡ true → (step fn i rs g).1.locked ≡ true)
unfolding step
step-IsStuck fn i [] g h =
    (record { none_made = h.none_made; none_run = h.none_run; early = tt }, λ l. l)
step-IsStuck fn zero (r ∷ rs) g h =
    let kept = advance-IsKept fn r.key r.at g h.none_made h.none_run h.early.0 in
    elim (Option-cases (advance fn r.key r.at g)) [
      | inl waits ↦ rw (step, waits) (h, (λ l. l))
      | inr ((g', b), moves) ↦
          let (m, n, still, b_early) = (rw moves at kept) in
          rw (step, moves)
            (
              record {
                none_made = m;
                none_run = n;
                early = (b_early, AreEarly-mono g.locked g'.locked rs still h.early.1);
              },
              still,
            )
    ]
step-IsStuck fn (suc i) (r ∷ rs) g h =
    let (next, still) =
      step-IsStuck fn i rs g
        (record { none_made = h.none_made; none_run = h.none_run; early = h.early.1 }) in
    (
      record {
        none_made = next.none_made;
        none_run = next.none_run;
        early = (IsEarly-mono g.locked (step fn i rs g).1.locked r.at still h.early.0, next.early);
      },
      still,
    )

-- Whatever goroutines that are all before the second lock of the mutex go on, and however they
-- are scheduled: all of them still are. No call has been made and no `fn` has run, so no `Do` has
-- returned.
pub run-IsStuck :
    (fn : GoString → GoString) (schedule : List ℕ) (rs : List Goroutine) (g : Flights)
    → IsStuck rs g
    → IsStuck (run fn schedule rs g).0 (run fn schedule rs g).1
unfolding run
run-IsStuck fn [] rs g h = h
run-IsStuck fn (i ∷ is) rs g h =
    run-IsStuck fn is (step fn i rs g).0 (step fn i rs g).1 (step-IsStuck fn i rs g h).0

callers-AreEarly : (keys : List GoString) → All (λ r. IsEarly false r.at) (callers keys)
unfolding callers
callers-AreEarly [] = tt
callers-AreEarly (k ∷ ks) = (tt, callers-AreEarly ks)

pub callers-IsStuck : (keys : List GoString) → IsStuck (callers keys) new_flights
callers-IsStuck keys = record { none_made = refl; none_run = refl; early = callers-AreEarly keys }
