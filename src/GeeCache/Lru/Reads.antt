-- ===== src/GeeCache/Lru/Reads.antt =====
-- What a `Get` returns after an `Add`, and when the bytes stay within the limit.
use go_little_project.Base.{
  ℕ, ◌%◌, ◌≤◌, ◌<◌, ◌≡◌, refl, ◌≢◌, ◌↔◌, inl, inr, true, false, List, [], ◌∷◌, some, GoString,
  lookup, ◌==◌, str_eq, str_beq_iff, if◌then◌else◌, arith, All, lookup-delete, Bool-cases, ok, ltb,
}
use go_little_project.Base.Int64.{modulus, half, lt64, lt64_small}
use go_little_project.GeeCache.Lru.{Cache, get, add}
use go_little_project.GeeCache.Lru.View.{Entries, but_last, last, total}
use go_little_project.GeeCache.Lru.Index.{view}
use go_little_project.GeeCache.Lru.Refines.{
  IsValid, touch, spec_add, spec_calls, add-refines, get-refines,
}

module _ {V : Type 0} where
  lookup-but_last :
      (j : GoString) (l : Entries V)
      → All (λ e. e.0 ≢ j) (last l)
      → lookup j (but_last l) ≡ lookup j l
  unfolding lookup
  lookup-but_last j [] h = refl
  lookup-but_last j ((k, v) ∷ []) h = ground (arith, h.0, str_beq_iff k j)
  lookup-but_last j ((k, v) ∷ f ∷ l) h = ground (arith, lookup-but_last j (f ∷ l) h)

  lookup-touch :
      (k j : GoString) (v : V) (l : Entries V)
      → lookup j (touch k v l) ≡ (if k == j then some v else lookup j l)
  unfolding lookup
  lookup-touch k j v l = ground (arith, lookup-delete k j l)

module _ {V : Type 0} (len : V → ℕ) where
  lookup-spec_add :
      (max : ℕ) (k j : GoString) (v : V) (l : Entries V)
      → All (λ e. e.0 ≢ j) (spec_calls len max true k v l)
      → lookup j (spec_add len max k v l) ≡ (if k == j then some v else lookup j l)
  lookup-spec_add max k j v l h = elim (Bool-cases (lt64 max (total len (touch k v l) % modulus))) [
    | inl over ↦
        rw (over, lookup-but_last j (touch k v l) (rw (over, spec_calls) at h))
          (lookup-touch k j v l)
    | inr fits ↦ rw fits (lookup-touch k j v l)
  ]

  -- After an `Add` of `k` on a valid cache, a `Get` of any key that this `Add` does not evict
  -- returns the value just added if the key is `k`, and otherwise what it would have returned
  -- before.
  pub get-add :
      (c : Cache V) (k j : GoString) (v : V)
      → IsValid len c
      → All (λ e. e.0 ≢ j) (spec_calls len c.max_bytes true k v (view c.ll))
      → (c' c'' : Cache V) × (calls : List (GoString × V)) × (add len c k v ≡ ok (c', calls))
        × (get c' j ≡ ok (c'', if k == j then some v else lookup j (view c.ll)))
  get-add c k j v h stays =
      let (c', added, valid, seen) = add-refines len c k v h in
      let (c'', read, _, _) = get-refines len c' valid j in
      let found = lookup-spec_add c.max_bytes k j v (view c.ll) stays in
      (
        c',
        c'',
        spec_calls len c.max_bytes c.on_evicted k v (view c.ll),
        added,
        rw (← found, ← seen) read,
      )

  total-but_last-le : (l : Entries V) → total len (but_last l) ≤ total len l
  total-but_last-le [] = omega arith
  total-but_last-le (e ∷ []) = omega arith
  total-but_last-le (e ∷ f ∷ l) = omega (arith, total-but_last-le (f ∷ l))

  lt64-total :
      (max : ℕ) (l : Entries V)
      → max < half
      → total len l < half
      → lt64 max (total len l % modulus) ≡ ltb max (total len l)
  lt64-total max l hm hl =
      let same : total len l % modulus ≡ total len l = omega arith in
      rw same (lt64_small max (total len l) hm hl)

  within_iff :
      (max : ℕ) (l : Entries V)
      → max < half
      → total len l < half
      → (lt64 max (total len (if lt64 max (total len l % modulus) then but_last l else l) % modulus)
          ≡ false)
        ↔ (total len (but_last l) ≤ max)
  within_iff max l hm hl =
      let less = total-but_last-le l in
      let all = lt64-total max l hm hl in
      let rest = lt64-total max (but_last l) hm (omega arith) in
      elim (Bool-cases (ltb max (total len l))) [
        | inl over ↦ rw (all, over, rest) (ground arith)
        | inr fits ↦ rw (all, fits, all, fits) (ground arith)
      ]

  -- Where the sizes and the limit are below 2 ^ 63, the bytes are within the limit after an
  -- `Add` exactly when the entries without the last one are: one eviction is all that is done. A
  -- limit of 0 is a limit like any other, and not the absence of one.
  pub add_within_iff :
      (c : Cache V) (k : GoString) (v : V)
      → IsValid len c
      → c.max_bytes < half
      → total len (touch k v (view c.ll)) < half
      → (c' : Cache V) × (calls : List (GoString × V)) × (add len c k v ≡ ok (c', calls))
        × ((lt64 c.max_bytes c'.n_bytes ≡ false)
            ↔ (total len (but_last (touch k v (view c.ll))) ≤ c.max_bytes))
  add_within_iff c k v h small_max small =
      let (c', added, valid, seen) = add-refines len c k v h in
      (
        c',
        spec_calls len c.max_bytes c.on_evicted k v (view c.ll),
        added,
        rw (valid.counted, seen) (within_iff c.max_bytes (touch k v (view c.ll)) small_max small),
      )
