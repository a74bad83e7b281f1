-- ===== src/GeeCache/Lru/Refines.antt =====
-- The LRU cache refines the list of its keys and values, most recent first.
use go_little_project.Base.{
  ℕ, suc, ◌%◌, ◌<◌, ◌≡◌, refl, sym, ap, ◌∙◌, inl, inr, Bool, List, [], ◌∷◌, none, some, GoString,
  lookup, insert, delete, length, ◌==◌, nat_eq, str_eq, nat_beq_iff, str_beq_iff, if◌then◌else◌,
  arith, lookup-insert, lookup-delete, Bool-cases, Option-cases, ok, lookup-insert_self,
  lookup-delete_self,
}
use go_little_project.Base.Int64.{
  modulus, add64, sub64, lt64, add64_wrap, sub64_wrap, replace64_wrap,
}
use go_little_project.GeeCache.Lru.{
  Element, Cache, new, deref, remove, back, get, place, shrink, remove_oldest, add, notify,
}
use go_little_project.GeeCache.Lru.View.{
  Entries, IsDistinct, but_last, last, total, delete_absent, delete-IsDistinct, but_last-IsDistinct,
  total-delete, total-but_last,
}
use go_little_project.GeeCache.Lru.Index.{
  view, IsIndexed, IsPresent, same_key, deref-remove, remove-IsIndexed, insert-IsIndexed,
  delete-IsIndexed, lookup-view-none, view-remove, lookup-view, back_lem,
}

abbrev pub touch : {V : Type 0} → GoString → V → Entries V → Entries V
touch k v l = (k, v) ∷ delete k l

module _ {V : Type 0} (len : V → ℕ) where
  pub record IsValid (c : Cache V) : Type 0 where
    pub indexed : IsIndexed c.cache c.ll
    pub present : IsPresent c.cache c.ll
    pub bounded : (k : GoString) (p : ℕ) → lookup k c.cache ≡ some p → p < c.next
    pub distinct : IsDistinct (view c.ll)
    pub counted : c.n_bytes ≡ total len (view c.ll) % modulus

  pub new-IsValid : (max : ℕ) (set : Bool) → IsValid (new max set)
  unfolding new lookup
  new-IsValid max set = record {
    indexed = tt;
    present = λ k p h. absurd (ground arith);
    bounded = λ k p h. absurd (ground arith);
    distinct = tt;
    counted = omega arith;
  }

  abbrev pub spec_get : GoString → Entries V → Entries V
  spec_get k l = elim (lookup k l) [ none ↦ l | some v ↦ touch k v l ]

  -- `Add` on the list: the entry comes to the front, and if the sum of the sizes, as an int64,
  -- is above the limit then the last entry goes.
  abbrev pub spec_add : ℕ → GoString → V → Entries V → Entries V
  spec_add max k v l =
      let l' = touch k v l in if lt64 max (total len l' % modulus) then but_last l' else l'

  -- the calls of OnEvicted
  abbrev pub spec_calls : ℕ → Bool → GoString → V → Entries V → List (GoString × V)
  spec_calls max set k v l =
      let l' = touch k v l in
      if lt64 max (total len l' % modulus) then (if set then last l' else []) else []

  module _ (c : Cache V) (h : IsValid c) (k : GoString) where
    touched-IsPresent :
        (p : ℕ) (v : V)
        → lookup k c.cache ≡ some p
        → IsPresent c.cache (record { ptr = p; key = k; value = v } ∷ remove p c.ll)
    unfolding deref
    touched-IsPresent p v at j q hj = elim (Bool-cases (p == q)) [
      | inl e ↦ (v, ground (arith, nat_beq_iff p q, same_key c.cache c.ll j k p h.present))
      | inr e ↦ let (w, found) = h.present j q hj in (w, ground (arith, deref-remove p q c.ll))
    ]

    touched_view : (p : ℕ) → lookup k c.cache ≡ some p → view (remove p c.ll) ≡ delete k (view c.ll)
    touched_view p at =
        view-remove c.cache k p at (λ j hj. same_key c.cache c.ll j k p h.present hj at) c.ll
          h.indexed

    -- An entry whose key is in the map is moved to the front, with the value `v` and `b` bytes.
    touched_IsValid :
        (p b : ℕ) (v : V)
        → lookup k c.cache ≡ some p
        → b ≡ total len (touch k v (view c.ll)) % modulus
        → IsValid
            (record c { ll = record { ptr = p; key = k; value = v } ∷ remove p c.ll; n_bytes = b })
    touched_IsValid p b v at counted = record {
      indexed = (at, remove-IsIndexed c.cache p c.ll h.indexed);
      present = touched-IsPresent p v at;
      bounded = h.bounded;
      distinct =
          rw (touched_view p at)
            (lookup-delete_self k (view c.ll), delete-IsDistinct k (view c.ll) h.distinct);
      counted = rw (touched_view p at) counted;
    }

    pushed-IsPresent :
        (v : V)
        → lookup k c.cache ≡ none
        → IsPresent (insert k c.next c.cache) (record { ptr = c.next; key = k; value = v } ∷ c.ll)
    unfolding deref
    pushed-IsPresent v absent j q hj = elim (Bool-cases (k == j)) [
      | inl e ↦ (v, ground (arith, str_beq_iff k j, lookup-insert k j c.next c.cache))
      | inr e ↦
          let old : lookup j c.cache ≡ some q = ground (arith, lookup-insert k j c.next c.cache) in
          let (w, found) = h.present j q old in (w, ground (arith, h.bounded j q old))
    ]

    pushed_IsValid :
        (v : V)
        → lookup k c.cache ≡ none
        → IsValid (record c {
          ll = record { ptr = c.next; key = k; value = v } ∷ c.ll;
          cache = insert k c.next c.cache;
          n_bytes = add64 c.n_bytes (add64 (length k) (len v));
          next = suc c.next;
        })
    pushed_IsValid v absent = record {
      indexed = (
        lookup-insert_self k c.next c.cache,
        insert-IsIndexed c.cache k c.next c.ll absent h.indexed,
      );
      present = pushed-IsPresent v absent;
      bounded = λ j p hj.
          ground (arith, lookup-insert k j c.next c.cache, str_beq_iff k j, h.bounded j p);
      distinct = (lookup-view-none c.cache k c.ll h.indexed absent, h.distinct);
      counted = ground (arith, h.counted, add64_wrap (total len (view c.ll)) (length k) (len v));
    }

    -- `Get` returns what the list holds for the key, and moves that entry to the front.
    pub get-refines :
        (c' : Cache V) × (get c k ≡ ok (c', lookup k (view c.ll)))
        × IsValid c'
        × (view c'.ll ≡ spec_get k (view c.ll))
    unfolding get
    get-refines = elim (Option-cases (lookup k c.cache)) [
      | inl miss ↦
          let absent = lookup-view-none c.cache k c.ll h.indexed miss in
          (c, ground arith, h, rw (absent, spec_get) refl)
      | inr (p, at) ↦
          let (v, found) = h.present k p at in
          let here =
            lookup-view c.cache k p at (λ j hj. same_key c.cache c.ll j k p h.present hj at) c.ll _
              h.indexed found in
          (
            record c { ll = record { ptr = p; key = k; value = v } ∷ remove p c.ll },
            ground arith,
            touched_IsValid p c.n_bytes v at
                (ground (arith, h.counted, total-delete len k v (view c.ll) here h.distinct)),
            rw (here, touched_view p at, spec_get) refl,
          )
    ]

    -- `place` brings the entry to the front, and counts its bytes.
    place_lem :
        (v : V)
        → (c' : Cache V) × (place len c k v ≡ ok c')
          × IsValid c'
          × (view c'.ll ≡ touch k v (view c.ll))
          × (c'.max_bytes ≡ c.max_bytes)
          × (c'.on_evicted ≡ c.on_evicted)
    unfolding place
    place_lem v = elim (Option-cases (lookup k c.cache)) [
      | inl miss ↦
          let absent = lookup-view-none c.cache k c.ll h.indexed miss in
          (
            _,
            rw (miss, place) refl,
            pushed_IsValid v miss,
            rw (delete_absent k (view c.ll) absent) refl,
            refl,
            refl,
          )
      | inr (p, at) ↦
          let (w, found) = h.present k p at in
          let here =
            lookup-view c.cache k p at (λ j hj. same_key c.cache c.ll j k p h.present hj at) c.ll _
              h.indexed found in
          (
            _,
            rw (at, found, place) refl,
            touched_IsValid p (add64 c.n_bytes (sub64 (len v) (len w))) v at (
                rw h.counted (
                  replace64_wrap (total len (view c.ll)) (len v) (len w) _
                    (omega (arith, total-delete len k w (view c.ll) here h.distinct)))),
            rw (touched_view p at) refl,
            refl,
            refl,
          )
    ]

  back-none : (es : List (Element V)) → back es ≡ none → view es ≡ []
  unfolding back
  back-none [] b = refl
  back-none (e ∷ []) b = absurd (ground arith)
  back-none (e ∷ f ∷ es) b =
      let none_left = back-none (f ∷ es) b in absurd (ground (arith, none_left))

  module _ (c : Cache V) (h : IsValid c) where
    evicted-IsPresent :
        (e : Element V)
        → lookup e.key c.cache ≡ some e.ptr
        → IsPresent (delete e.key c.cache) (remove e.ptr c.ll)
    evicted-IsPresent e at j q hj =
        let old : lookup j c.cache ≡ some q =
          ground (arith, lookup-delete e.key j c.cache, str_beq_iff e.key j) in
        let (w, found) = h.present j q old in
        (
          w,
          ground (
            arith,
            deref-remove e.ptr q c.ll,
            nat_beq_iff e.ptr q,
            str_beq_iff e.key j,
            lookup-delete e.key j c.cache,
            same_key c.cache c.ll j e.key q h.present old,
          ),
        )

    evicted_lem :
        (e : Element V)
        → back c.ll ≡ some e
        → IsValid (remove_oldest len c).0
          × (view (remove_oldest len c).0.ll ≡ but_last (view c.ll))
          × ((remove_oldest len c).1 ≡ (if c.on_evicted then last (view c.ll) else []))
    unfolding remove_oldest notify
    evicted_lem e b =
        let (at, last_at, seen, dropped) =
          back_lem c.cache c.ll e h.indexed h.present h.distinct b in
        rw (b, remove_oldest)
          (
            record {
              indexed =
                  delete-IsIndexed c.cache e.key (remove e.ptr c.ll)
                    (rw (seen ∙ sym dropped) (lookup-delete_self e.key (view c.ll)))
                    (remove-IsIndexed c.cache e.ptr c.ll h.indexed);
              present = evicted-IsPresent e at;
              bounded = λ j p hj. h.bounded j p (ground (arith, lookup-delete e.key j c.cache));
              distinct = rw seen (but_last-IsDistinct (view c.ll) h.distinct);
              counted =
                  rw (seen, h.counted)
                    (sub64_wrap (total len (view c.ll)) (length e.key) (len e.value) _
                      (total-but_last len (e.key, e.value) (view c.ll) last_at));
            },
            seen,
            rw last_at refl,
          )

    empty_view : back c.ll ≡ none → view c.ll ≡ []
    empty_view b = back-none c.ll b

    remove_oldest_lem :
        IsValid (remove_oldest len c).0
        × (view (remove_oldest len c).0.ll ≡ but_last (view c.ll))
        × ((remove_oldest len c).1 ≡ (if c.on_evicted then last (view c.ll) else []))
    unfolding remove_oldest
    remove_oldest_lem = elim (Option-cases (back c.ll)) [
      | inl b ↦
          rw (b, remove_oldest) (h, ground (arith, empty_view b), ground (arith, empty_view b))
      | inr (e, b) ↦ evicted_lem e b
    ]

    shrink_lem :
        IsValid (shrink len c).0
        × (view (shrink len c).0.ll
            ≡ (if lt64 c.max_bytes c.n_bytes then but_last (view c.ll) else view c.ll))
        × ((shrink len c).1 ≡ (
            if lt64 c.max_bytes c.n_bytes
            then (if c.on_evicted then last (view c.ll) else [])
            else []))
    unfolding shrink
    shrink_lem = elim (Bool-cases (lt64 c.max_bytes c.n_bytes)) [
      | inl over ↦ rw over remove_oldest_lem
      | inr fits ↦ rw fits (h, refl, refl)
    ]

  -- On a valid cache `Add` returns, keeps the cache valid, and does to the list of the keys and
  -- values what the specification says: the entry comes to the front with the new value, and if
  -- the bytes are then above the limit, the last entry, and no other, is dropped and reported.
  -- A limit of 0 is no exception: an entry with bytes that is alone in the cache is then dropped as
  -- soon as it is added.
  pub add-refines :
      (c : Cache V) (k : GoString) (v : V)
      → IsValid c
      → (c' : Cache V) × (add len c k v
          ≡ ok (c', spec_calls c.max_bytes c.on_evicted k v (view c.ll)))
        × IsValid c'
        × (view c'.ll ≡ spec_add c.max_bytes k v (view c.ll))
  unfolding add
  add-refines c k v h =
      let (p, placed, valid, seen, same_max, same_set) = place_lem c h k v in
      let n : p.n_bytes ≡ total len (touch k v (view c.ll)) % modulus =
        valid.counted ∙ ap (λ l. total len l % modulus) seen in
      let (kept, left, told) = shrink_lem p valid in
      (
        (shrink len p).0,
        rw placed (
            ap (λ calls. ok ((shrink len p).0, calls))
              (told ∙ (λ i.
                if lt64 (same_max i) (n i)
                then (if same_set i then last (seen i) else [])
                else []))),
        kept,
        left ∙ (λ i. if lt64 (same_max i) (n i) then but_last (seen i) else seen i),
      )
