-- ===== src/GeeCache/ConsistentHash/Owner.antt =====
-- Who owns a key: the node of the clockwise successor, and what a new node changes.
use go_little_project.Base.{
  ℕ, zero, suc, ◌≡◌, ◌%◌, false, refl, sym, ap, subst, ◌∙◌, ◌≢◌, ◌⊎◌, inl, inr, List, [], ◌∷◌, ◌++◌,
  Option, some, GoString, lookup, insert, length, get_elem?, ◌==◌, nat_eq, nat_beq_iff, arith, In,
  In-append_left, In-append_cases, Bool-cases, lookup-insert, ok,
}
use go_little_project.GeeCache.ConsistentHash.{
  Ring, new, sort_ints, search_ge, add_replicas, add_all, add, get, replica_hash,
}
use go_little_project.GeeCache.ConsistentHash.Order.{
  IsSorted, In-sort_ints, sort_ints-In, sort_ints-IsSorted, IsSuccessor, successor_unique,
  IsSuccessor-at,
}

-- The hashes are sorted, and each has a node.
pub record IsRing (m : Ring) : Type 0 where
  pub sorted : IsSorted m.keys
  pub owned : (x : ℕ) → In x m.keys → (node : GoString) × (lookup x m.hash_map ≡ some node)

pub new-IsRing :
    (crc32 : GoString → ℕ) (n : ℕ) (fn : Option (GoString → ℕ)) → IsRing (new crc32 n fn)
unfolding new
new-IsRing crc32 n fn = record { sorted = tt; owned = λ x m. elim m [ ] }

-- what an `Add` of the nodes `ns` changes, but for the order of the hashes
record Grown (ns : List GoString) (m m' : Ring) : Type 0 where
  hash : m'.hash ≡ m.hash
  old : (x : ℕ) → In x m.keys → In x m'.keys
  fresh :
      (x : ℕ)
      → In x m'.keys
      → In x m.keys ⊎ ((s : GoString) × In s ns × (lookup x m'.hash_map ≡ some s))
  named :
      (x : ℕ)
      → (lookup x m'.hash_map ≡ lookup x m.hash_map)
        ⊎ ((s : GoString) × In s ns × (lookup x m'.hash_map ≡ some s))

module _ (ns : List GoString) where
  Grown-refl : (m : Ring) → Grown ns m m
  Grown-refl m = record { hash = refl; old = λ x h. h; fresh = λ x h. inl h; named = λ x. inl refl }

  Grown-trans : (a b c : Ring) → Grown ns a b → Grown ns b c → Grown ns a c
  Grown-trans a b c g h = record {
    hash = h.hash ∙ g.hash;
    old = λ x m. h.old x (g.old x m);
    fresh = λ x m. elim (h.fresh x m) [
      | inl mb ↦ elim (g.fresh x mb) [
        | inl ma ↦ inl ma
        | inr (s, into, e) ↦ inr (elim (h.named x) [ inl same ↦ (s, into, same ∙ e) | inr t ↦ t ])
      ]
      | inr t ↦ inr t
    ];
    named = λ x. elim (h.named x) [
      | inl same ↦ elim (g.named x) [
        | inl same' ↦ inl (same ∙ same')
        | inr (s, into, e) ↦ inr (s, into, same ∙ e)
      ]
      | inr t ↦ inr t
    ];
  }

  one-Grown :
      (m : Ring) (x : ℕ) (s : GoString)
      → In s ns
      → Grown ns m (record m { keys = m.keys ++ x ∷ []; hash_map = insert x s m.hash_map })
  one-Grown m x s into = record {
    hash = refl;
    old = λ y h. In-append_left y m.keys (x ∷ []) h;
    fresh = λ y h. elim (In-append_cases y m.keys (x ∷ []) h) [
      | inl l ↦ inl l
      | inr r ↦ elim r [
        | inl e ↦ inr (s, into, ground (arith, lookup-insert x y s m.hash_map, nat_beq_iff x y))
        | inr no_more ↦ absurd no_more
      ]
    ];
    named = λ y. elim (Bool-cases (x == y)) [
      | inl e ↦ inr (s, into, ground (arith, lookup-insert x y s m.hash_map))
      | inr e ↦ inl (ground (arith, lookup-insert x y s m.hash_map))
    ];
  }

  replicas-Grown : (n i : ℕ) (s : GoString) (m : Ring) → In s ns → Grown ns m (add_replicas n i s m)
  unfolding add_replicas
  replicas-Grown zero i s m into = Grown-refl m
  replicas-Grown (suc n) i s m into =
      Grown-trans m _ _ (one-Grown m (replica_hash m i s) s into)
        (replicas-Grown n (suc i) s _ into)

  all-Grown :
      (ks : List GoString) (m : Ring)
      → ((s : GoString) → In s ks → In s ns)
      → Grown ns m (add_all ks m)
  unfolding add_all
  all-Grown [] m sub = Grown-refl m
  all-Grown (k ∷ ks) m sub =
      Grown-trans m _ _ (replicas-Grown m.replicas 0 k m (sub k (inl refl)))
        (all-Grown ks _ (λ s h. sub s (inr h)))

  sort-Grown : (m a : Ring) → Grown ns m a → Grown ns m (record a { keys = sort_ints a.keys })
  sort-Grown m a g = record {
    hash = g.hash;
    old = λ x h. In-sort_ints x a.keys (g.old x h);
    fresh = λ x h. g.fresh x (sort_ints-In x a.keys h);
    named = g.named;
  }

add-Grown : (m : Ring) (ns : List GoString) → Grown ns m (add m ns)
unfolding add
add-Grown m ns = sort-Grown ns m (add_all ns m) (all-Grown ns ns m (λ s h. h))

add-IsSorted : (m : Ring) (ns : List GoString) → IsSorted (add m ns).keys
unfolding add
add-IsSorted m ns = sort_ints-IsSorted (add_all ns m).keys

-- `Add` keeps the hashes sorted and owned.
pub add-IsRing : (m : Ring) (ns : List GoString) → IsRing m → IsRing (add m ns)
add-IsRing m ns r = record {
  sorted = add-IsSorted m ns;
  owned = λ x h.
      let g = add-Grown m ns in
      elim (g.fresh x h) [
        | inl old ↦ elim (g.named x) [
          | inl same ↦ let (s, e) = r.owned x old in (s, same ∙ e)
          | inr (s, into, e) ↦ (s, e)
        ]
        | inr (s, into, e) ↦ (s, e)
      ];
}

IsSuccessor-of :
    (h : ℕ) (l : List ℕ)
    → IsSorted l
    → l ≢ []
    → (o : ℕ) × (get_elem? l (search_ge h l % length l) ≡ some o) × IsSuccessor h l o
IsSuccessor-of h [] s ne = absurd (ne refl)
IsSuccessor-of h (x ∷ xs) s ne = IsSuccessor-at h x xs s

length_of_ne : (l : List ℕ) → l ≢ [] → (length l == 0) ≡ false
length_of_ne [] ne = absurd (ne refl)
length_of_ne (x ∷ xs) ne = ground arith

-- On a ring with hashes, `Get` returns the node of the clockwise successor of the key's hash.
pub get-IsSuccessor :
    (m : Ring) (key : GoString)
    → IsRing m
    → m.keys ≢ []
    → (o : ℕ) × (node : GoString) × IsSuccessor (m.hash key) m.keys o
      × (lookup o m.hash_map ≡ some node)
      × (get m key ≡ ok node)
unfolding get
get-IsSuccessor m key r ne =
    let (o, at, succ) = IsSuccessor-of (m.hash key) m.keys r.sorted ne in
    let (node, e) = r.owned o succ.listed in
    (o, node, succ, e, rw (length_of_ne m.keys ne, at, e) refl)

none-In : (l : List ℕ) → ((x : ℕ) → In x l → ⊥) → l ≡ []
none-In [] h = refl
none-In (x ∷ xs) h = absurd (h x (inl refl))

some_inj : {s t : GoString} → some s ≡ some t → s ≡ t
some_inj e = ground arith

grown_ne : (m m' : Ring) → ((x : ℕ) → In x m.keys → In x m'.keys) → m.keys ≢ [] → m'.keys ≢ []
grown_ne m m' old ne e = ne (none-In m.keys (λ x h. let h' : In x [] = rw e at (old x h) in h'))

-- The successor among more hashes, if it was there before, is the successor as before.
narrower :
    (m m' : Ring) (key : GoString)
    → m'.hash ≡ m.hash
    → ((x : ℕ) → In x m.keys → In x m'.keys)
    → (o : ℕ) → IsSuccessor (m'.hash key) m'.keys o
    → In o m.keys
    → IsSuccessor (m.hash key) m.keys o
narrower m m' key same old o s into =
    subst (λ f. IsSuccessor (f key) m.keys o) same
      (record {
        listed = into;
        clockwise = elim s.clockwise [
          | inl (le, least) ↦ inl (le, λ x h. least x (old x h))
          | inr (below, least) ↦ inr (λ x h. below x (old x h), λ x h. least x (old x h))
        ];
      })

-- Consistency: an `Add` of nodes to a ring with hashes leaves the owner of a key as it was, or
-- makes one of these nodes its owner. This holds whatever hashes collide.
pub add-moves :
    (m : Ring) (ns : List GoString) (key : GoString)
    → IsRing m
    → m.keys ≢ []
    → (get (add m ns) key ≡ get m key) ⊎ ((s : GoString) × In s ns × (get (add m ns) key ≡ ok s))
add-moves m ns key r ne =
    let g = add-Grown m ns in
    let (o, node, succ, e, got) = get-IsSuccessor m key r ne in
    let (o', node', succ', e', got') =
      get-IsSuccessor (add m ns) key (add-IsRing m ns r) (grown_ne m (add m ns) g.old ne) in
    elim (g.fresh o' succ'.listed) [
      | inr (s, into, t) ↦ inr (s, into, got' ∙ ap ok (some_inj (sym e' ∙ t)))
      | inl old ↦ elim (g.named o') [
        | inr (s, into, t) ↦ inr (s, into, got' ∙ ap ok (some_inj (sym e' ∙ t)))
        | inl same ↦
            let was = narrower m (add m ns) key g.hash g.old o' succ' old in
            let one : o' ≡ o = successor_unique (m.hash key) m.keys o' o was succ in
            inl (ground (arith, same, one, got, got'))
      ]
    ]

list_cases : (l : List ℕ) → (l ≡ []) ⊎ (l ≢ [])
list_cases [] = inl refl
list_cases (x ∷ xs) = inr (λ e. ground (arith, e))

-- On a ring that was empty before, a key is owned by one of the nodes, or by none.
pub add-In :
    (m : Ring) (ns : List GoString) (key : GoString)
    → IsRing m
    → m.keys ≡ []
    → (get (add m ns) key ≡ ok []) ⊎ ((s : GoString) × In s ns × (get (add m ns) key ≡ ok s))
unfolding get
add-In m ns key r empty = elim (list_cases (add m ns).keys) [
  | inl none ↦ inl (rw (get, none) refl)
  | inr ne ↦
      let g = add-Grown m ns in
      let (o, node, succ, e, got) = get-IsSuccessor (add m ns) key (add-IsRing m ns r) ne in
      elim (g.fresh o succ.listed) [
        | inl old ↦ absurd (subst (λ l. In o l) empty old)
        | inr (s, into, t) ↦ inr (s, into, got ∙ ap ok (some_inj (sym e ∙ t)))
      ]
]
