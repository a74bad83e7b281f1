-- ===== src/GeeCache/ConsistentHash/Order.antt =====
-- Sorted lists of hashes, and the clockwise successor of a hash among them.
use go_little_project.Base.{
  ℕ, suc, ◌%◌, ◌≤◌, ◌<◌, ◌≡◌, refl, ap, ◌⊎◌, inl, inr, List, [], ◌∷◌, some, length, get_elem?,
  get_elem?-In, leb, arith, All, In, Bool-cases,
}
use native.Mathlib.Nat.{mod-eq_of_lt}
use go_little_project.GeeCache.ConsistentHash.{insert_sorted, sort_ints, search_ge}

abbrev pub IsSorted : List ℕ → Type 0
IsSorted [] = Unit
IsSorted (x ∷ xs) = All (λ y. x ≤ y) xs × IsSorted xs

pub In-insert_sorted : (a x : ℕ) (l : List ℕ) → (a ≡ x) ⊎ In a l → In a (insert_sorted x l)
unfolding insert_sorted
In-insert_sorted a x [] h = h
In-insert_sorted a x (y ∷ ys) h = elim (Bool-cases (leb x y)) [
  | inl e ↦ rw e h
  | inr e ↦ rw e (elim h [
    | inl q ↦ inr (In-insert_sorted a x ys (inl q))
    | inr m ↦ elim m [ inl q ↦ inl q | inr m' ↦ inr (In-insert_sorted a x ys (inr m')) ]
  ])
]

pub insert_sorted-In : (a x : ℕ) (l : List ℕ) → In a (insert_sorted x l) → (a ≡ x) ⊎ In a l
unfolding insert_sorted
insert_sorted-In a x [] h = h
insert_sorted-In a x (y ∷ ys) h = elim (Bool-cases (leb x y)) [
  | inl e ↦ rw e at h
  | inr e ↦
      let h' : (a ≡ y) ⊎ In a (insert_sorted x ys) = rw e at h in
      elim h' [
        | inl q ↦ inr (inl q)
        | inr m ↦ elim (insert_sorted-In a x ys m) [ inl q ↦ inl q | inr m' ↦ inr (inr m') ]
      ]
]

pub In-sort_ints : (a : ℕ) (l : List ℕ) → In a l → In a (sort_ints l)
unfolding sort_ints
In-sort_ints a [] h = h
In-sort_ints a (x ∷ xs) (inl e) = In-insert_sorted a x _ (inl e)
In-sort_ints a (x ∷ xs) (inr m) = In-insert_sorted a x _ (inr (In-sort_ints a xs m))

pub sort_ints-In : (a : ℕ) (l : List ℕ) → In a (sort_ints l) → In a l
unfolding sort_ints
sort_ints-In a [] h = h
sort_ints-In a (x ∷ xs) h = elim (insert_sorted-In a x _ h) [
  | inl e ↦ inl e
  | inr m ↦ inr (sort_ints-In a xs m)
]

All-insert_sorted :
    (a x : ℕ) (l : List ℕ) → a ≤ x → All (λ y. a ≤ y) l → All (λ y. a ≤ y) (insert_sorted x l)
unfolding insert_sorted
All-insert_sorted a x [] h k = (h, tt)
All-insert_sorted a x (y ∷ ys) h (p, k) = ground (arith, All-insert_sorted a x ys h k)

All-trans : (a b : ℕ) (l : List ℕ) → a ≤ b → All (λ y. b ≤ y) l → All (λ y. a ≤ y) l
All-trans a b [] h k = tt
All-trans a b (y ∷ ys) h (p, k) = (omega arith, All-trans a b ys h k)

insert_sorted-IsSorted : (x : ℕ) (l : List ℕ) → IsSorted l → IsSorted (insert_sorted x l)
unfolding insert_sorted
insert_sorted-IsSorted x [] s = (tt, tt)
insert_sorted-IsSorted x (y ∷ ys) (a, s) = elim (Bool-cases (leb x y)) [
  | inl e ↦ rw e ((ground arith, All-trans x y ys (ground arith) a), (a, s))
  | inr e ↦ rw e (All-insert_sorted y x ys (ground arith) a, insert_sorted-IsSorted x ys s)
]

pub sort_ints-IsSorted : (l : List ℕ) → IsSorted (sort_ints l)
unfolding sort_ints
sort_ints-IsSorted [] = tt
sort_ints-IsSorted (x ∷ xs) = insert_sorted-IsSorted x _ (sort_ints-IsSorted xs)

-- `o` is the first of the hashes `l` that is not below `h`, or the least of all if all are below.
pub record IsSuccessor (h : ℕ) (l : List ℕ) (o : ℕ) : Type 0 where
  pub listed : In o l
  pub clockwise :
      ((h ≤ o) × ((x : ℕ) → In x l → h ≤ x → o ≤ x))
      ⊎ (((x : ℕ) → In x l → x < h) × ((x : ℕ) → In x l → o ≤ x))

-- There is only one.
pub successor_unique :
    (h : ℕ) (l : List ℕ) (o p : ℕ) → IsSuccessor h l o → IsSuccessor h l p → o ≡ p
successor_unique h l o p s t = elim s.clockwise [
  | inl a ↦ elim t.clockwise [
    | inl b ↦ omega (arith, a.1 p t.listed b.0, b.1 o s.listed a.0)
    | inr b ↦ absurd (omega (arith, b.0 o s.listed, a.0))
  ]
  | inr a ↦ elim t.clockwise [
    | inl b ↦ absurd (omega (arith, a.0 p t.listed, b.0))
    | inr b ↦ omega (arith, a.1 p t.listed, b.1 o s.listed)
  ]
]

All-In : (a x : ℕ) (l : List ℕ) → All (λ y. a ≤ y) l → In x l → a ≤ x
All-In a x [] k m = elim m [ ]
All-In a x (y ∷ ys) (p, k) (inl e) = omega arith
All-In a x (y ∷ ys) (p, k) (inr m) = All-In a x ys k m

-- Where `sort.Search` ends on sorted hashes.
search_ge_lem :
    (h : ℕ) (l : List ℕ)
    → IsSorted l
    → ((o : ℕ) × (search_ge h l < length l)
        × (get_elem? l (search_ge h l) ≡ some o)
        × (h ≤ o)
        × ((x : ℕ) → In x l → h ≤ x → o ≤ x))
      ⊎ ((search_ge h l ≡ length l) × ((x : ℕ) → In x l → x < h))
unfolding search_ge
search_ge_lem h [] s = inr (refl, λ x m. elim m [ ])
search_ge_lem h (y ∷ ys) (a, s) = elim (Bool-cases (leb h y)) [
  | inl e ↦ rw e (
      inl (
        y,
        omega arith,
        refl,
        ground arith,
        λ x m _. elim m [ inl q ↦ omega arith | inr m' ↦ All-In y x ys a m' ],
      ))
  | inr e ↦ rw e (elim (search_ge_lem h ys s) [
    | inl (o, lt, at, le, least) ↦ inl (
      o,
      omega arith,
      at,
      le,
      λ x m hx. elim m [ inl q ↦ absurd (ground arith) | inr m' ↦ least x m' hx ],
    )
    | inr (end, below) ↦
        inr (ap suc end, λ x m. elim m [ inl q ↦ ground arith | inr m' ↦ below x m' ])
  ])
]

mod_self : (n : ℕ) → suc n % suc n ≡ 0
mod_self n = grind arith

-- The index that `Get` computes is that of the successor.
pub IsSuccessor-at :
    (h x : ℕ) (xs : List ℕ)
    → IsSorted (x ∷ xs)
    → (o : ℕ) × (get_elem? (x ∷ xs) (search_ge h (x ∷ xs) % length (x ∷ xs)) ≡ some o)
      × IsSuccessor h (x ∷ xs) o
IsSuccessor-at h x xs s = elim (search_ge_lem h (x ∷ xs) s) [
  | inl (o, lt, at, le, least) ↦ (
    o,
    rw (mod-eq_of_lt lt) at,
    record { listed = get_elem?-In (x ∷ xs) _ o at; clockwise = inl (le, least) },
  )
  | inr (end, below) ↦ (
    x,
    rw (end, mod_self (length xs)) refl,
    record {
      listed = inl refl;
      clockwise =
          inr (below, λ y m. elim m [ inl q ↦ omega arith | inr m' ↦ All-In x y xs s.0 m' ]);
    },
  )
]
