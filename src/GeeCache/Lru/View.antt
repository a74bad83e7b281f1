-- ===== src/GeeCache/Lru/View.antt =====
-- What the LRU cache promises, over the list of its keys and values, most recent first.
use go_little_project.Base.{
  ℕ, ◌+◌, ◌≡◌, refl, List, [], ◌∷◌, none, some, GoString, GoMap, lookup, delete, length, ◌==◌,
  nat_eq, str_eq, arith, str_beq_iff, Bool-cases, inl, inr,
}

abbrev pub Entries : Type 0 → Type 0
Entries V = GoMap GoString V

-- no key twice
abbrev pub IsDistinct : {V : Type 0} → Entries V → Type 0
IsDistinct [] = Unit
IsDistinct ((k, v) ∷ l) = (lookup k l ≡ none) × IsDistinct l

module _ {V : Type 0} where
  abbrev pub but_last : Entries V → Entries V
  but_last [] = []
  but_last (e ∷ []) = []
  but_last (e ∷ f ∷ l) = e ∷ but_last (f ∷ l)

  abbrev pub last : Entries V → List (GoString × V)
  last [] = []
  last (e ∷ []) = e ∷ []
  last (e ∷ f ∷ l) = last (f ∷ l)

  pub delete_absent : (k : GoString) (l : Entries V) → lookup k l ≡ none → delete k l ≡ l
  unfolding lookup delete
  delete_absent k [] h = refl
  delete_absent k ((j, v) ∷ l) h = ground (arith, delete_absent k l)

  lookup-delete-none :
      (k j : GoString) (l : Entries V) → lookup j l ≡ none → lookup j (delete k l) ≡ none
  unfolding lookup delete
  lookup-delete-none k j [] h = refl
  lookup-delete-none k j ((i, v) ∷ l) h =
      ground (arith, lookup-delete-none k j l, str_beq_iff i k, str_beq_iff i j)

  pub delete-IsDistinct : (k : GoString) (l : Entries V) → IsDistinct l → IsDistinct (delete k l)
  unfolding delete
  delete-IsDistinct k [] d = tt
  delete-IsDistinct k ((j, v) ∷ l) (h, d) = elim (Bool-cases (j == k)) [
    | inl e ↦ rw e (delete-IsDistinct k l d)
    | inr e ↦ rw e (lookup-delete-none k j l h, delete-IsDistinct k l d)
  ]

  lookup-but_last-none :
      (j : GoString) (l : Entries V) → lookup j l ≡ none → lookup j (but_last l) ≡ none
  unfolding lookup
  lookup-but_last-none j [] h = refl
  lookup-but_last-none j (e ∷ []) h = refl
  lookup-but_last-none j (e ∷ f ∷ l) h = ground (arith, lookup-but_last-none j (f ∷ l))

  pub but_last-IsDistinct : (l : Entries V) → IsDistinct l → IsDistinct (but_last l)
  but_last-IsDistinct [] d = tt
  but_last-IsDistinct (e ∷ []) d = tt
  but_last-IsDistinct (e ∷ f ∷ l) (h, d) =
      (lookup-but_last-none e.0 (f ∷ l) h, but_last-IsDistinct (f ∷ l) d)

module _ {V : Type 0} (len : V → ℕ) where
  abbrev pub size : GoString × V → ℕ
  size e = length e.0 + len e.1

  abbrev pub total : Entries V → ℕ
  total [] = 0
  total (e ∷ l) = size e + total l

  pub total-delete :
      (k : GoString) (v : V) (l : Entries V)
      → lookup k l ≡ some v
      → IsDistinct l
      → total (delete k l) + (length k + len v) ≡ total l
  unfolding lookup delete
  total-delete k v [] h d = absurd (ground arith)
  total-delete k v ((j, w) ∷ l) h (a, d) =
      ground (arith, total-delete k v l, str_beq_iff j k, delete_absent k l)

  pub total-but_last :
      (e : GoString × V) (l : Entries V) → last l ≡ e ∷ [] → total (but_last l) + size e ≡ total l
  total-but_last e [] h = absurd (ground arith)
  total-but_last e (f ∷ []) h = ground arith
  total-but_last e (f ∷ g ∷ l) h = ground (arith, total-but_last e (g ∷ l))

module _ {V : Type 0} where
  lookup-last :
      (k : GoString) (v : V) (l : Entries V) → last l ≡ (k, v) ∷ [] → lookup k l ≡ none → ⊥
  unfolding lookup
  lookup-last k v [] h n = ground arith
  lookup-last k v ((j, w) ∷ []) h n = ground (arith, str_beq_iff j k)
  lookup-last k v ((j, w) ∷ f ∷ l) h n = lookup-last k v (f ∷ l) h (ground arith)

  -- To delete the key of the last entry is to drop that entry.
  pub delete-last :
      (k : GoString) (v : V) (l : Entries V)
      → last l ≡ (k, v) ∷ []
      → IsDistinct l
      → delete k l ≡ but_last l
  unfolding delete
  delete-last k v [] h d = absurd (ground arith)
  delete-last k v ((j, w) ∷ []) h d = ground (arith, str_beq_iff j k)
  delete-last k v ((j, w) ∷ f ∷ l) h (a, d) =
      ground (arith, str_beq_iff j k, delete-last k v (f ∷ l), lookup-last k v (f ∷ l))
