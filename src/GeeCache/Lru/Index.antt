-- ===== src/GeeCache/Lru/Index.antt =====
-- The map of the LRU cache against its list: what the two say of each other, and how the list
-- operations by address look from the keys.
use go_little_project.Base.{
  ℕ, ◌≡◌, refl, List, [], ◌∷◌, none, some, GoString, GoMap, lookup, insert, delete, ◌==◌, nat_eq,
  str_eq, str_beq_iff, if◌then◌else◌, arith, All, lookup-insert, lookup-delete,
}
use go_little_project.GeeCache.Lru.{Element, deref, remove, back}
use go_little_project.GeeCache.Lru.View.{Entries, IsDistinct, but_last, last, delete-last}

module _ {V : Type 0} where
  abbrev pub view : List (Element V) → Entries V
  view [] = []
  view (e ∷ es) = (e.key, e.value) ∷ view es

  -- every element is where the map says
  abbrev pub IsIndexed : GoMap GoString ℕ → List (Element V) → Type 0
  IsIndexed m = All (λ e. lookup e.key m ≡ some e.ptr)

  -- every address of the map leads to an element of the list with that key
  abbrev pub IsPresent : GoMap GoString ℕ → List (Element V) → Type 0
  IsPresent m es =
      (k : GoString) (p : ℕ)
      → lookup k m ≡ some p
      → (v : V) × (deref p es ≡ some (record { ptr = p; key = k; value = v }))

  pub same_key :
      (m : GoMap GoString ℕ) (es : List (Element V)) (j k : GoString) (p : ℕ)
      → IsPresent m es
      → lookup j m ≡ some p
      → lookup k m ≡ some p
      → j ≡ k
  same_key m es j k p h hj hk = let (v, ev) = h j p hj in let (w, ew) = h k p hk in ground arith

  pub deref-remove :
      (p q : ℕ) (es : List (Element V))
      → deref q (remove p es) ≡ (if p == q then none else deref q es)
  unfolding deref remove
  deref-remove p q [] = ground arith
  deref-remove p q (e ∷ es) = ground (arith, deref-remove p q es)

  pub remove-IsIndexed :
      (m : GoMap GoString ℕ) (p : ℕ) (es : List (Element V))
      → IsIndexed m es
      → IsIndexed m (remove p es)
  unfolding remove
  remove-IsIndexed m p [] h = tt
  remove-IsIndexed m p (e ∷ es) (a, h) = ground (arith, remove-IsIndexed m p es h)

  pub insert-IsIndexed :
      (m : GoMap GoString ℕ) (k : GoString) (p : ℕ) (es : List (Element V))
      → lookup k m ≡ none
      → IsIndexed m es
      → IsIndexed (insert k p m) es
  insert-IsIndexed m k p [] n h = tt
  insert-IsIndexed m k p (e ∷ es) n (a, h) = (
    ground (arith, lookup-insert k e.key p m, str_beq_iff k e.key),
    insert-IsIndexed m k p es n h,
  )

  pub delete-IsIndexed :
      (m : GoMap GoString ℕ) (k : GoString) (es : List (Element V))
      → lookup k (view es) ≡ none
      → IsIndexed m es
      → IsIndexed (delete k m) es
  unfolding lookup
  delete-IsIndexed m k [] n h = tt
  delete-IsIndexed m k (e ∷ es) n (a, h) = (
    ground (arith, lookup-delete k e.key m, str_beq_iff k e.key, str_beq_iff e.key k),
    delete-IsIndexed m k es (ground arith) h,
  )

  pub lookup-view-none :
      (m : GoMap GoString ℕ) (k : GoString) (es : List (Element V))
      → IsIndexed m es
      → lookup k m ≡ none
      → lookup k (view es) ≡ none
  unfolding lookup
  lookup-view-none m k [] h n = refl
  lookup-view-none m k (e ∷ es) (a, h) n =
      ground (arith, lookup-view-none m k es h n, str_beq_iff e.key k)

  module _ (m : GoMap GoString ℕ) (k : GoString) (p : ℕ) (at : lookup k m ≡ some p)
      (only : (j : GoString) → lookup j m ≡ some p → j ≡ k) where
    pub view-remove :
        (es : List (Element V)) → IsIndexed m es → view (remove p es) ≡ delete k (view es)
    unfolding remove delete
    view-remove [] h = refl
    view-remove (e ∷ es) (a, h) = ground (arith, only e.key, str_beq_iff e.key k, view-remove es h)

    pub lookup-view :
        (es : List (Element V)) (f : Element V)
        → IsIndexed m es
        → deref p es ≡ some f
        → lookup k (view es) ≡ some f.value
    unfolding deref lookup
    lookup-view [] f h d = absurd (ground arith)
    lookup-view (e ∷ es) f (a, h) d =
        ground (arith, only e.key, str_beq_iff e.key k, lookup-view es f h)

  back-last :
      (es : List (Element V)) (e : Element V)
      → back es ≡ some e
      → last (view es) ≡ (e.key, e.value) ∷ []
  unfolding back
  back-last [] e h = absurd (ground arith)
  back-last (f ∷ []) e h = ground arith
  back-last (f ∷ g ∷ es) e h = back-last (g ∷ es) e h

  back-indexed :
      (m : GoMap GoString ℕ) (es : List (Element V)) (e : Element V)
      → IsIndexed m es
      → back es ≡ some e
      → lookup e.key m ≡ some e.ptr
  unfolding back
  back-indexed m [] e h b = absurd (ground arith)
  back-indexed m (f ∷ []) e (a, h) b = ground arith
  back-indexed m (f ∷ g ∷ es) e (a, h) b = back-indexed m (g ∷ es) e h b

  -- The last element, as the map and the keys see it.
  pub back_lem :
      (m : GoMap GoString ℕ) (es : List (Element V)) (e : Element V)
      → IsIndexed m es
      → IsPresent m es
      → IsDistinct (view es)
      → back es ≡ some e
      → (lookup e.key m ≡ some e.ptr)
        × (last (view es) ≡ (e.key, e.value) ∷ [])
        × (view (remove e.ptr es) ≡ but_last (view es))
        × (delete e.key (view es) ≡ but_last (view es))
  back_lem m es e h pr d b =
      let at = back-indexed m es e h b in
      let last_at = back-last es e b in
      let dropped = delete-last e.key e.value (view es) last_at d in
      let seen = view-remove m e.key e.ptr at (λ j hj. same_key m es j e.key e.ptr pr hj at) es h in
      (at, last_at, ground arith, dropped)
