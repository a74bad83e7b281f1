-- ===== src/Base/Slices/Appends.antt =====
-- What `append` leaves in a slice and in those that share its array.
use Prim.Native.Nat.{ℕ, zero, suc, ◌+◌, ◌<◌, ◌≤◌}
use mathlib.Core.Path.{◌≡◌, refl, sym, ap, ◌∙◌, subst}
use mathlib.Core.Logic.{inl, inr, ◌≢◌}
use mathlib.Core.List.{List, [], ◌∷◌, ◌++◌, append_assoc}
use native.Mathlib.Omega.{arith}
use go_little_project.Base.Tests.{nat_eq}
use go_little_project.Base.Lists.{
  length, take, drop, set_at, length-append, get_elem?-append, get_elem?-last, get_elem?-set_self,
  get_elem?-set_other, length-take, take-take, take-append, take-all,
}
use go_little_project.Base.Slices.{
  Slice, array_at, elements, in_place, moved, append_to, append_to-cases, IsSlice,
}

module _ {A : Type 0} where
  pub array_at-set_self :
      (cells : List (List A)) (p : ℕ) (v : List A)
      → p < length cells
      → array_at (set_at p v cells) p ≡ v
  array_at-set_self cells p v h = ground (arith, get_elem?-set_self cells p v h)

  pub array_at-set_other :
      (cells : List (List A)) (p q : ℕ) (v : List A)
      → p ≢ q
      → array_at (set_at p v cells) q ≡ array_at cells q
  array_at-set_other cells p q v h = ground (arith, get_elem?-set_other cells p q v h)

  pub array_at-last :
      (cells : List (List A)) (v : List A) → array_at (cells ++ v ∷ []) (length cells) ≡ v
  array_at-last cells v = ground (arith, get_elem?-last cells v)

  pub array_at-append :
      (cells : List (List A)) (p : ℕ) (v : List A)
      → p < length cells
      → array_at (cells ++ v ∷ []) p ≡ array_at cells p
  array_at-append cells p v h = ground (arith, get_elem?-append cells (v ∷ []) p h)

  -- the first cells of an array that is written from `n` on
  pub take-written :
      (n : ℕ) (old xs rest : List A)
      → n ≤ length old
      → take (n + length xs) (take n old ++ (xs ++ rest)) ≡ take n old ++ xs
  take-written n old xs rest h =
      let whole : length (take n old ++ xs) ≡ n + length xs =
        omega (arith, length-append (take n old) xs, length-take n old h) in
      ap (take (n + length xs)) (sym (append_assoc (take n old) xs rest))
      ∙ take-append (n + length xs) (take n old ++ xs) rest (omega (arith, whole))
      ∙ take-all (n + length xs) (take n old ++ xs) whole

  pub take-before :
      (k n : ℕ) (old xs : List A) → k ≤ n → n ≤ length old → take k (take n old ++ xs) ≡ take k old
  take-before k n old xs l h =
      take-append k (take n old) xs (omega (arith, length-take n old h, l)) ∙ take-take k n old l

  pub empty_list : (xs : List A) → length xs ≡ 0 → xs ≡ []
  empty_list [] h = refl
  empty_list (x ∷ xs) h = absurd (omega arith)

  pub nothing_taken : (n : ℕ) (xs : List A) → n ≡ 0 → take n xs ≡ []
  nothing_taken zero xs h = refl
  nothing_taken (suc n) xs h = absurd (omega arith)

  in_place-elements :
      (cells : List (List A)) (s : Slice) (xs : List A)
      → IsSlice cells s
      → s.len + length xs ≤ s.cap
      → elements (in_place cells s xs).0 (in_place cells s xs).1 ≡ elements cells s ++ xs
  in_place-elements cells s xs valid fits = elim valid.there [
    | inl nothing ↦
        nothing_taken (s.len + length xs) _ (omega (arith, nothing, fits))
        ∙ sym (
            ap (λ l. l ++ xs)
              (nothing_taken s.len (array_at cells s.array) (omega (arith, nothing, fits)))
            ∙ empty_list xs (omega (arith, nothing, fits)))
    | inr (inside, room) ↦
        ap (take (s.len + length xs)) (array_at-set_self cells s.array _ inside)
        ∙ take-written s.len (array_at cells s.array) xs _ room
  ]

  moved-elements :
      (grow : ℕ → ℕ → ℕ) (cells : List (List A)) (s : Slice) (xs : List A)
      → length (elements cells s) ≡ s.len
      → elements (moved grow cells s xs).0 (moved grow cells s xs).1 ≡ elements cells s ++ xs
  moved-elements grow cells s xs whole =
      ap (take (s.len + length xs)) (array_at-last cells (elements cells s ++ xs))
      ∙ take-all (s.len + length xs) (elements cells s ++ xs)
          (omega (arith, length-append (elements cells s) xs, whole))

  pub length-elements :
      (cells : List (List A)) (s : Slice) → IsSlice cells s → length (elements cells s) ≡ s.len
  length-elements cells s valid = elim valid.there [
    | inl nothing ↦
        let none_in : s.len ≡ 0 = omega (arith, nothing, valid.len_cap) in
        ap length (nothing_taken s.len (array_at cells s.array) none_in) ∙ sym none_in
    | inr (inside, room) ↦ length-take s.len (array_at cells s.array) room
  ]

  -- `append` yields the elements of the slice, and then the new ones.
  pub append_to-elements :
      (grow : ℕ → ℕ → ℕ) (cells : List (List A)) (s : Slice) (xs : List A)
      → IsSlice cells s
      → elements (append_to grow cells s xs).0 (append_to grow cells s xs).1
        ≡ elements cells s ++ xs
  append_to-elements grow cells s xs valid = elim (append_to-cases grow cells s xs) [
    | inl (fits, e) ↦
        subst (λ r. elements r.0 r.1 ≡ elements cells s ++ xs) (sym e)
          (in_place-elements cells s xs valid fits)
    | inr (full, e) ↦
        subst (λ r. elements r.0 r.1 ≡ elements cells s ++ xs) (sym e)
          (moved-elements grow cells s xs (length-elements cells s valid))
  ]

  length-drop : (n : ℕ) (xs : List A) → length xs ≤ n + length (drop n xs)
  length-drop zero xs = omega arith
  length-drop (suc n) [] = omega arith
  length-drop (suc n) (x ∷ xs) = omega (arith, length-drop n xs)

  pub length-written :
      (n : ℕ) (old xs : List A)
      → n ≤ length old
      → (n + length xs ≤ length (take n old ++ (xs ++ drop (n + length xs) old)))
        × (length old ≤ length (take n old ++ (xs ++ drop (n + length xs) old)))
  length-written n old xs h =
      let rest = drop (n + length xs) old in
      let whole : length (take n old ++ (xs ++ rest)) ≡ n + (length xs + length rest) = omega (
        arith,
        length-append (take n old) (xs ++ rest),
        length-append xs rest,
        length-take n old h,
      ) in
      (omega (arith, whole), omega (arith, whole, length-drop (n + length xs) old))
