-- ===== src/Base/Slices/Shares.antt =====
-- What `append` leaves of the other slices.
use Prim.Native.Nat.{ℕ, zero, suc, ◌+◌, ◌-◌, ◌<◌, ◌≤◌}
use mathlib.Core.Path.{◌≡◌, sym, ap, ◌∙◌, subst}
use mathlib.Core.Logic.{inl, inr}
use mathlib.Core.List.{List, [], ◌∷◌, ◌++◌}
use native.Mathlib.Omega.{arith}
use go_little_project.Base.Tests.{nat_cases, nat_eq}
use go_little_project.Base.Lists.{
  length, take, drop, set_at, length-append, length-set_at, take-append,
}
use go_little_project.Base.Slices.{
  Slice, IsApart, other_array, not_longer, no_room, array_at, elements, in_place, append_to,
  append_to-cases, IsSlice,
}
use go_little_project.Base.Slices.Appends.{
  array_at-set_self, array_at-set_other, array_at-append, array_at-last, take-before, nothing_taken,
  length-written, length-elements,
}

module _ {A : Type 0} where
  len_room :
      (cells : List (List A)) (s : Slice)
      → IsSlice cells s
      → s.len ≤ length (array_at cells s.array)
  len_room cells s valid = elim valid.there [
    | inl nothing ↦ omega (arith, nothing, valid.len_cap)
    | inr (inside, room) ↦ room
  ]

  -- a write in place, with the cells `v` that the array has then
  module _ (cells : List (List A)) (s : Slice) (v : List A) where
    written-IsSlice :
        (t : Slice)
        → IsSlice cells t
        → length (array_at cells s.array) ≤ length v
        → IsSlice (set_at s.array v cells) t
    written-IsSlice t vt longer = record {
      len_cap = vt.len_cap;
      there = elim vt.there [
        | inl nothing ↦ inl nothing
        | inr (inside, room) ↦ inr (
          omega (arith, inside, length-set_at cells s.array v),
          elim (nat_cases s.array t.array) [
            | inl same ↦
                let at : array_at (set_at s.array v cells) t.array ≡ v =
                  subst (λ q. array_at (set_at s.array v cells) q ≡ v) same
                    (array_at-set_self cells s.array v (omega (arith, same, inside))) in
                omega (arith, ap length at, ap (λ q. length (array_at cells q)) same, room, longer)
            | inr apart ↦
                omega (arith, room, ap length (array_at-set_other cells s.array t.array v apart))
          ],
        )
      ];
    }

    written-elements :
        (t : Slice)
        → IsSlice cells t
        → (s.array ≡ t.array → take t.len v ≡ take t.len (array_at cells s.array))
        → elements (set_at s.array v cells) t ≡ elements cells t
    written-elements t vt kept = elim vt.there [
      | inl nothing ↦
          let none_in : t.len ≡ 0 = omega (arith, nothing, vt.len_cap) in
          nothing_taken t.len _ none_in ∙ sym (nothing_taken t.len _ none_in)
      | inr (inside, room) ↦ elim (nat_cases s.array t.array) [
        | inl same ↦
            subst
              (λ q.
                take t.len (array_at (set_at s.array v cells) q) ≡ take t.len (array_at cells q))
              same
              (ap (take t.len) (array_at-set_self cells s.array v (omega (arith, same, inside)))
                ∙ kept same)
        | inr apart ↦ ap (take t.len) (array_at-set_other cells s.array t.array v apart)
      ]
    ]

  take-past :
      (k : ℕ) (ys zs : List A) → length ys ≤ k → take k (ys ++ zs) ≡ ys ++ take (k - length ys) zs
  take-past k [] zs h = let same : k ≡ k - 0 = omega arith in ap (λ n. take n zs) same
  take-past zero (y ∷ ys) zs h = absurd (omega arith)
  take-past (suc k) (y ∷ ys) zs h =
      let same : k - length ys ≡ suc k - suc (length ys) = omega arith in
      ap (◌∷◌ y) (take-past k ys zs (omega arith) ∙ ap (λ n. ys ++ take n zs) same)

  module _ (grow : ℕ → ℕ → ℕ) (cells : List (List A)) (s t : Slice) (xs : List A) where
    -- Every slice stays one.
    pub append_to-IsSlice :
        IsSlice cells s → IsSlice cells t → IsSlice (append_to grow cells s xs).0 t
    append_to-IsSlice vs vt = elim (append_to-cases grow cells s xs) [
      | inl (fits, e) ↦
          subst (λ r. IsSlice r.0 t) (sym e)
            (written-IsSlice cells s _ t vt
              (length-written s.len (array_at cells s.array) xs (len_room cells s vs)).1)
      | inr (full, e) ↦
          subst (λ r. IsSlice r.0 t) (sym e)
            (record {
              len_cap = vt.len_cap;
              there = elim vt.there [
                | inl nothing ↦ inl nothing
                | inr (inside, room) ↦ inr (
                  omega (arith, inside, length-append cells ((elements cells s ++ xs) ∷ [])),
                  omega (
                    arith,
                    room,
                    ap length (array_at-append cells t.array (elements cells s ++ xs) inside),
                  ),
                )
              ];
            })
    ]

    apart_kept :
        IsSlice cells s
        → IsApart s (length xs) t
        → s.len + length xs ≤ s.cap
        → s.array ≡ t.array
        → take t.len (
            take s.len (array_at cells s.array)
            ++ (xs ++ drop (s.len + length xs) (array_at cells s.array)))
          ≡ take t.len (array_at cells s.array)
    apart_kept vs (other_array ne) fits same = absurd (ne same)
    apart_kept vs (not_longer l) fits same =
        take-before t.len s.len (array_at cells s.array) _ l (len_room cells s vs)
    apart_kept vs (no_room full) fits same = absurd (omega (arith, full, fits))

    -- A slice keeps its elements if the append does not reach them.
    pub append_to-elements_apart :
        IsSlice cells s
        → IsSlice cells t
        → IsApart s (length xs) t
        → elements (append_to grow cells s xs).0 t ≡ elements cells t
    append_to-elements_apart vs vt apart = elim (append_to-cases grow cells s xs) [
      | inl (fits, e) ↦
          subst (λ r. elements r.0 t ≡ elements cells t) (sym e)
            (written-elements cells s _ t vt λ same. apart_kept vs apart fits same)
      | inr (full, e) ↦
          subst (λ r. elements r.0 t ≡ elements cells t) (sym e)
            (elim vt.there [
              | inl nothing ↦
                  let none_in : t.len ≡ 0 = omega (arith, nothing, vt.len_cap) in
                  nothing_taken t.len _ none_in ∙ sym (nothing_taken t.len _ none_in)
              | inr (inside, room) ↦
                  ap (take t.len) (array_at-append cells t.array (elements cells s ++ xs) inside)
            ])
    ]

    -- A longer slice of the same array gets the new elements in place of its own, while the capacity
    -- is enough.
    pub append_to-elements_over :
        IsSlice cells s
        → IsSlice cells t
        → s.array ≡ t.array
        → s.len + length xs ≤ s.cap
        → s.len < t.len
        → t.len ≤ s.len + length xs
        → elements (append_to grow cells s xs).0 t ≡ elements cells s ++ take (t.len - s.len) xs
    append_to-elements_over vs vt same fits longer within = elim (append_to-cases grow cells s xs) [
      | inr (full, e) ↦ absurd (omega (arith, full, fits))
      | inl (_, e) ↦ elim vs.there [
        | inl nothing ↦ absurd (omega (arith, nothing, fits, longer, within))
        | inr (inside, room) ↦
            let old = array_at cells s.array in
            let whole = length-elements cells s vs in
            subst (λ r. elements r.0 t ≡ elements cells s ++ take (t.len - s.len) xs) (sym e)
              (subst
                (λ q.
                  take t.len (array_at (in_place cells s xs).0 q)
                  ≡ elements cells s ++ take (t.len - s.len) xs)
                same
                (ap (take t.len) (array_at-set_self cells s.array _ inside)
                  ∙ take-past t.len (take s.len old) _ (omega (arith, whole, longer))
                  ∙ ap (λ l. elements cells s ++ l)
                      (ap (λ n. take (t.len - n) (xs ++ drop (s.len + length xs) old)) whole
                        ∙ take-append (t.len - s.len) xs _ (omega (arith, within)))))
      ]
    ]

  -- What `append` returns is a slice.
  pub appended-IsSlice :
      (grow : ℕ → ℕ → ℕ) (cells : List (List A)) (s : Slice) (xs : List A)
      → ((cap n : ℕ) → n ≤ grow cap n)
      → IsSlice cells s
      → IsSlice (append_to grow cells s xs).0 (append_to grow cells s xs).1
  appended-IsSlice grow cells s xs enough vs = elim (append_to-cases grow cells s xs) [
    | inl (fits, e) ↦
        subst (λ r. IsSlice r.0 r.1) (sym e)
          (record {
            len_cap = fits;
            there = elim vs.there [
              | inl nothing ↦ inl nothing
              | inr (inside, room) ↦ inr (
                omega (
                  arith,
                  inside,
                  length-set_at cells s.array (
                      take s.len (array_at cells s.array)
                      ++ (xs ++ drop (s.len + length xs) (array_at cells s.array))),
                ),
                omega (
                  arith,
                  (length-written s.len (array_at cells s.array) xs room).0,
                  ap length (
                      array_at-set_self cells s.array
                        (take s.len (array_at cells s.array)
                          ++ (xs ++ drop (s.len + length xs) (array_at cells s.array)))
                        inside),
                ),
              )
            ];
          })
    | inr (full, e) ↦
        subst (λ r. IsSlice r.0 r.1) (sym e)
          (record {
            len_cap = enough s.cap (s.len + length xs);
            there = inr (
              omega (arith, length-append cells ((elements cells s ++ xs) ∷ [])),
              omega (
                arith,
                ap length (array_at-last cells (elements cells s ++ xs)),
                length-append (elements cells s) xs,
                length-elements cells s vs,
              ),
            );
          })
  ]
