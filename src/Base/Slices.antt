-- ===== src/Base/Slices.antt =====
-- Go slices over arrays that they share, and `append`. A slice begins at the first cell of its array,
-- and the cells that have never been written are left out of the array's list.
pub mod Appends
pub mod Shares
use Prim.Native.Nat.{ℕ, zero, suc, ◌+◌, ◌<◌, ◌≤◌}
use mathlib.Core.Path.{◌≡◌, refl, sym, ap, ◌∙◌, subst}
use mathlib.Core.Logic.{◌⊎◌, inl, inr, ◌≢◌}
use mathlib.Core.Bool.{Bool, true, false}
use mathlib.Core.List.{List, [], ◌∷◌, ◌++◌, append-nil, append_assoc}
use mathlib.Core.Option.{Option, none, some}
use native.Mathlib.Omega.{arith}
use go_little_project.Base.Tests.{
  leb, leb→le, if◌then◌else◌, if_true, if_false, Bool-cases, nat_eq, ◌==◌, nat_beq_iff,
}
use go_little_project.Base.Lists.{
  length, get_elem?, take, drop, set_at, length-append, get_elem?-append, get_elem?-last,
  get_elem?-bound, get_elem?-set_self, get_elem?-set_other, length-set_at, length-take, take-take,
  take-append, take-all,
}

pub record Slice : Type 0 where
  pub array : ℕ
  pub len : ℕ
  pub cap : ℕ

abbrev pub nil_slice : Slice
nil_slice = record { array = 0; len = 0; cap = 0 }

-- Writing `n` elements through `s`, from its end on, does not reach the elements of `t`.
pub data IsApart (s : Slice) (n : ℕ) (t : Slice) : Type 0 where
  other_array : s.array ≢ t.array → IsApart s n t
  not_longer : t.len ≤ s.len → IsApart s n t
  no_room : s.cap < s.len + n → IsApart s n t

module _ {A : Type 0} where
  abbrev pub array_at : List (List A) → ℕ → List A
  array_at cells p = elim (get_elem? cells p) [ none ↦ [] | some a ↦ a ]

  -- the elements of a slice
  abbrev pub elements : List (List A) → Slice → List A
  elements cells s = take s.len (array_at cells s.array)

  -- what `append` leaves while the capacity is enough, and else: a new array, whose capacity `grow`
  -- chooses
  abbrev pub in_place : List (List A) → Slice → List A → List (List A) × Slice
  in_place cells s xs =
      let n = s.len + length xs in
      let old = array_at cells s.array in
      (set_at s.array (take s.len old ++ (xs ++ drop n old)) cells, record s { len = n })

  abbrev pub moved : (ℕ → ℕ → ℕ) → List (List A) → Slice → List A → List (List A) × Slice
  moved grow cells s xs =
      let n = s.len + length xs in
      (
        cells ++ (elements cells s ++ xs) ∷ [],
        record { array = length cells; len = n; cap = grow s.cap n },
      )

  -- `append`
  unfoldable pub append_to : (ℕ → ℕ → ℕ) → List (List A) → Slice → List A → List (List A) × Slice
  append_to grow cells s xs =
      if leb (s.len + length xs) s.cap then in_place cells s xs else moved grow cells s xs

  -- The array is there, and holds the elements; nil has none.
  pub record IsSlice (cells : List (List A)) (s : Slice) : Type 0 where
    pub len_cap : s.len ≤ s.cap
    pub there : (s.cap ≡ 0) ⊎ ((s.array < length cells) × (s.len ≤ length (array_at cells s.array)))

  pub append_to-cases :
      (grow : ℕ → ℕ → ℕ) (cells : List (List A)) (s : Slice) (xs : List A)
      → ((s.len + length xs ≤ s.cap) × (append_to grow cells s xs ≡ in_place cells s xs))
        ⊎ ((s.cap < s.len + length xs) × (append_to grow cells s xs ≡ moved grow cells s xs))
  unfolding append_to
  append_to-cases grow cells s xs = elim (Bool-cases (leb (s.len + length xs) s.cap)) [
    | inl fits ↦ inl (leb→le (s.len + length xs) s.cap fits, if_true _ _ _ fits)
    | inr full ↦ inr (ground (arith, full), if_false _ _ _ full)
  ]
