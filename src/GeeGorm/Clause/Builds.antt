-- ===== src/GeeGorm/Clause/Builds.antt =====
-- What `Build` makes of the clauses that `Set` has put.
use go_little_project.Base.{
  ℕ, suc, ◌≡◌, refl, List, [], ◌∷◌, none, some, lookup, nat_eq, length, ap, Option-cases, inl, inr,
}
use go_little_project.GeeGorm.Clause.{Clause, build_loop, build}

-- how many of the clauses are there
unfoldable pub count_set : Clause → List ℕ → ℕ
count_set c [] = 0
count_set c (o ∷ os) =
    let rest = count_set c os in elim (lookup o c.sql) [ none ↦ rest | some s ↦ suc rest ]

-- `Build` makes one variable for each clause that it finds, a slice that holds the variables of
-- that clause, however many they are.
pub build-length : (c : Clause) (orders : List ℕ) → length (build c orders).1 ≡ count_set c orders
unfolding build build_loop count_set
build-length c [] = refl
build-length c (o ∷ os) = elim (Option-cases (lookup o c.sql)) [
  | inl miss ↦ rw (build_loop, count_set, miss) (build-length c os)
  | inr (s, hit) ↦ rw (build_loop, count_set, hit) (ap (λ n. suc n) (build-length c os))
]
