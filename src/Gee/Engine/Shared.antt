-- ===== src/Gee/Engine/Shared.antt =====
-- The groups whose middlewares share an array.
use go_little_project.Base.{
  ℕ, suc, ◌-◌, take, ◌<◌, ◌≤◌, ◌≡◌, refl, sym, ap, ◌∙◌, subst, ◌≢◌, inl, inr, List, [], ◌∷◌, ◌++◌,
  Option, none, some, get_elem?, length, set_at, ok, arith, get_elem?-bound, get_elem?-set_self,
  get_elem?-set_other, nat_cases,
}
use go_little_project.Base.Slices.{elements, append_to, IsSlice, IsApart}
use go_little_project.Base.Slices.Appends.{append_to-elements}
use go_little_project.Base.Slices.Shares.{
  append_to-IsSlice, append_to-elements_apart, append_to-elements_over, appended-IsSlice,
}
use go_little_project.Gee.Engine.{RouterGroup, Engine, use_on}

-- A new array has room for what is appended.
abbrev pub Grows : (ℕ → ℕ → ℕ) → Type 0
Grows grow = (cap n : ℕ) → n ≤ grow cap n

module _ {H : Type 0} where
  -- The middlewares of every group are a slice.
  abbrev pub HasSlices : Engine H → Type 0
  HasSlices e =
      (j : ℕ) (g : RouterGroup)
      → get_elem? e.router_groups j ≡ some g
      → IsSlice e.cells g.middlewares

  -- The middlewares of a group, if it is there.
  unfoldable pub middlewares_at : Engine H → ℕ → Option (List H)
  middlewares_at e j = elim (get_elem? e.router_groups j) [
    | none ↦ none
    | some g ↦ some (elements e.cells g.middlewares)
  ]

  pub at_group :
      (e : Engine H) (j : ℕ) (g : RouterGroup)
      → get_elem? e.router_groups j ≡ some g
      → middlewares_at e j ≡ some (elements e.cells g.middlewares)
  unfolding middlewares_at
  at_group e j g at = rw (middlewares_at, at) refl

  -- the engine after `Use`
  abbrev pub used : (ℕ → ℕ → ℕ) → Engine H → ℕ → RouterGroup → List H → Engine H
  used grow e i g xs =
      let r = append_to grow e.cells g.middlewares xs in
      record e {
        router_groups = set_at i (record g { middlewares = r.1 }) e.router_groups;
        cells = r.0;
      }

  pub group_after :
      (grow : ℕ → ℕ → ℕ) (e : Engine H) (i j : ℕ) (g h : RouterGroup) (xs : List H)
      → j ≢ i
      → get_elem? e.router_groups j ≡ some h
      → get_elem? (used grow e i g xs).router_groups j ≡ some h
  group_after grow e i j g h xs ne at =
      get_elem?-set_other e.router_groups i j _ (λ q. ne (sym q)) ∙ at

  -- the steps of `Use` on a group that is there
  module _ (grow : ℕ → ℕ → ℕ) (e : Engine H) (i : ℕ) (g : RouterGroup) (xs : List H)
      (valid : HasSlices e) (at : get_elem? e.router_groups i ≡ some g) where
    pub use_on-used : use_on grow e i xs ≡ ok (used grow e i g xs)
    unfolding use_on
    use_on-used = rw (use_on, at) refl

    pub used_self :
        get_elem? (used grow e i g xs).router_groups i
        ≡ some (record g { middlewares = (append_to grow e.cells g.middlewares xs).1 })
    used_self = get_elem?-set_self e.router_groups i _ (get_elem?-bound e.router_groups i g at)

    pub used-HasSlices : Grows grow → HasSlices (used grow e i g xs)
    used-HasSlices enough j h found = elim (nat_cases j i) [
      | inl same ↦
          let it : h ≡ record g { middlewares = (append_to grow e.cells g.middlewares xs).1 } = cc (
            used_self,
            subst (λ q. get_elem? (used grow e i g xs).router_groups q ≡ some h) same found,
          ) in
          subst
            (λ (q : RouterGroup). IsSlice (append_to grow e.cells g.middlewares xs).0 q.middlewares)
            (sym it) (appended-IsSlice grow e.cells g.middlewares xs enough (valid i g at))
      | inr ne ↦
          append_to-IsSlice grow e.cells g.middlewares h.middlewares xs (valid i g at)
            (valid j h (sym (get_elem?-set_other e.router_groups i j _ (λ q. ne (sym q))) ∙ found))
    ]

    pub used-extends :
        middlewares_at (used grow e i g xs) i ≡ some (elements e.cells g.middlewares ++ xs)
    used-extends =
        at_group (used grow e i g xs) i _ used_self
        ∙ ap some (append_to-elements grow e.cells g.middlewares xs (valid i g at))

    used-apart :
        (j : ℕ) (h : RouterGroup)
        → j ≢ i
        → get_elem? e.router_groups j ≡ some h
        → IsApart g.middlewares (length xs) h.middlewares
        → middlewares_at (used grow e i g xs) j ≡ middlewares_at e j
    used-apart j h ne found apart =
        at_group (used grow e i g xs) j h (group_after grow e i j g h xs ne found)
        ∙ ap some (
            append_to-elements_apart grow e.cells g.middlewares h.middlewares xs (valid i g at)
              (valid j h found) apart)
        ∙ sym (at_group e j h found)

  -- The last middleware of the longer group is the new one of the other.
  pub used-over :
      (grow : ℕ → ℕ → ℕ) (e : Engine H) (i j : ℕ) (g h : RouterGroup) (x : H)
      → HasSlices e
      → get_elem? e.router_groups i ≡ some g
      → get_elem? e.router_groups j ≡ some h
      → j ≢ i
      → g.middlewares.array ≡ h.middlewares.array
      → h.middlewares.len ≡ suc g.middlewares.len
      → g.middlewares.len < g.middlewares.cap
      → middlewares_at (used grow e i g (x ∷ [])) j
        ≡ some (elements e.cells g.middlewares ++ x ∷ [])
  used-over grow e i j g h x valid at there ne same longer room =
      let over =
        append_to-elements_over grow e.cells g.middlewares h.middlewares (x ∷ []) (valid i g at)
          (valid j h there) same (omega (arith, room)) (omega (arith, longer))
          (omega (arith, longer)) in
      let one : h.middlewares.len - g.middlewares.len ≡ 1 = omega (arith, longer) in
      at_group (used grow e i g (x ∷ [])) j h (group_after grow e i j g h (x ∷ []) ne there)
      ∙ ap some (over ∙ ap (λ n. elements e.cells g.middlewares ++ take n (x ∷ [])) one)

  -- `Use` gives a group its new middlewares behind those that it has. Another group keeps its own,
  -- unless it has the same array, is the longer one, and the array has room.
  pub use_on-keeps :
      (grow : ℕ → ℕ → ℕ) (e : Engine H) (i j : ℕ) (g h : RouterGroup) (xs : List H)
      → Grows grow
      → HasSlices e
      → get_elem? e.router_groups i ≡ some g
      → j ≢ i
      → get_elem? e.router_groups j ≡ some h
      → IsApart g.middlewares (length xs) h.middlewares
      → (e' : Engine H) × (use_on grow e i xs ≡ ok e')
        × HasSlices e'
        × (middlewares_at e' i ≡ some (elements e.cells g.middlewares ++ xs))
        × (middlewares_at e' j ≡ middlewares_at e j)
  use_on-keeps grow e i j g h xs enough valid at ne there apart = (
    used grow e i g xs,
    use_on-used grow e i g xs valid at,
    used-HasSlices grow e i g xs valid at enough,
    used-extends grow e i g xs valid at,
    used-apart grow e i g xs valid at j h ne there apart,
  )
