-- ===== src/Gee/Engine/Siblings.antt =====
-- Two groups of one parent.
use go_little_project.Base.{
  ℕ, zero, suc, ◌+◌, ◌<◌, ◌≡◌, refl, sym, ap, ◌∙◌, subst, inl, inr, ◌⊎◌, List, [], ◌∷◌, ◌++◌, some,
  GoString, get_elem?, length, Outcome, ok, ◌>>=◌, arith, get_elem?-append, get_elem?-last,
  get_elem?-bound, length-append,
}
use go_little_project.Base.Slices.{Slice, elements, append_to, append_to-cases, IsSlice, not_longer}
use go_little_project.Base.Slices.Shares.{append_to-elements_apart}
use go_little_project.Gee.Engine.{RouterGroup, Engine, use_on, new_group}
use go_little_project.Gee.Engine.Shared.{
  Grows, HasSlices, middlewares_at, used, use_on-used, used_self, used-HasSlices, used-extends,
  used-over, group_after,
}

abbrev child : RouterGroup → ℕ → GoString → RouterGroup
child g i prefix = record {
  prefix = g.prefix ++ prefix;
  parent = some i;
  middlewares = g.middlewares;
}

last_index :
    (gs : List RouterGroup) (g h : RouterGroup) (j : ℕ)
    → get_elem? (gs ++ g ∷ []) j ≡ some h
    → (get_elem? gs j ≡ some h) ⊎ ((j ≡ length gs) × (g ≡ h))
last_index [] g h zero at = inr (refl, cc at)
last_index [] g h (suc j) at = absurd (ground (arith, at))
last_index (k ∷ gs) g h zero at = inl at
last_index (k ∷ gs) g h (suc j) at = elim (last_index gs g h j at) [
  | inl early ↦ inl early
  | inr (e, same) ↦ inr (ap suc e, same)
]

module _ {H : Type 0} where
  -- the engine after `Group`
  abbrev grouped : Engine H → RouterGroup → ℕ → GoString → Engine H
  grouped e g i prefix = record e { router_groups = e.router_groups ++ child g i prefix ∷ [] }

  new_group_lem :
      (e : Engine H) (i : ℕ) (g : RouterGroup) (prefix : GoString)
      → get_elem? e.router_groups i ≡ some g
      → new_group e i prefix ≡ ok (grouped e g i prefix, length e.router_groups)
  unfolding new_group
  new_group_lem e i g prefix at = rw (new_group, at) refl

  kept_group :
      (e : Engine H) (i j : ℕ) (g h : RouterGroup) (prefix : GoString)
      → get_elem? e.router_groups j ≡ some h
      → get_elem? (grouped e g i prefix).router_groups j ≡ some h
  kept_group e i j g h prefix there =
      get_elem?-append e.router_groups _ j (get_elem?-bound e.router_groups j h there) ∙ there

  grouped-HasSlices :
      (e : Engine H) (i : ℕ) (g : RouterGroup) (prefix : GoString)
      → get_elem? e.router_groups i ≡ some g
      → HasSlices e
      → HasSlices (grouped e g i prefix)
  grouped-HasSlices e i g prefix at valid j h there =
      elim (last_index e.router_groups (child g i prefix) h j there) [
        | inl early ↦ valid j h early
        | inr (_, same) ↦
            subst (λ (q : RouterGroup). IsSlice e.cells q.middlewares) same (valid i g at)
      ]

  -- A first group is made below `i` and a second one, then each gets one middleware.
  unfoldable pub two_groups :
      (ℕ → ℕ → ℕ) → Engine H → ℕ → GoString → GoString → H → H → Outcome (Engine H × ℕ × ℕ)
  two_groups grow e i first second x y = do
    (e1, a) ← new_group e i first
    (e2, b) ← new_group e1 i second
    e3 ← use_on grow e2 a (x ∷ [])
    e4 ← use_on grow e3 b (y ∷ [])
    ok (e4, a, b)

  -- Two groups of one parent, whose array has room, get one middleware each. Then both have the
  -- parent's middlewares and behind them the middleware of the second group: that of the first group
  -- is gone.
  pub two_groups-overwritten :
      (grow : ℕ → ℕ → ℕ) (e : Engine H) (i : ℕ) (g : RouterGroup) (first second : GoString)
      (x y : H)
      → Grows grow
      → HasSlices e
      → get_elem? e.router_groups i ≡ some g
      → g.middlewares.len < g.middlewares.cap
      → (e' : Engine H) × (a : ℕ) × (b : ℕ) × (two_groups grow e i first second x y ≡ ok (e', a, b))
        × (middlewares_at e' a ≡ some (elements e.cells g.middlewares ++ y ∷ []))
        × (middlewares_at e' b ≡ some (elements e.cells g.middlewares ++ y ∷ []))
  unfolding two_groups
  two_groups-overwritten grow e i g first second x y enough valid at room =
      let e1 = grouped e g i first in
      let a = length e.router_groups in
      let e2 = grouped e1 g i second in
      let b = length e1.router_groups in
      let s = g.middlewares in
      let at1 : get_elem? e1.router_groups i ≡ some g = kept_group e i i g g first at in
      let a1 : get_elem? e1.router_groups a ≡ some (child g i first) =
        get_elem?-last e.router_groups _ in
      let a2 : get_elem? e2.router_groups a ≡ some (child g i first) =
        kept_group e1 i a g (child g i first) second a1 in
      let b2 : get_elem? e2.router_groups b ≡ some (child g i second) =
        get_elem?-last e1.router_groups _ in
      let b_is : b ≡ suc a = omega (arith, length-append e.router_groups (child g i first ∷ [])) in
      let valid2 = grouped-HasSlices e1 i g second at1 (grouped-HasSlices e i g first at valid) in
      let e3 = used grow e2 a (child g i first) (x ∷ []) in
      let slice = (append_to grow e.cells s (x ∷ [])).1 in
      let in_a : slice ≡ record s { len = s.len + 1 } =
        elim (append_to-cases grow e.cells s (x ∷ [])) [
          | inl (_, r) ↦ ap (λ q. q.1) r
          | inr (full, r) ↦ absurd (omega (arith, full, room))
        ] in
      let valid3 = used-HasSlices grow e2 a (child g i first) (x ∷ []) valid2 a2 enough in
      let a3 = used_self grow e2 a (child g i first) (x ∷ []) valid2 a2 in
      let b3 =
        group_after grow e2 a b (child g i first) (child g i second) (x ∷ [])
          (λ q. absurd (omega (arith, q, b_is))) b2 in
      let e4 = used grow e3 b (child g i second) (y ∷ []) in
      let kept : elements e3.cells s ≡ elements e.cells s =
        append_to-elements_apart grow e.cells s s (x ∷ []) (valid i g at) (valid i g at)
          (not_longer (omega arith)) in
      let over =
        used-over grow e3 b a (child g i second) (record (child g i first) { middlewares = slice })
          y valid3 b3 a3 (λ q. absurd (omega (arith, q, b_is)))
          (sym (ap (λ (q : Slice). q.array) in_a)) (omega (arith, ap (λ (q : Slice). q.len) in_a))
          room in
      let ext = used-extends grow e3 b (child g i second) (y ∷ []) valid3 b3 in
      (
        e4,
        a,
        b,
        rw
            (
              new_group_lem e i g first at,
              new_group_lem e1 i g second at1,
              use_on-used grow e2 a (child g i first) (x ∷ []) valid2 a2,
              use_on-used grow e3 b (child g i second) (y ∷ []) valid3 b3,
            )
            refl,
        over ∙ ap (λ l. some (l ++ y ∷ [])) kept,
        ext ∙ ap (λ l. some (l ++ y ∷ [])) kept,
      )
