-- ===== src/Gee/Trie/Shape.antt =====
-- The shape of the prefix tree: what holds of every node at its depth, kept by `insert`.
use go_little_project.Base.{
  ℕ, suc, ◌+◌, ◌≡◌, refl, ◌≢◌, ◌⊎◌, inl, inr, Bool, true, false, List, [], ◌∷◌, GoString, str,
  length, str_eq, has_prefix, arith, Bool-cases, subst,
}
use go_little_project.Gee.Trie.{
  Node, Nodes, node, nil, cons, starts_wild, fits, new_child, part_of, empty_node, update_child,
  insert_node,
}

abbrev pub is_star : GoString → Bool
is_star part = has_prefix part (str "*")

-- only the last part begins with `*`
abbrev pub StarLast : List GoString → Type 0
StarLast [] = Unit
StarLast (p ∷ ps) = ((ps ≡ []) ⊎ (is_star p ≡ false)) × StarLast ps

module _ (P : ℕ → GoString → Type 0) where
  -- a pattern that ends at the depth, if any does
  abbrev pub EndsAt : ℕ → GoString → Type 0
  EndsAt d pattern = (pattern ≡ []) ⊎ P d pattern

  mutual
    -- The flags agree with the parts, a pattern ends at each `*` node, and the patterns satisfy `P`.
    pub data IsTrie : ℕ → Node → Type 0 where
      trie :
          {d : ℕ} {pattern part : GoString} {cs : Nodes} {w : Bool}
          → w ≡ starts_wild part
          → (is_star part ≡ true → pattern ≢ [])
          → EndsAt d pattern
          → AreTries (suc d) cs
          → IsTrie d (node pattern part cs w)

    pub data AreTries : ℕ → Nodes → Type 0 where
      done : {d : ℕ} → AreTries d nil
      more : {d : ℕ} {c : Node} {cs : Nodes} → IsTrie d c → AreTries d cs → AreTries d (cons c cs)

  pub empty-IsTrie : IsTrie 0 empty_node
  empty-IsTrie = trie refl (λ h. absurd (ground arith)) (inl refl) done

  update-AreTries :
      (d : ℕ) (p : GoString) (f : Node → Node) (cs : Nodes)
      → AreTries d cs
      → ((c : Node) → IsTrie d c → IsTrie d (f c))
      → IsTrie d (f (new_child p))
      → AreTries d (update_child p f cs)
  unfolding update_child
  update-AreTries d p f nil h keep fresh = more fresh done
  update-AreTries d p f (cons c cs) (more t ts) keep fresh = elim (Bool-cases (fits p c)) [
    | inl e ↦ rw e (more (keep c t) ts)
    | inr e ↦ rw e (more t (update-AreTries d p f cs ts keep fresh))
  ]

  module _ (pattern : GoString) (ne : pattern ≢ []) where
    mutual
      unfolding insert_node update_child

      pub insert-IsTrie :
          (ps : List GoString) (d : ℕ) (n : Node)
          → StarLast ps
          → P (d + length ps) pattern
          → IsTrie d n
          → IsTrie d (insert_node pattern ps n)
      insert-IsTrie [] d n s h (trie w st e ts) =
          trie w (λ _. ne) (inr (subst (λ k. P k pattern) (omega arith) h)) ts
      insert-IsTrie (p ∷ ps) d n (last, s) h (trie {cs} w st e ts) = trie w st e (
          update-AreTries (suc d) p (insert_node pattern ps) cs ts
            (λ c t. insert-IsTrie ps (suc d) c s (subst (λ k. P k pattern) (omega arith) h) t)
            (insert-new ps p (suc d) last s (subst (λ k. P k pattern) (omega arith) h)))

      insert-new :
          (ps : List GoString) (p : GoString) (d : ℕ)
          → (ps ≡ []) ⊎ (is_star p ≡ false)
          → StarLast ps
          → P (d + length ps) pattern
          → IsTrie d (insert_node pattern ps (new_child p))
      insert-new [] p d last s h =
          trie refl (λ _. ne) (inr (subst (λ k. P k pattern) (omega arith) h)) done
      insert-new (q ∷ qs) p d last (last', s) h =
          trie refl (λ e. absurd (ground arith)) (inl refl)
            (more (insert-new qs q (suc d) last' s (subst (λ k. P k pattern) (omega arith) h)) done)

module _ (P Q : ℕ → GoString → Type 0) (weaker : (d : ℕ) (s : GoString) → P d s → Q d s) where
  weaker-EndsAt : (d : ℕ) (s : GoString) → EndsAt P d s → EndsAt Q d s
  weaker-EndsAt d s (inl e) = inl e
  weaker-EndsAt d s (inr p) = inr (weaker d s p)

  mutual
    -- The predicate on the patterns may be weakened.
    pub IsTrie-mono : {d : ℕ} {n : Node} → IsTrie P d n → IsTrie Q d n
    IsTrie-mono (trie {d} {pattern} flag st e ts) =
        trie flag st (weaker-EndsAt d pattern e) (AreTries-mono ts)

    AreTries-mono : {d : ℕ} {cs : Nodes} → AreTries P d cs → AreTries Q d cs
    AreTries-mono done = done
    AreTries-mono (more t ts) = more (IsTrie-mono t) (AreTries-mono ts)

module _ (P : ℕ → GoString → Type 0) where
  -- The empty pattern clears the root, where no part stands.
  pub insert_empty-IsTrie :
      (n : Node) → part_of n ≡ [] → IsTrie P 0 n → IsTrie P 0 (insert_node [] [] n)
  unfolding insert_node
  insert_empty-IsTrie (node pattern part cs w) h (trie flag st e ts) =
      trie flag (λ star. absurd (ground arith)) (inl refl) ts

pub part-insert :
    (pattern : GoString) (ps : List GoString) (n : Node)
    → part_of (insert_node pattern ps n) ≡ part_of n
unfolding insert_node
part-insert pattern [] (node old part cs w) = refl
part-insert pattern (p ∷ ps) (node old part cs w) = refl
