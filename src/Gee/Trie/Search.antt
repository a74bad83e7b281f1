-- ===== src/Gee/Trie/Search.antt =====
-- What `search` finds in a prefix tree, and what `insert` adds to it.
use go_little_project.Base.{
  ℕ, suc, ◌+◌, ◌≤◌, ◌≡◌, refl, ◌≢◌, ◌⊎◌, inl, inr, true, List, [], ◌∷◌, none, some, GoString,
  length, str_eq, str_beq_iff, arith, Bool-cases, subst, Option-cases,
}
use go_little_project.Gee.Trie.{
  Node, Nodes, node, nil, cons, pattern_of, starts_wild, fits, update_child, match_children,
  insert_node, first_found, ending, search,
}
use go_little_project.Gee.Trie.Shape.{is_star, IsTrie, trie, AreTries, more}

-- a part of the pattern stands for a part of the path
abbrev pub Stands : GoString → GoString → Type 0
Stands p q = (p ≡ q) ⊎ (starts_wild p ≡ true)

-- each part of the pattern, also `*`, stands for one part of the path
abbrev pub CoversEach : List GoString → List GoString → Type 0
CoversEach [] [] = Unit
CoversEach [] (q ∷ qs) = ⊥
CoversEach (p ∷ ps) [] = ⊥
CoversEach (p ∷ ps) (q ∷ qs) = Stands p q × CoversEach ps qs

module _ (P : ℕ → GoString → Type 0) where
  -- a node at a depth that the path reaches, where a pattern ends
  abbrev pub IsEnd : ℕ → ℕ → Node → Type 0
  IsEnd d most m = (k : ℕ) × (k ≤ most) × P (d + k) (pattern_of m) × (pattern_of m ≢ [])

  ending-IsEnd : (d most : ℕ) (n m : Node) → IsTrie P d n → ending n ≡ some m → IsEnd d most m
  ending-IsEnd d most n m (trie {pattern} {part} {cs} {w} flag st (inl e) ts) h =
      absurd (ground (arith, str_beq_iff pattern []))
  ending-IsEnd d most n m (trie {pattern} {part} {cs} {w} flag st (inr e) ts) h =
      let ne : pattern ≢ [] = ground (arith, str_beq_iff pattern []) in
      let same : m ≡ node pattern part cs w = ground arith in
      (0, omega arith, rw same (subst (λ k. P k pattern) (omega arith) e), rw same ne)

  children_found :
      (d : ℕ) (qs : List GoString) (q : GoString) (m : Node) (cs : Nodes)
      → AreTries P d cs
      → ((c : Node) → IsTrie P d c → search qs c ≡ some m → IsEnd d (length qs) m)
      → first_found (search qs) (match_children q cs) ≡ some m
      → IsEnd d (length qs) m
  unfolding first_found match_children
  children_found d qs q m nil ts each h = absurd (ground arith)
  children_found d qs q m (cons c cs) (more t ts) each h = elim (Bool-cases (fits q c)) [
    | inl e ↦ elim (Option-cases (search qs c)) [
      | inl missed ↦ children_found d qs q m cs ts each (ground arith)
      | inr (n, found) ↦ each c t (ground arith)
    ]
    | inr e ↦ children_found d qs q m cs ts each (ground arith)
  ]

  -- What `search` returns lies no deeper than the path is long, and a pattern ends there.
  pub search-IsEnd :
      (qs : List GoString) (d : ℕ) (n m : Node)
      → IsTrie P d n
      → search qs n ≡ some m
      → IsEnd d (length qs) m
  unfolding search
  search-IsEnd [] d n m t h = ending-IsEnd d 0 n m t h
  search-IsEnd (q ∷ qs) d (node old part cs w) m (trie flag st e ts) h =
      elim (Bool-cases (is_star part)) [
        | inl s ↦
            ending-IsEnd d (suc (length qs)) (node old part cs w) m (trie flag st e ts)
              (ground arith)
        | inr s ↦
            let (k, le, p, ne) =
              children_found (suc d) qs q m cs ts (λ c t f. search-IsEnd qs (suc d) c m t f)
                (ground arith) in
            (suc k, omega arith, subst (λ j. P j (pattern_of m)) (omega arith) p, ne)
      ]

module _ (f : Node → Node) (q : GoString) (qs : List GoString)
    (same : (c : Node) → fits q (f c) ≡ fits q c) where
  -- An update of a child keeps what the loop over the children finds, if it does so in the child.
  update-found :
      (p : GoString) (cs : Nodes)
      → ((c : Node) → search qs c ≢ none → search qs (f c) ≢ none)
      → first_found (search qs) (match_children q cs) ≢ none
      → first_found (search qs) (match_children q (update_child p f cs)) ≢ none
  unfolding first_found match_children update_child
  update-found p nil keep h = absurd (ground arith)
  update-found p (cons c cs) keep h = ground (arith, same c, keep c, update-found p cs keep)

module _ (pattern : GoString) (ne : pattern ≢ []) where
  pub insert-fits :
      (ps : List GoString) (q : GoString) (c : Node) → fits q (insert_node pattern ps c) ≡ fits q c
  unfolding insert_node
  insert-fits [] q (node old part cs w) = refl
  insert-fits (p ∷ ps) q (node old part cs w) = refl

  -- A path that led to some route still does after any other route is inserted.
  pub insert-found :
      (ps qs : List GoString) (n : Node)
      → search qs n ≢ none
      → search qs (insert_node pattern ps n) ≢ none
  unfolding search insert_node
  insert-found [] [] (node old part cs w) h = ground (arith, str_beq_iff pattern [])
  insert-found [] (q ∷ qs) (node old part cs w) h = ground (arith, str_beq_iff pattern [])
  insert-found (p ∷ ps) [] (node old part cs w) h = ground arith
  insert-found (p ∷ ps) (q ∷ qs) (node old part cs w) h = elim (Bool-cases (is_star part)) [
    | inl s ↦ ground arith
    | inr s ↦ ground (
      arith,
      update-found (insert_node pattern ps) q qs (insert-fits ps q) p cs
          (λ c. insert-found ps qs c),
    )
  ]
