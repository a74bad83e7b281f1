-- ===== src/Gee/Trie/Reach.antt =====
-- Which paths an inserted route serves.
use go_little_project.Base.{
  ℕ, suc, ◌≡◌, refl, ◌≢◌, ◌⊎◌, inl, inr, Bool, true, List, [], ◌∷◌, none, GoString, str_eq,
  str_beq_iff, arith, Bool-cases,
}
use go_little_project.Gee.Trie.{
  Node, Nodes, node, nil, cons, starts_wild, fits, new_child, update_child, match_children,
  insert_node, first_found, search, wild_of,
}
use go_little_project.Gee.Trie.Shape.{is_star, StarLast, IsTrie, trie, AreTries, done, more}
use go_little_project.Gee.Trie.Free.{EachNode, EachNode-all}
use go_little_project.Gee.Trie.Search.{Stands, CoversEach, insert-fits}

module _ (P : ℕ → GoString → Type 0) where
  -- A part that covers another fits no fewer children.
  covers-fits :
      (d : ℕ) (p q : GoString) (c : Node)
      → (p ≡ q) ⊎ (starts_wild p ≡ true)
      → IsTrie P d c
      → fits p c ≡ true
      → fits q c ≡ true
  covers-fits d p q c (inl e) t h = ground arith
  covers-fits d p q (node pattern part cs w) (inr wild) (trie flag st e ts) h =
      ground (arith, str_beq_iff part p)

  pub update-covers :
      (Q : Node → Type 0) (d : ℕ) (p q : GoString) (f : Node → Node) (qs : List GoString)
      (cs : Nodes)
      → Stands p q
      → ((c : Node) → fits q (f c) ≡ fits q c)
      → ((c : Node) → IsTrie P d c → Q c → fits p c ≡ true → search qs (f c) ≢ none)
      → search qs (f (new_child p)) ≢ none
      → AreTries P d cs
      → EachNode Q cs
      → first_found (search qs) (match_children q (update_child p f cs)) ≢ none
  unfolding first_found match_children update_child
  update-covers Q d p q f qs nil here same each fresh ts hs =
      ground (arith, same (new_child p), str_beq_iff p q)
  update-covers Q d p q f qs (cons c cs) here same each fresh (more t ts) (h, hs) =
      let later = update-covers Q d p q f qs cs here same each fresh ts hs in
      elim (Bool-cases (fits p c)) [
        | inl e ↦ ground (arith, same c, covers-fits d p q c here t e, each c t h e)
        | inr e ↦ ground (arith, later)
      ]

  module _ (pattern : GoString) (ne : pattern ≢ []) where
    fresh_end :
        (p : GoString) (ps qs : List GoString)
        → ps ≡ []
        → CoversEach ps qs
        → search qs (insert_node pattern ps (new_child p)) ≢ none
    unfolding search insert_node
    fresh_end p [] [] e c = ground (arith, str_beq_iff pattern [])
    fresh_end p [] (q ∷ qs) e c = elim c [ ]
    fresh_end p (p' ∷ ps) qs e c = absurd (ground arith)

    -- A path that the pattern covers leads to some route after the pattern is inserted.
    pub insert-CoversEach :
        (ps qs : List GoString) (d : ℕ) (n : Node)
        → StarLast ps
        → CoversEach ps qs
        → IsTrie P d n
        → search qs (insert_node pattern ps n) ≢ none
    unfolding search insert_node
    insert-CoversEach [] [] d n s c (trie flag st e ts) = ground (arith, str_beq_iff pattern [])
    insert-CoversEach (p ∷ ps) (q ∷ qs) d n (last, s) (here, c)
          (trie {pattern = old} {part} {cs} flag st e ts) =
        elim (Bool-cases (is_star part)) [
          | inl star ↦ ground (arith, st star, str_beq_iff old [])
          | inr plain ↦
              let found =
                update-covers (λ child. Unit) (suc d) p q (insert_node pattern ps) qs cs here
                  (insert-fits pattern ne ps q)
                  (λ child t u e. insert-CoversEach ps qs (suc d) child s c t)
                  (elim last [
                    | inl e ↦ fresh_end p ps qs e c
                    | inr e ↦
                        insert-CoversEach ps qs (suc d) (new_child p) s c
                          (trie refl (λ star. absurd (ground arith)) (inl refl) done)
                  ])
                  ts (EachNode-all (λ child. Unit) (λ child. tt) cs) in
              ground (arith, found)
        ]
    insert-CoversEach [] (q ∷ qs) d n s c t = elim c [ ]
    insert-CoversEach (p ∷ ps) [] d n s c t = elim c [ ]

-- Behind a wild child that comes first, the next part of an inserted pattern is forgotten: a
-- pattern with any other part there gives the same tree.
insert-wild :
    (pattern old part : GoString) (ps : List GoString) (c : Node) (cs : Nodes) (w : Bool)
    (p q : GoString)
    → wild_of c ≡ true
    → insert_node pattern (p ∷ ps) (node old part (cons c cs) w)
      ≡ insert_node pattern (q ∷ ps) (node old part (cons c cs) w)
unfolding insert_node update_child
insert-wild pattern old part ps c cs w p q h = ground arith
