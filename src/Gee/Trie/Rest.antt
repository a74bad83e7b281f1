-- ===== src/Gee/Trie/Rest.antt =====
-- Which paths an inserted route serves, where its `*` part stands for the rest of the path.
use go_little_project.Base.{
  ℕ, zero, suc, ◌≡◌, refl, ◌≢◌, ◌⊎◌, inl, inr, true, List, [], ◌∷◌, none, GoString, length, str_eq,
  str_beq_iff, arith, Bool-cases,
}
use go_little_project.Gee.Trie.{Node, node, starts_wild, fits, new_child, insert_node, search}
use go_little_project.Gee.Trie.Shape.{is_star, StarLast, IsTrie, trie, done}
use go_little_project.Gee.Trie.Search.{Stands, CoversEach, insert-fits}
use go_little_project.Gee.Trie.Free.{HasNoColon, FreeBelow, new-FreeBelow}
use go_little_project.Gee.Trie.Reach.{update-covers, insert-CoversEach}

-- A pattern covers a path: a `*` part stands for the rest of the path, which is not empty, a `:`
-- part for one part of any kind, and any other part for itself.
abbrev pub Covers : List GoString → List GoString → Type 0
Covers [] [] = Unit
Covers [] (q ∷ qs) = ⊥
Covers (p ∷ ps) [] = ⊥
Covers (p ∷ ps) (q ∷ qs) = (is_star p ≡ true) ⊎ (Stands p q × Covers ps qs)

-- the part at the index is the last one, a `*` part, and stands for the rest
abbrev CoversRest : ℕ → List GoString → List GoString → Type 0
CoversRest k [] qs = ⊥
CoversRest k (p ∷ ps) [] = ⊥
CoversRest zero (p ∷ ps) (q ∷ qs) = (is_star p ≡ true) × (ps ≡ [])
CoversRest (suc k) (p ∷ ps) (q ∷ qs) = Stands p q × CoversRest k ps qs

rest-ne : (k : ℕ) (ps qs : List GoString) → ps ≡ [] → CoversRest k ps qs → ⊥
rest-ne k [] qs e c = c
rest-ne k (p ∷ ps) qs e c = absurd (ground arith)

star-wild : (p : GoString) → is_star p ≡ true → starts_wild p ≡ true
star-wild [] e = absurd (ground (arith, e))
star-wild (b ∷ s) e = ground (arith, e)

Covers-CoversEach :
    (ps qs : List GoString) → StarLast ps → Covers ps qs → length ps ≡ length qs → CoversEach ps qs
Covers-CoversEach [] [] s c e = tt
Covers-CoversEach [] (q ∷ qs) s c e = elim c [ ]
Covers-CoversEach (p ∷ ps) [] s c e = elim c [ ]
Covers-CoversEach (p ∷ ps) (q ∷ qs) (last, s) (inr (here, c)) e =
    (here, Covers-CoversEach ps qs s c (omega arith))
Covers-CoversEach (p ∷ []) (q ∷ []) s (inl star) e = (inr (star-wild p star), tt)
Covers-CoversEach (p ∷ []) (q ∷ q' ∷ qs) s (inl star) e = absurd (omega arith)
Covers-CoversEach (p ∷ p' ∷ ps) (q ∷ qs) (inl none_left, s) (inl star) e = absurd (ground arith)
Covers-CoversEach (p ∷ p' ∷ ps) (q ∷ qs) (inr plain, s) (inl star) e = absurd (ground arith)

Covers-cases :
    (k : ℕ) (ps qs : List GoString)
    → StarLast ps
    → Covers ps qs
    → length ps ≡ suc k
    → CoversEach ps qs ⊎ CoversRest k ps qs
Covers-cases k [] qs s c e = absurd (omega arith)
Covers-cases k (p ∷ ps) [] s c e = elim c [ ]
Covers-cases zero (p ∷ []) (q ∷ qs) s (inl star) e = inr (star, refl)
Covers-cases zero (p ∷ []) (q ∷ []) s (inr (here, c)) e = inl (here, tt)
Covers-cases zero (p ∷ []) (q ∷ q' ∷ qs) s (inr (here, c)) e = elim c [ ]
Covers-cases zero (p ∷ p' ∷ ps) (q ∷ qs) s c e = absurd (omega arith)
Covers-cases (suc k) (p ∷ ps) (q ∷ qs) (inl none_left, s) c e = absurd (ground arith)
Covers-cases (suc k) (p ∷ ps) (q ∷ qs) (inr plain, s) (inl star) e = absurd (ground arith)
Covers-cases (suc k) (p ∷ ps) (q ∷ qs) (inr plain, s) (inr (here, c)) e =
    elim (Covers-cases k ps qs s c (omega arith)) [
      | inl each ↦ inl (here, each)
      | inr rest ↦ inr (here, rest)
    ]

module _ (P : ℕ → GoString → Type 0) (pattern : GoString) (ne : pattern ≢ []) where
  -- A child without a `:` part that takes in a `*` part is a `*` node.
  star_child :
      (d : ℕ) (p : GoString) (qs : List GoString) (c : Node)
      → is_star p ≡ true
      → IsTrie P d c
      → HasNoColon c
      → fits p c ≡ true
      → search qs (insert_node pattern [] c) ≢ none
  unfolding search insert_node
  star_child d p [] (node old part cs w) star t h f = ground (arith, str_beq_iff pattern [])
  star_child d p (q ∷ qs) (node old [] cs w) star (trie flag st e ts) h f =
      absurd (ground (arith, str_beq_iff [] p, f))
  star_child d p (q ∷ qs) (node old (b ∷ part) cs w) star (trie flag st e ts) h f =
      let is_p : (is_star (b ∷ part) ≡ true) = ground (arith, str_beq_iff (b ∷ part) p, f) in
      ground (arith, is_p, str_beq_iff pattern [])

  fresh_star :
      (p : GoString) (qs : List GoString)
      → is_star p ≡ true
      → search qs (insert_node pattern [] (new_child p)) ≢ none
  unfolding search insert_node
  fresh_star p [] star = ground (arith, str_beq_iff pattern [])
  fresh_star p (q ∷ qs) star = ground (arith, star, str_beq_iff pattern [])

  insert-CoversRest :
      (k : ℕ) (ps qs : List GoString) (d : ℕ) (n : Node)
      → StarLast ps
      → CoversRest k ps qs
      → IsTrie P d n
      → FreeBelow k n
      → search qs (insert_node pattern ps n) ≢ none
  unfolding search insert_node
  insert-CoversRest k [] qs d n s c t h = elim c [ ]
  insert-CoversRest k (p ∷ ps) [] d n s c t h = elim c [ ]
  insert-CoversRest zero (p ∷ p' ∷ ps) (q ∷ qs) d n s (star, e) t h = absurd (ground arith)
  insert-CoversRest zero (p ∷ []) (q ∷ qs) d n s (star, e)
        (trie {pattern = old} {part} {cs} flag st en ts) h =
      elim (Bool-cases (is_star part)) [
        | inl top ↦ ground (arith, st top, str_beq_iff old [])
        | inr plain ↦
            let found =
              update-covers P HasNoColon (suc d) p q (insert_node pattern []) qs cs
                (inr (star-wild p star)) (insert-fits pattern ne [] q)
                (λ c t free f. star_child (suc d) p qs c star t free f) (fresh_star p qs star) ts
                h in
            ground (arith, found)
      ]
  insert-CoversRest (suc k) (p ∷ ps) (q ∷ qs) d n (last, s) (here, c)
        (trie {pattern = old} {part} {cs} flag st en ts) h =
      elim (Bool-cases (is_star part)) [
        | inl top ↦ ground (arith, st top, str_beq_iff old [])
        | inr plain ↦
            let found =
              update-covers P (FreeBelow k) (suc d) p q (insert_node pattern ps) qs cs here
                (insert-fits pattern ne ps q)
                (λ child t free f. insert-CoversRest k ps qs (suc d) child s c t free)
                (elim last [
                  | inl e ↦ absurd (rest-ne k ps qs e c)
                  | inr e ↦
                      insert-CoversRest k ps qs (suc d) (new_child p) s c
                        (trie refl (λ star. absurd (ground arith)) (inl refl) done)
                        (new-FreeBelow k p)
                ])
                ts h in
            ground (arith, found)
      ]

  -- A path that the pattern covers leads to some route after the pattern is inserted, if it has as
  -- many parts, or no node has a `:` part where the last part of the pattern belongs.
  pub insert-Covers :
      (ps qs : List GoString) (n : Node)
      → StarLast ps
      → Covers ps qs
      → (length ps ≡ length qs) ⊎ ((k : ℕ) × (length ps ≡ suc k) × FreeBelow k n)
      → IsTrie P 0 n
      → search qs (insert_node pattern ps n) ≢ none
  insert-Covers ps qs n s c (inl same) t =
      insert-CoversEach P pattern ne ps qs 0 n s (Covers-CoversEach ps qs s c same) t
  insert-Covers ps qs n s c (inr (k, len, free)) t = elim (Covers-cases k ps qs s c len) [
    | inl each ↦ insert-CoversEach P pattern ne ps qs 0 n s each t
    | inr rest ↦ insert-CoversRest k ps qs 0 n s rest t free
  ]
