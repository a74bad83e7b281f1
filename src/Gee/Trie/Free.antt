-- ===== src/Gee/Trie/Free.antt =====
-- Depths of the prefix tree at which no `:` part stands.
use go_little_project.Base.{
  ℕ, zero, suc, ◌≡◌, false, List, [], ◌∷◌, GoString, str_eq, Bool-cases, inl, inr, ap, ◌∙◌,
}
use go_little_project.Gee.Trie.{
  Node, Nodes, node, nil, cons, part_of, children_of, first_is, fits, new_child, update_child,
  insert_node,
}
use go_little_project.Gee.Trie.Shape.{part-insert}

abbrev pub EachNode : (Node → Type 0) → Nodes → Type 0
EachNode Q nil = Unit
EachNode Q (cons c cs) = Q c × EachNode Q cs

pub EachNode-all : (Q : Node → Type 0) → ((c : Node) → Q c) → (cs : Nodes) → EachNode Q cs
EachNode-all Q h nil = tt
EachNode-all Q h (cons c cs) = (h c, EachNode-all Q h cs)

abbrev pub HasNoColon : Node → Type 0
HasNoColon c = first_is b':' (part_of c) ≡ false

-- no node that lies `k` levels below the children has a `:` part
abbrev pub FreeBelow : ℕ → Node → Type 0
FreeBelow zero n = EachNode HasNoColon (children_of n)
FreeBelow (suc k) n = EachNode (FreeBelow k) (children_of n)

-- the part at the index, if there is one, is no `:` part
abbrev pub FreeAt : ℕ → List GoString → Type 0
FreeAt k [] = Unit
FreeAt zero (p ∷ ps) = first_is b':' p ≡ false
FreeAt (suc k) (p ∷ ps) = FreeAt k ps

update-EachNode :
    (Q : Node → Type 0) (p : GoString) (f : Node → Node) (cs : Nodes)
    → EachNode Q cs
    → ((c : Node) → Q c → Q (f c))
    → Q (f (new_child p))
    → EachNode Q (update_child p f cs)
unfolding update_child
update-EachNode Q p f nil h keep fresh = (fresh, tt)
update-EachNode Q p f (cons c cs) (h, hs) keep fresh = elim (Bool-cases (fits p c)) [
  | inl e ↦ rw e (keep c h, hs)
  | inr e ↦ rw e (h, update-EachNode Q p f cs hs keep fresh)
]

pub new-FreeBelow : (k : ℕ) (p : GoString) → FreeBelow k (new_child p)
new-FreeBelow zero p = tt
new-FreeBelow (suc k) p = tt

pub empty-FreeBelow : (k : ℕ) → FreeBelow k (node [] [] nil false)
empty-FreeBelow zero = tt
empty-FreeBelow (suc k) = tt

-- A pattern without a `:` part at the index leaves the level free.
pub insert-FreeBelow :
    (pattern : GoString) (ps : List GoString) (k : ℕ) (n : Node)
    → FreeAt k ps
    → FreeBelow k n
    → FreeBelow k (insert_node pattern ps n)
unfolding insert_node
insert-FreeBelow pattern [] zero (node old part cs w) a h = h
insert-FreeBelow pattern [] (suc k) (node old part cs w) a h = h
insert-FreeBelow pattern (p ∷ ps) zero (node old part cs w) a h =
    update-EachNode HasNoColon p (insert_node pattern ps) cs h
      (λ c x. ap (first_is b':') (part-insert pattern ps c) ∙ x)
      (ap (first_is b':') (part-insert pattern ps (new_child p)) ∙ a)
insert-FreeBelow pattern (p ∷ ps) (suc k) (node old part cs w) a h =
    update-EachNode (FreeBelow k) p (insert_node pattern ps) cs h
      (λ c x. insert-FreeBelow pattern ps k c a x)
      (insert-FreeBelow pattern ps k (new_child p) a (new-FreeBelow k p))
