-- ===== src/Gee/Trie.antt =====
-- gee/context/mygee/tire.go: the prefix tree of the routes. The argument `height` of the source is
-- modelled by the parts from that index on: `parts` here is `parts[height:]` there.
pub mod Shape
pub mod Search
pub mod Free
pub mod Reach
pub mod Rest
use go_little_project.Base.{
  ℕ, ◌≡◌, Bool, true, false, ◌||◌, List, [], ◌∷◌, Option, none, some, GoString, str, ◌==◌, str_eq,
  nat_beq, if◌then◌else◌, has_prefix,
}

mutual
  pub data Node : Type 0 where
    node : (pattern part : GoString) → Nodes → (is_wild : Bool) → Node

  pub data Nodes : Type 0 where
    nil : Nodes
    cons : Node → Nodes → Nodes

abbrev pub pattern_of : Node → GoString
pattern_of (node pattern part cs w) = pattern

abbrev pub part_of : Node → GoString
part_of (node pattern part cs w) = part

abbrev pub children_of : Node → Nodes
children_of (node pattern part cs w) = cs

abbrev pub wild_of : Node → Bool
wild_of (node pattern part cs w) = w

-- `part[0] == c`; the parts that `parsePatterns` returns are never empty
abbrev pub first_is : ℕ → GoString → Bool
first_is c [] = false
first_is c (b ∷ s) = nat_beq b c

abbrev pub starts_wild : GoString → Bool
starts_wild part = first_is b':' part || first_is b'*' part

-- `child.part == part || child.isWild`
abbrev pub fits : GoString → Node → Bool
fits part child = part_of child == part || wild_of child

-- `&node{}`
abbrev pub empty_node : Node
empty_node = node [] [] nil false

-- the child that `insert` makes
abbrev pub new_child : GoString → Node
new_child part = node [] part nil (starts_wild part)

-- `matchChild` and what `insert` does with its result: `f` is applied to the first child that
-- fits, or to a new child at the end
unfoldable pub update_child : GoString → (Node → Node) → Nodes → Nodes
update_child part f nil = cons (f (new_child part)) nil
update_child part f (cons c cs) =
    if fits part c then cons (f c) cs else cons c (update_child part f cs)

-- `matchChildren`
unfoldable pub match_children : GoString → Nodes → List Node
match_children part nil = []
match_children part (cons c cs) =
    let rest = match_children part cs in if fits part c then c ∷ rest else rest

unfoldable pub insert_node : GoString → List GoString → Node → Node
insert_node pattern [] (node old part cs w) = node pattern part cs w
insert_node pattern (p ∷ ps) (node old part cs w) =
    node old part (update_child p (insert_node pattern ps) cs) w

-- the loop over the children that match
unfoldable pub first_found : (Node → Option Node) → List Node → Option Node
first_found f [] = none
first_found f (c ∷ cs) = elim (f c) [ none ↦ first_found f cs | some n ↦ some n ]

-- a node counts only if a pattern ends there
abbrev pub ending : Node → Option Node
ending n = if pattern_of n == [] then none else some n

unfoldable pub search : List GoString → Node → Option Node
search [] n = ending n
search (p ∷ ps) n =
    let below = first_found (search ps) (match_children p (children_of n)) in
    if has_prefix (part_of n) (str "*") then ending n else below
