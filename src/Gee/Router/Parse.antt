-- ===== src/Gee/Router/Parse.antt =====
-- The parts of a pattern, and the parameters that are bound to them.
use go_little_project.Base.{
  ℕ, suc, ◌+◌, ◌≤◌, ◌<◌, ◌≡◌, refl, ◌≢◌, inl, inr, ◌&&◌, List, [], ◌∷◌, some, GoString, insert,
  length, get_elem?, drop, ltb, str, split_from, join, ◌==◌, str_eq, str_beq_iff, if◌then◌else◌,
  arith, Bool-cases, get_elem?_total, All, ok,
}
use go_little_project.Gee.Trie.{first_is}
use go_little_project.Gee.Trie.Shape.{is_star, StarLast}
use go_little_project.Gee.Router.{Params, parse_parts, parse_patterns, bind_part, bind_parts}

abbrev pub IsPart : GoString → Type 0
IsPart part = part ≢ []

first_is-star : (part : GoString) → first_is b'*' part ≡ is_star part
first_is-star [] = refl
first_is-star (b ∷ s) = ground arith

parse_parts-IsPart : (parts : List GoString) → All IsPart (parse_parts parts)
unfolding parse_parts
parse_parts-IsPart [] = tt
parse_parts-IsPart (p ∷ ps) = ground (arith, parse_parts-IsPart ps, str_beq_iff p [])

parse_parts-StarLast : (parts : List GoString) → StarLast (parse_parts parts)
unfolding parse_parts
parse_parts-StarLast [] = tt
parse_parts-StarLast (p ∷ ps) = elim (Bool-cases (p == [])) [
  | inl e ↦ rw e (parse_parts-StarLast ps)
  | inr e ↦ elim (Bool-cases (first_is b'*' p)) [
    | inl star ↦ rw (e, star) (inl refl, tt)
    | inr plain ↦ rw (e, plain) (inr (ground (arith, first_is-star p)), parse_parts-StarLast ps)
  ]
]

-- The parts of any pattern or path are not empty, and only the last may begin with `*`.
pub parse_patterns_lem :
    (s : GoString) → All IsPart (parse_patterns s) × StarLast (parse_patterns s)
unfolding parse_patterns
parse_patterns_lem s = (parse_parts-IsPart _, parse_parts-StarLast _)

pub parse_patterns-nil : parse_patterns [] ≡ []
unfolding parse_patterns parse_parts split_from
parse_patterns-nil = refl

-- the parameters after a part whose value is `value`, where `rest` is the path from there on
abbrev pub bound : GoString → GoString → GoString → Params → Params
bound part value rest params =
    let named =
      if first_is b':' part && ltb 1 (length part)
      then insert (drop 1 part) value params
      else params in
    if first_is b'*' part && ltb 1 (length part) then insert (drop 1 part) rest named else named

pub bind_part_lem :
    (index : ℕ) (part : GoString) (found : List GoString) (params : Params) (value : GoString)
    → get_elem? found index ≡ some value
    → index < length found
    → bind_part index part found params
      ≡ ok (bound part value (join (drop index found) (str "/")) params)
unfolding bind_part
bind_part_lem index part found params value at h =
    elim (Bool-cases (first_is b':' part && ltb 1 (length part))) [
      | inl named ↦ elim (Bool-cases (first_is b'*' part && ltb 1 (length part))) [
        | inl rest ↦ rw (named, at, rest) (ground arith)
        | inr stop ↦ rw (named, at, stop) refl
      ]
      | inr plain ↦ elim (Bool-cases (first_is b'*' part && ltb 1 (length part))) [
        | inl rest ↦ rw (plain, rest) (ground arith)
        | inr stop ↦ rw (plain, stop) refl
      ]
    ]

-- The loop over the parts panics on no index, if the path has as many parts as the pattern.
pub bind_parts_total :
    (parts : List GoString) (index : ℕ) (found : List GoString) (params : Params)
    → index + length parts ≤ length found
    → (params' : Params) × (bind_parts index parts found params ≡ ok params')
unfolding bind_parts
bind_parts_total [] index found params h = (params, refl)
bind_parts_total (part ∷ parts) index found params h =
    let (value, at) = get_elem?_total found index (omega arith) in
    let (params', rest) =
      bind_parts_total parts (suc index) found
        (bound part value (join (drop index found) (str "/")) params) (omega arith) in
    (params', rw (bind_part_lem index part found params value at (omega arith)) rest)
