-- ===== src/Gee/Static/Paths.antt =====
-- The parts of the paths of files.
use go_little_project.Base.{
  ◌≡◌, refl, sym, ap, ◌∙◌, ◌≢◌, true, false, List, [], ◌∷◌, ◌++◌, GoString, str, has_prefix, arith,
  IsFree, All, split_from, join, split-join, split_from-sep, nat_beq_iff, str_beq_iff, Bool-cases,
  inl, inr, str_eq,
}
use mathlib.Core.List.{append_assoc, append-nil}
use go_little_project.Gee.Router.{parse_patterns, parse_parts}
use go_little_project.Gee.Router.Wildcards.{IsPlain, parse_parts-plain}

-- a path that begins with a plain part
pub parse-first :
    (v rest : GoString)
    → IsPlain v
    → parse_patterns (b'/' ∷ v ++ (b'/' ∷ rest)) ≡ v ∷ parse_patterns rest
unfolding parse_patterns parse_parts split_from
parse-first v rest h =
    rw (split_from-sep b'/' [] v rest h.one) (ground (arith, str_beq_iff v [], h.full, h.no_star))

has_prefix-split : (s t : GoString) → has_prefix s t ≡ true → (rest : GoString) × (s ≡ t ++ rest)
has_prefix-split s [] e = (s, refl)
has_prefix-split [] (b ∷ t) e = absurd (ground (arith, e))
has_prefix-split (a ∷ s) (b ∷ t) e =
    let (rest, same) = has_prefix-split s t (ground (arith, e)) in
    let same_byte : a ≡ b = ground (arith, e, nat_beq_iff a b) in (rest, cc (same_byte, same))

last_part : parse_patterns (str "*filepath") ≡ str "*filepath" ∷ []
unfolding parse_patterns parse_parts split_from
last_part = refl

-- the pattern of the route
pub parse-pattern :
    (p : GoString)
    → IsPlain p
    → parse_patterns (b'/' ∷ p ++ str "/*filepath") ≡ p ∷ str "*filepath" ∷ []
parse-pattern p h = parse-first p (str "*filepath") h ∙ ap (λ l. p ∷ l) last_part

-- a path with another first part does not begin with the prefix
pub outside :
    (v p q path : GoString) (qs : List GoString)
    → IsPlain v
    → v ≢ p
    → parse_patterns path ≡ p ∷ q ∷ qs
    → has_prefix path ((b'/' ∷ v) ++ (b'/' ∷ p)) ≡ false
outside v p q path qs h ne e = elim (Bool-cases (has_prefix path ((b'/' ∷ v) ++ (b'/' ∷ p)))) [
  | inr lacks ↦ lacks
  | inl begins ↦
      let start = (b'/' ∷ v) ++ (b'/' ∷ p) in
      let (rest, whole) = has_prefix-split path start begins in
      let parts : parse_patterns path ≡ v ∷ parse_patterns (p ++ rest) =
        ap parse_patterns (whole ∙ append_assoc (b'/' ∷ v) (b'/' ∷ p) rest)
        ∙ parse-first v (p ++ rest) h in
      absurd (ne (cc (parts, e)))
]

plain_free : (parts : List GoString) → All IsPlain parts → All (IsFree b'/') parts
plain_free [] h = tt
plain_free (p ∷ ps) (h, hs) = (h.one, plain_free ps hs)

pub parse-join :
    (q : GoString) (qs : List GoString)
    → All IsPlain (q ∷ qs)
    → parse_patterns (join (q ∷ qs) (str "/")) ≡ q ∷ qs
unfolding parse_patterns parse_parts
parse-join q qs h =
    ap parse_parts (split-join b'/' q qs (plain_free (q ∷ qs) h))
    ∙ ap parse_parts (sym (append-nil (q ∷ qs)))
    ∙ parse_parts-plain (q ∷ qs) [] h
    ∙ append-nil (q ∷ qs)
