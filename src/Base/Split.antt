-- ===== src/Base/Split.antt =====
-- strings.Split undoes strings.Join.
use Prim.Native.Nat.{ℕ}
use mathlib.Core.Path.{◌≡◌, refl, ◌∙◌, ap}
use mathlib.Core.Logic.{◌≢◌}
use mathlib.Core.List.{List, [], ◌∷◌, ◌++◌, append_assoc, append-nil}
use native.Mathlib.Omega.{arith}
use go_little_project.Base.Tests.{nat_beq_iff}
use go_little_project.Base.Lists.{All}
use go_little_project.Base.Text.{GoString, join, split_from, split}

-- the byte does not occur in the text
abbrev pub IsFree : ℕ → GoString → Type 0
IsFree b = All (λ c. c ≢ b)

split_from-free :
    (sep : ℕ) (cur s : GoString) → IsFree sep s → split_from sep cur s ≡ (cur ++ s) ∷ []
unfolding split_from
split_from-free sep cur [] h = rw (append-nil cur) refl
split_from-free sep cur (c ∷ s) (ne, h) = ground (
  arith,
  nat_beq_iff c sep,
  ne,
  split_from-free sep (cur ++ c ∷ []) s h,
  append_assoc cur (c ∷ []) s,
)

pub split_from-sep :
    (sep : ℕ) (cur s rest : GoString)
    → IsFree sep s
    → split_from sep cur (s ++ sep ∷ rest) ≡ (cur ++ s) ∷ split_from sep [] rest
unfolding split_from
split_from-sep sep cur [] rest h = rw (append-nil cur) (ground (arith, nat_beq_iff sep sep))
split_from-sep sep cur (c ∷ s) rest (ne, h) = ground (
  arith,
  nat_beq_iff c sep,
  ne,
  split_from-sep sep (cur ++ c ∷ []) s rest h,
  append_assoc cur (c ∷ []) s,
)

-- A list of texts that is not empty, none of which has the separator.
pub split-join :
    (sep : ℕ) (s : GoString) (ss : List GoString)
    → All (IsFree sep) (s ∷ ss)
    → split (join (s ∷ ss) (sep ∷ [])) sep ≡ s ∷ ss
unfolding join
split-join sep s [] (h, _) = split_from-free sep [] s h
split-join sep s (t ∷ ss) (h, k) =
    split_from-sep sep [] s (join (t ∷ ss) (sep ∷ [])) h ∙ ap (◌∷◌ s) (split-join sep t ss k)
