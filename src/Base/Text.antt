-- ===== src/Base/Text.antt =====
-- A Go string is the list of its bytes. A literal of the source, which is ASCII, is written
-- `str "..."`.
use Prim.Native.Nat.{ℕ, zero, suc, ◌+◌, ◌/◌, ◌%◌}
use Prim.Native.Char.{code}
use Prim.Native.String.{String}
use mathlib.Core.Path.{◌≡◌}
use mathlib.Core.Logic.{◌↔◌}
use mathlib.Core.Bool.{Bool, true, false, ◌&&◌}
use mathlib.Core.List.{List, [], ◌∷◌, ◌++◌}
use native.Mathlib.Omega.{arith}
use go_little_project.Base.Tests.{Eq, nat_beq, if◌then◌else◌, ltb}

abbrev pub GoString : Type 0
GoString = List ℕ

abbrev pub str : String → GoString
str String.[] = []
str (String.◌∷◌ c s) = code c ∷ str s

abbrev pub str_beq : GoString → GoString → Bool
str_beq [] [] = true
str_beq (a ∷ s) (b ∷ t) = nat_beq a b && str_beq s t
str_beq _ _ = false

pub str_beq_iff : (s t : GoString) → (str_beq s t ≡ true) ↔ (s ≡ t)
str_beq_iff [] [] = ground arith
str_beq_iff [] (b ∷ t) = ground arith
str_beq_iff (a ∷ s) [] = ground arith
str_beq_iff (a ∷ s) (b ∷ t) = ground (arith, str_beq_iff s t)

instance abbrev pub str_eq : Eq GoString
str_eq = record { beq = str_beq; beq_iff = str_beq_iff }

-- strings.HasPrefix
abbrev pub has_prefix : GoString → GoString → Bool
has_prefix s [] = true
has_prefix [] (b ∷ t) = false
has_prefix (a ∷ s) (b ∷ t) = nat_beq a b && has_prefix s t

-- strings.Join
unfoldable pub join : List GoString → GoString → GoString
join [] sep = []
join (s ∷ []) sep = s
join (s ∷ t ∷ ss) sep = s ++ (sep ++ join (t ∷ ss) sep)

-- the loop of strings.Split for a separator of one byte; `cur` is the piece read so far
unfoldable pub split_from : ℕ → GoString → GoString → List GoString
split_from sep cur [] = cur ∷ []
split_from sep cur (c ∷ s) =
    let closed = split_from sep [] s in
    let longer = split_from sep (cur ++ c ∷ []) s in if nat_beq c sep then cur ∷ closed else longer

-- strings.Split
abbrev pub split : GoString → ℕ → List GoString
split s sep = split_from sep [] s

-- the digits of strconv.Itoa for a number that is not negative, on fuel
unfoldable pub itoa_from : ℕ → ℕ → GoString → GoString
itoa_from zero n acc = acc
itoa_from (suc f) n acc =
    let rest = itoa_from f (n / 10) ((n % 10 + b'0') ∷ acc) in
    if ltb n 10 then (n + b'0') ∷ acc else rest

-- strconv.Itoa; a number has at most as many digits as its value plus one
unfoldable pub itoa : ℕ → GoString
unfolding itoa_from
itoa n = itoa_from (suc n) n []
