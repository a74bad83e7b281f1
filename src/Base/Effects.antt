-- ===== src/Base/Effects.antt =====
-- What a call of Go code does: it returns, it panics, or it waits for ever.
use mathlib.Core.Path.{◌≡◌, refl, subst}
use mathlib.Core.Option.{Option, none, some}
use mathlib.Core.Bool.{Bool, true, false}
use go_little_project.Base.Tests.{if◌then◌else◌}

pub data Outcome {ℓ} (A : Type ℓ) : Type ℓ where
  ok : A → Outcome A
  panic : Outcome A
  blocked : Outcome A

infixl 5 ◌>>=◌
abbrev pub ◌>>=◌ {ℓ κ} : {A : Type ℓ} {B : Type κ} → Outcome A → (A → Outcome B) → Outcome B
ok a >>= f = f a
panic >>= f = panic
blocked >>= f = blocked

-- a dereference, an index or a type assertion that panics where there is nothing
abbrev pub demand {ℓ} : {A : Type ℓ} → Option A → Outcome A
demand none = panic
demand (some a) = ok a

-- A chain that returns has returned at each of its steps.
pub bind-ok {ℓ κ} :
    {A : Type ℓ} {B : Type κ} (m : Outcome A) (f : A → Outcome B) (b : B)
    → (m >>= f) ≡ ok b
    → (a : A) × (m ≡ ok a) × (f a ≡ ok b)
bind-ok (ok a) f b h = (a, refl, h)
bind-ok panic f b h = cc
bind-ok blocked f b h = cc

pub ok_inj {ℓ} : {A : Type ℓ} {a b : A} → ok a ≡ ok b → a ≡ b
ok_inj h = cc h

-- whatever `m` returns has `P`
pub record Yields {ℓ κ} {A : Type ℓ} (P : A → Type κ) (m : Outcome A) : Type (ℓ ⊔ κ) where
  pub at : (a : A) → m ≡ ok a → P a

pub Yields-ok {ℓ κ} : {A : Type ℓ} (P : A → Type κ) (a : A) → P a → Yields P (ok a)
Yields-ok P a h = record { at = λ b e. subst P (ok_inj e) h }

-- the rest of the chain may use what the first step returned
pub Yields-bind {ℓ κ μ} :
    {A : Type ℓ} {B : Type κ} (P : B → Type μ) (m : Outcome A) (f : A → Outcome B)
    → ((a : A) → m ≡ ok a → Yields P (f a))
    → Yields P (m >>= f)
Yields-bind P m f h = record {
  at = λ b e. let (a, first, rest) = bind-ok m f b e in (h a first).at b rest;
}

pub Yields-option {ℓ κ μ} :
    {A : Type ℓ} {C : Type μ} (P : A → Type κ) (o : Option C) (m : Outcome A) (f : C → Outcome A)
    → Yields P m
    → ((c : C) → Yields P (f c))
    → Yields P (elim o [ none ↦ m | some c ↦ f c ])
Yields-option P none m f h k = h
Yields-option P (some c) m f h k = k c

pub Yields-if {ℓ κ} :
    {A : Type ℓ} (P : A → Type κ) (b : Bool) (m n : Outcome A)
    → Yields P m
    → Yields P n
    → Yields P (if b then m else n)
Yields-if P true m n h k = h
Yields-if P false m n h k = k
