-- ===== src/GeeRpc/Client/Store.antt =====
-- The store of the calls, and the pending calls as a list of entries.
use go_little_project.Base.{
  ℕ, ◌≡◌, refl, ◌≢◌, [], ◌∷◌, none, some, GoMap, lookup, insert, delete, ◌==◌, nat_eq, nat_beq_iff,
  arith, All, lookup-insert, lookup-delete, Bool-cases, Option-cases, inl, inr, subst, ◌<◌,
}
use go_little_project.GeeRpc.Client.{Call, update_call}

pub lookup-update_self :
    (p : ℕ) (f : Call → Call) (calls : GoMap ℕ Call) (call : Call)
    → lookup p calls ≡ some call
    → lookup p (update_call p f calls) ≡ some (f call)
unfolding update_call
lookup-update_self p f calls call h =
    ground (arith, lookup-insert p p (f call) calls, nat_beq_iff p p)

pub lookup-update_ne :
    (p q : ℕ) (f : Call → Call) (calls : GoMap ℕ Call)
    → p ≢ q
    → lookup q (update_call p f calls) ≡ lookup q calls
unfolding update_call
lookup-update_ne p q f calls h = elim (Option-cases (lookup p calls)) [
  | inl e ↦ ground arith
  | inr (call, e) ↦ ground (arith, lookup-insert p q (f call) calls, nat_beq_iff p q)
]

-- no sequence number twice
abbrev pub HasDistinctSeqs : GoMap ℕ ℕ → Type 0
HasDistinctSeqs [] = Unit
HasDistinctSeqs ((s, p) ∷ m) = (lookup s m ≡ none) × HasDistinctSeqs m

-- the entry's call is in the store under its number, and is not completed
abbrev pub IsWaiting : GoMap ℕ Call → ℕ × ℕ → Type 0
IsWaiting calls e =
    (call : Call) × (lookup e.1 calls ≡ some call) × (call.seq ≡ e.0) × (call.done ≡ 0)

module _ (P : ℕ × ℕ → Type 0) where
  pub All-lookup : (s p : ℕ) (m : GoMap ℕ ℕ) → All P m → lookup s m ≡ some p → P (s, p)
  unfolding lookup
  All-lookup s p [] a h = absurd (ground arith)
  All-lookup s p ((t, q) ∷ m) (x, a) h = elim (Bool-cases (t == s)) [
    | inl e ↦
        let same_s : t ≡ s = ground (arith, nat_beq_iff t s) in
        let same_p : q ≡ p = ground arith in
        subst (λ u. P (u, p)) same_s (subst (λ u. P (t, u)) same_p x)
    | inr e ↦ All-lookup s p m a (ground arith)
  ]

  pub All-delete : (s : ℕ) (m : GoMap ℕ ℕ) → All P m → All P (delete s m)
  unfolding delete
  All-delete s [] a = tt
  All-delete s ((t, q) ∷ m) (x, a) = elim (Bool-cases (t == s)) [
    | inl e ↦ rw e (All-delete s m a)
    | inr e ↦ rw e (x, All-delete s m a)
  ]

  pub All-insert : (s p : ℕ) (m : GoMap ℕ ℕ) → P (s, p) → All P m → All P (insert s p m)
  unfolding insert
  All-insert s p [] y a = (y, tt)
  All-insert s p ((t, q) ∷ m) y (x, a) = elim (Bool-cases (t == s)) [
    | inl e ↦ rw e (y, a)
    | inr e ↦ rw e (x, All-insert s p m y a)
  ]

pub All-mono :
    (P Q : ℕ × ℕ → Type 0) (m : GoMap ℕ ℕ) → ((s p : ℕ) → P (s, p) → Q (s, p)) → All P m → All Q m
All-mono P Q [] f a = tt
All-mono P Q ((s, p) ∷ m) f (x, a) = (f s p x, All-mono P Q m f a)

pub delete-HasDistinctSeqs :
    (s : ℕ) (m : GoMap ℕ ℕ) → HasDistinctSeqs m → HasDistinctSeqs (delete s m)
unfolding delete
delete-HasDistinctSeqs s [] d = tt
delete-HasDistinctSeqs s ((t, q) ∷ m) (h, d) = elim (Bool-cases (t == s)) [
  | inl e ↦ rw e (delete-HasDistinctSeqs s m d)
  | inr e ↦ rw e (ground (arith, lookup-delete s t m), delete-HasDistinctSeqs s m d)
]

pub insert-HasDistinctSeqs :
    (s p : ℕ) (m : GoMap ℕ ℕ)
    → lookup s m ≡ none
    → HasDistinctSeqs m
    → HasDistinctSeqs (insert s p m)
unfolding insert lookup
insert-HasDistinctSeqs s p [] h d = (refl, tt)
insert-HasDistinctSeqs s p ((t, q) ∷ m) h (k, d) = elim (Bool-cases (t == s)) [
  | inl e ↦ absurd (ground arith)
  | inr e ↦ rw e (
    ground (arith, lookup-insert s t p m, nat_beq_iff s t, nat_beq_iff t s),
    insert-HasDistinctSeqs s p m (ground arith) d,
  )
]

-- a number that is not among the entries
pub lookup-none_of_below : (n : ℕ) (m : GoMap ℕ ℕ) → All (λ e. e.0 < n) m → lookup n m ≡ none
unfolding lookup
lookup-none_of_below n [] a = refl
lookup-none_of_below n ((t, q) ∷ m) (x, a) =
    ground (arith, nat_beq_iff t n, lookup-none_of_below n m a)

-- The calls of two entries with different numbers are different.
pub waiting_ne :
    (calls : GoMap ℕ Call) (s t p q : ℕ)
    → IsWaiting calls (s, p)
    → IsWaiting calls (t, q)
    → s ≢ t
    → p ≢ q
waiting_ne calls s t p q (a, at_p, sa, da) (b, at_q, sb, db) ne e =
    ne (ground (arith, at_p, at_q, sa, sb, e))

pub All-delete_ne : (s : ℕ) (m : GoMap ℕ ℕ) → All (λ e. e.0 ≢ s) (delete s m)
unfolding delete
All-delete_ne s [] = tt
All-delete_ne s ((t, q) ∷ m) = elim (Bool-cases (t == s)) [
  | inl e ↦ rw e (All-delete_ne s m)
  | inr e ↦ rw e (ground (arith, nat_beq_iff t s), All-delete_ne s m)
]

pub All-zip :
    (P Q R : ℕ × ℕ → Type 0) (m : GoMap ℕ ℕ)
    → ((s p : ℕ) → P (s, p) → Q (s, p) → R (s, p))
    → All P m
    → All Q m
    → All R m
All-zip P Q R [] f a b = tt
All-zip P Q R ((s, p) ∷ m) f (x, a) (y, b) = (f s p x y, All-zip P Q R m f a b)

pub All-ne_of_none : (t : ℕ) (m : GoMap ℕ ℕ) → lookup t m ≡ none → All (λ e. e.0 ≢ t) m
unfolding lookup
All-ne_of_none t [] h = tt
All-ne_of_none t ((s, p) ∷ m) h =
    (ground (arith, nat_beq_iff s t), All-ne_of_none t m (ground (arith, nat_beq_iff s t)))
