-- ===== src/Gee/Context/Orders.antt =====
-- The handlers of a chain are started in order, and none of them twice.
use go_little_project.Base.{
  ℕ, zero, suc, ◌-◌, ◌≤◌, ◌<◌, ◌≡◌, refl, true, false, List, [], ◌∷◌, ◌++◌, none, some, get_elem?,
  length, if◌then◌else◌, arith, ltb, ap, ◌∙◌, inl, inr, Option-cases, sym,
}
use go_little_project.Gee.Context.{
  calls_next, panics, Handler, Frame, at_test, at_handler, in_handler, Context, begin_next, unwind,
  test, advance, steps,
}

-- The numbers below `n`, in order.
unfoldable pub upto : ℕ → List ℕ
upto zero = []
upto (suc n) = upto n ++ n ∷ []

-- No loop of `Next` is before its test.
abbrev pub IsRunning : List Frame → Type 0
IsRunning [] = Unit
IsRunning (at_test ∷ s) = ⊥
IsRunning (at_handler ∷ s) = IsRunning s
IsRunning (in_handler acts r ∷ s) = IsRunning s

abbrev pub cap : ℕ → ℕ → ℕ
cap a len = if ltb a len then a else len

-- Before a test the handler at the index is still to start.
abbrev pub IsAt : ℕ → Context → List Frame → Type 0
IsAt len c (at_test ∷ s) = (c.started ≡ upto (cap (c.at - 1) len)) × (1 ≤ c.at) × IsRunning s
IsAt len c s = (c.started ≡ upto (cap c.at len)) × IsRunning s

IsAt-running :
    (len : ℕ) (c : Context) (s : List Frame)
    → c.started ≡ upto (cap c.at len)
    → IsRunning s
    → IsAt len c s
IsAt-running len c [] h r = (h, r)
IsAt-running len c (at_test ∷ s) h r = absurd r
IsAt-running len c (at_handler ∷ s) h r = (h, r)
IsAt-running len c (in_handler acts b ∷ s) h r = (h, r)

pub unwind-IsRunning : (s : List Frame) → IsRunning s → IsRunning (unwind s)
unfolding unwind
unwind-IsRunning [] r = tt
unwind-IsRunning (at_test ∷ s) r = absurd r
unwind-IsRunning (at_handler ∷ s) r = unwind-IsRunning s r
unwind-IsRunning (in_handler acts true ∷ s) r = r
unwind-IsRunning (in_handler acts false ∷ s) r = unwind-IsRunning s r

pub get_elem?-bound :
    (hs : List Handler) (i : ℕ) (h : Handler) → get_elem? hs i ≡ some h → i < length hs
get_elem?-bound [] i h e = absurd (ground arith)
get_elem?-bound (x ∷ hs) zero h e = ground arith
get_elem?-bound (x ∷ hs) (suc i) h e = ground (arith, get_elem?-bound hs i h e)

pub get_elem?-beyond : (hs : List Handler) (i : ℕ) → get_elem? hs i ≡ none → length hs ≤ i
get_elem?-beyond [] i e = ground arith
get_elem?-beyond (x ∷ hs) zero e = absurd (ground arith)
get_elem?-beyond (x ∷ hs) (suc i) e = ground (arith, get_elem?-beyond hs i e)

cap-below : (i len : ℕ) → i < len → cap i len ≡ i
cap-below i len h = ground arith

pub cap-beyond : (i len : ℕ) → len ≤ i → cap i len ≡ len
cap-beyond i len h = ground arith

cap-suc : (i len : ℕ) → i < len → cap (suc i) len ≡ suc i
cap-suc i len h = ground arith

pub pred_suc : (a : ℕ) → suc a - 1 ≡ a
pred_suc a = omega arith

start : (i len : ℕ) → i < len → upto (cap i len) ++ i ∷ [] ≡ upto (cap (suc i) len)
unfolding upto
start i len h = rw (cap-below i len h, cap-suc i len h) refl

cap-le : (a len : ℕ) → cap a len ≤ len
cap-le a len = ground arith

cap-same : (a len : ℕ) → len ≤ a - 1 → cap (a - 1) len ≡ cap a len
cap-same a len h = ground arith

start_at :
    (a len : ℕ) → 1 ≤ a → a - 1 < len → upto (cap (a - 1) len) ++ (a - 1) ∷ [] ≡ upto (cap a len)
start_at zero len pos h = absurd (ground arith)
start_at (suc i) len pos h = rw (pred_suc i) (start i len (rw (pred_suc i) at h))

pub advance-IsAt :
    (hs : List Handler) (c : Context) (s : List Frame)
    → IsAt (length hs) c s
    → IsAt (length hs) (advance hs c s) (advance hs c s).stack
unfolding advance test
advance-IsAt hs c [] (h, r) = (h, r)
advance-IsAt hs c (at_test ∷ s) (h, pos, r) = elim (Option-cases (get_elem? hs (c.at - 1))) [
  | inl e ↦
      rw (test, e)
        (IsAt-running (length hs) (record c { stack = s }) s
          (h ∙ ap upto (cap-same (c.at) (length hs) (get_elem?-beyond hs (c.at - 1) e))) r)
  | inr (x, e) ↦
      rw (test, e)
        (
          ap (λ l. l ++ (c.at - 1) ∷ []) h
              ∙ start_at c.at (length hs) pos (get_elem?-bound hs (c.at - 1) x e),
          r,
        )
]
advance-IsAt hs c (at_handler ∷ s) (h, r) =
    (h ∙ ap (λ a. upto (cap a (length hs))) (sym (pred_suc c.at)), ground arith, r)
advance-IsAt hs c (in_handler [] b ∷ s) (h, r) =
    IsAt-running (length hs) (record c { stack = s }) s h r
advance-IsAt hs c (in_handler (calls_next ∷ acts) b ∷ s) (h, r) =
    (h ∙ ap (λ a. upto (cap a (length hs))) (sym (pred_suc c.at)), ground arith, r)
advance-IsAt hs c (in_handler (panics ∷ acts) b ∷ s) (h, r) =
    IsAt-running (length hs) (record c { stack = unwind (in_handler acts b ∷ s) })
      (unwind (in_handler acts b ∷ s)) h (unwind-IsRunning (in_handler acts b ∷ s) r)

pub steps-IsAt :
    (n : ℕ) (hs : List Handler) (c : Context)
    → IsAt (length hs) c c.stack
    → IsAt (length hs) (steps n hs c) (steps n hs c).stack
unfolding steps
steps-IsAt zero hs c h = h
steps-IsAt (suc n) hs c h = steps-IsAt n hs (advance hs c c.stack) (advance-IsAt hs c c.stack h)

cap-zero : (len : ℕ) → cap 0 len ≡ 0
cap-zero len = ground arith

pub begin_next-IsAt : (len : ℕ) → IsAt len begin_next begin_next.stack
unfolding upto
begin_next-IsAt len = (sym (ap upto (cap-zero len)), omega arith, tt)

started_of :
    (len : ℕ) (c : Context) (s : List Frame)
    → IsAt len c s
    → (m : ℕ) × (m ≤ len) × (c.started ≡ upto m)
started_of len c [] (h, _) = (cap c.at len, cap-le c.at len, h)
started_of len c (at_test ∷ s) (h, _, _) = (cap (c.at - 1) len, cap-le (c.at - 1) len, h)
started_of len c (at_handler ∷ s) (h, _) = (cap c.at len, cap-le c.at len, h)
started_of len c (in_handler acts b ∷ s) (h, _) = (cap c.at len, cap-le c.at len, h)

-- Whatever the handlers do, calling `Next` any number of times, panicking or recovering: at every
-- moment the handlers that have been started are the first ones of the chain, each started once
-- and in order.
pub steps-upto :
    (n : ℕ) (hs : List Handler)
    → (m : ℕ) × (m ≤ length hs) × ((steps n hs begin_next).started ≡ upto m)
steps-upto n hs =
    started_of (length hs) (steps n hs begin_next) (steps n hs begin_next).stack
      (steps-IsAt n hs begin_next (begin_next-IsAt (length hs)))
