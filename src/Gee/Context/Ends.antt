-- ===== src/Gee/Context/Ends.antt =====
-- Every chain comes to its end, and one without panics has then run all of its handlers.
use go_little_project.Base.{
  ℕ, zero, suc, ◌+◌, ◌-◌, ◌*◌, ◌≤◌, ◌<◌, ◌≡◌, refl, true, false, List, [], ◌∷◌, some, get_elem?,
  length, drop, arith, ap, ◌∙◌, ◌⊎◌, inl, inr, Option-cases, sym, subst, All,
}
use go_little_project.Gee.Context.{
  Action, calls_next, panics, Handler, Frame, at_test, at_handler, in_handler, Context, begin_next,
  unwind, test, advance, steps,
}
use go_little_project.Gee.Context.Orders.{
  steps-IsAt, IsRunning, unwind-IsRunning, upto, IsAt, cap-beyond, get_elem?-beyond, pred_suc,
  advance-IsAt, begin_next-IsAt,
}

-- What a handler can cost, what all of them can, and what the frames of a stack still can.
abbrev cost : Handler → ℕ
cost h = 2 * length h.actions + 3

unfoldable pub costs : List Handler → ℕ
costs [] = 0
costs (h ∷ hs) = cost h + costs hs

abbrev weight : List Frame → ℕ
weight [] = 0
weight (at_test ∷ s) = 1 + weight s
weight (at_handler ∷ s) = 2 + weight s
weight (in_handler acts r ∷ s) = 2 * length acts + 1 + weight s

-- The handlers that are still to start.
abbrev ahead : ℕ → List Frame → ℕ
ahead a [] = a
ahead a (at_test ∷ s) = a - 1
ahead a (at_handler ∷ s) = a
ahead a (in_handler acts r ∷ s) = a

abbrev left : List Handler → Context → List Frame → ℕ
left hs c s = costs (drop (ahead c.at s) hs) + weight s

unwind-weight : (s : List Frame) → weight (unwind s) ≤ weight s
unfolding unwind
unwind-weight [] = omega arith
unwind-weight (at_test ∷ s) = omega (arith, unwind-weight s)
unwind-weight (at_handler ∷ s) = omega (arith, unwind-weight s)
unwind-weight (in_handler acts true ∷ s) = omega arith
unwind-weight (in_handler acts false ∷ s) = omega (arith, unwind-weight s)

costs-drop-suc : (k : ℕ) (hs : List Handler) → costs (drop (suc k) hs) ≤ costs (drop k hs)
unfolding costs
costs-drop-suc zero [] = omega arith
costs-drop-suc (suc k) [] = omega arith
costs-drop-suc zero (h ∷ hs) = omega arith
costs-drop-suc (suc k) (h ∷ hs) = costs-drop-suc k hs

costs-drop_at :
    (k : ℕ) (hs : List Handler) (h : Handler)
    → get_elem? hs k ≡ some h
    → costs (drop k hs) ≡ cost h + costs (drop (suc k) hs)
unfolding costs
costs-drop_at k [] h e = absurd (ground arith)
costs-drop_at zero (x ∷ hs) h e = ground (arith, e)
costs-drop_at (suc k) (x ∷ hs) h e = costs-drop_at k hs h e

costs-drop_pred : (a : ℕ) (hs : List Handler) → 1 ≤ a → costs (drop a hs) ≤ costs (drop (a - 1) hs)
costs-drop_pred zero hs pos = absurd (ground arith)
costs-drop_pred (suc k) hs pos = rw (pred_suc k) (costs-drop-suc k hs)

costs-drop_start :
    (a : ℕ) (hs : List Handler) (h : Handler)
    → 1 ≤ a
    → get_elem? hs (a - 1) ≡ some h
    → costs (drop (a - 1) hs) ≡ cost h + costs (drop a hs)
costs-drop_start zero hs h pos e = absurd (ground arith)
costs-drop_start (suc k) hs h pos e = rw (pred_suc k) (costs-drop_at k hs h (rw (pred_suc k) at e))

ahead-IsRunning : (a : ℕ) (s : List Frame) → IsRunning s → ahead a s ≡ a
ahead-IsRunning a [] r = refl
ahead-IsRunning a (at_test ∷ s) r = absurd r
ahead-IsRunning a (at_handler ∷ s) r = refl
ahead-IsRunning a (in_handler acts b ∷ s) r = refl

-- Each step leaves less to do.
advance-left :
    (hs : List Handler) (c : Context) (f : Frame) (s : List Frame)
    → IsAt (length hs) c (f ∷ s)
    → left hs (advance hs c (f ∷ s)) (advance hs c (f ∷ s)).stack < left hs c (f ∷ s)
unfolding advance test
advance-left hs c at_test s (h, pos, r) = elim (Option-cases (get_elem? hs (c.at - 1))) [
  | inl e ↦ rw (test, e, ahead-IsRunning c.at s r) (omega (arith, costs-drop_pred c.at hs pos))
  | inr (x, e) ↦ rw (test, e) (omega (arith, costs-drop_start c.at hs x pos e))
]
advance-left hs c at_handler s (h, r) = rw (pred_suc c.at) (omega arith)
advance-left hs c (in_handler [] b) s (h, r) = rw (ahead-IsRunning c.at s r) (omega arith)
advance-left hs c (in_handler (calls_next ∷ acts) b) s (h, r) = rw (pred_suc c.at) (omega arith)
advance-left hs c (in_handler (panics ∷ acts) b) s (h, r) =
    rw
      (ahead-IsRunning c.at (unwind (in_handler acts b ∷ s))
        (unwind-IsRunning (in_handler acts b ∷ s) r))
      (omega (arith, unwind-weight (in_handler acts b ∷ s)))

advance-empty : (n : ℕ) (hs : List Handler) (c : Context) → c.stack ≡ [] → (steps n hs c).stack ≡ []
unfolding steps advance
advance-empty zero hs c e = e
advance-empty (suc n) hs c e =
    advance-empty n hs (advance hs c c.stack)
      (subst (λ t. (advance hs c t).stack ≡ []) (sym e) refl)

steps-left :
    (n : ℕ) (hs : List Handler) (c : Context) (s : List Frame)
    → c.stack ≡ s
    → IsAt (length hs) c s
    → left hs c s ≤ n
    → (steps n hs c).stack ≡ []
unfolding steps
steps-left n hs c [] e h l = advance-empty n hs c e
steps-left zero hs c (f ∷ s) e h l = absurd (omega (arith, advance-left hs c f s h))
steps-left (suc n) hs c (f ∷ s) e h l =
    subst (λ t. (steps n hs (advance hs c t)).stack ≡ []) (sym e)
      (steps-left n hs (advance hs c (f ∷ s)) (advance hs c (f ∷ s)).stack refl
        (advance-IsAt hs c (f ∷ s) h) (omega (arith, advance-left hs c f s h)))

-- The steps that a chain of handlers needs at most.
unfoldable pub bound : List Handler → ℕ
bound hs = 1 + costs hs

-- Whatever the handlers do, calling `Next` any number of times, panicking or recovering: the first
-- `Next` comes to its end, within `bound` steps.
pub steps-ends : (n : ℕ) (hs : List Handler) → bound hs ≤ n → (steps n hs begin_next).stack ≡ []
unfolding bound
steps-ends n hs l =
    steps-left n hs begin_next (at_test ∷ []) refl (begin_next-IsAt (length hs)) (omega (arith, l))

-- A handler that does not panic.
abbrev pub IsCalm : List Action → Type 0
IsCalm [] = Unit
IsCalm (calls_next ∷ acts) = IsCalm acts
IsCalm (panics ∷ acts) = ⊥

abbrev AreCalm : List Frame → Type 0
AreCalm [] = Unit
AreCalm (at_test ∷ s) = AreCalm s
AreCalm (at_handler ∷ s) = AreCalm s
AreCalm (in_handler acts r ∷ s) = IsCalm acts × AreCalm s

abbrev HasLoop : List Frame → Type 0
HasLoop [] = ⊥
HasLoop (at_test ∷ s) = Unit
HasLoop (at_handler ∷ s) = Unit
HasLoop (in_handler acts r ∷ s) = HasLoop s

-- A loop of `Next` goes on, or the index is past the end; and nothing on the stack panics.
record IsOpen (len : ℕ) (c : Context) (s : List Frame) : Type 0 where
  goes_on : HasLoop s ⊎ (len < c.at)
  calm : AreCalm s

get_elem?-IsCalm :
    (hs : List Handler) (i : ℕ) (h : Handler)
    → All (λ x. IsCalm x.actions) hs
    → get_elem? hs i ≡ some h
    → IsCalm h.actions
get_elem?-IsCalm [] i h k e = absurd (ground arith)
get_elem?-IsCalm (x ∷ hs) zero h (a, k) e =
    let same : x ≡ h = cc e in subst (λ (y : Handler). IsCalm y.actions) same a
get_elem?-IsCalm (x ∷ hs) (suc i) h (a, k) e = get_elem?-IsCalm hs i h k e

advance-IsOpen :
    (hs : List Handler) (c : Context) (s : List Frame)
    → All (λ x. IsCalm x.actions) hs
    → IsAt (length hs) c s
    → IsOpen (length hs) c s
    → IsOpen (length hs) (advance hs c s) (advance hs c s).stack
unfolding advance test
advance-IsOpen hs c [] k a o = record { goes_on = o.goes_on; calm = o.calm }
advance-IsOpen hs c (at_test ∷ s) k (h, pos, r) o = elim (Option-cases (get_elem? hs (c.at - 1))) [
  | inl e ↦
      rw (test, e)
        (record { goes_on = inr (omega (arith, get_elem?-beyond hs (c.at - 1) e)); calm = o.calm })
  | inr (x, e) ↦
      rw (test, e)
        (record { goes_on = inl tt; calm = (get_elem?-IsCalm hs (c.at - 1) x k e, o.calm) })
]
advance-IsOpen hs c (at_handler ∷ s) k a o = record { goes_on = inl tt; calm = o.calm }
advance-IsOpen hs c (in_handler [] b ∷ s) k a o = record { goes_on = o.goes_on; calm = o.calm.1 }
advance-IsOpen hs c (in_handler (calls_next ∷ acts) b ∷ s) k a o = record {
  goes_on = inl tt;
  calm = o.calm;
}
advance-IsOpen hs c (in_handler (panics ∷ acts) b ∷ s) k a o = absurd o.calm.0

steps-IsOpen :
    (n : ℕ) (hs : List Handler) (c : Context)
    → All (λ x. IsCalm x.actions) hs
    → IsAt (length hs) c c.stack
    → IsOpen (length hs) c c.stack
    → IsOpen (length hs) (steps n hs c) (steps n hs c).stack
unfolding steps
steps-IsOpen zero hs c k a o = o
steps-IsOpen (suc n) hs c k a o =
    steps-IsOpen n hs (advance hs c c.stack) k (advance-IsAt hs c c.stack a)
      (advance-IsOpen hs c c.stack k a o)

ended_upto :
    (len : ℕ) (c : Context) (s : List Frame)
    → s ≡ []
    → IsAt len c s
    → IsOpen len c s
    → c.started ≡ upto len
ended_upto len c [] e (h, _) o = elim o.goes_on [
  | inl loop ↦ absurd loop
  | inr past ↦ h ∙ ap upto (cap-beyond c.at len (omega (arith, past)))
]
ended_upto len c (f ∷ s) e a o = absurd (ground (arith, e))

-- A chain in which no handler panics runs to its end within `bound` steps, and has then started
-- every handler once, in order.
pub steps-All :
    (hs : List Handler)
    → All (λ x. IsCalm x.actions) hs
    → ((steps (bound hs) hs begin_next).stack ≡ [])
      × ((steps (bound hs) hs begin_next).started ≡ upto (length hs))
steps-All hs k =
    let ends = steps-ends (bound hs) hs (omega arith) in
    (
      ends,
      ended_upto (length hs) (steps (bound hs) hs begin_next) (steps (bound hs) hs begin_next).stack
          ends (steps-IsAt (bound hs) hs begin_next (begin_next-IsAt (length hs)))
          (steps-IsOpen (bound hs) hs begin_next k (begin_next-IsAt (length hs))
            (record { goes_on = inl tt; calm = tt })),
    )
