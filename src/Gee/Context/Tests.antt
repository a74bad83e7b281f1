-- ===== src/Gee/Context/Tests.antt =====
-- Runs of chains.
use go_little_project.Base.{arith, ℕ, ◌≡◌, refl, ◌≤◌, List, [], ◌∷◌, false}
use go_little_project.Gee.Context.{
  Handler, recovery, logger, panics, begin_next, steps, advance, test, unwind,
}
use go_little_project.Gee.Context.Ends.{bound, costs, steps-ends}
use go_little_project.Gee.Context.Orders.{upto, steps-upto}

-- `Recovery`, a middleware that panics, and two more handlers
abbrev chain : List Handler
chain =
    recovery
    ∷ record { actions = panics ∷ []; recovers = false }
    ∷ logger
    ∷ record { actions = []; recovers = false }
    ∷ []

-- the handlers behind the panic are run after the recovery
all_run : steps 20 chain begin_next ≡ record { at = 6; started = 0 ∷ 1 ∷ 2 ∷ 3 ∷ []; stack = [] }
unfolding steps advance test unwind
all_run = refl

steps-upto_example : (m : ℕ) × (m ≤ 4) × ((steps 20 chain begin_next).started ≡ upto m)
steps-upto_example = steps-upto 20 chain

steps-ends_example : (steps 26 chain begin_next).stack ≡ []
unfolding bound costs
steps-ends_example = steps-ends 26 chain (omega arith)

-- `Logger`, `Recovery` and a handler
abbrev calm_chain : List Handler
calm_chain = logger ∷ recovery ∷ record { actions = []; recovers = false } ∷ []
