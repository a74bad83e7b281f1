-- ===== src/Gee/Context.antt =====
-- gee/context/mygee/context.go and recovery.go: `Next` over the chain of handlers, as a machine
-- with the stack of the calls that have not returned. Of a handler it keeps when it calls `Next`,
-- when it panics and whether it recovers.
pub mod Orders
pub mod Ends
mod Tests
use go_little_project.Base.{
  ℕ, zero, suc, ◌-◌, Bool, true, false, List, [], ◌∷◌, ◌++◌, Option, none, some, get_elem?,
  if◌then◌else◌,
}

pub data Action : Type 0 where
  calls_next panics : Action

-- what a handler does that the chain sees: its calls of `Next` and its panics, in their order and
-- finitely many. `recovers` is set for the handler that `Recovery` makes, whose deferred function
-- answers and returns.
pub record Handler : Type 0 where
  pub actions : List Action
  pub recovers : Bool

-- `Recovery` and `Logger` both call `Next` once
abbrev pub recovery : Handler
recovery = record { actions = calls_next ∷ []; recovers = true }

abbrev pub logger : Handler
logger = record { actions = calls_next ∷ []; recovers = false }

-- a loop of `Next` before its test, a loop whose handler is running, and the rest of a handler
pub data Frame : Type 0 where
  at_test at_handler : Frame
  in_handler : List Action → Bool → Frame

-- `at` is the field `index`, plus 1 since it begins at -1; `started` are the handlers that have
-- been called, oldest first
pub record Context : Type 0 where
  pub at : ℕ
  pub started : List ℕ
  pub stack : List Frame

-- `NewContext`, and then the call of `Next` in `handle`
abbrev pub begin_next : Context
begin_next = record { at = 1; started = []; stack = at_test ∷ [] }

-- a panic returns to the caller of the first handler that recovers
unfoldable pub unwind : List Frame → List Frame
unwind [] = []
unwind (at_test ∷ s) = unwind s
unwind (at_handler ∷ s) = unwind s
unwind (in_handler acts true ∷ s) = s
unwind (in_handler acts false ∷ s) = unwind s

unfoldable pub test : Option Handler → Context → List Frame → Context
test none c s = record c { stack = s }
test (some h) c s = record c {
  started = c.started ++ (c.at - 1) ∷ [];
  stack = in_handler h.actions h.recovers ∷ at_handler ∷ s;
}

unfoldable pub advance : List Handler → Context → List Frame → Context
advance hs c [] = record c { stack = [] }
advance hs c (at_test ∷ s) = test (get_elem? hs (c.at - 1)) c s
advance hs c (at_handler ∷ s) = record c { at = suc c.at; stack = at_test ∷ s }
advance hs c (in_handler [] r ∷ s) = record c { stack = s }
advance hs c (in_handler (calls_next ∷ acts) r ∷ s) = record c {
  at = suc c.at;
  stack = at_test ∷ in_handler acts r ∷ s;
}
advance hs c (in_handler (panics ∷ acts) r ∷ s) = record c {
  stack = unwind (in_handler acts r ∷ s);
}

unfoldable pub steps : ℕ → List Handler → Context → Context
steps zero hs c = c
steps (suc n) hs c = steps n hs (advance hs c c.stack)
