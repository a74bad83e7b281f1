-- ===== src/GeeRpc/Server/Handling.antt =====
-- geeRpc/server.go: `handleRequest`, as the steps of its two goroutines. A step ends where it may
-- wait; `sendResponse` is one step, since it holds the mutex `sending` throughout.
pub mod Finishes
use go_little_project.Base.{
  ℕ, zero, suc, ◌≡◌, Bool, true, false, List, [], ◌∷◌, ◌++◌, Option, none, some, if◌then◌else◌,
}

-- what is written to the client: the reply, the error of the method, or the timeout
pub data Response : Type 0 where
  reply method_error timed_out : Response

-- `handleRequest`: the response, the send on `sent`, the `select` or the receive from `called`,
-- the receive from `sent`, the answer after the timeout, and the return
pub data MainAt : Type 0 where
  at_reply at_sent at_called at_take at_late main_done : MainAt

-- the goroutine: the call of the method, the send on `called`, the response, the send on `sent`
pub data WorkerAt : Type 0 where
  at_method at_put at_error at_error_sent worker_done : WorkerAt

-- both channels hold at most one entry
pub record Handling : Type 0 where
  pub main : MainAt
  pub worker : WorkerAt
  pub called : Bool
  pub sent : Bool
  pub responses : List Response

pub data Move : Type 0 where
  main_moves worker_moves timer_fires : Move

abbrev pub begin_handling : Handling
begin_handling = record {
  main = at_reply;
  worker = at_method;
  called = false;
  sent = false;
  responses = [];
}

-- none while the goroutine waits, or has returned
unfoldable pub main_step : MainAt → Handling → Option Handling
main_step at_reply h = some (record h { main = at_sent; responses = h.responses ++ reply ∷ [] })
main_step at_sent h = if h.sent then none else some (record h { main = at_called; sent = true })
main_step at_called h =
    if h.called then some (record h { main = at_take; called = false }) else none
main_step at_take h = if h.sent then some (record h { main = main_done; sent = false }) else none
main_step at_late h =
    some (record h { main = main_done; responses = h.responses ++ timed_out ∷ [] })
main_step main_done h = none

-- `fails` tells whether the method returns an error
unfoldable pub worker_step : Bool → WorkerAt → Handling → Option Handling
worker_step fails at_method h = some (record h { worker = at_put })
worker_step fails at_put h =
    if h.called
    then none
    else some (record h { worker = if fails then at_error else worker_done; called = true })
worker_step fails at_error h =
    some (record h { worker = at_error_sent; responses = h.responses ++ method_error ∷ [] })
worker_step fails at_error_sent h =
    if h.sent then none else some (record h { worker = worker_done; sent = true })
worker_step fails worker_done h = none

-- the timer of the `select`, if there is a timeout
unfoldable pub timer_step : Bool → MainAt → Handling → Option Handling
timer_step true at_called h = some (record h { main = at_late })
timer_step timed _ h = none

unfoldable pub move : Bool → Bool → Move → Handling → Option Handling
move fails timed main_moves h = main_step h.main h
move fails timed worker_moves h = worker_step fails h.worker h
move fails timed timer_fires h = timer_step timed h.main h

-- a move that cannot be made changes nothing
unfoldable pub settle : Handling → Option Handling → Handling
settle h none = h
settle h (some h') = h'

-- the order in which the scheduler lets the goroutines and the timer go on
unfoldable pub schedule : Bool → Bool → List Move → Handling → Handling
schedule fails timed [] h = h
schedule fails timed (m ∷ ms) h = schedule fails timed ms (settle h (move fails timed m h))
