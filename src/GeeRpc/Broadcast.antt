-- ===== src/GeeRpc/Broadcast.antt =====
-- geeRpc/client.go: `BroadCast`, as the steps of its goroutines. A step ends where another
-- goroutine may go on, and what is done under the mutex `mu` is one step.
pub mod Steps
pub mod Runs
pub mod Tells
pub mod Returns
mod Tests
use go_little_project.Base.{
  ℕ, zero, suc, Bool, true, false, List, [], ◌∷◌, Option, none, some, GoString, map, if◌then◌else◌,
  Outcome, ok, panic, ◌>>=◌,
}
use go_little_project.GeeRpc.Client.{GoError}
use go_little_project.GeeRpc.XClient.{XClient, cached}
use go_little_project.GeeRpc.Discovery.{Reply, value, failed}

-- what the goroutines share; `reply_done` holds from the start if the caller wants no reply
pub record Broadcast : Type 0 where
  pub clients : XClient
  pub e : GoError
  pub reply_done : Bool
  pub cancelled : Bool

-- a goroutine: before `dial`, in `XDial`, in `Call` of a client, at the lock, and at its end
pub data Worker : Type 0 where
  at_call at_dialed : Worker
  at_answer : ℕ → Worker
  at_record : GoError → Worker
  finished : GoError → Worker

unfoldable pub begin_broadcast : XClient → Bool → Broadcast
begin_broadcast x no_reply = record {
  clients = x;
  e = none;
  reply_done = no_reply;
  cancelled = false;
}

unfoldable pub begin_workers : List GoString → List (GoString × Worker)
begin_workers servers = map (λ rpc_addr. (rpc_addr, at_call)) servers

-- what is done under the mutex: the first error is kept, and the first reply is set. `Set` panics,
-- since reflect.ValueOf(reply) is not addressable.
unfoldable pub note : Broadcast → GoError → Outcome Broadcast
note b (some err) = elim b.e [
  | none ↦ ok (record b { e = some err; cancelled = true })
  | some first ↦ ok b
]
note b none = if b.reply_done then ok b else panic

-- `dialed` is what `XDial` returns, `answer` what `Call` of a client returns. A client that has been
-- dialed is not returned by `dial`, so its `Call` is a nil dereference.
unfoldable pub work :
    (GoString → Option ℕ × GoError)
    → GoString
    → GoError
    → Broadcast
    → Worker
    → Outcome (Broadcast × Worker)
work dialed rpc_addr answer b at_call = do
  (x, client) ← cached b.clients rpc_addr
  ok (record b { clients = x }, elim client [ none ↦ at_dialed | some p ↦ at_answer p ])
work dialed rpc_addr answer b at_dialed = elim (dialed rpc_addr).1 [
  | none ↦ panic
  | some err ↦ ok (b, at_record (some err))
]
work dialed rpc_addr answer b (at_answer p) = ok (b, at_record answer)
work dialed rpc_addr answer b (at_record err) = do b' ← note b err; ok (b', finished err)
work dialed rpc_addr answer b (finished err) = ok (b, finished err)

-- a step of the goroutine with that number; there may be none
unfoldable pub step_at :
    (GoString → Option ℕ × GoError)
    → List (GoString × Worker)
    → ℕ
    → GoError
    → Broadcast
    → Outcome (Broadcast × List (GoString × Worker))
step_at dialed [] i answer b = ok (b, [])
step_at dialed ((rpc_addr, w) ∷ ws) zero answer b = do
  (b', w') ← work dialed rpc_addr answer b w
  ok (b', (rpc_addr, w') ∷ ws)
step_at dialed (w ∷ ws) (suc i) answer b = do
  (b', ws') ← step_at dialed ws i answer b
  ok (b', w ∷ ws')

-- the goroutines in the order of the scheduler, with the answers to their calls
unfoldable pub interleave :
    (GoString → Option ℕ × GoError)
    → List (ℕ × GoError)
    → Broadcast
    → List (GoString × Worker)
    → Outcome (Broadcast × List (GoString × Worker))
interleave dialed [] b ws = ok (b, ws)
interleave dialed ((i, answer) ∷ moves) b ws = do
  (b', ws') ← step_at dialed ws i answer b
  interleave dialed moves b' ws'

-- `wg.Wait`, and what is returned then
unfoldable pub all_finished : List (GoString × Worker) → Bool
all_finished [] = true
all_finished ((rpc_addr, finished err) ∷ ws) = all_finished ws
all_finished (w ∷ ws) = false

-- `BroadCast`: none while it waits
unfoldable pub broad_cast :
    (GoString → Option ℕ × GoError)
    → XClient
    → Bool
    → Reply (List GoString)
    → List (ℕ × GoError)
    → Outcome (XClient × Option GoError)
broad_cast dialed x no_reply (failed err) moves = ok (x, some (some err))
broad_cast dialed x no_reply (value servers) moves = do
  (b, ws) ← interleave dialed moves (begin_broadcast x no_reply) (begin_workers servers)
  ok (b.clients, if all_finished ws then some b.e else none)
