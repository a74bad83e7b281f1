-- ===== src/GeeRpc/Heartbeat.antt =====
-- geeRpc/registry/registry.go: the heartbeats that a server sends to the registry. Durations are
-- numbers of nanoseconds, and none is negative. `http.NewRequest` and what the network answers are
-- parameters.
pub mod Beats
mod Tests
use go_little_project.Base.{
  ℕ, ◌-◌, List, [], ◌∷◌, ◌++◌, Option, none, some, GoString, insert, str, ◌==◌, str_eq, nat_eq,
  if◌then◌else◌, Outcome, ok, demand, ◌>>=◌,
}
use go_little_project.GeeRpc.Client.{GoError}
use go_little_project.GeeRpc.Registry.{Request}

abbrev pub default_time_out : ℕ
default_time_out = 300000000000

-- `HeartBeat` up to its first heartbeat: the duration between two of them
unfoldable pub ticker_duration : ℕ → ℕ
ticker_duration duration = if duration == 0 then default_time_out - 60000000000 else duration

-- the requests that were sent, and the error of the last one
pub record Beating : Type 0 where
  pub sent : List Request
  pub err : GoError

-- the request with the header that names the server
abbrev pub beat : GoString → Request → Request
beat addr req = record req { header = insert (str "X-GeeRpc-Server") addr req.header }

module _ (new_request : GoString → GoString → Option Request) (registry addr : GoString) where
  -- a request that cannot be made is nil, and its error is dropped
  unfoldable pub send_heartbeat : List Request → GoError → Outcome Beating
  send_heartbeat sent answer = do
    req ← demand (new_request (str "POST") registry)
    ok (record { sent = sent ++ beat addr req ∷ []; err = answer })

  -- the loop of `HeartBeat`, with what the network answers at each tick
  unfoldable pub beat_loop : List GoError → Beating → Outcome Beating
  beat_loop [] b = ok b
  beat_loop (answer ∷ answers) b = elim b.err [
    | some e ↦ ok b
    | none ↦ (do b' ← send_heartbeat b.sent answer; beat_loop answers b')
  ]

  -- `HeartBeat` with its goroutine
  unfoldable pub heart_beat : ℕ → GoError → List GoError → Outcome (ℕ × Beating)
  heart_beat duration first answers = do
    b ← send_heartbeat [] first
    b' ← beat_loop answers b
    ok (ticker_duration duration, b')
