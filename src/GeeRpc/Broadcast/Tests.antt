-- ===== src/GeeRpc/Broadcast/Tests.antt =====
-- Runs of a broadcast.
use go_little_project.Base.{
  panic, ◌⊎◌, ℕ, zero, suc, ◌<◌, ◌≤◌, arith, ◌≡◌, refl, true, false, List, [], ◌∷◌, Option, none,
  some, GoString, str, lookup, str_eq, nat_eq, ok, panic, map,
}
use go_little_project.GeeRpc.Client.{GoError, new_client_codec, is_available}
use go_little_project.GeeRpc.XClient.{XClient, cached}
use go_little_project.GeeRpc.Discovery.{value}
use go_little_project.GeeRpc.Broadcast.{
  Broadcast, Worker, begin_broadcast, begin_workers, note, work, step_at, interleave, all_finished,
  broad_cast,
}
use go_little_project.GeeRpc.Broadcast.Returns.{turns, broad_cast-returns}
use go_little_project.GeeRpc.Broadcast.Tells.{IsTold, broad_cast-IsTold}

-- two servers that have a client each
abbrev x_client : XClient
x_client = record {
  clients = (str "tcp@a", 7) ∷ (str "tcp@b", 8) ∷ [];
  conns = (7, new_client_codec []) ∷ (8, new_client_codec []) ∷ [];
}

abbrev refused : GoString → Option ℕ × GoError
refused rpc_addr = (none, some (str "refused"))

abbrev servers : List GoString
servers = str "tcp@a" ∷ str "tcp@b" ∷ []

-- both are called, the second one fails and is done first
abbrev moves : GoError → List (ℕ × GoError)
moves answer =
    (0, none) ∷ (1, none) ∷ (1, some (str "down")) ∷ (1, none) ∷ (0, answer) ∷ (0, none) ∷ []

broadcasts : Unit {0}
unfolding lookup new_client_codec is_available cached begin_broadcast begin_workers note work
    step_at interleave all_finished broad_cast
broadcasts = tt

-- without a reply the error of one call is returned
failed_call :
    broad_cast refused x_client true (value servers) (moves none)
    ≡ ok (x_client, some (some (str "down")))
unfolding broadcasts
failed_call = refl

-- with a reply the call that succeeds panics
replied : broad_cast refused x_client false (value servers) (moves none) ≡ panic
unfolding broadcasts
replied = refl

broad_cast-IsTold_example :
    (b : Broadcast) × (ws : List (GoString × Worker)) × (interleave refused
        (moves none)
        (begin_broadcast x_client true)
        (begin_workers servers)
      ≡ ok (b, ws))
    × (map (λ w. w.0) ws ≡ servers)
    × IsTold true (some (str "down")) ws
broad_cast-IsTold_example =
    broad_cast-IsTold refused x_client x_client true servers (moves none) (some (str "down"))
      failed_call

fair : (k : ℕ) → k < 2 → 3 ≤ turns k (moves none)
unfolding turns
fair zero h = omega arith
fair (suc zero) h = omega arith
fair (suc (suc k)) h = absurd (omega (arith, h))

broad_cast-returns_example :
    (broad_cast refused x_client true (value servers) (moves none) ≡ panic)
    ⊎ ((y : XClient) × (e : GoError) × (broad_cast refused x_client true
            (value servers)
            (moves none)
          ≡ ok (y, some e)))
broad_cast-returns_example = broad_cast-returns refused x_client true servers (moves none) fair
