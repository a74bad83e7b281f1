-- ===== src/GeeRpc/Heartbeat/Beats.antt =====
-- How long a server sends heartbeats, and what the registry makes of them.
use go_little_project.Base.{
  ℕ, zero, suc, ◌+◌, ◌≤◌, ◌≡◌, refl, ap, ◌∙◌, List, [], ◌∷◌, ◌++◌, Option, none, some, GoString,
  str, Outcome, ok, ◌>>=◌, arith, lookup, insert, join, split_from, str_eq,
}
use mathlib.Core.List.{append_assoc}
use go_little_project.GeeRpc.Client.{GoError}
use go_little_project.GeeRpc.Registry.{
  Request, GeeRegistry, new, serve_http, fresh_writer, header_get, alive_servers, alive_loop,
  sort_strings,
}
use go_little_project.GeeRpc.Registry.Serve.{serve_all, serve_all-empty}
use go_little_project.GeeRpc.Discovery.{
  Reply, GeeRegistryDiscovery, SelectMode, failed, servers_header, get, get_gee, refresh, update,
  parse_servers,
}
use go_little_project.GeeRpc.Heartbeat.{
  Beating, beat, send_heartbeat, beat_loop, heart_beat, ticker_duration,
}

-- so many heartbeats
unfoldable pub repeat : ℕ → Request → List Request
repeat zero req = []
repeat (suc n) req = req ∷ repeat n req

-- the answers up to the first error, and this one
unfoldable pub until_error : List GoError → ℕ
until_error [] = 0
until_error (none ∷ answers) = suc (until_error answers)
until_error (some e ∷ answers) = 1

unfoldable pub first_error : List GoError → GoError
first_error [] = none
first_error (none ∷ answers) = first_error answers
first_error (some e ∷ answers) = some e

module _ (new_request : GoString → GoString → Option Request) (registry addr : GoString)
    (req : Request) (made : new_request (str "POST") registry ≡ some req) where
  sent_beat :
      (sent : List Request) (answer : GoError)
      → send_heartbeat new_request registry addr sent answer
        ≡ ok (record { sent = sent ++ beat addr req ∷ []; err = answer })
  unfolding send_heartbeat
  sent_beat sent answer = rw (send_heartbeat, made) refl

  loop_lem :
      (answers : List GoError) (sent : List Request) (answer : GoError)
      → (beat_loop new_request registry addr answers
          (record { sent = sent ++ beat addr req ∷ []; err = answer }))
        ≡ ok (record {
          sent = sent ++ repeat (until_error (answer ∷ answers)) (beat addr req);
          err = first_error (answer ∷ answers);
        })
  unfolding beat_loop repeat until_error first_error
  loop_lem [] sent none = refl
  loop_lem [] sent (some e) = refl
  loop_lem (a ∷ answers) sent (some e) = refl
  loop_lem (a ∷ answers) sent none = rw (sent_beat (sent ++ beat addr req ∷ []) a) (
      loop_lem answers (sent ++ beat addr req ∷ []) a
      ∙ ap (λ l. ok (record { sent = l; err = first_error (a ∷ answers) }))
          (append_assoc sent (beat addr req ∷ [])
            (repeat (until_error (a ∷ answers)) (beat addr req))))

  -- When the request can be made, HeartBeat sends it once for each answer up to the first error, and
  -- none after that: the loop ends with this error.
  pub heart_beat-repeat :
      (duration : ℕ) (first : GoError) (answers : List GoError)
      → heart_beat new_request registry addr duration first answers
        ≡ ok (
          ticker_duration duration,
          record {
            sent = repeat (until_error (first ∷ answers)) (beat addr req);
            err = first_error (first ∷ answers);
          },
        )
  unfolding heart_beat
  heart_beat-repeat duration first answers = rw (sent_beat [] first, loop_lem answers [] first) refl

-- a registry without servers answers with an empty list
empty_header :
    (r : GeeRegistry) (req : Request) (now : GoString → ℕ)
    → r.servers ≡ []
    → req.method ≡ str "GET"
    → header_get (str "X-GeeRpc-Servers") (serve_http r fresh_writer req now).1.header ≡ []
unfolding serve_http alive_servers alive_loop sort_strings lookup insert join
empty_header r req now none_left is_get = rw (is_get, none_left, alive_loop) refl

refreshed_none :
    (trim : GoString → GoString) (d : GeeRegistryDiscovery) (time : ℕ)
    → trim [] ≡ []
    → d.last_update + d.timeout ≤ time
    → refresh trim d time (servers_header [])
      ≡ (record d { multi = record d.multi { servers = [] }; last_update = time }, none)
unfolding refresh update parse_servers split_from
refreshed_none trim d time nothing due = ground (arith, nothing, due)

-- the rest of `Get` after the refresh
abbrev chosen :
    (ℕ → ℕ)
    → SelectMode
    → GeeRegistryDiscovery × Option GoString
    → Outcome (GeeRegistryDiscovery × Reply GoString)
chosen intn mode (d, err) = elim err [
  | some e ↦ ok (d, failed e)
  | none ↦ (do (multi, reply) ← get intn d.multi mode; ok (record d { multi = multi }, reply))
]

get_none :
    (trim : GoString → GoString) (intn : ℕ → ℕ) (d : GeeRegistryDiscovery) (time : ℕ)
    (mode : SelectMode)
    → trim [] ≡ []
    → d.last_update + d.timeout ≤ time
    → (d' : GeeRegistryDiscovery) × (get_gee trim intn d time (servers_header []) mode
        ≡ ok (d', failed (str "rpc discovery: not available discovery")))
unfolding get_gee get
get_none trim intn d time mode nothing due =
    (_, ap (λ r. chosen intn mode r) (refreshed_none trim d time nothing due))

-- A server is never found by its heartbeats: whatever the answers to them, a new registry that gets
-- the requests of HeartBeat tells a discovery whose refresh is due of no server, and the discovery's
-- Get fails. Nothing is trimmed to nothing.
pub heart_beat-unknown :
    (new_request : GoString → GoString → Option Request) (registry addr : GoString)
    (duration ticks : ℕ) (first : GoError) (answers : List GoError) (b : Beating) (timeout time : ℕ)
    (now later : GoString → ℕ) (ask : Request) (trim : GoString → GoString) (intn : ℕ → ℕ)
    (d : GeeRegistryDiscovery) (mode : SelectMode)
    → heart_beat new_request registry addr duration first answers ≡ ok (ticks, b)
    → ask.method ≡ str "GET"
    → trim [] ≡ []
    → d.last_update + d.timeout ≤ time
    → (d' : GeeRegistryDiscovery) × (get_gee trim intn d time
          (servers_header (
            header_get
              (str "X-GeeRpc-Servers")
              (serve_http (serve_all (new timeout) b.sent now) fresh_writer ask later).1.header))
          mode
        ≡ ok (d', failed (str "rpc discovery: not available discovery")))
heart_beat-unknown new_request registry addr duration ticks first answers b timeout time now later
      ask trim intn d mode sends is_get nothing due =
    let empty = serve_all-empty timeout b.sent now in
    rw (empty_header (serve_all (new timeout) b.sent now) ask later empty is_get)
      (get_none trim intn d time mode nothing due)
