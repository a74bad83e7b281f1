-- ===== src/GeeRpc/Heartbeat/Tests.antt =====
-- Runs of the heartbeats.
use go_little_project.Base.{
  ◌≡◌, refl, List, [], ◌∷◌, Option, none, some, GoString, str, ok, arith, insert,
}
use go_little_project.GeeRpc.Client.{GoError}
use go_little_project.GeeRpc.Registry.{Request, new, serve_http, fresh_writer, header_get}
use go_little_project.GeeRpc.Registry.Serve.{serve_all}
use go_little_project.GeeRpc.Discovery.{
  GeeRegistryDiscovery, round_robin_select, failed, servers_header, get_gee,
}
use go_little_project.GeeRpc.Heartbeat.{
  Beating, beat, send_heartbeat, beat_loop, heart_beat, ticker_duration,
}
use go_little_project.GeeRpc.Heartbeat.Beats.{
  repeat, until_error, first_error, heart_beat-repeat, heart_beat-unknown,
}

abbrev plain_request : GoString → GoString → Option Request
plain_request method url = some (record { method = method; header = [] })

abbrev home : GoString
home = str "http://localhost:9999/_geerpc_/registry"

abbrev post_request : Request
post_request = record { method = str "POST"; header = [] }

-- two answers, and then the network is down
abbrev replies : List GoError
replies = none ∷ some (str "no route to host") ∷ none ∷ []

abbrev three_beats : Beating
three_beats = record {
  sent = repeat 3 (beat (str "tcp@a") post_request);
  err = some (str "no route to host");
}

beats : Unit {0}
unfolding heart_beat beat_loop send_heartbeat ticker_duration insert repeat until_error first_error
beats = tt

three_sent :
    heart_beat plain_request home (str "tcp@a") 0 none replies ≡ ok (240000000000, three_beats)
unfolding beats
three_sent = heart_beat-repeat plain_request home (str "tcp@a") post_request refl 0 none replies

abbrev seeker : GeeRegistryDiscovery
seeker = record {
  multi = record { servers = []; index = 0 };
  registry = home;
  timeout = 10;
  last_update = 0;
}

heart_beat-unknown_example :
    (d' : GeeRegistryDiscovery) × (get_gee
        (λ s. s)
        (λ n. 0)
        seeker
        20
        (servers_header (
          header_get
            (str "X-GeeRpc-Servers")
            (serve_http
              (serve_all (new 300) three_beats.sent (λ addr. 15))
              fresh_writer
              (record { method = str "GET"; header = [] })
              (λ addr. 18)).1.header))
        round_robin_select
      ≡ ok (d', failed (str "rpc discovery: not available discovery")))
heart_beat-unknown_example =
    heart_beat-unknown plain_request home (str "tcp@a") 0 240000000000 none replies three_beats 300
      20 (λ addr. 15) (λ addr. 18) (record { method = str "GET"; header = [] }) (λ s. s) (λ n. 0)
      seeker round_robin_select three_sent refl refl (omega arith)
