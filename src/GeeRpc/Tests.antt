-- ===== src/GeeRpc/Tests.antt =====
-- Runs of the parts of geeRpc, and the theorems at concrete inputs.
use go_little_project.Base.{
  ℕ, ◌+◌, ◌<◌, ◌≡◌, refl, ◌↔◌, [], ◌∷◌, none, some, GoString, str, lookup, insert, delete, arith,
  panic, nat_eq,
}
use go_little_project.GeeRpc.Client.{
  Call, Client, Response, new_client_codec, update_call, complete, go, send, register_call, receive,
  cancel,
}
use go_little_project.GeeRpc.Client.Keeps.{IsValid, new-IsValid, go-IsValid}
use go_little_project.GeeRpc.Client.Ends.{EndsWith, receive-completes, receive-unanswered}
use go_little_project.GeeRpc.Client.Calls.{
  arrives, takes_done, connection_ends, wait_for, wait_for-response,
}
use go_little_project.GeeRpc.Client.Cancels.{all_turns, cancel-forgets}
use go_little_project.GeeRpc.Discovery.{MultiServerDiscovery, GeeRegistryDiscovery}
use go_little_project.GeeRpc.Discovery.Rounds.{rounds, rounds-panic_iff}
use go_little_project.GeeRpc.Registry.{
  GeeRegistry, Request, alive_servers, alive_loop, is_alive, sort_strings, insert_string,
}

client : Unit {0}
unfolding new_client_codec update_call complete go send register_call lookup insert delete
client = tt

abbrev one_sent : Client
one_sent = go (new_client_codec []) 0 (str "Foo.Sum") none

one_sent-IsValid : IsValid one_sent
unfolding new_client_codec lookup
one_sent-IsValid =
    go-IsValid (new_client_codec []) 0 (str "Foo.Sum") new-IsValid refl none (omega arith)

abbrev reply : Response
reply = record { header = record { service_method = []; seq = 1; error = [] }; body = none }

abbrev stray : Response
stray = record { header = record { service_method = []; seq = 9; error = [] }; body = none }

abbrev same_text : GoString → GoString
same_text s = s

receive-completes_example :
    (call : Call) × (lookup 0 (receive same_text one_sent (stray ∷ reply ∷ [])).calls ≡ some call)
    × (call.done ≡ 1)
unfolding client
receive-completes_example =
    receive-completes same_text (stray ∷ reply ∷ []) one_sent 1 0 one_sent-IsValid refl

receive-unanswered_example : EndsWith (receive same_text one_sent (stray ∷ [])).calls 0 none
unfolding client
receive-unanswered_example =
    receive-unanswered same_text (stray ∷ []) one_sent 1 0 one_sent-IsValid refl
      (((λ e. omega (arith, e)), refl), tt)

wait_for-response_example :
    (wait_for same_text 0 (arrives stray ∷ arrives reply ∷ takes_done ∷ []) one_sent).1 ≡ some none
unfolding client
wait_for-response_example =
    wait_for-response same_text (stray ∷ []) one_sent reply 0 [] one_sent-IsValid refl refl refl
      (((λ e. omega (arith, e)), refl), tt)

cancel-forgets_example :
    lookup 0
      (all_turns same_text 0 (arrives reply ∷ connection_ends ∷ []) (cancel one_sent 0)).calls
    ≡ lookup 0 one_sent.calls
unfolding client
cancel-forgets_example =
    cancel-forgets same_text 0 (arrives reply ∷ connection_ends ∷ []) one_sent 1 one_sent-IsValid
      refl refl refl

abbrev two_servers : MultiServerDiscovery
two_servers = record { servers = str "tcp@a" ∷ str "tcp@b" ∷ []; index = 1 }

abbrev zeros : ℕ → ℕ
zeros n = 0

rounds-panic_iff_example : (rounds zeros 2 two_servers ≡ panic) ↔ (2 < 1 + 2)
rounds-panic_iff_example = rounds-panic_iff zeros 2 two_servers (λ e. ground arith) (omega arith)

abbrev stale : GeeRegistryDiscovery
stale = record {
  multi = record { servers = []; index = 0 };
  registry = str "http://localhost:9999/_geerpc_/registry";
  timeout = 10;
  last_update = 0;
}

abbrev post : Request
post = record { method = str "POST"; header = (str "X-GeeRpc-Server", str "tcp@a") ∷ [] }

abbrev clock : GoString → ℕ
clock s = 50

abbrev registry : GeeRegistry
registry = record {
  timeout = 10;
  servers =
      (str "tcp@b", record { addr = str "tcp@b"; start = 45 })
      ∷ (str "tcp@a", record { addr = str "tcp@a"; start = 30 })
      ∷ [];
}

-- the second server is dropped, since its time is over when it is visited
alive_now : (alive_servers registry clock).1 ≡ str "tcp@b" ∷ []
unfolding alive_servers alive_loop is_alive sort_strings insert_string delete lookup
alive_now = refl
