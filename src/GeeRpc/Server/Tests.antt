-- ===== src/GeeRpc/Server/Tests.antt =====
-- Runs of the server.
use go_little_project.Base.{
  ℕ, zero, suc, ◌≡◌, refl, true, false, List, [], ◌∷◌, ◌++◌, lookup, str_eq, none, some, str,
}
use go_little_project.GeeRpc.Client.{GoError}
use go_little_project.GeeRpc.XClient.{default_option}
use go_little_project.GeeRpc.Service.{
  Server, ReflectType, MethodType, new_reply_v, find_service, cut_last,
}
use go_little_project.GeeRpc.Server.{
  HeaderRead, header, panicked, eof, header_error, serve_codec, serve_conn, after_round,
  read_request, read_request_header,
}
use go_little_project.GeeRpc.Server.Loops.{idle_answers}
use go_little_project.GeeRpc.Server.Accepts.{accept, accept_error, connection, accept-waits}
use go_little_project.GeeRpc.Server.Handling
use go_little_project.GeeRpc.Server.Handling.{
  reply, method_error, timed_out, main_moves, worker_moves, timer_fires, begin_handling, schedule,
  Move,
}
use go_little_project.GeeRpc.Server.Handling.Finishes.{
  IsBefore, schedule-IsBefore, GoesOn, schedule-GoesOn,
}

loops : Unit {0}
unfolding serve_codec after_round read_request read_request_header find_service cut_last new_reply_v
    lookup schedule Handling.settle Handling.move Handling.main_step Handling.worker_step
    Handling.timer_step serve_conn
loops = tt

-- the time to handle a request is the time to connect
time_out : serve_conn (some default_option) (λ t. true) ≡ some 10000000000
unfolding loops
time_out = refl

-- a client that has gone
abbrev gone : ℕ → HeaderRead × GoError
gone i = (eof, none)

-- a second client, whose connection breaks at once
abbrev reset : ℕ → HeaderRead × GoError
reset i = (header_error (str "connection reset"), none)

-- alone, the second client would be served
served_alone :
    accept []
      (λ t. true)
      3
      (accept_error (str "too many open files") ∷ connection (some default_option) reset ∷ [])
    ≡ ([] ∷ [], true)
unfolding loops accept
served_alone = refl

accept-waits_example :
    accept []
      (λ t. true)
      3
      (connection (some default_option) gone ∷ connection (some default_option) reset ∷ [])
    ≡ (idle_answers 3 ∷ [], false)
accept-waits_example =
    accept-waits [] (λ t. true) 3 default_option gone (connection (some default_option) reset ∷ [])
      refl refl (λ j. refl)

abbrev args : ReflectType
args = record { name = str "Args"; exported = true; pkg_path = str "main"; elem = none }

-- Sum(args Args, reply *int), as `registerMethods` stores it: its reply type is that of its argument
abbrev sum : MethodType
sum = record {
  method = record { name = str "Sum"; ins = []; outs = [] };
  arg_type = args;
  reply_type = args;
  num_calls = 0;
}

abbrev server : Server
server = (str "Foo", record { name = str "Foo"; method = (str "Sum", sum) ∷ [] }) ∷ []

abbrev one_call : ℕ → HeaderRead × GoError
one_call i =
    (header (record { service_method = str "Foo" ++ b'.' ∷ str "Sum"; seq = 1; error = [] }), none)

-- a request for a method whose argument is a struct panics before its body is read
sum_panics : serve_codec server one_call 0 3 ≡ (panicked ∷ [], true)
unfolding loops
sum_panics = refl

-- a client whose second message is broken
abbrev broken : ℕ → HeaderRead × GoError
broken zero = (eof, none)
broken (suc i) = (header_error (str "gob"), none)

-- the method returns an error at once, and nothing helps then
abbrev late_moves : List Move
late_moves = main_moves ∷ timer_fires ∷ main_moves ∷ main_moves ∷ []

schedule-IsBefore_example :
    IsBefore
      (schedule true false
        (worker_moves ∷ worker_moves ∷ worker_moves ∷ worker_moves ∷ late_moves)
        begin_handling).main
schedule-IsBefore_example = schedule-IsBefore false late_moves

-- the reply is sent before the method is called
reply_first : (schedule false false (main_moves ∷ []) begin_handling).responses ≡ reply ∷ []
unfolding loops
reply_first = refl

-- after a timeout the client has two responses
two_responses :
    (schedule false true
      (main_moves ∷ main_moves ∷ timer_fires ∷ main_moves ∷ [])
      begin_handling).responses
    ≡ reply ∷ timed_out ∷ []
unfolding loops
two_responses = refl

schedule-GoesOn_example :
    GoesOn (schedule false false (main_moves ∷ worker_moves ∷ []) begin_handling)
schedule-GoesOn_example = schedule-GoesOn (main_moves ∷ worker_moves ∷ [])

-- the error of a header ends the loop
stops : (serve_codec [] broken 0 5).1 ≡ true
unfolding loops
stops = refl
