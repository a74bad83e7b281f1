-- ===== src/GeeRpc/Handshake/Tests.antt =====
-- Runs of the handshake.
use go_little_project.Base.{
  ℕ, ◌≡◌, refl, Bool, true, false, [], ◌∷◌, Option, none, some, GoString, str, join, ◌⊎◌, inl, inr,
  str_eq, nat_eq, split_from, arith,
}
use go_little_project.GeeRpc.Client.{GoError}
use go_little_project.GeeRpc.XClient.{x_dial, address_of, dial_time_out, parse_option, new_client}
use go_little_project.GeeRpc.Handshake.{
  ServerAnswer, answered, unanswered, served, dial_by, dial_tcp,
}
use go_little_project.GeeRpc.Handshake.Fails.{HasFailed, x_dial-HasFailed}

abbrev read_response : ServerAnswer → GoString ⊎ GoString
read_response (answered header status body) = inl (str "405 Method Not Allowed")
read_response unanswered = inl (str "200 OK")
read_response (served text) = inr (str "malformed HTTP version")

abbrev connects : Bool → GoString → GoString → Option ℕ × GoError
connects =
    dial_by (λ text. str "CONNECT") read_response none (λ codec. true) none (λ network addr. none)
      false [] 1

x_dial-HasFailed_example :
    HasFailed (x_dial connects (join (str "HTTP" ∷ str ":80" ∷ []) (str "@")))
x_dial-HasFailed_example =
    x_dial-HasFailed (λ text. str "CONNECT") read_response none (λ codec. true) none
      (λ network addr. none) false [] 1 (str ":80") refl (λ header body. refl)
      ((λ e. ground arith), ((λ e. ground arith), ((λ e. ground arith), tt)))

-- over TCP there is a client
dialed : x_dial connects (str "tcp@:80") ≡ (some 1, none)
unfolding x_dial address_of dial_by dial_tcp dial_time_out parse_option new_client split_from
dialed = refl
