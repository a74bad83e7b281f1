-- ===== src/GeeRpc/Handshake/Fails.antt =====
-- The handshake of a client of this package with a server of this package.
use go_little_project.Base.{
  ℕ, ◌≡◌, refl, ap, Bool, List, [], ◌∷◌, Option, none, some, GoString, str, ◌==◌, str_eq, join,
  split-join, IsFree, ◌⊎◌, inl, inr, arith, Option-cases, Bool-cases, sym, subst, GoMap, nat_eq,
}
use go_little_project.GeeRpc.Client.{GoError}
use go_little_project.GeeRpc.XClient.{
  DialOption, parse_option, dial_time_out, address_of, connect_to, x_dial,
}
use go_little_project.GeeRpc.Handshake.{
  ServerAnswer, answered, connect_request, serve_http, new_http_client, dial_http, dial_by,
}

-- There is an error, and no client.
abbrev pub HasFailed : Option ℕ × GoError → Type 0
HasFailed r = (r.0 ≡ none) × ((err : GoString) × (r.1 ≡ some err))

sum_cases : {A B : Type 0} (p : A ⊎ B) → ((a : A) × (p ≡ inl a)) ⊎ ((b : B) × (p ≡ inr b))
sum_cases (inl a) = inl (a, refl)
sum_cases (inr b) = inr (b, refl)

dial_time_out-HasFailed :
    (opts : List (Option DialOption)) (conn : GoError) (made : DialOption → Option ℕ × GoError)
    (late : Bool)
    → ((opt : DialOption) → HasFailed (made opt))
    → HasFailed (dial_time_out opts conn made late).0
unfolding dial_time_out
dial_time_out-HasFailed opts conn made late fails = elim (sum_cases (parse_option opts)) [
  | inr (err, e) ↦ rw (dial_time_out, e) (refl, (err, refl))
  | inl (opt, e) ↦ elim (Option-cases conn) [
    | inr (err, c) ↦ rw (dial_time_out, e, c) (refl, (err, refl))
    | inl c ↦ elim (Bool-cases (opt.connect_time_out == 0)) [
      | inl waits ↦ rw (dial_time_out, e, c, waits) (fails opt)
      | inr timed ↦ elim (Bool-cases late) [
        | inl l ↦ rw (dial_time_out, e, c, timed, l) (refl, (_, refl))
        | inr l ↦ rw (dial_time_out, e, c, timed, l) (fails opt)
      ]
    ]
  ]
]

-- XDial of an address HTTP@addr, to a server of this package that listens there or not, returns an
-- error and no client, whatever the options and the timer: the server refuses the method CONNECT.
-- net/http reads that method from the request, and an answer with the status 405 as such.
pub x_dial-HasFailed :
    (method_of : GoString → GoString) (read_response : ServerAnswer → GoString ⊎ GoString)
    (hijacked : GoError) (has_codec : GoString → Bool) (encoded : GoError)
    (conn : GoString → GoString → GoError) (late : Bool) (opts : List (Option DialOption))
    (fresh : ℕ) (addr : GoString)
    → method_of connect_request ≡ str "CONNECT"
    → ((header : GoMap GoString GoString) (body : GoString)
        → read_response (answered header 405 body) ≡ inl (str "405 Method Not Allowed"))
    → IsFree b'@' addr
    → HasFailed (
        x_dial
          (dial_by method_of read_response hijacked has_codec encoded conn late opts fresh)
          (join (str "HTTP" ∷ addr ∷ []) (str "@")))
unfolding x_dial address_of dial_by dial_http serve_http new_http_client
x_dial-HasFailed method_of read_response hijacked has_codec encoded conn late opts fresh addr method
      status free =
    let dialed = dial_by method_of read_response hijacked has_codec encoded conn late opts fresh in
    let parts = split-join b'@' (str "HTTP") (addr ∷ []) (
      (
        (λ e. ground arith),
        ((λ e. ground arith), ((λ e. ground arith), ((λ e. ground arith), tt))),
      ),
      (free, tt),
    ) in
    subst HasFailed (sym (ap (λ l. connect_to dialed (address_of l)) parts)) (
      dial_time_out-HasFailed opts (conn (str "tcp") addr) _ late
        λ opt. rw (method, status _ _) (refl, (_, refl)))
