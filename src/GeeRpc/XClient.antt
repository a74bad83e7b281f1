-- ===== src/GeeRpc/XClient.antt =====
-- geeRpc/client.go: dialing, and the client that calls over a discovery. A `*Client` is an address
-- in the store `conns`; what the network answers enters as arguments.
pub mod Dials
mod Tests
use go_little_project.Base.{
  ℕ, ◌≡◌, Bool, true, false, not, List, [], ◌∷◌, ◌++◌, Option, none, some, GoString, GoMap, lookup,
  insert, delete, str, split, nat_eq, str_eq, ◌==◌, if◌then◌else◌, Outcome, ok, panic, demand,
  ◌>>=◌, ◌⊎◌, inl, inr,
}
use go_little_project.GeeRpc.Client
use go_little_project.GeeRpc.Client.{GoError}
use go_little_project.GeeRpc.Discovery.{Reply, value, failed}

-- `Option` of server.go; times are in nanoseconds
pub record DialOption : Type 0 where
  pub magic_number : ℕ
  pub codec_type : GoString
  pub connect_time_out : ℕ
  pub handle_time_out : ℕ

abbrev pub magic : ℕ
magic = 3927900

abbrev pub gob_type : GoString
gob_type = str "application/gob"

abbrev pub default_option : DialOption
default_option = record {
  magic_number = magic;
  codec_type = gob_type;
  connect_time_out = 10000000000;
  handle_time_out = 0;
}

-- `parseOption`; a nil pointer is none
unfoldable pub parse_option : List (Option DialOption) → DialOption ⊎ GoString
parse_option [] = inl default_option
parse_option (none ∷ opts) = inl default_option
parse_option (some o ∷ p ∷ opts) = inr (str "numbers of options is more than 1")
parse_option (some o ∷ []) = inl (record o {
  magic_number = magic;
  codec_type = if o.codec_type == [] then gob_type else o.codec_type;
})

-- `NewClient`: the codec of that name is there or not, and writing the option fails or not. If it
-- fails the connection is closed, as `dialTimeOut` does again.
unfoldable pub new_client : (GoString → Bool) → GoError → DialOption → ℕ → Option ℕ × GoError
new_client has_codec encoded opt fresh =
    if has_codec opt.codec_type
    then elim encoded [ none ↦ (some fresh, none) | some err ↦ (none, some err) ]
    else (none, some (str "invalid codec type: " ++ opt.codec_type))

-- `dialTimeOut`: the client, the error, and whether the connection has been closed. `conn` is the
-- error of net.DialTimeout, `made` what the goroutine sends, `late` whether the timer comes first.
unfoldable pub dial_time_out :
    List (Option DialOption)
    → GoError
    → (DialOption → Option ℕ × GoError)
    → Bool
    → (Option ℕ × GoError) × Bool
dial_time_out opts conn made late = elim (parse_option opts) [
  | inr err ↦ ((none, some err), false)
  | inl opt ↦ elim conn [
    | some err ↦ ((none, some err), false)
    | none ↦
        let result : Option ℕ × GoError =
          if opt.connect_time_out == 0
          then made opt
          else if late
          then (none, some (str "rpc client: connect timeout"))
          else made opt in
        (result, elim result.0 [ none ↦ true | some p ↦ false ])
  ]
]

-- how `XDial` reads an address: over HTTP or not, the network and the address there
unfoldable pub address_of : List GoString → Option (Bool × GoString × GoString)
address_of (protocol ∷ addr ∷ []) =
    if protocol == str "HTTP" then some (true, str "tcp", addr) else some (false, protocol, addr)
address_of _ = none

-- `XDial` after the split
abbrev pub connect_to :
    (Bool → GoString → GoString → Option ℕ × GoError)
    → Option (Bool × GoString × GoString)
    → Option ℕ × GoError
connect_to connect none = (none, some (str "rpc client err: wrong format"))
connect_to connect (some (http, network, addr)) = connect http network addr

-- `XDial`; `connect` is DialHTTP or Dial
unfoldable pub x_dial :
    (Bool → GoString → GoString → Option ℕ × GoError) → GoString → Option ℕ × GoError
x_dial connect rpc_addr = connect_to connect (address_of (split rpc_addr b'@'))

-- `XClient`
pub record XClient : Type 0 where
  pub clients : GoMap GoString ℕ
  pub conns : GoMap ℕ Client.Client

unfoldable pub new_x_client : GoMap ℕ Client.Client → XClient
new_x_client conns = record { clients = []; conns = conns }

-- `Close` of the client at an address
unfoldable pub close_conn : ℕ → GoMap ℕ Client.Client → GoMap ℕ Client.Client
close_conn p conns = elim (lookup p conns) [
  | none ↦ conns
  | some c ↦ insert p (Client.close c).0 conns
]

-- the loop of `Close`
unfoldable pub close_loop : GoMap GoString ℕ → XClient → XClient
close_loop [] x = x
close_loop ((addr, p) ∷ rest) x =
    close_loop rest (record { clients = delete addr x.clients; conns = close_conn p x.conns })

unfoldable pub close_all : XClient → XClient
close_all x = close_loop x.clients x

-- the first half of `dial`: the cached client, nil if there is none or it is of no use
unfoldable pub cached : XClient → GoString → Outcome (XClient × Option ℕ)
cached x rpc_addr = elim (lookup rpc_addr x.clients) [
  | none ↦ ok (x, none)
  | some p ↦ do
    c ← demand (lookup p x.conns)
    if Client.is_available c
        then ok (x, some p)
        else ok (record { clients = delete rpc_addr x.clients; conns = close_conn p x.conns }, none)
]

-- `x.clients[rpcAddr] = client`
unfoldable pub remember : XClient → GoString → Option ℕ → XClient
remember x rpc_addr none = x
remember x rpc_addr (some q) = record x { clients = insert rpc_addr q x.clients }

-- `dial`: the client that is dialed is stored, but it is a variable of the inner block. XDial
-- returns a client or an error.
unfoldable pub dial :
    XClient → GoString → Option ℕ × GoError → Outcome (XClient × Option ℕ × GoError)
dial x rpc_addr (fresh, dial_error) = do
  (y, client) ← cached x rpc_addr
  elim client [
    | some p ↦ ok (y, some p, none)
    | none ↦ elim dial_error [
      | some err ↦ ok (y, none, some err)
      | none ↦ ok (remember y rpc_addr fresh, none, none)
    ]
  ]

-- an error, or the client whose `Call` goes on
pub data Called : Type 0 where
  fails : GoString → Called
  calls : ℕ → Called

-- `call`: `Call` of a nil client panics at its first lock
unfoldable pub call : XClient → GoString → Option ℕ × GoError → Outcome (XClient × Called)
call x rpc_addr dialed = do
  (y, client, err) ← dial x rpc_addr dialed
  elim err [ some e ↦ ok (y, fails e) | none ↦ do p ← demand client; ok (y, calls p) ]

-- `Call`, with what the discovery's `Get` returned
unfoldable pub x_call :
    XClient → Reply GoString → (GoString → Option ℕ × GoError) → Outcome (XClient × Called)
x_call x (failed err) dialed = ok (x, fails err)
x_call x (value rpc_addr) dialed = call x rpc_addr (dialed rpc_addr)
