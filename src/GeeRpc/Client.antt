-- ===== src/GeeRpc/Client.antt =====
-- geeRpc/client.go: the client of one connection and its pending calls. A `*Call` is an address in
-- the store `calls`; what the codec answers enters as arguments.
pub mod Store
pub mod Keeps
pub mod Ends
pub mod Calls
pub mod Cancels
use go_little_project.Base.{
  Outcome, ok, panic, ◌>>=◌, zero, suc, ℕ, suc, ◌+◌, ◌%◌, ◌≡◌, Bool, true, false, not, ◌||◌, List,
  [], ◌∷◌, ◌++◌, Option, none, some, GoString, GoMap, lookup, insert, delete, str, ◌==◌, nat_eq,
  str_eq, if◌then◌else◌,
}
use go_little_project.Base.Int64.{modulus}

-- an error value, nil as `none`
abbrev pub GoError : Type 0
GoError = Option GoString

-- `done` counts the sends on the channel `Done`
pub record Call : Type 0 where
  pub seq : ℕ
  pub service_method : GoString
  pub error : GoError
  pub done : ℕ

-- codec.Header
pub record Header : Type 0 where
  pub service_method : GoString
  pub seq : ℕ
  pub error : GoString

pub record Client : Type 0 where
  pub seq : ℕ
  pub header : Header
  pub pending : GoMap ℕ ℕ
  pub closing : Bool
  pub shutdown : Bool
  pub calls : GoMap ℕ Call

abbrev pub error_shut_down : GoString
error_shut_down = str "connection is shut down"

-- `newClientCodec`, over a store of calls
unfoldable pub new_client_codec : GoMap ℕ Call → Client
new_client_codec calls = record {
  seq = 1;
  header = record { service_method = []; seq = 0; error = [] };
  pending = [];
  closing = false;
  shutdown = false;
  calls = calls;
}

-- `Close`
unfoldable pub close : Client → Client × GoError
close c = if c.closing then (c, some error_shut_down) else (record c { closing = true }, none)

-- `IsAvailable`
unfoldable pub is_available : Client → Bool
is_available c = not (c.shutdown || c.closing)

-- a write to a field of a call
unfoldable pub update_call : ℕ → (Call → Call) → GoMap ℕ Call → GoMap ℕ Call
update_call p f calls = elim (lookup p calls) [ none ↦ calls | some call ↦ insert p (f call) calls ]

-- `call.Error = err; call.done()`
unfoldable pub complete : ℕ → GoError → GoMap ℕ Call → GoMap ℕ Call
unfolding update_call
complete p err calls =
    update_call p (λ call. record call { error = err; done = suc call.done }) calls

unfoldable pub register_call : Client → ℕ → Client × ℕ × GoError
unfolding update_call
register_call c p = if c.shutdown || c.closing then (c, 0, some error_shut_down) else (
  record c {
    calls = update_call p (λ call. record call { seq = c.seq }) c.calls;
    pending = insert c.seq p c.pending;
    seq = (c.seq + 1) % modulus;
  },
  c.seq,
  none,
)

unfoldable pub remove_call : Client → ℕ → Client × Option ℕ
remove_call c seq =
    if c.shutdown || c.closing
    then (c, none)
    else (record c { pending = delete seq c.pending }, lookup seq c.pending)

-- the loop of `terminateCalls`
unfoldable pub finish : GoError → GoMap ℕ ℕ → GoMap ℕ Call → GoMap ℕ Call
finish err [] calls = calls
finish err ((seq, p) ∷ pending) calls = finish err pending (complete p err calls)

unfoldable pub terminate_calls : Client → GoError → Client
terminate_calls c err = record c { shutdown = true; calls = finish err c.pending c.calls }

-- completes the call that `removeCall` returned, if it returned one
unfoldable pub complete_removed : Client × Option ℕ → GoError → Client
complete_removed (c, none) err = c
complete_removed (c, some p) err = record c { calls = complete p err c.calls }

-- `send`; `written` is the error of `cc.Write`
unfoldable pub send : Client → ℕ → GoString → GoError → Client
send c p service_method written =
    let (c', seq, err) = register_call c p in
    elim err [
      | some e ↦ record c' { calls = complete p (some e) c'.calls }
      | none ↦
          let sent = record c' {
            header = record { service_method = service_method; seq = seq; error = [] };
          } in
          elim written [ none ↦ sent | some e ↦ complete_removed (remove_call sent seq) (some e) ]
    ]

-- the channel `done` of `Go`, by its capacity: a nil one is made, and one without room is a panic
unfoldable pub done_capacity : Option ℕ → Outcome ℕ
done_capacity none = ok 10
done_capacity (some zero) = panic
done_capacity (some (suc n)) = ok (suc n)

-- the call that `Go` makes, at the free address `p`, and `send`. The channel belongs to this call
-- alone, as in `Call`, and has room for it; `done` counts what is sent on it.
unfoldable pub go : Client → ℕ → GoString → GoError → Client
go c p service_method written =
    send
      (record c {
        calls =
            insert p (record { seq = 0; service_method = service_method; error = none; done = 0 })
              c.calls;
      })
      p service_method written

-- `Go`, with the capacity of `done`, if it is not nil
unfoldable pub go_with : Client → ℕ → Option ℕ → GoString → GoError → Outcome Client
go_with c p done service_method written = do
  capacity ← done_capacity done
  ok (go c p service_method written)

-- `Call` when the context ends first: the error of the context, and the call is given up
unfoldable pub cancel : Client → ℕ → Client
cancel c p = elim (lookup p c.calls) [ none ↦ c | some call ↦ (remove_call c call.seq).0 ]

-- one response: its header, and the error of `cc.ReadBody`
pub record Response : Type 0 where
  pub header : Header
  pub body : GoError

-- the error that a body which cannot be read leaves in the call
abbrev pub read_error : GoError → GoError
read_error none = none
read_error (some e) = some (str "read body " ++ e)

-- `errorf` is fmt.Errorf without arguments.
module _ (errorf : GoString → GoString) where
  -- the `switch` of `receive` on what `removeCall` returned
  unfoldable pub deliver : Client × Option ℕ → Response → Client × GoError
  deliver (c, none) r = (c, r.body)
  deliver (c, some p) r =
      if r.header.error == []
      then (record c { calls = complete p (read_error r.body) c.calls }, r.body)
      else (record c { calls = complete p (some (errorf r.header.error)) c.calls }, r.body)

  -- one round of `receive`: the client, and `err` for the test of the loop
  unfoldable pub receive_one : Client → Response → Client × GoError
  receive_one c r = deliver (remove_call c r.header.seq) r

  -- `receive`: the responses that are read before `cc.ReadHeader` fails. That failure breaks the
  -- loop and leaves the outer `err` as it is, nil.
  unfoldable pub receive : Client → List Response → Client
  receive c [] = terminate_calls c none
  receive c (r ∷ rs) =
      let (c', err) = receive_one c r in
      elim err [ none ↦ receive c' rs | some e ↦ terminate_calls c' (some e) ]
