-- ===== src/GeeRpc/Server.antt =====
-- geeRpc/server.go: the loop over the requests of one connection. What the codec reads in round `i`
-- enters as a function of `i`.
pub mod Loops
pub mod Handling
pub mod Accepts
mod Tests
use go_little_project.Base.{
  ℕ, zero, suc, ◌≡◌, Bool, true, false, List, [], ◌∷◌, Option, none, some, GoString, str, ◌==◌,
  nat_eq, str_eq, if◌then◌else◌, inl, inr, ok, panic, blocked,
}
use go_little_project.GeeRpc.Client.{GoError, Header}
use go_little_project.GeeRpc.XClient.{DialOption, magic}
use go_little_project.GeeRpc.Service.{Server, Service, MethodType, find_service, new_reply_v}

-- what ReadHeader gives: a header, io.EOF or io.ErrUnexpectedEOF, or any other error
pub data HeaderRead : Type 0 where
  header : Header → HeaderRead
  eof : HeaderRead
  header_error : GoString → HeaderRead

abbrev pub zero_header : Header
zero_header = record { service_method = []; seq = 0; error = [] }

-- `readRequestHeader`, nil as none
unfoldable pub read_request_header : HeaderRead → Option Header
read_request_header (header h) = some h
read_request_header eof = some zero_header
read_request_header (header_error err) = none

-- `Request` with the error of `readRequest`: no request, one that is answered with an error, or
-- one to handle; or a panic
pub data Request : Type 0 where
  no_request panics : Request
  ill_formed : Header → GoString → Request
  to_handle : Header → Service → MethodType → Request

-- `readRequest`; `body` is the error of ReadBody
unfoldable pub read_request : Server → HeaderRead → GoError → Request
read_request s read body = elim (read_request_header read) [
  | none ↦ no_request
  | some h ↦ elim (find_service s h.service_method) [
    | inr err ↦ ill_formed h err
    | inl found ↦ elim (new_reply_v found.1) [
      | ok kind ↦ elim body [ some err ↦ no_request | none ↦ to_handle h found.0 found.1 ]
      | panic ↦ panics
      | blocked ↦ panics
    ]
  ]
]

-- what a round of the loop does: it answers with an error, starts `handleRequest`, or panics
pub data Event : Type 0 where
  answers : Header → Event
  starts : Header → Service → MethodType → Event
  panicked : Event

-- what a round adds to the rounds after it
unfoldable pub after_round : Request → List Event × Bool → List Event × Bool
after_round no_request rest = ([], true)
after_round panics rest = (panicked ∷ [], true)
after_round (ill_formed h err) rest = (answers (record h { error = err }) ∷ rest.0, rest.1)
after_round (to_handle h svc m_type) rest = (starts h svc m_type ∷ rest.0, rest.1)

-- the rounds from `i` on, at most that many; true if the loop is over, at its `break` or by a
-- panic. What each read gives is an input, also after a reply whose `Write` failed and closed the
-- connection.
unfoldable pub serve_codec : Server → (ℕ → HeaderRead × GoError) → ℕ → ℕ → List Event × Bool
serve_codec s input i zero = ([], false)
serve_codec s input i (suc rounds) =
    after_round (read_request s (input i).0 (input i).1) (serve_codec s input (suc i) rounds)

-- `ServeConn`: the time to handle a request with which `ServeCodec` begins, or none if it does not
unfoldable pub serve_conn : Option DialOption → (GoString → Bool) → Option ℕ
serve_conn none has_codec = none
serve_conn (some opt) has_codec =
    if opt.magic_number == magic
    then if has_codec opt.codec_type then some opt.connect_time_out else none
    else none
