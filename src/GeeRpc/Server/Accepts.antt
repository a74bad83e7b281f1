-- ===== src/GeeRpc/Server/Accepts.antt =====
-- geeRpc/server.go: `Accept`, which serves one connection after the other. A connection is the option
-- that is decoded from it, none if that fails, with what the codec reads.
use go_little_project.Base.{
  ℕ, ◌≡◌, ap, ◌∙◌, Bool, true, false, List, [], ◌∷◌, Option, none, some, GoString, arith,
}
use go_little_project.GeeRpc.Client.{GoError}
use go_little_project.GeeRpc.XClient.{DialOption, magic}
use go_little_project.GeeRpc.Service.{Server}
use go_little_project.GeeRpc.Server.{HeaderRead, eof, Event, serve_codec, serve_conn}
use go_little_project.GeeRpc.Server.Loops.{serve_codec-eof, idle_answers}

-- what the listener gives
pub data Accepted : Type 0 where
  accept_error : GoString → Accepted
  connection : Option DialOption → (ℕ → HeaderRead × GoError) → Accepted

-- the next connections are accepted once this one is over
abbrev pub then_next : List Event × Bool → List (List Event) × Bool → List (List Event) × Bool
then_next (events, true) rest = (events ∷ rest.0, rest.1)
then_next (events, false) rest = (events ∷ [], false)

-- at most so many rounds of each connection; the events of the connections that were begun, and
-- whether the last of them is over
unfoldable pub accept : Server → (GoString → Bool) → ℕ → List Accepted → List (List Event) × Bool
accept s has_codec rounds [] = ([], true)
accept s has_codec rounds (accept_error err ∷ rest) = accept s has_codec rounds rest
accept s has_codec rounds (connection opt input ∷ rest) =
    let served : List Event × Bool = elim (serve_conn opt has_codec) [
      | none ↦ ([], true)
      | some timeout ↦ serve_codec s input 0 rounds
    ] in
    then_next served (accept s has_codec rounds rest)

conn_timeout :
    (has_codec : GoString → Bool) (opt : DialOption)
    → opt.magic_number ≡ magic
    → has_codec opt.codec_type ≡ true
    → serve_conn (some opt) has_codec ≡ some opt.connect_time_out
unfolding serve_conn
conn_timeout has_codec opt good known = ground (arith, good, known)

-- what is served with a time to handle a request
abbrev served_with : Server → (ℕ → HeaderRead × GoError) → ℕ → Option ℕ → List Event × Bool
served_with s input rounds timed = elim timed [
  | none ↦ ([], true)
  | some timeout ↦ serve_codec s input 0 rounds
]

-- While Accept serves a connection with a well-formed option, on which every header that is read is
-- the end of the input, no other connection is served, however many rounds go by: the loop answers
-- empty requests to the client that has gone.
pub accept-waits :
    (s : Server) (has_codec : GoString → Bool) (rounds : ℕ) (opt : DialOption)
    (input : ℕ → HeaderRead × GoError) (later : List Accepted)
    → opt.magic_number ≡ magic
    → has_codec opt.codec_type ≡ true
    → ((j : ℕ) → (input j).0 ≡ eof)
    → accept s has_codec rounds (connection (some opt) input ∷ later)
      ≡ (idle_answers rounds ∷ [], false)
unfolding accept
accept-waits s has_codec rounds opt input later good known gone =
    ap (λ timed. then_next (served_with s input rounds timed) (accept s has_codec rounds later))
      (conn_timeout has_codec opt good known)
    ∙ ap (λ r. then_next r (accept s has_codec rounds later))
        (serve_codec-eof s input 0 rounds (λ j l. gone j))
