-- ===== src/GeeRpc/Handshake.antt =====
-- geeRpc/client.go and geeRpc/server.go: the handshake over HTTP before a connection is used.
-- `method_of` is how net/http reads the method of a request's text, `read_response` what
-- http.ReadResponse makes of an answer: a status or an error.
pub mod Fails
mod Tests
use go_little_project.Base.{
  ℕ, Bool, true, false, List, [], ◌∷◌, ◌++◌, Option, none, some, GoString, GoMap, str, ◌==◌, str_eq,
  if◌then◌else◌, ◌⊎◌, inl, inr,
}
use go_little_project.GeeRpc.Client.{GoError}
use go_little_project.GeeRpc.XClient.{DialOption, new_client, dial_time_out}

abbrev pub connected : GoString
connected = str "200 connected to Gee RPC"

abbrev pub default_pc_path : GoString
default_pc_path = str "/_geeprc_"

-- what `NewHTTPClient` writes
abbrev pub connect_request : GoString
connect_request = str "CONNECT " ++ (default_pc_path ++ (str " HTTP/1.0" ++ 10 ∷ 10 ∷ []))

-- what a handler does: headers, a status and a body; nothing; or a text on the connection, which is
-- served then
pub data ServerAnswer : Type 0 where
  answered : GoMap GoString GoString → ℕ → GoString → ServerAnswer
  unanswered : ServerAnswer
  served : GoString → ServerAnswer

-- `ServeHTTP` of the server; `hijacked` is the error of `Hijack`
unfoldable pub serve_http : GoString → GoError → ServerAnswer
serve_http method hijacked =
    if method == str "CONNECTED"
    then elim hijacked [
      | some err ↦ unanswered
      | none ↦ served (str "http/1,0 " ++ (connected ++ 10 ∷ 10 ∷ []))
    ]
    else answered ((str "Content-Type", str "text/plain; charset=utf-8") ∷ []) 405
        (str "405 must CONNECT" ++ 10 ∷ [])

-- `NewHTTPClient`, with what http.ReadResponse returned
unfoldable pub new_http_client :
    (GoString → Bool) → GoError → ℕ → GoString ⊎ GoString → DialOption → Option ℕ × GoError
new_http_client has_codec encoded fresh (inl status) opt =
    if status == connected
    then new_client has_codec encoded opt fresh
    else (none, some (str "unexpected HTTP response: " ++ status))
new_http_client has_codec encoded fresh (inr err) opt = (none, some err)

-- `conn` is the error of net.DialTimeout, `late` whether the timer of the dialing comes first
module _ (method_of : GoString → GoString) (read_response : ServerAnswer → GoString ⊎ GoString)
    (hijacked : GoError) (has_codec : GoString → Bool) (encoded : GoError)
    (conn : GoString → GoString → GoError) (late : Bool) where
  -- `DialHTTP` to a server of this package
  unfoldable pub dial_http :
      List (Option DialOption) → ℕ → GoString → GoString → (Option ℕ × GoError) × Bool
  dial_http opts fresh network addr =
      dial_time_out opts (conn network addr)
        (new_http_client has_codec encoded fresh
          (read_response (serve_http (method_of connect_request) hijacked)))
        late

  -- `Dial`
  unfoldable pub dial_tcp :
      List (Option DialOption) → ℕ → GoString → GoString → (Option ℕ × GoError) × Bool
  dial_tcp opts fresh network addr =
      dial_time_out opts (conn network addr) (λ opt. new_client has_codec encoded opt fresh) late

  -- the `switch` of `XDial`
  unfoldable pub dial_by :
      List (Option DialOption) → ℕ → Bool → GoString → GoString → Option ℕ × GoError
  dial_by opts fresh true network addr = (dial_http opts fresh network addr).0
  dial_by opts fresh false network addr = (dial_tcp opts fresh network addr).0
