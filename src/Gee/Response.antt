-- ===== src/Gee/Response.antt =====
-- gee/context/mygee/context.go: the methods that answer a request. net/http's ResponseWriter is an
-- interface; the texts that fmt, encoding/json and html/template make enter as arguments.
pub mod Writes
pub mod Recorder
mod Tests
use go_little_project.Base.{
  ℕ, ◌≡◌, ◌≢◌, ◌≤◌, ◌<◌, List, [], ◌∷◌, ◌++◌, Option, none, some, GoString, GoMap, lookup, str,
  str_eq, Outcome, ok, panic, Bool, true, arith, leb, ltb, nat_beq, not, ◌&&◌, ◌||◌,
}
use go_little_project.GeeRpc.Client.{GoError}

-- the methods of a response writer with http.Error, and what the client gets of it: its status, its
-- body, and the text that http.Error makes of a message
pub record ResponseWriter : Type 1 where
  pub State : Type 0
  pub set_key : State → GoString → GoString → State
  pub write_header : State → ℕ → State
  pub write : State → GoString → State
  pub error : State → GoString → ℕ → State
  pub error_text : GoString → GoString
  pub status : State → Option ℕ
  pub body : State → GoString

-- the status that counts, after another one
abbrev pub first_status : Option ℕ → ℕ → Option ℕ
first_status none code = some code
first_status (some c) code = some c

-- a final status with three digits, whose answer has a body
pub record IsSendable (code : ℕ) : Type 0 where
  pub final : 200 ≤ code
  pub three_digits : code < 1000
  pub not_204 : code ≢ 204
  pub not_304 : code ≢ 304

-- the test of it
abbrev pub can_send : ℕ → Bool
can_send code = leb 200 code && ltb code 1000 && not (nat_beq code 204 || nat_beq code 304)

pub sendable : (code : ℕ) → can_send code ≡ true → IsSendable code
sendable code h = record {
  final = ground (arith, h);
  three_digits = ground (arith, h);
  not_204 = λ e. ground (arith, h);
  not_304 = λ e. ground (arith, h);
}

-- no status yet, or one whose answer has a body
abbrev pub TakesBody : Option ℕ → Type 0
TakesBody none = Unit
TakesBody (some code) = IsSendable code

-- what net/http documents for a request that is not HEAD: of the statuses that have a body the first
-- one counts, a write without one sends 200, the body is what is written after it, and http.Error
-- replies with a message and a status
pub record IsLawful (w : ResponseWriter) : Type 0 where
  pub status-write_header :
      (s : w.State) (code : ℕ)
      → IsSendable code
      → w.status (w.write_header s code) ≡ first_status (w.status s) code
  pub status-write :
      (s : w.State) (text : GoString) → w.status (w.write s text) ≡ first_status (w.status s) 200
  pub status-set : (s : w.State) (k v : GoString) → w.status (w.set_key s k v) ≡ w.status s
  pub body-write_header :
      (s : w.State) (code : ℕ) → IsSendable code → w.body (w.write_header s code) ≡ w.body s
  pub body-write :
      (s : w.State) (text : GoString)
      → TakesBody (w.status s)
      → w.body (w.write s text) ≡ w.body s ++ text
  pub status-error :
      (s : w.State) (message : GoString) (code : ℕ)
      → IsSendable code
      → w.status (w.error s message code) ≡ first_status (w.status s) code
  pub body-error :
      (s : w.State) (message : GoString) (code : ℕ)
      → IsSendable code
      → TakesBody (w.status s)
      → w.body (w.error s message code) ≡ w.body s ++ w.error_text message
  pub body-set : (s : w.State) (k v : GoString) → w.body (w.set_key s k v) ≡ w.body s

-- the writer of a context, its parameters and the status that it notes
pub record Context (w : ResponseWriter) : Type 0 where
  pub writer : w.State
  pub params : GoMap GoString GoString
  pub status_code : ℕ

module _ {w : ResponseWriter} where
  -- `Status`
  unfoldable pub status_to : Context w → ℕ → Context w
  status_to c code = record c { status_code = code; writer = w.write_header c.writer code }

  -- `SetHeader`
  unfoldable pub set_header : Context w → GoString → GoString → Context w
  set_header c key val = record c { writer = w.set_key c.writer key val }

  -- `Param`
  unfoldable pub param : Context w → GoString → GoString
  param c key = elim (lookup key c.params) [ some v ↦ v | none ↦ [] ]

  -- `c.W.Write`
  unfoldable pub write_text : Context w → GoString → Context w
  write_text c text = record c { writer = w.write c.writer text }

  -- `String`, with the text that is formatted
  unfoldable pub string_to : Context w → ℕ → GoString → Context w
  string_to c code text =
      write_text (status_to (set_header c (str "Content-Type") (str "text/plain")) code) text

  -- `Data`
  unfoldable pub data_to : Context w → ℕ → GoString → Context w
  data_to c code text = write_text (status_to c code) text

  -- `http.Error(c.W, err, code)`
  abbrev pub http_error : Context w → GoString → ℕ → Context w
  http_error c err code = record c { writer = w.error c.writer err code }

  -- `JSON`: the encoder writes the text, or fails before it writes
  unfoldable pub json_to : Context w → ℕ → GoString → GoError → Context w
  json_to c code text err =
      let headed = status_to (set_header c (str "Content-Type") (str "application/json")) code in
      elim err [ none ↦ write_text headed text | some e ↦ http_error headed e 500 ]

  -- `HTML`: the template writes a text, and may fail then; without templates it is a nil dereference
  unfoldable pub html_to : Context w → ℕ → Option (GoString × GoError) → Outcome (Context w)
  html_to c code template =
      let headed = status_to (set_header c (str "Content-Type") (str "text/html")) code in
      elim template [
        | none ↦ panic
        | some (text, err) ↦ ok (elim err [
          | none ↦ write_text headed text
          | some e ↦ http_error (write_text headed text) e 500
        ])
      ]
