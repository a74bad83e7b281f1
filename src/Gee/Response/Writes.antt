-- ===== src/Gee/Response/Writes.antt =====
-- What a client gets of several answers to one request.
use go_little_project.Base.{
  ℕ, ◌≡◌, refl, sym, ap, ◌∙◌, List, [], ◌∷◌, ◌++◌, Option, none, some, GoString, Outcome, ok, ◌>>=◌,
  bind-ok, ok_inj, arith, subst, All,
}
use mathlib.Core.List.{append-nil, append_assoc}
use go_little_project.GeeRpc.Client.{GoError}
use go_little_project.Gee.Response.{
  ResponseWriter, IsLawful, IsSendable, TakesBody, sendable, first_status, Context, status_to,
  set_header, write_text, string_to, data_to, http_error, json_to, html_to,
}

-- the methods that answer
pub data Sending : Type 0 where
  notes : ℕ → Sending
  strings datas : ℕ → GoString → Sending
  jsons : ℕ → GoString → GoError → Sending
  htmls : ℕ → Option (GoString × GoError) → Sending

-- the status that an answer asks for
unfoldable pub code_of : Sending → ℕ
code_of (notes code) = code
code_of (strings code text) = code
code_of (datas code text) = code
code_of (jsons code text err) = code
code_of (htmls code template) = code

-- what the answers write, where `shown` is what http.Error writes for a message
unfoldable pub text_of : (GoString → GoString) → Sending → GoString
text_of shown (notes code) = []
text_of shown (strings code text) = text
text_of shown (datas code text) = text
text_of shown (jsons code text none) = text
text_of shown (jsons code text (some e)) = shown e
text_of shown (htmls code none) = []
text_of shown (htmls code (some (text, none))) = text
text_of shown (htmls code (some (text, some e))) = text ++ shown e

unfoldable pub texts_of : (GoString → GoString) → List Sending → GoString
texts_of shown [] = []
texts_of shown (a ∷ rest) = text_of shown a ++ texts_of shown rest

unfoldable pub last_code : Sending → List Sending → ℕ
last_code a [] = code_of a
last_code a (b ∷ rest) = last_code b rest

first-TakesBody :
    (s : Option ℕ) (code : ℕ) → IsSendable code → TakesBody s → TakesBody (first_status s code)
first-TakesBody none code h o = h
first-TakesBody (some c) code h o = o

first_twice : (s : Option ℕ) (a b : ℕ) → first_status (first_status s a) b ≡ first_status s a
first_twice none a b = refl
first_twice (some c) a b = refl

module _ {w : ResponseWriter} where
  unfoldable pub answer : Sending → Context w → Outcome (Context w)
  answer (notes code) c = ok (status_to c code)
  answer (strings code text) c = ok (string_to c code text)
  answer (datas code text) c = ok (data_to c code text)
  answer (jsons code text err) c = ok (json_to c code text err)
  answer (htmls code template) c = html_to c code template

  -- The answers one after another.
  unfoldable pub answers : List Sending → Context w → Outcome (Context w)
  answers [] c = ok c
  answers (a ∷ rest) c = answer a c >>= answers rest

  -- One answer.
  record HasWritten (code : ℕ) (text : GoString) (c c' : Context w) : Type 0 where
    status : w.status c'.writer ≡ first_status (w.status c.writer) code
    body : w.body c'.writer ≡ w.body c.writer ++ text
    noted : c'.status_code ≡ code
    takes : TakesBody (w.status c'.writer)

  module _ (law : IsLawful w) where
    header_lem :
        (c : Context w) (code : ℕ)
        → IsSendable code
        → TakesBody (w.status c.writer)
        → HasWritten code [] c (status_to c code)
    unfolding status_to
    header_lem c code h o = record {
      status = law.status-write_header c.writer code h;
      body = law.body-write_header c.writer code h ∙ sym (append-nil (w.body c.writer));
      noted = refl;
      takes =
          subst TakesBody (sym (law.status-write_header c.writer code h))
            (first-TakesBody (w.status c.writer) code h o);
    }

    text_lem :
        (c c' : Context w) (code : ℕ) (before text : GoString)
        → HasWritten code before c c'
        → HasWritten code (before ++ text) c (write_text c' text)
    unfolding write_text
    text_lem c c' code before text h = record {
      status =
          law.status-write c'.writer text
          ∙ ap (λ s. first_status s 200) h.status
          ∙ first_twice (w.status c.writer) code 200;
      body =
          law.body-write c'.writer text h.takes
          ∙ ap (λ b. b ++ text) h.body
          ∙ append_assoc (w.body c.writer) before text;
      noted = h.noted;
      takes =
          subst TakesBody (sym (law.status-write c'.writer text))
            (first-TakesBody (w.status c'.writer) 200 (sendable 200 refl) h.takes);
    }

    error_lem :
        (c c' : Context w) (code : ℕ) (before err : GoString)
        → HasWritten code before c c'
        → HasWritten code (before ++ w.error_text err) c (http_error c' err 500)
    error_lem c c' code before err h = record {
      status =
          law.status-error c'.writer err 500 (sendable 500 refl)
          ∙ ap (λ s. first_status s 500) h.status
          ∙ first_twice (w.status c.writer) code 500;
      body =
          law.body-error c'.writer err 500 (sendable 500 refl) h.takes
          ∙ ap (λ b. b ++ w.error_text err) h.body
          ∙ append_assoc (w.body c.writer) before (w.error_text err);
      noted = h.noted;
      takes =
          subst TakesBody (sym (law.status-error c'.writer err 500 (sendable 500 refl)))
            (first-TakesBody (w.status c'.writer) 500 (sendable 500 refl) h.takes);
    }

    set_lem :
        (c c' : Context w) (key val : GoString) (code : ℕ) (text : GoString)
        → HasWritten code text (set_header c key val) c'
        → HasWritten code text c c'
    unfolding set_header
    set_lem c c' key val code text h = record {
      status = h.status ∙ ap (λ s. first_status s code) (law.status-set c.writer key val);
      body = h.body ∙ ap (λ b. b ++ text) (law.body-set c.writer key val);
      noted = h.noted;
      takes = h.takes;
    }

    set_open :
        (c : Context w) (key val : GoString)
        → TakesBody (w.status c.writer)
        → TakesBody (w.status (set_header c key val).writer)
    unfolding set_header
    set_open c key val room = subst TakesBody (sym (law.status-set c.writer key val)) room

    answer-HasWritten :
        (a : Sending) (c c' : Context w)
        → IsSendable (code_of a)
        → TakesBody (w.status c.writer)
        → answer a c ≡ ok c'
        → HasWritten (code_of a) (text_of w.error_text a) c c'
    unfolding answer code_of text_of string_to data_to json_to html_to
    answer-HasWritten (notes code) c c' send room e =
        subst (HasWritten code [] c) (ok_inj e) (header_lem c code send room)
    answer-HasWritten (strings code text) c c' send room e =
        subst (HasWritten code text c) (ok_inj e) (
          set_lem c _ _ _ code text
            (text_lem _ _ code [] text (header_lem _ code send (set_open c _ _ room))))
    answer-HasWritten (datas code text) c c' send room e =
        subst (HasWritten code text c) (ok_inj e)
          (text_lem _ _ code [] text (header_lem c code send room))
    answer-HasWritten (jsons code text none) c c' send room e =
        subst (HasWritten code text c) (ok_inj e) (
          set_lem c _ _ _ code text
            (text_lem _ _ code [] text (header_lem _ code send (set_open c _ _ room))))
    answer-HasWritten (jsons code text (some err)) c c' send room e =
        subst (HasWritten code (w.error_text err) c) (ok_inj e) (
          set_lem c _ _ _ code (w.error_text err)
            (error_lem _ _ code [] err (header_lem _ code send (set_open c _ _ room))))
    answer-HasWritten (htmls code none) c c' send room e = absurd (ground (arith, e))
    answer-HasWritten (htmls code (some (text, none))) c c' send room e =
        subst (HasWritten code text c) (ok_inj e) (
          set_lem c _ _ _ code text
            (text_lem _ _ code [] text (header_lem _ code send (set_open c _ _ room))))
    answer-HasWritten (htmls code (some (text, some err))) c c' send room e =
        subst (HasWritten code (text ++ w.error_text err) c) (ok_inj e) (
          set_lem c _ _ _ code _ (
            error_lem _ _ code text err
              (text_lem _ _ code [] text (header_lem _ code send (set_open c _ _ room)))))

    answers_lem :
        (a : Sending) (more : List Sending) (c c' : Context w)
        → All (λ b. IsSendable (code_of b)) (a ∷ more)
        → TakesBody (w.status c.writer)
        → answers (a ∷ more) c ≡ ok c'
        → (w.status c'.writer ≡ first_status (w.status c.writer) (code_of a))
          × (w.body c'.writer ≡ w.body c.writer ++ texts_of w.error_text (a ∷ more))
          × (c'.status_code ≡ last_code a more)
    unfolding answers texts_of last_code
    answers_lem a [] c c' (send, sends) room e =
        let (c1, first, rest) = bind-ok (answer a c) _ c' e in
        let h = answer-HasWritten a c c1 send room first in
        let same : c1 ≡ c' = ok_inj rest in
        subst
          (λ (x : Context w).
            (w.status x.writer ≡ first_status (w.status c.writer) (code_of a))
            × (w.body x.writer ≡ w.body c.writer ++ (text_of w.error_text a ++ []))
            × (x.status_code ≡ code_of a))
          same
          (
            h.status,
            h.body ∙ ap (λ t. w.body c.writer ++ t) (sym (append-nil (text_of w.error_text a))),
            h.noted,
          )
    answers_lem a (b ∷ more) c c' (send, sends) room e =
        let (c1, first, rest) = bind-ok (answer a c) _ c' e in
        let h = answer-HasWritten a c c1 send room first in
        let (status, body, noted) = answers_lem b more c1 c' sends h.takes rest in
        (
          status
              ∙ ap (λ s. first_status s (code_of b)) h.status
              ∙ first_twice (w.status c.writer) (code_of a) (code_of b),
          body
              ∙ ap (λ t. t ++ texts_of w.error_text (b ∷ more)) h.body
              ∙ append_assoc (w.body c.writer) (text_of w.error_text a)
                  (texts_of w.error_text (b ∷ more)),
          noted,
        )

    -- Whatever answers the handlers of a request that is not HEAD give, one after another and without
    -- a panic, each with a final status that has a body (not 1xx, 204 or 304), to a fresh writer that
    -- does what net/http documents: the client gets the status of the first one,
    -- with the texts of all of them, while the context, and so the log, has the status of the last.
    pub answers-first :
        (a : Sending) (more : List Sending) (c c' : Context w)
        → All (λ b. IsSendable (code_of b)) (a ∷ more)
        → w.status c.writer ≡ none
        → w.body c.writer ≡ []
        → answers (a ∷ more) c ≡ ok c'
        → (w.status c'.writer ≡ some (code_of a))
          × (w.body c'.writer ≡ texts_of w.error_text (a ∷ more))
          × (c'.status_code ≡ last_code a more)
    answers-first a more c c' sends fresh empty done =
        let (status, body, noted) =
          answers_lem a more c c' sends (subst TakesBody (sym fresh) tt) done in
        (
          status ∙ ap (λ s. first_status s (code_of a)) fresh,
          body ∙ ap (λ t. t ++ texts_of w.error_text (a ∷ more)) empty,
          noted,
        )
