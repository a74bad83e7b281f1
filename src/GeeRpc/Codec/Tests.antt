-- ===== src/GeeRpc/Codec/Tests.antt =====
-- Runs of the codec.
use go_little_project.Base.{
  ℕ, ◌≡◌, refl, sym, ap, ◌∙◌, Bool, true, false, List, [], ◌∷◌, ◌++◌, Option, none, some, GoString,
  str, arith,
}
use mathlib.Core.List.{append_assoc}
use go_little_project.GeeRpc.Client.{GoError, Header}
use go_little_project.GeeRpc.Codec.{
  Wanted, a_header, a_body, Encoded, Gob, IsGob, BufWriter, IsBuffered, GobCodec, new_gob_codec,
  encode_to, end_write, write, decode_from, read_header, read_body, close_codec,
}
use go_little_project.GeeRpc.Codec.Ends.{write-open}
use go_little_project.GeeRpc.Codec.Reads.{write_all, read_one, read_all, read_all-write_all}

-- numbers, and headers that have nothing but a number
abbrev numbered : GoString → GoString → GoError
numbered [] [] = none
numbered [] (b ∷ s) = some (str "gob: a name")
numbered (b ∷ s) err = some (str "gob: a name")

abbrev encode_number : (k : Wanted) → Unit {0} → Encoded ℕ k → Unit {0} × GoString × GoError
encode_number a_header e h = (tt, h.seq ∷ [], numbered h.service_method h.error)
encode_number a_body e n = (tt, n ∷ [], none)

abbrev decode_number :
    (k : Wanted) → Unit {0} → GoString → Unit {0} × GoString × Option (Encoded ℕ k)
decode_number k d [] = (tt, [], none)
decode_number a_header d (b ∷ s) =
    (tt, s, some (record { service_method = []; seq = b; error = [] }))
decode_number a_body d (b ∷ s) = (tt, s, some b)

abbrev numbers : Gob ℕ
numbers = record {
  Encoder = Unit {0};
  Decoder = Unit {0};
  new_encoder = tt;
  new_decoder = tt;
  encode = encode_number;
  decode = decode_number;
}

numbered-nil : (name err : GoString) → numbered name err ≡ none → (name ≡ []) × (err ≡ [])
numbered-nil [] [] e = (refl, refl)
numbered-nil [] (b ∷ s) e = absurd (ground (arith, e))
numbered-nil (b ∷ s) err e = absurd (ground (arith, e))

decode-number :
    (k : Wanted) (v : Encoded ℕ k) (text rest : GoString)
    → encode_number k tt v ≡ (tt, text, none)
    → decode_number k tt (text ++ rest) ≡ (tt, rest, some v)
decode-number a_header h text rest e =
    let (name, err) = numbered-nil h.service_method h.error (ap (λ r. r.2) e) in
    ap (λ t. decode_number a_header tt (t ++ rest)) (sym (ap (λ r. r.1) e))
    ∙ ap
        (λ (x : GoString × GoString).
          (tt, rest, some (record { service_method = x.0; seq = h.seq; error = x.1 })))
        (sym (ap (λ n. (n, h.error)) name ∙ ap (λ m. ([], m)) err))
decode-number a_body n text rest e =
    ap (λ t. decode_number a_body tt (t ++ rest)) (sym (ap (λ r. r.1) e))

numbers-IsGob : IsGob numbers
numbers-IsGob = record {
  InStep = λ e d. Unit {0};
  new-InStep = tt;
  decode-encode = λ k e e' d v text rest step done. (tt, decode-number k v text rest done, tt);
}

abbrev pipe : BufWriter
pipe = record {
  State = GoString × GoString × Bool;
  write_to = λ s text. ((s.0, s.1 ++ text, s.2), none);
  flush = λ s. ((s.0 ++ s.1, [], s.2), none);
  end_conn = λ s. (s.0, s.1, false);
  sent = λ s. s.0;
  waiting = λ s. s.1;
  is_open = λ s. s.2;
}

pipe-IsBuffered : IsBuffered pipe
pipe-IsBuffered = record {
  write-keeps = λ s s' text e. ap (λ r. r.0.0 ++ r.0.1) (sym e) ∙ sym (append_assoc s.0 s.1 text);
  flush-sends = λ s s' e. (ap (λ r. r.0.0) (sym e), ap (λ r. r.0.1) (sym e));
  open-write = λ s text. refl;
  open-flush = λ s. refl;
  open-close = λ s. refl;
}

codec : Unit {0}
unfolding new_gob_codec encode_to end_write write decode_from read_header read_body close_codec
    write_all read_one read_all
codec = tt

abbrev numbered_header : ℕ → Header
numbered_header n = record { service_method = []; seq = n; error = [] }

abbrev messages : List (Header × ℕ)
messages = (numbered_header 1, 10) ∷ (numbered_header 2, 20) ∷ []

abbrev open_pipe : pipe.State
open_pipe = ([], [], true)

abbrev fresh : GobCodec numbers pipe
fresh = new_gob_codec numbers pipe open_pipe []

abbrev after_messages : GobCodec numbers pipe
after_messages = record {
  buf = (1 ∷ 10 ∷ 2 ∷ 20 ∷ [], [], true);
  enc = tt;
  dec = tt;
  incoming = [];
}

all_written : write_all numbers pipe fresh messages ≡ (after_messages, none)
unfolding codec
all_written = refl

read_all-write_all_example :
    read_all numbers pipe 2 (new_gob_codec numbers pipe open_pipe (1 ∷ 10 ∷ 2 ∷ 20 ∷ [])) ≡ messages
read_all-write_all_example =
    read_all-write_all numbers-IsGob pipe-IsBuffered messages open_pipe open_pipe [] after_messages
      (λ s. refl) refl refl all_written

-- a header that has a name cannot be encoded, so the connection is closed
write-open_example :
    pipe.is_open
      (write numbers pipe fresh (record (numbered_header 1) { service_method = str "f" }) 10).0.buf
    ≡ false
unfolding codec
write-open_example =
    write-open fresh (record (numbered_header 1) { service_method = str "f" }) 10 pipe-IsBuffered
