-- ===== src/GeeRpc/Codec/Ends.antt =====
-- How a write ends.
use go_little_project.Base.{
  ◌≡◌, ◌≢◌, refl, ap, ◌∙◌, sym, Bool, false, inl, inr, [], ◌++◌, none, some, GoString, arith,
  Option-cases,
}
use go_little_project.GeeRpc.Client.{GoError, Header}
use go_little_project.GeeRpc.Codec.{
  Wanted, a_header, a_body, Encoded, Gob, BufWriter, IsBuffered, GobCodec, first_error, encode_to,
  end_write, close_codec, write_body, write,
}

pub some-none : (err : GoString) → some err ≢ none
some-none err e = ground (arith, e)

first_error-none : (a b : GoError) → first_error a b ≡ none → (a ≡ none) × (b ≡ none)
first_error-none none b e = (refl, e)
first_error-none (some err) b e = absurd (ground (arith, e))

-- is the connection open after a write that ends with `err`
abbrev pub open_after : Bool → GoError → Bool
open_after was none = was
open_after was (some err) = false

module _ {B : Type 0} {gob : Gob B} {w : BufWriter} where
  -- what the connection has got, and what waits
  abbrev pub stream : GobCodec gob w → GoString
  stream g = w.sent g.buf ++ w.waiting g.buf

  pub encode_to-none :
      (k : Wanted) (g g' : GobCodec gob w) (v : Encoded B k)
      → IsBuffered w
      → encode_to gob w k g v ≡ (g', none)
      → (text : GoString) × (gob.encode k g.enc v ≡ (g'.enc, text, none))
        × (stream g' ≡ stream g ++ text)
  unfolding encode_to
  encode_to-none k g g' v law e =
      let made = gob.encode k g.enc v in
      let put = w.write_to g.buf made.1 in
      let (fine, wrote) = first_error-none made.2 put.1 (ap (λ r. r.1) e) in
      let same : record g { enc = made.0; buf = put.0 } ≡ g' = ap (λ r. r.0) e in
      (
        made.1,
        ap (λ f. (made.0, made.1, f)) fine
            ∙ ap (λ (x : GobCodec gob w). (x.enc, made.1, none)) same,
        sym (ap (λ (x : GobCodec gob w). stream x) same)
            ∙ law.write-keeps g.buf put.0 made.1 (ap (λ f. (put.0, f)) wrote),
      )

  -- the end of a write without an error
  pub end_write-none :
      (g : GobCodec gob w)
      → IsBuffered w
      → (w.flush g.buf).1 ≡ none
      → (w.sent (end_write gob w g none).0.buf ≡ stream g)
        × (w.waiting (end_write gob w g none).0.buf ≡ [])
  unfolding end_write
  end_write-none g law flushed =
      law.flush-sends g.buf (w.flush g.buf).0 (ap (λ f. ((w.flush g.buf).0, f)) flushed)

  -- a write without an error
  pub write-none :
      (g g' : GobCodec gob w) (h : Header) (body : B)
      → write gob w g h body ≡ (g', none)
      → (g1 : GobCodec gob w) × (g2 : GobCodec gob w) × (encode_to gob w a_header g h ≡ (g1, none))
        × (encode_to gob w a_body g1 body ≡ (g2, none))
        × (end_write gob w g2 none ≡ (g', none))
  unfolding write end_write
  write-none g g' h body e =
      let first = encode_to gob w a_header g h in
      let second = encode_to gob w a_body first.0 body in
      elim (Option-cases first.1) [
        | inr (err, failed) ↦
            let ends = sym (ap (λ f. write_body gob w first.0 f body) failed) ∙ e in
            absurd (some-none _ (ap (λ r. r.1) ends))
        | inl fine ↦
            let rest = sym (ap (λ f. write_body gob w first.0 f body) fine) ∙ e in
            elim (Option-cases second.1) [
              | inr (err, failed) ↦
                  let ends = sym (ap (λ f. end_write gob w second.0 f) failed) ∙ rest in
                  absurd (some-none _ (ap (λ r. r.1) ends))
              | inl good ↦ (
                first.0,
                second.0,
                ap (λ f. (first.0, f)) fine,
                ap (λ f. (second.0, f)) good,
                sym (ap (λ f. end_write gob w second.0 f) good) ∙ rest,
              )
            ]
      ]

  open-encode :
      (k : Wanted) (g : GobCodec gob w) (v : Encoded B k)
      → IsBuffered w
      → w.is_open (encode_to gob w k g v).0.buf ≡ w.is_open g.buf
  unfolding encode_to
  open-encode k g v law = law.open-write g.buf (gob.encode k g.enc v).1

  open-end :
      (g : GobCodec gob w) (err : GoError)
      → IsBuffered w
      → w.is_open (end_write gob w g err).0.buf
        ≡ open_after (w.is_open g.buf) (end_write gob w g err).1
  unfolding end_write close_codec
  open-end g none law = law.open-flush g.buf
  open-end g (some err) law = law.open-close (w.flush g.buf).0

  open-body :
      (g : GobCodec gob w) (err : GoError) (body : B)
      → IsBuffered w
      → w.is_open (write_body gob w g err body).0.buf
        ≡ open_after (w.is_open g.buf) (write_body gob w g err body).1
  open-body g (some err) body law = open-end g (some err) law
  open-body g none body law =
      let second = encode_to gob w a_body g body in
      open-end second.0 second.1 law
      ∙ ap (λ b. open_after b (end_write gob w second.0 second.1).1) (open-encode a_body g body law)

  -- Write closes the connection exactly if it returns an error.
  pub write-open :
      (g : GobCodec gob w) (h : Header) (body : B)
      → IsBuffered w
      → w.is_open (write gob w g h body).0.buf
        ≡ open_after (w.is_open g.buf) (write gob w g h body).1
  unfolding write
  write-open g h body law =
      let first = encode_to gob w a_header g h in
      open-body first.0 first.1 body law
      ∙ ap (λ b. open_after b (write_body gob w first.0 first.1 body).1)
          (open-encode a_header g h law)
