-- ===== src/GeeRpc/Codec/Reads.antt =====
-- What is written by one codec is read by another.
use go_little_project.Base.{
  ℕ, zero, suc, ◌≡◌, refl, ap, ◌∙◌, sym, List, [], ◌∷◌, ◌++◌, Option, none, some, GoString, length,
  Option-cases, inl, inr,
}
use mathlib.Core.List.{append_assoc, append-nil}
use go_little_project.GeeRpc.Client.{GoError, Header}
use go_little_project.GeeRpc.Codec.{
  Wanted, a_header, a_body, Encoded, Gob, IsGob, BufWriter, IsBuffered, GobCodec, new_gob_codec,
  end_write, write, decode_from, read_header, read_body,
}
use go_little_project.GeeRpc.Codec.Ends.{
  some-none, stream, encode_to-none, end_write-none, write-none,
}

abbrev pub paired {ℓ κ} : {A : Type ℓ} {B : Type κ} → Option A → Option B → Option (A × B)
paired none b = none
paired (some a) none = none
paired (some a) (some b) = some (a, b)

abbrev pub kept {ℓ} : {A : Type ℓ} → Option A → List A → List A
kept none rest = []
kept (some a) rest = a ∷ rest

-- after an error the rest is not run
abbrev pub go_on {ℓ} : {A : Type ℓ} → GoError → A → A × GoError → A × GoError
go_on (some e) a rest = (a, some e)
go_on none a rest = rest

module _ {B : Type 0} (gob : Gob B) (w : BufWriter) where
  -- Messages are written one after another, until a write returns an error.
  unfoldable pub write_all : GobCodec gob w → List (Header × B) → GobCodec gob w × GoError
  write_all g [] = (g, none)
  write_all g ((h, body) ∷ rest) =
      let (written, err) = write gob w g h body in go_on err written (write_all written rest)

  -- A message is read: its header, then its body.
  unfoldable pub read_one : GobCodec gob w → GobCodec gob w × Option (Header × B)
  read_one g =
      let (headed, h) = read_header gob w g in
      let (full, body) = read_body gob w headed in (full, paired h body)

  -- So many messages are read, until a read fails.
  unfoldable pub read_all : ℕ → GobCodec gob w → List (Header × B)
  read_all zero g = []
  read_all (suc n) g =
      let (rest, found) = read_one g in let more = read_all n rest in kept found more

module _ {B : Type 0} {gob : Gob B} {w : BufWriter} (good : IsGob gob) (law : IsBuffered w) where
  -- the decoder of `r` has read all that the encoder of `g` wrote, and `text` comes next
  record Follows (g r : GobCodec gob w) (text : GoString) : Type 0 where
    in_step : good.InStep g.enc r.dec
    next : r.incoming ≡ text

  decode_one :
      (k : Wanted) (g g' r : GobCodec gob w) (v : Encoded B k) (text rest : GoString)
      → Follows g r (text ++ rest)
      → gob.encode k g.enc v ≡ (g'.enc, text, none)
      → (r' : GobCodec gob w) × (decode_from gob w k r ≡ (r', some v)) × Follows g' r' rest
  unfolding decode_from
  decode_one k g g' r v text rest f e =
      let (d, found, step) = good.decode-encode k g.enc g'.enc r.dec v text rest f.in_step e in
      let whole = ap (λ t. gob.decode k r.dec t) f.next ∙ found in
      (
        record r { dec = d; incoming = rest },
        ap (λ x. (record r { dec = x.0; incoming = x.1 }, x.2)) whole,
        record { in_step = step; next = refl },
      )

  -- what one write sends, and that it is read
  write_read :
      (g g' : GobCodec gob w) (h : Header) (body : B)
      → ((s : w.State) → (w.flush s).1 ≡ none)
      → w.waiting g.buf ≡ []
      → write gob w g h body ≡ (g', none)
      → (text : GoString) × (w.sent g'.buf ≡ w.sent g.buf ++ text)
        × (w.waiting g'.buf ≡ [])
        × ((r : GobCodec gob w) (rest : GoString)
            → Follows g r (text ++ rest)
            → (r' : GobCodec gob w) × (read_one gob w r ≡ (r', some (h, body)))
              × Follows g' r' rest)
  unfolding read_one read_header read_body end_write
  write_read g g' h body flushes idle e =
      let (g1, g2, first, second, last) = write-none g g' h body e in
      let (t1, e1, s1) = encode_to-none a_header g g1 h law first in
      let (t2, e2, s2) = encode_to-none a_body g1 g2 body law second in
      let (sends, waits) = end_write-none g2 law (flushes g2.buf) in
      let same : (end_write gob w g2 none).0 ≡ g' = ap (λ r. r.0) last in
      let alone : stream g ≡ w.sent g.buf =
        ap (λ t. w.sent g.buf ++ t) idle ∙ append-nil (w.sent g.buf) in
      (
        t1 ++ t2,
        sym (ap (λ (x : GobCodec gob w). w.sent x.buf) same)
            ∙ sends
            ∙ s2
            ∙ ap (λ t. t ++ t2) (s1 ∙ ap (λ t. t ++ t1) alone)
            ∙ append_assoc (w.sent g.buf) t1 t2,
        sym (ap (λ (x : GobCodec gob w). w.waiting x.buf) same) ∙ waits,
        λ r rest f.
            let f' : Follows g r (t1 ++ (t2 ++ rest)) = record {
              in_step = f.in_step;
              next = f.next ∙ append_assoc t1 t2 rest;
            } in
            let (r1, d1, f1) = decode_one a_header g g1 r h t1 (t2 ++ rest) f' e1 in
            let (r2, d2, f2) =
              decode_one a_body g1 g' r1 body t2 rest f1
                (e2 ∙ ap (λ (x : GobCodec gob w). (x.enc, t2, none)) same) in
            (
              r2,
              ap (λ a. let b = decode_from gob w a_body a.0 in (b.0, paired a.1 b.1)) d1
                  ∙ ap (λ b. (b.0, paired (some h) b.1)) d2,
              f2,
            ),
      )

  all_read :
      (ms : List (Header × B)) (g g' : GobCodec gob w)
      → ((s : w.State) → (w.flush s).1 ≡ none)
      → w.waiting g.buf ≡ []
      → write_all gob w g ms ≡ (g', none)
      → (text : GoString) × (w.sent g'.buf ≡ w.sent g.buf ++ text)
        × ((r : GobCodec gob w) → Follows g r text → read_all gob w (length ms) r ≡ ms)
  unfolding write_all read_all
  all_read [] g g' flushes idle e =
      ([], sym (ap (λ r. w.sent r.0.buf) e) ∙ sym (append-nil (w.sent g.buf)), λ r f. refl)
  all_read ((h, body) ∷ ms) g g' flushes idle e =
      let one = write gob w g h body in
      elim (Option-cases one.1) [
        | inr (err, failed) ↦ absurd (
            some-none _
              (ap (λ r. r.1) (sym (ap (λ f. go_on f one.0 (write_all gob w one.0 ms)) failed) ∙ e)))
        | inl fine ↦
            let rest = sym (ap (λ f. go_on f one.0 (write_all gob w one.0 ms)) fine) ∙ e in
            let (t1, sends, waits, reads) =
              write_read g one.0 h body flushes idle (ap (λ f. (one.0, f)) fine) in
            let (t2, more, others) = all_read ms one.0 g' flushes waits rest in
            (
              t1 ++ t2,
              more ∙ ap (λ t. t ++ t2) sends ∙ append_assoc (w.sent g.buf) t1 t2,
              λ r f.
                  let (r', found, f') = reads r t2 f in
                  ap (λ x. kept x.1 (read_all gob w (length ms) x.0)) found
                  ∙ ap (λ l. (h, body) ∷ l) (others r' f'),
            )
      ]

  -- Messages that are written without an error by a new codec, over a connection that is new and on
  -- which every flush succeeds, are read in the same order by a new codec that gets what was sent,
  -- where a decoder in step with its encoder reads what that one wrote.
  pub read_all-write_all :
      (ms : List (Header × B)) (conn other : w.State) (incoming : GoString) (g' : GobCodec gob w)
      → ((s : w.State) → (w.flush s).1 ≡ none)
      → w.sent conn ≡ []
      → w.waiting conn ≡ []
      → write_all gob w (new_gob_codec gob w conn incoming) ms ≡ (g', none)
      → read_all gob w (length ms) (new_gob_codec gob w other (w.sent g'.buf)) ≡ ms
  unfolding new_gob_codec
  read_all-write_all ms conn other incoming g' flushes fresh idle e =
      let (text, sends, reads) =
        all_read ms (new_gob_codec gob w conn incoming) g' flushes idle e in
      reads _ (record { in_step = good.new-InStep; next = sends ∙ ap (λ t. t ++ text) fresh })
