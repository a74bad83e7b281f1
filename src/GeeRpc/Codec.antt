-- ===== src/GeeRpc/Codec.antt =====
-- geeRpc/codec/gob.go: the codec of messages. encoding/gob and bufio.Writer are parameters.
pub mod Ends
pub mod Reads
mod Tests
use go_little_project.Base.{
  ◌≡◌, refl, Bool, false, List, [], ◌∷◌, ◌++◌, Option, none, some, GoString,
}
use go_little_project.GeeRpc.Client.{GoError, Header}

-- what is encoded or decoded
pub data Wanted : Type 0 where
  a_header : Wanted
  a_body : Wanted

abbrev pub Encoded : Type 0 → Wanted → Type 0
Encoded B a_header = Header
Encoded B a_body = B

-- encoding/gob: an encoder and a decoder remember the types that were sent. What an encoding writes
-- comes with its error; a decoding takes a part of what has arrived.
pub record Gob (B : Type 0) : Type 1 where
  pub Encoder : Type 0
  pub Decoder : Type 0
  pub new_encoder : Encoder
  pub new_decoder : Decoder
  pub encode : (k : Wanted) → Encoder → Encoded B k → Encoder × GoString × GoError
  pub decode : (k : Wanted) → Decoder → GoString → Decoder × GoString × Option (Encoded B k)

-- a decoder that has read all that the encoder wrote reads its next value, into a zero variable
pub record IsGob {B : Type 0} (gob : Gob B) : Type 1 where
  pub InStep : gob.Encoder → gob.Decoder → Type 0
  pub new-InStep : InStep gob.new_encoder gob.new_decoder
  pub decode-encode :
      (k : Wanted) (e e' : gob.Encoder) (d : gob.Decoder) (v : Encoded B k) (text rest : GoString)
      → InStep e d
      → gob.encode k e v ≡ (e', text, none)
      → (d' : gob.Decoder) × (gob.decode k d (text ++ rest) ≡ (d', rest, some v)) × InStep e' d'

-- bufio.Writer over a connection: what the connection has got, and what waits in the buffer
pub record BufWriter : Type 1 where
  pub State : Type 0
  pub write_to : State → GoString → State × GoError
  pub flush : State → State × GoError
  pub end_conn : State → State
  pub sent : State → GoString
  pub waiting : State → GoString
  pub is_open : State → Bool

-- no byte is lost or reordered while there is no error; after a flush nothing waits; only a close
-- ends the connection
pub record IsBuffered (w : BufWriter) : Type 0 where
  pub write-keeps :
      (s s' : w.State) (text : GoString)
      → w.write_to s text ≡ (s', none)
      → w.sent s' ++ w.waiting s' ≡ (w.sent s ++ w.waiting s) ++ text
  pub flush-sends :
      (s s' : w.State)
      → w.flush s ≡ (s', none)
      → (w.sent s' ≡ w.sent s ++ w.waiting s) × (w.waiting s' ≡ [])
  pub open-write : (s : w.State) (text : GoString) → w.is_open (w.write_to s text).0 ≡ w.is_open s
  pub open-flush : (s : w.State) → w.is_open (w.flush s).0 ≡ w.is_open s
  pub open-close : (s : w.State) → w.is_open (w.end_conn s) ≡ false

abbrev pub first_error : GoError → GoError → GoError
first_error (some err) other = some err
first_error none other = other

module _ {B : Type 0} (gob : Gob B) (w : BufWriter) where
  -- `incoming` is what has arrived for the decoder
  pub record GobCodec : Type 0 where
    pub buf : w.State
    pub enc : gob.Encoder
    pub dec : gob.Decoder
    pub incoming : GoString

  unfoldable pub new_gob_codec : w.State → GoString → GobCodec
  new_gob_codec conn incoming = record {
    buf = conn;
    enc = gob.new_encoder;
    dec = gob.new_decoder;
    incoming = incoming;
  }

  -- `g.dec.Decode`
  unfoldable pub decode_from : (k : Wanted) → GobCodec → GobCodec × Option (Encoded B k)
  decode_from k g =
      let (dec, rest, found) = gob.decode k g.dec g.incoming in
      (record g { dec = dec; incoming = rest }, found)

  unfoldable pub read_header : GobCodec → GobCodec × Option Header
  read_header g = decode_from a_header g

  unfoldable pub read_body : GobCodec → GobCodec × Option B
  read_body g = decode_from a_body g

  unfoldable pub close_codec : GobCodec → GobCodec
  close_codec g = record g { buf = w.end_conn g.buf }

  -- `g.enc.Encode`: an error of the encoding comes before one of the writer
  unfoldable pub encode_to : (k : Wanted) → GobCodec → Encoded B k → GobCodec × GoError
  encode_to k g v =
      let (enc, text, failed) = gob.encode k g.enc v in
      let (buf, unwritten) = w.write_to g.buf text in
      (record g { enc = enc; buf = buf }, first_error failed unwritten)

  -- the deferred function of `Write`
  unfoldable pub end_write : GobCodec → GoError → GobCodec × GoError
  end_write g err =
      let flushed : GobCodec = record g { buf = (w.flush g.buf).0 } in
      (elim err [ some e ↦ close_codec flushed | none ↦ flushed ], err)

  -- `Write` behind the encoding of the header
  abbrev pub write_body : GobCodec → GoError → B → GobCodec × GoError
  write_body g (some err) body = end_write g (some err)
  write_body g none body = let (full, failed) = encode_to a_body g body in end_write full failed

  unfoldable pub write : GobCodec → Header → B → GobCodec × GoError
  write g h body = let (headed, err) = encode_to a_header g h in write_body headed err body
