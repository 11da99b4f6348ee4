-- ===== src/Codec/Cuts.antt =====
-- `TLVPack.Decode` of knet/datapack.go, called again and again on what the reads of a TCP stream
-- return: sticky packets and half packets.
use kinz.Base.{ℕ, ◌≡◌, ap, List, [], ◌++◌, append_assoc, none, some}
use kinz.Codec.{TlvPack, DecodeError, Decoded, push_bytes, decode}
use kinz.Codec.Framing.{next_frame-push_refused}
use kinz.Codec.Stream.{
  Decodes, fail, Decodes-refused, Decodes-decode, decode-Decodes, decode_total, Decodes-push,
  Decodes-push_error, Keeps, Decodes-Keeps,
}

push_bytes-append :
    (t : TlvPack) (a b : List ℕ) → push_bytes (push_bytes t a) b ≡ push_bytes t (a ++ b)
push_bytes-append t a b = ap (λ (i : List ℕ). record t { input = i }) (append_assoc t.input a b)

-- `Decode` returns on every input. The bytes of the messages it returns, in order, and what stays
-- in the buffer are the bytes that it had and got; every message is as long as its header says and
-- within the limit; and the settings stay.
pub decode-Keeps :
    (t : TlvPack) (buff : List ℕ)
    → (d : Decoded) × (decode t buff ≡ some d) × Keeps (push_bytes t buff) d.msgs d.codec
decode-Keeps t buff =
    let (d, e) = decode_total t buff in (d, e, Decodes-Keeps (decode-Decodes t buff e))

-- A stream may be cut anywhere: if `Decode` accepts the first part, then decoding the second part
-- with the codec that is left gives what decoding both parts at once gives, messages, error and
-- buffer, the messages of the two parts joined.
pub decode-append :
    (t : TlvPack) (a b : List ℕ) (d f : Decoded)
    → decode t a ≡ some d
    → d.error ≡ none
    → decode d.codec b ≡ some f
    → decode t (a ++ b)
      ≡ some (record { msgs = d.msgs ++ f.msgs; error = f.error; codec = f.codec })
decode-append t a b d f da ok db = Decodes-decode t (a ++ b) whole
  where
    first : Decodes (push_bytes t a) d.msgs none d.codec
    first = rw (← ok) (decode-Decodes t a da)

    whole : Decodes (push_bytes t (a ++ b)) (d.msgs ++ f.msgs) f.error f.codec
    whole = rw (← push_bytes-append t a b) (Decodes-push b first (decode-Decodes d.codec b db))

-- After an error the codec is stuck: the frame over the limit stays at the front of the buffer, so
-- that every later `Decode` returns the same error and no message.
pub decode_stays_refused :
    (t : TlvPack) (a b : List ℕ) (d : Decoded) (e : DecodeError)
    → decode t a ≡ some d
    → d.error ≡ some e
    → decode d.codec b ≡ some (record { msgs = []; error = some e; codec = push_bytes d.codec b })
decode_stays_refused t a b d e da err =
    Decodes-decode d.codec b (fail (next_frame-push_refused d.codec b (Decodes-refused run)))
  where
    run : Decodes (push_bytes t a) d.msgs (some e) d.codec
    run = rw (← err) (decode-Decodes t a da)

-- An error does not depend on the cut either: what follows a frame over the limit changes neither
-- the messages before it nor the error.
pub decode-append_refused :
    (t : TlvPack) (a b : List ℕ) (d : Decoded) (e : DecodeError)
    → decode t a ≡ some d
    → d.error ≡ some e
    → decode t (a ++ b)
      ≡ some (record { msgs = d.msgs; error = some e; codec = push_bytes d.codec b })
decode-append_refused t a b d e da err =
    Decodes-decode t (a ++ b) (rw (← push_bytes-append t a b) (Decodes-push_error b run))
  where
    run : Decodes (push_bytes t a) d.msgs (some e) d.codec
    run = rw (← err) (decode-Decodes t a da)
