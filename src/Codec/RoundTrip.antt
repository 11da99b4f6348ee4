-- ===== src/Codec/RoundTrip.antt =====
-- `TLVPack.Pack` and `TLVPack.Decode` of knet/datapack.go undo each other.
use kinz.Base.{
  ℕ, ◌≡◌, refl, ap, subst, sym, ◌∙◌, List, [], ◌∷◌, ◌++◌, map, append_assoc, All, All-behind,
  Option, none, some,
}
use mathlib.Core.Path.{ap₂}
use kinz.Codec.Bytes.{IsByte}
use kinz.Codec.{clone, Message, TlvPack, incomplete, DecodeError, next_frame, Decoded, decode, pack}
use kinz.Codec.Framing.{
  IsPackable, received, wire, next_frame-pack, next_frame-repack, next_frame-wire,
}
use kinz.Codec.Stream.{
  Decodes, stop, fail, more, Decodes-decode, decode-Decodes, wires, Decodes-Keeps,
}

-- A sender's stream: the messages packed one behind the other.
abbrev pub pack_all : TlvPack → List Message → List ℕ
pack_all t [] = []
pack_all t (m ∷ ms) = pack t m ++ pack_all t ms

pack_all-Decodes :
    (t : TlvPack) (ms : List Message) (rest : List ℕ)
    → All (IsPackable t) ms
    → next_frame (record t { input = rest }) ≡ incomplete
    → Decodes
        (record t { input = pack_all t ms ++ rest })
        (map (received t) ms)
        none
        (record t { input = rest })
pack_all-Decodes t [] rest h e = stop e
pack_all-Decodes t (m ∷ ms) rest h e =
    rw (append_assoc (pack t m) (pack_all t ms) rest)
      (more (next_frame-pack t m (pack_all t ms ++ rest) h.0) (pack_all-Decodes t ms rest h.1 e))

-- A clone of the sender's codec, which starts with an empty buffer, returns exactly the messages
-- that were packed, in order and with the header that was on the wire, and keeps what follows
-- them, for any packable messages and any incomplete rest, however large the stream is.
pub decode-pack_all :
    (t : TlvPack) (ms : List Message) (rest : List ℕ)
    → All (IsPackable t) ms
    → next_frame (record t { input = rest }) ≡ incomplete
    → decode (clone t) (pack_all t ms ++ rest)
      ≡ some
          (record { msgs = map (received t) ms; error = none; codec = record t { input = rest } })
unfolding clone
decode-pack_all t ms rest h e =
    Decodes-decode (clone t) (pack_all t ms ++ rest) (pack_all-Decodes t ms rest h e)

-- The buffer plays no part in packing.
pack_all-input :
    (t : TlvPack) (rest : List ℕ) (ms : List Message)
    → pack_all (record t { input = rest }) ms ≡ pack_all t ms
unfolding pack
pack_all-input t rest [] = refl
pack_all-input t rest (m ∷ ms) = ap (◌++◌ (pack t m)) (pack_all-input t rest ms)

Decodes-pack_all :
    {t u : TlvPack} {ms : List Message} {e : Option DecodeError}
    → All IsByte t.input
    → Decodes t ms e u
    → pack_all t ms ≡ wires ms
Decodes-pack_all bytes (stop h) = refl
Decodes-pack_all bytes (fail h) = refl
Decodes-pack_all {t} bytes (more {m = m} {rest = rest} {ms = ms} h d) =
    ap₂ ◌++◌ (next_frame-repack t bytes h) (
      sym (pack_all-input t rest ms)
      ∙ Decodes-pack_all
          (All-behind IsByte (wire m) rest (subst (All IsByte) (next_frame-wire t h) bytes)) d)

-- Packing what `Decode` returned gives back the bytes of the stream, up to those that the buffer
-- still holds: the wire format has no two spellings of a message.
pub pack_all-decode :
    (t : TlvPack) (buff : List ℕ) (d : Decoded)
    → All IsByte (t.input ++ buff)
    → decode t buff ≡ some d
    → pack_all t d.msgs ++ d.codec.input ≡ t.input ++ buff
pack_all-decode t buff d bytes e =
    let run = decode-Decodes t buff e in
    ap (λ (w : List ℕ). w ++ d.codec.input)
      (sym (pack_all-input t (t.input ++ buff) d.msgs) ∙ Decodes-pack_all bytes run)
    ∙ (Decodes-Keeps run).bytes
