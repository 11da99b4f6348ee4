-- ===== src/Codec/Stream.antt =====
-- The loop of `TLVPack.Decode` in knet/datapack.go over a whole stream: it ends, keeps every byte,
-- and does not depend on how the stream is cut into reads.
use kinz.Base.{
  ℕ, zero, suc, ◌<◌, ◌≡◌, refl, sym, subst, ◌∙◌, ◌⊎◌, inl, inr, List, [], ◌∷◌, ◌++◌, append_assoc,
  append-nil, length, All, arith, Option, none, some, length-append, some-inj,
}
use kinz.Codec.{
  Message, TlvPack, Frame, incomplete, refused, complete, DecodeError, next_frame, push_bytes,
  Decoded, decode_loop, decode,
}
use kinz.Codec.Framing.{
  wire, IsDecoded, next_frame-wire, next_frame-IsDecoded, next_frame-push, next_frame-push_refused,
}

-- Decoding as a relation: the buffer holds these messages, and then a frame that is incomplete or
-- over the limit.
pub data Decodes : TlvPack → List Message → Option DecodeError → TlvPack → Type 0 where
  stop : {t : TlvPack} → next_frame t ≡ incomplete → Decodes t [] none t
  fail : {t : TlvPack} {e : DecodeError} → next_frame t ≡ refused e → Decodes t [] (some e) t
  more :
      {t u : TlvPack} {m : Message} {rest : List ℕ} {ms : List Message} {e : Option DecodeError}
      → next_frame t ≡ complete m rest
      → Decodes (record t { input = rest }) ms e u
      → Decodes t (m ∷ ms) e u

Frame-cases :
    (f : Frame)
    → (f ≡ incomplete)
      ⊎ ((e : DecodeError) × (f ≡ refused e))
      ⊎ ((m : Message) × (rest : List ℕ) × (f ≡ complete m rest))
Frame-cases incomplete = inl refl
Frame-cases (refused e) = inr (inl (e, refl))
Frame-cases (complete m rest) = inr (inr (m, rest, refl))

rest_shorter :
    (t : TlvPack) {m : Message} {rest : List ℕ}
    → next_frame t ≡ complete m rest
    → length rest < length t.input
rest_shorter t {m} {rest} e = rw (next_frame-wire t e) (
    omega (
      arith,
      length-append (wire m) rest,
      length-append m.raw m.payload,
      (next_frame-IsDecoded t e).header,
    ))

-- With more fuel than bytes the loop reaches an end.
Decodes-total :
    (fuel : ℕ) (t : TlvPack)
    → length t.input < fuel
    → (ms : List Message) × (e : Option DecodeError) × (u : TlvPack) × Decodes t ms e u
Decodes-total zero t h = absurd (omega arith)
Decodes-total (suc fuel) t h = elim (Frame-cases (next_frame t)) [
  | inl e ↦ ([], none, t, stop e)
  | inr (inl (x, e)) ↦ ([], some x, t, fail e)
  | inr (inr (m, rest, e)) ↦
      let (ms, x, u, d) =
        Decodes-total fuel (record t { input = rest }) (omega (arith, rest_shorter t e)) in
      (m ∷ ms, x, u, more e d)
]

-- The loop computes the relation.
Decodes-decode_loop :
    {t u : TlvPack} {ms : List Message} {e : Option DecodeError}
    → Decodes t ms e u
    → (fuel : ℕ) (acc : List Message) → length t.input < fuel
    → decode_loop fuel t acc ≡ some (record { msgs = acc ++ ms; error = e; codec = u })
unfolding decode_loop
Decodes-decode_loop d zero acc h = absurd (omega arith)
Decodes-decode_loop (stop e) (suc fuel) acc h = rw (e, decode_loop, append-nil)
Decodes-decode_loop (fail e) (suc fuel) acc h = rw (e, decode_loop, append-nil)
Decodes-decode_loop {t} (more {m = m} {rest = rest} {ms = ms} e d) (suc fuel) acc h = rw (
  e,
  decode_loop,
  Decodes-decode_loop d fuel (acc ++ (m ∷ [])) (omega (arith, rest_shorter t e)),
  append_assoc acc (m ∷ []) ms,
)

pub Decodes-decode :
    (t : TlvPack) (buff : List ℕ) {u : TlvPack} {ms : List Message} {e : Option DecodeError}
    → Decodes (push_bytes t buff) ms e u
    → decode t buff ≡ some (record { msgs = ms; error = e; codec = u })
unfolding decode
Decodes-decode t buff d =
    Decodes-decode_loop d (suc (length (push_bytes t buff).input)) [] (omega arith)

pub decode-Decodes :
    (t : TlvPack) (buff : List ℕ) {d : Decoded}
    → decode t buff ≡ some d
    → Decodes (push_bytes t buff) d.msgs d.error d.codec
decode-Decodes t buff {d} h =
    let (ms, e, u, run) = Decodes-total _ (push_bytes t buff) le_refl_suc in
    subst (λ (d : Decoded). Decodes (push_bytes t buff) d.msgs d.error d.codec)
      (some-inj (sym (Decodes-decode t buff run) ∙ h)) run
  where
    le_refl_suc : length (push_bytes t buff).input < suc (length (push_bytes t buff).input)
    le_refl_suc = omega arith

-- `Decode` returns on every input: its loop never runs out of fuel.
pub decode_total : (t : TlvPack) (buff : List ℕ) → (d : Decoded) × (decode t buff ≡ some d)
decode_total t buff =
    let (ms, e, u, run) =
      Decodes-total (suc (length (push_bytes t buff).input)) (push_bytes t buff) (omega arith) in
    (record { msgs = ms; error = e; codec = u }, Decodes-decode t buff run)

abbrev pub wires : List Message → List ℕ
wires [] = []
wires (m ∷ ms) = wire m ++ wires ms

-- What a run keeps: the settings, every byte, and the limits of each message.
pub record Keeps (t : TlvPack) (ms : List Message) (u : TlvPack) : Type 0 where
  pub bytes : wires ms ++ u.input ≡ t.input
  pub each : All (IsDecoded t.max_packet_size) ms
  pub order_lem : u.order ≡ t.order
  pub limit_lem : u.max_packet_size ≡ t.max_packet_size

pub Decodes-Keeps :
    {t u : TlvPack} {ms : List Message} {e : Option DecodeError} → Decodes t ms e u → Keeps t ms u
Decodes-Keeps (stop h) = record { bytes = refl; each = tt; order_lem = refl; limit_lem = refl }
Decodes-Keeps (fail h) = record { bytes = refl; each = tt; order_lem = refl; limit_lem = refl }
Decodes-Keeps {t} {u} (more {m = m} {rest = rest} {ms = ms} h d) =
    let k = Decodes-Keeps d in
    record {
      bytes = rw (append_assoc (wire m) (wires ms) u.input, k.bytes) (sym (next_frame-wire t h));
      each = (next_frame-IsDecoded t h, k.each);
      order_lem = k.order_lem;
      limit_lem = k.limit_lem;
    }

-- A run that stopped for want of bytes goes on when they come.
pub Decodes-push :
    {t u v : TlvPack} {ms ns : List Message} {e : Option DecodeError} (bytes : List ℕ)
    → Decodes t ms none u
    → Decodes (push_bytes u bytes) ns e v
    → Decodes (push_bytes t bytes) (ms ++ ns) e v
Decodes-push bytes (stop h) next = next
Decodes-push {t} bytes (more h d) next =
    more (next_frame-push t bytes h) (Decodes-push bytes d next)

pub Decodes-push_error :
    {t u : TlvPack} {ms : List Message} {e : DecodeError} (bytes : List ℕ)
    → Decodes t ms (some e) u
    → Decodes (push_bytes t bytes) ms (some e) (push_bytes u bytes)
Decodes-push_error {t} bytes (fail h) = fail (next_frame-push_refused t bytes h)
Decodes-push_error {t} bytes (more h d) =
    more (next_frame-push t bytes h) (Decodes-push_error bytes d)

pub Decodes-refused :
    {t u : TlvPack} {ms : List Message} {e : DecodeError}
    → Decodes t ms (some e) u
    → next_frame u ≡ refused e
Decodes-refused (fail h) = h
Decodes-refused (more h d) = Decodes-refused d

pub next_frame-empty : (t : TlvPack) → next_frame (record t { input = [] }) ≡ incomplete
unfolding next_frame
next_frame-empty t = refl

-- A codec that has not refused anything waits for the rest of a frame.
pub Decodes-waiting :
    {t u : TlvPack} {ms : List Message} → Decodes t ms none u → next_frame u ≡ incomplete
Decodes-waiting d = go d refl
  where
    go :
        {t u : TlvPack} {ms : List Message} {e : Option DecodeError}
        → Decodes t ms e u
        → e ≡ none
        → next_frame u ≡ incomplete
    go (stop h) q = h
    go (fail h) q = cc
    go (more h d) q = go d q
