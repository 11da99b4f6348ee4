-- ===== src/Codec/Framing.antt =====
-- One turn of the loop of `TLVPack.Decode` in knet/datapack.go.
use kinz.Base.{
  ◌<◌, ◌⊎◌, inl, inr, append-nil, ℕ, zero, suc, ◌+◌, ◌≤◌, ◌≡◌, refl, ap, sym, ◌∙◌, true, false,
  List, [], ◌∷◌, ◌++◌, append_assoc, length, take, drop, All, arith, length-append, length-take,
  length-drop, take-append, take-add, All-drop, drop-append, take-append-drop, take-append_self,
  drop-append_self,
}
use kinz.Codec.{
  Message, TlvPack, incomplete, refused, complete, DecodeError, too_large_packet, exceeds,
  get_uint32, put_uint32, next_frame, push_bytes, pack,
}
use kinz.Codec.Bytes.{
  IsByte, IsUint32, put_uint32-get_uint32, length-put_uint32, get_uint32-put_uint32,
}

-- The bytes that a message took on the wire.
abbrev pub wire : Message → List ℕ
wire m = m.raw ++ m.payload

-- A whole frame stands at the front of the buffer, within the limit, and is read as `m`.
record Completes (t : TlvPack) (m : Message) (rest : List ℕ) : Type 0 where
  fits : 8 + m.data_len ≤ length t.input
  within : exceeds t.max_packet_size m.data_len ≡ false
  size_lem : m.data_len ≡ get_uint32 t.order (take 4 t.input)
  id_lem : m.id ≡ get_uint32 t.order (take 4 (drop 4 t.input))
  payload_lem : m.payload ≡ drop 8 (take (8 + m.data_len) t.input)
  raw_lem : m.raw ≡ take 8 t.input
  rest_lem : rest ≡ drop (8 + m.data_len) t.input

next_frame-Completes :
    (t : TlvPack) {m : Message} {rest : List ℕ}
    → next_frame t ≡ complete m rest
    → Completes t m rest
unfolding next_frame
next_frame-Completes t e = ground arith

Completes-next_frame :
    (t : TlvPack) {m : Message} {rest : List ℕ}
    → Completes t m rest
    → next_frame t ≡ complete m rest
unfolding next_frame
Completes-next_frame t c = ground arith

-- The header is over the limit.
record Refuses (t : TlvPack) (e : DecodeError) : Type 0 where
  header : 8 ≤ length t.input
  over : exceeds t.max_packet_size (get_uint32 t.order (take 4 t.input)) ≡ true
  error_lem : e ≡ too_large_packet (get_uint32 t.order (take 4 t.input)) t.max_packet_size

next_frame-Refuses : (t : TlvPack) {e : DecodeError} → next_frame t ≡ refused e → Refuses t e
unfolding next_frame
next_frame-Refuses t h = ground arith

Refuses-next_frame : (t : TlvPack) {e : DecodeError} → Refuses t e → next_frame t ≡ refused e
unfolding next_frame
Refuses-next_frame t r = ground arith

take-drop_split : (n k : ℕ) (xs : List ℕ) → n ≤ k → take k xs ≡ take n xs ++ drop n (take k xs)
take-drop_split zero k xs h = refl
take-drop_split (suc n) zero xs h = absurd (omega arith)
take-drop_split (suc n) (suc k) [] h = refl
take-drop_split (suc n) (suc k) (x ∷ xs) h = ap (◌∷◌ x) (take-drop_split n k xs (omega arith))

-- The frame and the rest make up the buffer.
pub next_frame-wire :
    (t : TlvPack) {m : Message} {rest : List ℕ}
    → next_frame t ≡ complete m rest
    → t.input ≡ wire m ++ rest
next_frame-wire t {m} {rest} e =
    let c = next_frame-Completes t e in
    rw
      (
        c.payload_lem,
        c.raw_lem,
        c.rest_lem,
        ← take-drop_split 8 (8 + m.data_len) t.input (omega arith),
      )
      (sym (take-append-drop (8 + m.data_len) t.input))

-- What a decoded message is known to satisfy.
pub record IsDecoded (max : ℕ) (m : Message) : Type 0 where
  pub header : length m.raw ≡ 8
  pub size : m.data_len ≡ length m.payload
  pub limit : exceeds max m.data_len ≡ false

pub next_frame-IsDecoded :
    (t : TlvPack) {m : Message} {rest : List ℕ}
    → next_frame t ≡ complete m rest
    → IsDecoded t.max_packet_size m
next_frame-IsDecoded t {m} e =
    let c = next_frame-Completes t e in
    record {
      header = rw c.raw_lem (omega (arith, c.fits, length-take 8 t.input));
      size = rw c.payload_lem (
          omega (
            arith,
            c.fits,
            length-drop 8 (take (8 + m.data_len) t.input),
            length-take (8 + m.data_len) t.input,
          ));
      limit = c.within;
    }

-- A frame that is there is found again when more bytes follow.
pub next_frame-push :
    (t : TlvPack) {m : Message} {rest : List ℕ} (more : List ℕ)
    → next_frame t ≡ complete m rest
    → next_frame (push_bytes t more) ≡ complete m (rest ++ more)
next_frame-push t {m} more e =
    let c = next_frame-Completes t e in
    Completes-next_frame (push_bytes t more) (record {
      fits = omega (arith, c.fits, length-append t.input more);
      within = c.within;
      size_lem = rw (take-append 4 t.input more (omega (arith, c.fits))) c.size_lem;
      id_lem =
          rw
            (
              drop-append 4 t.input more (omega (arith, c.fits)),
              take-append 4 (drop 4 t.input) more (omega (arith, c.fits, length-drop 4 t.input)),
            )
            c.id_lem;
      payload_lem = rw (take-append (8 + m.data_len) t.input more c.fits) c.payload_lem;
      raw_lem = rw (take-append 8 t.input more (omega (arith, c.fits))) c.raw_lem;
      rest_lem = rw (drop-append (8 + m.data_len) t.input more c.fits, c.rest_lem);
    })

pub next_frame-push_refused :
    (t : TlvPack) {e : DecodeError} (more : List ℕ)
    → next_frame t ≡ refused e
    → next_frame (push_bytes t more) ≡ refused e
next_frame-push_refused t more h =
    let r = next_frame-Refuses t h in
    Refuses-next_frame (push_bytes t more) (record {
      header = omega (arith, r.header, length-append t.input more);
      over = rw (take-append 4 t.input more (omega (arith, r.header))) r.over;
      error_lem = rw (take-append 4 t.input more (omega (arith, r.header))) r.error_lem;
    })

-- What a sender may pack so that a peer with the same settings accepts it.
pub record IsPackable (t : TlvPack) (m : Message) : Type 0 where
  pub size : m.data_len ≡ length m.payload
  pub limit : exceeds t.max_packet_size m.data_len ≡ false
  pub len_range : IsUint32 m.data_len
  pub id_range : IsUint32 m.id

abbrev pub header : TlvPack → Message → List ℕ
header t m = put_uint32 t.order m.data_len ++ put_uint32 t.order m.id

-- The message as the peer sees it: with the header that was on the wire.
abbrev pub received : TlvPack → Message → Message
received t m = record m { raw = header t m }

pub pack-eq : (t : TlvPack) (m : Message) → pack t m ≡ header t m ++ m.payload
unfolding pack
pack-eq t m = sym (append_assoc (put_uint32 t.order m.data_len) (put_uint32 t.order m.id) m.payload)

length-header : (t : TlvPack) (m : Message) → length (header t m) ≡ 8
length-header t m = omega (
  arith,
  length-append (put_uint32 t.order m.data_len) (put_uint32 t.order m.id),
  length-put_uint32 t.order m.data_len,
  length-put_uint32 t.order m.id,
)

module _ (t : TlvPack) (m : Message) (rest : List ℕ) where
  -- The first and the second four bytes of what `Pack` writes.
  packed_len : take 4 (pack t m ++ rest) ≡ put_uint32 t.order m.data_len
  unfolding pack
  packed_len = rw append_assoc (
      take-append_self (put_uint32 t.order m.data_len) _ 4
        (sym (length-put_uint32 t.order m.data_len)))

  packed_id : take 4 (drop 4 (pack t m ++ rest)) ≡ put_uint32 t.order m.id
  unfolding pack
  packed_id = rw (
    append_assoc,
    drop-append_self (put_uint32 t.order m.data_len) _ 4
        (sym (length-put_uint32 t.order m.data_len)),
    append_assoc,
    take-append_self (put_uint32 t.order m.id) _ 4 (sym (length-put_uint32 t.order m.id)),
  )

  packed_raw : take 8 (pack t m ++ rest) ≡ header t m
  packed_raw = rw (
    pack-eq t m,
    append_assoc (header t m) m.payload rest,
    take-append_self (header t m) (m.payload ++ rest) 8 (sym (length-header t m)),
  )

  length-pack : length (pack t m) ≡ 8 + length m.payload
  length-pack =
      rw (pack-eq t m) (omega (arith, length-append (header t m) m.payload, length-header t m))

-- `Decode` finds what `Pack` wrote, and stops at its end.
pub next_frame-pack :
    (t : TlvPack) (m : Message) (rest : List ℕ)
    → IsPackable t m
    → next_frame (record t { input = pack t m ++ rest }) ≡ complete (received t m) rest
next_frame-pack t m rest h = Completes-next_frame _ (record {
  fits = omega (arith, length-append (pack t m) rest, length-pack t m rest, h.size);
  within = h.limit;
  size_lem = rw (packed_len t m rest) (sym (get_uint32-put_uint32 t.order m.data_len h.len_range));
  id_lem = rw (packed_id t m rest) (sym (get_uint32-put_uint32 t.order m.id h.id_range));
  payload_lem = rw (
    take-append_self (pack t m) rest (8 + m.data_len) (omega (arith, length-pack t m rest, h.size)),
    pack-eq t m,
    drop-append_self (header t m) m.payload 8 (sym (length-header t m)),
  );
  raw_lem = sym (packed_raw t m rest);
  rest_lem = sym (
      drop-append_self (pack t m) rest (8 + m.data_len)
        (omega (arith, length-pack t m rest, h.size)));
})

lt_cases : (a b : ℕ) → (a < b) ⊎ (b ≤ a)
lt_cases a b = ground arith

-- A packet that breaks off before its end is not a frame yet.
pub next_frame-broken_off :
    (t : TlvPack) (m : Message) (part more : List ℕ)
    → IsPackable t m
    → pack t m ≡ part ++ more
    → 0 < length more
    → next_frame (record t { input = part }) ≡ incomplete
unfolding next_frame
next_frame-broken_off t m part more h e short =
    let size : length part + length more ≡ 8 + m.data_len =
      omega (arith, length-append part more, ap (length {A = ℕ}) e, length-pack t m [], h.size) in
    elim (lt_cases (length part) 8) [
      | inl below ↦ ground (arith, below)
      | inr enough ↦
          let head : take 4 part ≡ put_uint32 t.order m.data_len =
            sym (take-append 4 part more (omega (arith, enough)))
            ∙ ap (take 4) (sym e)
            ∙ ap (take 4) (sym (append-nil (pack t m)))
            ∙ packed_len t m [] in
          let len : get_uint32 t.order (take 4 part) ≡ m.data_len =
            ap (get_uint32 t.order) head ∙ get_uint32-put_uint32 t.order m.data_len h.len_range in
          ground (arith, len, h.limit, size, short, enough)
    ]

-- Packing a message that was decoded from bytes gives the bytes that it was decoded from.
pub next_frame-repack :
    (t : TlvPack) {m : Message} {rest : List ℕ}
    → All IsByte t.input
    → next_frame t ≡ complete m rest
    → pack t m ≡ wire m
next_frame-repack t {m} bytes e =
    let c = next_frame-Completes t e in
    pack-eq t m
    ∙ ap (λ (h : List ℕ). h ++ m.payload)
        (rw
          (
            c.size_lem,
            c.id_lem,
            c.raw_lem,
            put_uint32-get_uint32 t.order t.input bytes (omega (arith, c.fits)),
            put_uint32-get_uint32 t.order (drop 4 t.input) (All-drop IsByte 4 t.input bytes)
                (omega (arith, c.fits, length-drop 4 t.input)),
          )
          (sym (take-add 4 4 t.input)))
