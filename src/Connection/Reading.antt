-- ===== src/Connection/Reading.antt =====
-- The reader's loop of knet/connection.go, over everything that the peer sends.
use kinz.Base.{
  ℕ, ◌≡◌, refl, ap, subst, sym, ◌∙◌, Bool, true, false, List, [], ◌∷◌, ◌++◌, append_assoc,
  append-nil, Option-cases, none, some, some-inj, inl, inr,
}
use kinz.Codec.{Message, TlvPack, DecodeError, Decoded, next_frame, incomplete, push_bytes, decode}
use kinz.Codec.Stream.{Decodes, stop, Decodes-decode, decode-Decodes, decode_total, Decodes-waiting}
use kinz.Codec.Cuts.{decode-append, decode-append_refused}
use kinz.Connection.{read_chunks}
use kinz.Connection.Writing.{on_wire}

decode_nothing :
    (t : TlvPack)
    → next_frame t ≡ incomplete
    → decode t [] ≡ some (record { msgs = []; error = none; codec = t })
decode_nothing t h = Decodes-decode t [] (rw append-nil (stop h))

-- What the reader does with one more chunk.
pub read_refused :
    (t : TlvPack) (b : List ℕ) (bs : List (List ℕ)) (d : Decoded) (e : DecodeError)
    → decode t b ≡ some d
    → d.error ≡ some e
    → read_chunks t (b ∷ bs) ≡ some ([], true)
unfolding read_chunks
read_refused t b bs d e h err = rw (h, read_chunks, err)

pub read_accepted :
    (t : TlvPack) (b : List ℕ) (bs : List (List ℕ)) (d : Decoded) (msgs : List Message)
    (closing : Bool)
    → decode t b ≡ some d
    → d.error ≡ none
    → read_chunks d.codec bs ≡ some (msgs, closing)
    → read_chunks t (b ∷ bs) ≡ some (d.msgs ++ msgs, closing)
unfolding read_chunks
read_accepted t b bs d msgs closing h ok r = rw (h, read_chunks, ok, r)

-- What the reader's loop does, given what decoding the whole stream at once gives.
record ReadsAs (t : TlvPack) (bufs : List (List ℕ)) (d : Decoded) : Type 0 where
  accepted : d.error ≡ none → read_chunks t bufs ≡ some (d.msgs, false)
  refused :
      (e : DecodeError)
      → d.error ≡ some e
      → (msgs : List Message) × (dropped : List Message) × (read_chunks t bufs ≡ some (msgs, true))
        × (d.msgs ≡ msgs ++ dropped)

read_chunks_lem :
    (t : TlvPack) (bufs : List (List ℕ)) (d : Decoded)
    → next_frame t ≡ incomplete
    → decode t (on_wire bufs) ≡ some d
    → ReadsAs t bufs d
unfolding read_chunks
read_chunks_lem t [] d w h =
    let e = some-inj (sym h ∙ decode_nothing t w) in
    rw e (record { accepted = λ _. refl; refused = λ x z. cc })
read_chunks_lem t (b ∷ bs) d w h =
    let (d1, h1) = decode_total t b in
    elim (Option-cases d1.error) [
      | inl ok ↦
          let (d2, h2) = decode_total d1.codec (on_wire bs) in
          let whole = some-inj (sym h ∙ decode-append t b (on_wire bs) d1 d2 h1 ok h2) in
          let run =
            subst (λ e. Decodes (push_bytes t b) d1.msgs e d1.codec) ok (decode-Decodes t b h1) in
          let rest = read_chunks_lem d1.codec bs d2 (Decodes-waiting run) h2 in
          rw whole (record {
            accepted = λ z. read_accepted t b bs d1 d2.msgs false h1 ok (rest.accepted z);
            refused = λ e z.
                let (msgs, dropped, r, p) = rest.refused e z in
                (
                  d1.msgs ++ msgs,
                  dropped,
                  read_accepted t b bs d1 msgs true h1 ok r,
                  ap (◌++◌ d1.msgs) p ∙ sym (append_assoc d1.msgs msgs dropped),
                );
          })
      | inr (e1, err) ↦
          let whole = some-inj (sym h ∙ decode-append_refused t b (on_wire bs) d1 e1 h1 err) in
          rw whole (record {
            accepted = λ z. cc;
            refused = λ e z. ([], d1.msgs, read_refused t b bs d1 e1 h1 err, refl);
          })
    ]

-- The reader hands over exactly the messages of the stream, in order, however the reads cut it, as
-- long as nothing in the stream is over the limit.
pub read_chunks_accepted :
    (t : TlvPack) (bufs : List (List ℕ)) (d : Decoded)
    → next_frame t ≡ incomplete
    → decode t (on_wire bufs) ≡ some d
    → d.error ≡ none
    → read_chunks t bufs ≡ some (d.msgs, false)
read_chunks_accepted t bufs d w h ok = (read_chunks_lem t bufs d w h).accepted ok

-- If a frame of the stream is over the limit, then the reader closes the connection, and what it
-- hands over is a first part of the messages in front of that frame: which of them depends on the
-- cut, since those that came in the same read as the frame are dropped.
pub read_chunks_refused :
    (t : TlvPack) (bufs : List (List ℕ)) (d : Decoded) (e : DecodeError)
    → next_frame t ≡ incomplete
    → decode t (on_wire bufs) ≡ some d
    → d.error ≡ some e
    → (msgs : List Message) × (dropped : List Message) × (read_chunks t bufs ≡ some (msgs, true))
      × (d.msgs ≡ msgs ++ dropped)
read_chunks_refused t bufs d e w h err = (read_chunks_lem t bufs d w h).refused e err
