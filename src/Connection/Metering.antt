-- ===== src/Connection/Metering.antt =====
-- What the reader of knet/connection.go counts.
use kinz.Base.{
  ℕ, suc, ◌+◌, ◌≡◌, refl, sym, ap, ap₂, ◌∙◌, Bool, true, false, List, [], ◌∷◌, ◌++◌, append-nil,
  append_assoc, Option, Option-cases, none, some, inl, inr, length, length-append, some-inj, arith,
}
use kinz.Codec.{Message, TlvPack, Decoded, decode, next_frame, incomplete}
use kinz.Connection.{read_chunks}
use kinz.Connection.Writing.{on_wire}
use kinz.Connection.Reading.{read_accepted, read_refused, read_chunks_accepted}
use kinz.Codec.Stream.{decode_total}

-- The counters of connMetrics that the reader uses.
pub record ReadMetrics : Type 0 where
  pub bytes_in : ℕ
  pub msgs_recv : ℕ

-- What the reader has done: the messages that it handed over, and whether it closed the connection
-- for a decoding error.
pub record ReadState : Type 0 where
  pub handed : List Message
  pub metrics : Option ReadMetrics

abbrev pub count_bytes : ℕ → Option ReadMetrics → Option ReadMetrics
count_bytes n none = none
count_bytes n (some m) = some (record m { bytes_in = m.bytes_in + n })

abbrev pub count_msg : Option ReadMetrics → Option ReadMetrics
count_msg none = none
count_msg (some m) = some (record m { msgs_recv = m.msgs_recv + 1 })

-- The inner loop, over the messages of one read.
abbrev pub hand_over : List Message → ReadState → ReadState
hand_over [] s = s
hand_over (msg ∷ msgs) s =
    hand_over msgs (record { handed = s.handed ++ (msg ∷ []); metrics = count_msg s.metrics })

-- The loop of `startReader`, given what the reads return; the outer `none` is that of `decode`.
unfoldable pub read_loop : TlvPack → List (List ℕ) → ReadState → Option (ReadState × Bool)
read_loop codec [] s = some (s, false)
read_loop codec (buf ∷ bufs) s =
    let counted = record s { metrics = count_bytes (length buf) s.metrics } in
    elim (decode codec buf) [
      | none ↦ none
      | some d ↦ elim d.error [
        | some derr ↦ some (counted, true)
        | none ↦ read_loop d.codec bufs (hand_over d.msgs counted)
      ]
    ]

-- Counters that have counted some bytes and some messages more.
abbrev pub plus : ℕ → ℕ → Option ReadMetrics → Option ReadMetrics
plus n k none = none
plus n k (some m) = some (record { bytes_in = m.bytes_in + n; msgs_recv = m.msgs_recv + k })

plus-count_msg : (n k : ℕ) (o : Option ReadMetrics) → plus n k (count_msg o) ≡ plus n (suc k) o
plus-count_msg n k none = refl
plus-count_msg n k (some m) =
    ap (λ (i : ℕ). some (record { bytes_in = m.bytes_in + n; msgs_recv = i })) (omega arith)

plus-zero : (o : Option ReadMetrics) → o ≡ plus 0 0 o
plus-zero none = refl
plus-zero (some m) =
    ap₂ (λ (i j : ℕ). some (record { bytes_in = i; msgs_recv = j })) (omega arith) (omega arith)

plus-plus : (n k i j : ℕ) (o : Option ReadMetrics) → plus n k (plus i j o) ≡ plus (i + n) (j + k) o
plus-plus n k i j none = refl
plus-plus n k i j (some m) =
    ap₂ (λ (a b : ℕ). some (record { bytes_in = a; msgs_recv = b })) (omega arith) (omega arith)

count_bytes-plus : (n : ℕ) (o : Option ReadMetrics) → count_bytes n o ≡ plus n 0 o
count_bytes-plus n none = refl
count_bytes-plus n (some m) =
    ap (λ (j : ℕ). some (record { bytes_in = m.bytes_in + n; msgs_recv = j })) (omega arith)

-- A reader that has handed over some messages more, and counted.
abbrev pub further_on : List Message → ℕ → ReadState → ReadState
further_on msgs n s = record { handed = s.handed ++ msgs; metrics = plus n (length msgs) s.metrics }

hand_over-further : (msgs : List Message) (s : ReadState) → hand_over msgs s ≡ further_on msgs 0 s
hand_over-further [] s =
    ap₂ (λ h o. record { handed = h; metrics = o }) (sym (append-nil s.handed))
      (plus-zero s.metrics)
hand_over-further (msg ∷ msgs) s =
    hand_over-further msgs _
    ∙ ap₂ (λ h o. record { handed = h; metrics = o }) (append_assoc s.handed (msg ∷ []) msgs)
        (plus-count_msg 0 (length msgs) s.metrics)

-- One turn of the loop that hands over messages, and the rest.
turn :
    (s : ReadState) (buf : List ℕ) (msgs later : List Message) (n : ℕ)
    → further_on later n
        (hand_over msgs (record s { metrics = count_bytes (length buf) s.metrics }))
      ≡ further_on (msgs ++ later) (length buf + n) s
turn s buf msgs later n =
    let m = s.metrics in
    let size = length buf in
    ap (further_on later n) (hand_over-further msgs _)
    ∙ ap₂ (λ h o. record { handed = h; metrics = o }) (append_assoc s.handed msgs later)
        (plus-plus n (length later) 0 (length msgs) (count_bytes size m)
          ∙ ap (plus (0 + n) (length msgs + length later)) (count_bytes-plus size m)
          ∙ plus-plus (0 + n) (length msgs + length later) size 0 m
          ∙ ap₂ (λ (a b : ℕ). plus a b m) (omega arith) (omega (arith, length-append msgs later)))

loop_more :
    (t : TlvPack) (buf : List ℕ) (bufs : List (List ℕ)) (d : Decoded) (s : ReadState)
    → decode t buf ≡ some d
    → d.error ≡ none
    → read_loop t (buf ∷ bufs) s
      ≡ read_loop d.codec bufs
          (hand_over d.msgs (record s { metrics = count_bytes (length buf) s.metrics }))
unfolding read_loop
loop_more t buf bufs d s h ok = rw (h, read_loop, ok) refl

read_stuck :
    (t : TlvPack) (buf : List ℕ) (bufs : List (List ℕ)) (d : Decoded)
    → decode t buf ≡ some d
    → d.error ≡ none
    → read_chunks d.codec bufs ≡ none
    → read_chunks t (buf ∷ bufs) ≡ none
unfolding read_chunks
read_stuck t buf bufs d h ok r = rw (h, read_chunks, ok, r) refl

not_closing :
    (o : Option (List Message × Bool)) {a b : List Message}
    → o ≡ some (a, true)
    → o ≡ some (b, false)
    → ⊥
not_closing o e f = true_false (ap (λ p. p.1) (some-inj (sym e ∙ f)))
  where
    true_false : true ≡ false → ⊥
    true_false h = cc

not_stuck : (o : Option (List Message × Bool)) {b : List Message × Bool} → o ≡ none → o ≡ some b → ⊥
not_stuck o e f = cc

read_loop-chunks :
    (bufs : List (List ℕ)) (codec : TlvPack) (s : ReadState) (msgs : List Message)
    → read_chunks codec bufs ≡ some (msgs, false)
    → read_loop codec bufs s ≡ some (further_on msgs (length (on_wire bufs)) s, false)
unfolding read_chunks read_loop
read_loop-chunks [] codec s msgs e =
    let none_read : [] ≡ msgs = ap (λ p. p.0) (some-inj e) in
    ap (λ (t : ReadState). some (t, false))
      (ap₂ (λ h o. record { handed = h; metrics = o }) (sym (append-nil s.handed))
          (plus-zero s.metrics)
        ∙ ap (λ (ms : List Message). further_on ms 0 s) none_read)
read_loop-chunks (buf ∷ bufs) codec s msgs e =
    let (d, h) = decode_total codec buf in
    elim (Option-cases d.error) [
      | inr (x, err) ↦ absurd (not_closing _ (read_refused codec buf bufs d x h err) e)
      | inl ok ↦ elim (Option-cases (read_chunks d.codec bufs)) [
        | inl r ↦ absurd (not_stuck _ (read_stuck codec buf bufs d h ok r) e)
        | inr ((later, closing), r) ↦
            let whole = some-inj (sym (read_accepted codec buf bufs d later closing h ok r) ∙ e) in
            let open_still : closing ≡ false = ap (λ p. p.1) whole in
            let counted =
              hand_over d.msgs (record s { metrics = count_bytes (length buf) s.metrics }) in
            loop_more codec buf bufs d s h ok
            ∙ read_loop-chunks bufs d.codec counted later
                (r ∙ ap (λ (b : Bool). some (later, b)) open_still)
            ∙ ap (λ (t : ReadState). some (t, false))
                (turn s buf d.msgs later (length (on_wire bufs))
                  ∙ ap₂ (λ (ms : List Message) (n : ℕ). further_on ms n s) (ap (λ p. p.0) whole)
                      (sym (length-append buf (on_wire bufs))))
      ]
    ]

-- If decoding everything that the peer sends gives no error, then the reader hands over the messages
-- of the stream, and has counted all its bytes and each message once, however the reads cut it.
pub read_loop_lem :
    (t : TlvPack) (bufs : List (List ℕ)) (d : Decoded) (m : ReadMetrics)
    → next_frame t ≡ incomplete
    → decode t (on_wire bufs) ≡ some d
    → d.error ≡ none
    → read_loop t bufs (record { handed = []; metrics = some m })
      ≡ some (
        record {
          handed = d.msgs;
          metrics = some (record {
            bytes_in = m.bytes_in + length (on_wire bufs);
            msgs_recv = m.msgs_recv + length d.msgs;
          });
        },
        false,
      )
read_loop_lem t bufs d m w h ok =
    read_loop-chunks bufs t _ d.msgs (read_chunks_accepted t bufs d w h ok)
