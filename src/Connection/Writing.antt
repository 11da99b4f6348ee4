-- ===== src/Connection/Writing.antt =====
-- What the writer of knet/connection.go puts on the wire, and what the peer makes of it.
use kinz.Base.{
  ℕ, ◌≡◌, refl, ap, ap₂, sym, ◌∙◌, Bool, List, [], ◌∷◌, ◌++◌, ◌⊎◌, inl, inr, map, append_assoc,
  append-nil, All, none, some, arith,
}
use kinz.Codec.{Message, TlvPack, incomplete, next_frame, clone, pack, decode}
use kinz.Codec.Framing.{IsPackable, received, next_frame-broken_off}
use kinz.Codec.Stream.{next_frame-empty}
use kinz.Codec.RoundTrip.{pack_all, decode-pack_all}
use kinz.Connection.{Connection, new_connection, Reach}
use kinz.Connection.Queue.{Queued, Reach-Queued}

abbrev pub on_wire : List (List ℕ) → List ℕ
on_wire [] = []
on_wire (w ∷ ws) = w ++ on_wire ws

-- The messages behind a first part of their packets.
split_packets :
    (t : TlvPack) (ms : List Message) (ws rest : List (List ℕ))
    → map (pack t) ms ≡ ws ++ rest
    → All (IsPackable t) ms
    → (sent : List Message) × (later : List Message) × (ms ≡ sent ++ later)
      × (pack_all t sent ≡ on_wire ws)
      × All (IsPackable t) sent
      × (map (pack t) later ≡ rest)
      × All (IsPackable t) later
split_packets t ms [] rest e h = ([], ms, refl, refl, tt, e, h)
split_packets t [] (w ∷ ws) rest e h = cc
split_packets t (m ∷ ms) (w ∷ ws) rest e h =
    let (sent, later, p, q, k, l, a) = split_packets t ms ws rest (cc) h.1 in
    (m ∷ sent, later, ap (◌∷◌ m) p, ap₂ ◌++◌ (cc) q, (h.0, k), l, a)

pack_all_last :
    (t : TlvPack) (ms : List Message) (m : Message)
    → pack_all t (ms ++ (m ∷ [])) ≡ pack_all t ms ++ pack t m
pack_all_last t [] m = append-nil (pack t m)
pack_all_last t (k ∷ ms) m =
    ap (◌++◌ (pack t k)) (pack_all_last t ms m)
    ∙ sym (append_assoc (pack t k) (pack_all t ms) (pack t m))

All-last :
    (t : TlvPack) (ms : List Message) (m : Message)
    → All (IsPackable t) ms
    → IsPackable t m
    → All (IsPackable t) (ms ++ (m ∷ []))
All-last t [] m h k = (k, tt)
All-last t (n ∷ ms) m h k = (h.0, All-last t ms m h.1 k)

-- Everything that the writer has put on the wire.
abbrev pub stream : Connection → List ℕ
stream c = on_wire c.written ++ c.broken_off

-- What a peer makes of the bytes `bs`: the messages `sent`, and an incomplete rest.
pub record Received (t : TlvPack) (ms : List Message) (bs : List ℕ) (part : List ℕ) : Type 0 where
  pub sent : List Message
  pub later : List Message
  pub left : List ℕ
  pub split : ms ≡ sent ++ later
  pub bytes : bs ≡ pack_all t sent ++ left
  pub packable : All (IsPackable t) sent
  pub unfinished : next_frame (record t { input = left }) ≡ incomplete
  pub only_broken : (left ≡ []) ⊎ (left ≡ part)

whole :
    (t : TlvPack) (ms : List Message) (written rest : List (List ℕ))
    → map (pack t) ms ≡ written ++ rest
    → All (IsPackable t) ms
    → Received t ms (on_wire written ++ []) []
whole t ms written rest e h =
    let (sent, later, p, q, k, _, _) = split_packets t ms written rest e h in
    record {
      sent = sent;
      later = later;
      left = [];
      split = p;
      bytes = ap (λ (bs : List ℕ). bs ++ []) (sym q);
      packable = k;
      unfinished = next_frame-empty t;
      only_broken = inl refl;
    }

broken :
    (t : TlvPack) (ms : List Message) (written rest : List (List ℕ)) (wire part more : List ℕ)
    → map (pack t) ms ≡ written ++ (wire ∷ rest)
    → All (IsPackable t) ms
    → wire ≡ part ++ more
    → Received t ms (on_wire written ++ part) part
broken t ms written rest wire part more e h p =
    let (sent, later, split, q, k, l, a) = split_packets t ms written (wire ∷ rest) e h in
    by_next later l a more p sent split q k
  where
    by_next :
        (later : List Message)
        → map (pack t) later ≡ wire ∷ rest
        → All (IsPackable t) later
        → (more : List ℕ) → wire ≡ part ++ more
        → (sent : List Message) → ms ≡ sent ++ later
        → pack_all t sent ≡ on_wire written
        → All (IsPackable t) sent
        → Received t ms (on_wire written ++ part) part
    by_next [] l a more p sent split q k = cc
    by_next (m ∷ later) l a [] p sent split q k = record {
      sent = sent ++ (m ∷ []);
      later = later;
      left = [];
      split = split ∙ sym (append_assoc sent (m ∷ []) later);
      bytes =
          ap₂ ◌++◌ (sym q) (sym (append-nil part) ∙ sym p ∙ sym (cc))
          ∙ sym (pack_all_last t sent m)
          ∙ sym (append-nil (pack_all t (sent ++ (m ∷ []))));
      packable = All-last t sent m k a.0;
      unfinished = next_frame-empty t;
      only_broken = inl refl;
    }
    by_next (m ∷ later) l a (b ∷ more) p sent split q k = record {
      sent = sent;
      later = m ∷ later;
      left = part;
      split = split;
      bytes = ap (λ (bs : List ℕ). bs ++ part) (sym q);
      packable = k;
      unfinished = next_frame-broken_off t m part (b ∷ more) a.0 (cc) (omega arith);
      only_broken = inr refl;
    }

Queued-Received :
    (c : Connection) (t : TlvPack) (ms : List Message)
    → Queued c
    → c.accepted ≡ map (pack t) ms
    → All (IsPackable t) ms
    → Received t ms (stream c) c.broken_off
Queued-Received c t ms q e h = elim q.none_lost [
  | inl (l, b) ↦ rw b (whole t ms c.written _ (sym e ∙ q.order) h)
  | inr ((wire, rest, l, p), _) ↦
      broken t ms c.written (c.writing ++ c.msg_chan) wire c.broken_off rest
        (sym e ∙ q.order ∙ rw l refl) h p
]

-- What the peer receives: if `SendMsg` accepted the packets of some packable messages, then a clone
-- of the codec that reads everything that is on the wire returns, without error, the first of these
-- messages, in order. Nothing else is on the wire but, if a write failed, the part of one more packet
-- that it sent, which stays in the buffer.
pub peer_receives :
    (has_template metered : Bool) (n : ℕ) (c : Connection) (t : TlvPack) (ms : List Message)
    → Reach (new_connection has_template metered n) c
    → c.accepted ≡ map (pack t) ms
    → All (IsPackable t) ms
    → (sent : List Message) × (later : List Message) × (left : List ℕ) × (ms ≡ sent ++ later)
      × (stream c ≡ pack_all t sent ++ left)
      × ((left ≡ []) ⊎ (left ≡ c.broken_off))
      × (decode (clone t) (stream c)
          ≡ some (record {
            msgs = map (received t) sent;
            error = none;
            codec = record t { input = left };
          }))
peer_receives has_template metered n c t ms r e h =
    let v = Queued-Received c t ms (Reach-Queued has_template metered n r) e h in
    (
      v.sent,
      v.later,
      v.left,
      v.split,
      v.bytes,
      v.only_broken,
      ap (decode (clone t)) v.bytes ∙ decode-pack_all t v.sent v.left v.packable v.unfinished,
    )
