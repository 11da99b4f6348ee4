-- ===== src/Ring/History.antt =====
-- klog/ringbuffer.go as a log: what `Bytes` returns after any writes.
use kinz.Base.{
  ℕ, ◌≡◌, refl, sym, ap, ◌∙◌, List, [], ◌∷◌, ◌++◌, append_assoc, append-nil, length, newest,
  newest_all, newest-append, arith, ℤ, pos, negsuc, zero, suc,
}
use kinz.Ring.{with_capacity, RingBuffer, new_ring_buffer, write_byte, write_loop, write, bytes}
use kinz.Ring.Window.{
  IsValid, new_ring_buffer-IsValid, write_byte-IsValid, cap-write_byte, bytes-write_byte,
  length-bytes,
}

write_loop-IsValid : (p : List ℕ) {r : RingBuffer} → IsValid r → IsValid (write_loop r p)
unfolding write_loop
write_loop-IsValid [] v = v
write_loop-IsValid (b ∷ p) v = write_loop-IsValid p (write_byte-IsValid b v)

cap-write_loop : (r : RingBuffer) (p : List ℕ) → (write_loop r p).cap ≡ r.cap
unfolding write_loop
cap-write_loop r [] = refl
cap-write_loop r (b ∷ p) = cap-write_loop (write_byte r b) p ∙ cap-write_byte r b

bytes-write_loop :
    (r : RingBuffer) (p : List ℕ) → IsValid r → bytes (write_loop r p) ≡ newest r.cap (bytes r ++ p)
unfolding write_loop
bytes-write_loop r [] v =
    rw append-nil (sym (newest_all r.cap (bytes r) (omega (arith, length-bytes r, v.len_in))))
bytes-write_loop r (b ∷ p) v =
    bytes-write_loop (write_byte r b) p (write_byte-IsValid b v)
    ∙ rw (bytes-write_byte r b v, cap-write_byte r b)
        (newest-append r.cap (bytes r ++ (b ∷ [])) p
          ∙ ap (newest r.cap) (append_assoc (bytes r) (b ∷ []) p))

-- `Write` takes all of its input, keeps the invariant, and leaves the newest `cap` bytes of what
-- was there followed by the input.
pub write_lem :
    (r : RingBuffer) (p : List ℕ)
    → IsValid r
    → ((write r p).0 ≡ length p)
      × IsValid (write r p).1
      × ((write r p).1.cap ≡ r.cap)
      × (bytes (write r p).1 ≡ newest r.cap (bytes r ++ p))
unfolding write
write_lem r p v = (refl, write_loop-IsValid p v, cap-write_loop r p, bytes-write_loop r p v)

abbrev pub write_all : RingBuffer → List (List ℕ) → RingBuffer
write_all r [] = r
write_all r (p ∷ ps) = write_all (write r p).1 ps

abbrev pub joined : List (List ℕ) → List ℕ
joined [] = []
joined (p ∷ ps) = p ++ joined ps

write_all_lem :
    (r : RingBuffer) (ps : List (List ℕ))
    → IsValid r
    → bytes (write_all r ps) ≡ newest r.cap (bytes r ++ joined ps)
write_all_lem r [] v =
    rw append-nil (sym (newest_all r.cap (bytes r) (omega (arith, length-bytes r, v.len_in))))
write_all_lem r (p ∷ ps) v =
    let (_, w, c, e) = write_lem r p v in
    write_all_lem (write r p).1 ps w
    ∙ rw (e, c)
        (newest-append r.cap (bytes r ++ p) (joined ps)
          ∙ ap (newest r.cap) (append_assoc (bytes r) p (joined ps)))

bytes-new : (capacity : ℤ) → bytes (new_ring_buffer capacity) ≡ []
unfolding new_ring_buffer with_capacity bytes
bytes-new (pos zero) = refl
bytes-new (pos (suc n)) = refl
bytes-new (negsuc n) = refl

-- After any writes to a new ring, of any capacity asked for, `Bytes` is the last `cap` bytes of
-- everything that was written, in order.
pub bytes-write_all :
    (capacity : ℤ) (ps : List (List ℕ))
    → let r = new_ring_buffer capacity in bytes (write_all r ps) ≡ newest r.cap (joined ps)
bytes-write_all capacity ps =
    write_all_lem (new_ring_buffer capacity) ps (new_ring_buffer-IsValid capacity)
    ∙ ap (λ (xs : List ℕ). newest (new_ring_buffer capacity).cap (xs ++ joined ps))
        (bytes-new capacity)
