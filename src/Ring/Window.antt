-- ===== src/Ring/Window.antt =====
-- What one step of `Write` in klog/ringbuffer.go does to the bytes that the ring holds.
use kinz.Base.{
  ℕ, zero, suc, ◌+◌, ◌-◌, ◌%◌, ◌≤◌, ◌<◌, ◌≡◌, ◌≢◌, refl, sym, ap, ap₂, ◌∙◌, List, [], ◌∷◌, ◌++◌,
  Bool-cases, false, ltb_iff, inl, inr, length, get_or, set, drop, length-append, newest,
  newest_all, newest_push, length-set, length-replicate, get_or-set_self, get_or-set_ne, ltb, arith,
  ℤ, pos, negsuc,
}
use kinz.Ring.{
  default_capacity, RingBuffer, with_capacity, new_ring_buffer, write_byte, copy_loop, bytes,
}
use Prim.Native.Nat.add
use kinz.Ring.Index.{place_ne_self, place_ne, place_lt, place_next, place_round}

-- The representation invariant: every index that the code forms is in range.
pub record IsValid (r : RingBuffer) : Type 0 where
  pub storage : length r.buf ≡ r.cap
  pub start_in : r.start < r.cap
  pub len_in : r.len ≤ r.cap

with_capacity-IsValid : (n : ℕ) → 0 < n → IsValid (with_capacity n)
unfolding with_capacity
with_capacity-IsValid n h = record {
  storage = length-replicate n 0;
  start_in = h;
  len_in = omega arith;
}

pub new_ring_buffer-IsValid : (capacity : ℤ) → IsValid (new_ring_buffer capacity)
unfolding new_ring_buffer
new_ring_buffer-IsValid (pos zero) = with_capacity-IsValid default_capacity (omega arith)
new_ring_buffer-IsValid (pos (suc n)) = with_capacity-IsValid (suc n) (omega arith)
new_ring_buffer-IsValid (negsuc n) = with_capacity-IsValid default_capacity (omega arith)

pub write_byte-IsValid : {r : RingBuffer} (b : ℕ) → IsValid r → IsValid (write_byte r b)
unfolding write_byte
write_byte-IsValid {r} b v =
    ground (arith, length-set r.buf ((r.start + r.len) % r.cap) b, length-set r.buf r.start b)

pub cap-write_byte : (r : RingBuffer) (b : ℕ) → (write_byte r b).cap ≡ r.cap
unfolding write_byte
cap-write_byte r b = ground arith

pub length-copy_loop : (r : RingBuffer) (n i : ℕ) → length (copy_loop r n i) ≡ n
unfolding copy_loop
length-copy_loop r zero i = refl
length-copy_loop r (suc n) i = ap suc (length-copy_loop r n (i + 1))

-- A write outside the places that are read changes nothing.
copy_loop-set :
    (r : RingBuffer) (p b l n i : ℕ)
    → ((k : ℕ) → i ≤ k → k < i + n → (r.start + k) % r.cap ≢ p)
    → copy_loop (record r { buf = set r.buf p b; len = l }) n i ≡ copy_loop r n i
unfolding copy_loop
copy_loop-set r p b l zero i apart = refl
copy_loop-set r p b l (suc n) i apart =
    ap₂ ◌∷◌ (get_or-set_ne r.buf b 0 (λ e. apart i (omega arith) (omega arith) (sym e)))
      (copy_loop-set r p b l n (i + 1) (λ k le lt. apart k (omega arith) (omega arith)))

copy_loop_last :
    (r : RingBuffer) (n i : ℕ)
    → copy_loop r (suc n) i ≡ copy_loop r n i ++ (get_or r.buf ((r.start + (i + n)) % r.cap) 0 ∷ [])
unfolding copy_loop
copy_loop_last r zero i = ap (λ (k : ℕ). get_or r.buf ((r.start + k) % r.cap) 0 ∷ []) (omega arith)
copy_loop_last r (suc n) i = ap (◌∷◌ (get_or r.buf ((r.start + i) % r.cap) 0)) (
    copy_loop_last r n (i + 1)
    ∙ ap (λ (k : ℕ). copy_loop r n (i + 1) ++ (get_or r.buf ((r.start + k) % r.cap) 0 ∷ []))
        (omega arith))

-- Starting one place further on reads from the next offset.
copy_loop_next :
    (r : RingBuffer) (s n i : ℕ)
    → s < r.cap
    → i + n ≤ r.cap
    → r.start ≡ (s + 1) % r.cap
    → copy_loop r n i ≡ copy_loop (record r { start = s }) n (i + 1)
unfolding copy_loop
copy_loop_next r s zero i h le e = refl
copy_loop_next r s (suc n) i h le e =
    ap₂ ◌∷◌ (ap (λ (k : ℕ). get_or r.buf k 0) (rw e (place_next r.cap s i 0 h (omega arith))))
      (copy_loop_next r s n (i + 1) h (omega arith) e)

-- With room left, the byte goes to the end.
stored_room :
    (r : RingBuffer) (b n : ℕ)
    → IsValid r
    → n < r.cap
    → copy_loop (record r { buf = set r.buf ((r.start + n) % r.cap) b; len = n + 1 }) (suc n) 0
      ≡ copy_loop r n 0 ++ (b ∷ [])
stored_room r b n v h =
    copy_loop_last _ n 0
    ∙ ap₂ (λ (xs : List ℕ) (y : ℕ). xs ++ (y ∷ []))
        (copy_loop-set r ((r.start + n) % r.cap) b (n + 1) n 0 (λ k _ lt e.
          place_ne r.cap r.start k n v.start_in (omega arith) (omega arith) (omega arith) (sym e)))
        (rw add.zero (
          get_or-set_self r.buf ((r.start + n) % r.cap) b 0
            (omega (arith, v.storage, place_lt r.cap r.start n 0 v.start_in))))

-- In a full ring it takes the place of the oldest byte.
stored_full :
    (r : RingBuffer) (b c : ℕ)
    → IsValid r
    → r.cap ≡ suc c
    → copy_loop (record r { buf = set r.buf r.start b; start = (r.start + 1) % r.cap }) (suc c) 0
      ≡ copy_loop r c 1 ++ (b ∷ [])
stored_full r b c v full =
    copy_loop_last _ c 0
    ∙ ap₂ (λ (xs : List ℕ) (y : ℕ). xs ++ (y ∷ []))
        (copy_loop_next (record r { buf = set r.buf r.start b; start = (r.start + 1) % r.cap })
            r.start c 0 v.start_in (omega arith) refl
          ∙ copy_loop-set r r.start b r.len c 1
              (λ k lo hi. place_ne_self r.cap r.start k v.start_in (omega arith) (omega arith)))
        (rw
          (
            add.zero,
            place_next r.cap r.start c 0 v.start_in (omega arith),
            place_round r.cap r.start (c + 1) 0 v.start_in (omega arith),
          )
          (get_or-set_self r.buf r.start b 0 (omega (arith, v.storage, v.start_in))))

pub length-bytes : (r : RingBuffer) → length (bytes r) ≡ r.len
unfolding bytes
length-bytes r = length-copy_loop r r.len 0

copy_loop_tail : (r : RingBuffer) (c : ℕ) → drop 1 (copy_loop r (suc c) 0) ≡ copy_loop r c 1
unfolding copy_loop
copy_loop_tail r c = refl

not_lt_of_false : (a b : ℕ) → ltb a b ≡ false → b ≤ a
not_lt_of_false a b h = ground arith

-- A step of `Write` appends the byte, and drops the oldest one if the ring was full.
pub bytes-write_byte :
    (r : RingBuffer) (b : ℕ)
    → IsValid r
    → bytes (write_byte r b) ≡ newest r.cap (bytes r ++ (b ∷ []))
unfolding write_byte bytes
bytes-write_byte r b v = elim (Bool-cases (ltb r.len r.cap)) [
  | inl room ↦
      let one : r.len + 1 ≡ suc r.len = omega arith in
      rw (room, write_byte)
        (ap
            (λ (k : ℕ).
              copy_loop
                (record r { buf = set r.buf ((r.start + r.len) % r.cap) b; len = r.len + 1 }) k 0)
            one
          ∙ stored_room r b r.len v ((ltb_iff r.len r.cap).0 room)
          ∙ sym (
              newest_all r.cap (copy_loop r r.len 0 ++ (b ∷ [])) (
                omega (
                  arith,
                  length-append (copy_loop r r.len 0) (b ∷ []),
                  length-copy_loop r r.len 0,
                  (ltb_iff r.len r.cap).0 room,
                ))))
  | inr full ↦
      let c : ℕ = r.cap - 1 in
      let round : r.cap ≡ suc c = omega (arith, v.start_in) in
      let held : r.len ≡ suc c =
        omega (arith, v.len_in, v.start_in, not_lt_of_false r.len r.cap full) in
      rw (full, write_byte)
        (ap
            (λ (k : ℕ).
              copy_loop (record r { buf = set r.buf r.start b; start = (r.start + 1) % r.cap }) k 0)
            held
          ∙ stored_full r b c v round
          ∙ ap (λ (xs : List ℕ). xs ++ (b ∷ []))
              (sym (ap (λ (k : ℕ). drop 1 (copy_loop r k 0)) held ∙ copy_loop_tail r c))
          ∙ sym (
              newest_push r.cap (copy_loop r r.len 0) b
                (omega (arith, length-copy_loop r r.len 0, held, round))
                (omega (arith, v.start_in))))
]
