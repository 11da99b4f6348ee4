-- ===== src/Ring/Tests.antt =====
-- Runs of klog/ringbuffer.go on a small ring.
use kinz.Base.{◌≡◌, ◌≤◌, ℕ, refl, List, [], ◌∷◌, ◌++◌, All, none, some, pos, negsuc, newest, arith}
use kinz.Ring.{
  RingBuffer, new_ring_buffer, with_capacity, write_byte, write_loop, write, copy_loop, bytes,
  last_parts, lines_of, lines, newline,
}
use kinz.Ring.Window.{IsValid, new_ring_buffer-IsValid}
use kinz.Ring.History.{write_lem, write_all, bytes-write_all}
use kinz.Ring.Lines.{IsLine, lines_lem, lines-write_all}

-- A ring of four bytes, into which six were written.
abbrev wrapped : RingBuffer
wrapped = (write (new_ring_buffer (pos 4)) (1 ∷ 2 ∷ 3 ∷ 4 ∷ 5 ∷ 6 ∷ [])).1

wrapped_bytes : bytes wrapped ≡ 3 ∷ 4 ∷ 5 ∷ 6 ∷ []
unfolding bytes copy_loop write write_loop write_byte new_ring_buffer with_capacity
wrapped_bytes = refl

negative_capacity : (new_ring_buffer (negsuc 3)).cap ≡ 65536
unfolding new_ring_buffer with_capacity
negative_capacity = refl

negative_lines : lines wrapped (negsuc 0) ≡ none
unfolding bytes copy_loop write write_loop write_byte new_ring_buffer with_capacity lines lines_of
    last_parts
negative_lines = refl

write_lem_example :
    ((write wrapped (7 ∷ [])).0 ≡ 1)
    × IsValid (write wrapped (7 ∷ [])).1
    × ((write wrapped (7 ∷ [])).1.cap ≡ wrapped.cap)
    × (bytes (write wrapped (7 ∷ [])).1 ≡ newest wrapped.cap (bytes wrapped ++ (7 ∷ [])))
write_lem_example = write_lem wrapped (7 ∷ []) wrapped-IsValid
  where
    wrapped-IsValid : IsValid wrapped
    wrapped-IsValid =
        (write_lem (new_ring_buffer (pos 4)) (1 ∷ 2 ∷ 3 ∷ 4 ∷ 5 ∷ 6 ∷ [])
          (new_ring_buffer-IsValid (pos 4))).1

bytes-write_all_example :
    bytes (write_all (new_ring_buffer (pos 4)) ((1 ∷ 2 ∷ 3 ∷ []) ∷ (4 ∷ 5 ∷ []) ∷ []))
    ≡ newest (new_ring_buffer (pos 4)).cap (1 ∷ 2 ∷ 3 ∷ 4 ∷ 5 ∷ [])
bytes-write_all_example = bytes-write_all (pos 4) ((1 ∷ 2 ∷ 3 ∷ []) ∷ (4 ∷ 5 ∷ []) ∷ [])

abbrev letter_a : List ℕ
letter_a = 97 ∷ []

letter_a-IsLine : IsLine letter_a
letter_a-IsLine = ground arith

-- Three lines, the second of them empty, and the start of a fourth.
abbrev logged : List (List ℕ)
logged = letter_a ∷ [] ∷ letter_a ∷ []

logged_are_lines : All IsLine logged
logged_are_lines = (letter_a-IsLine, (tt, (letter_a-IsLine, tt)))

abbrev log_ring : RingBuffer
log_ring = record {
  buf = 97 ∷ newline ∷ newline ∷ 97 ∷ newline ∷ 97 ∷ 0 ∷ [];
  cap = 7;
  start = 0;
  len = 6;
}

held : bytes log_ring ≡ 97 ∷ newline ∷ newline ∷ 97 ∷ newline ∷ 97 ∷ []
unfolding bytes copy_loop
held = refl

lines_lem_example : lines log_ring (pos 3) ≡ some ([] ∷ letter_a ∷ letter_a ∷ [])
lines_lem_example = lines_lem log_ring 3 logged letter_a logged_are_lines letter_a-IsLine held

fits : 6 ≤ (new_ring_buffer (pos 8)).cap
unfolding new_ring_buffer with_capacity
fits = omega arith

lines-write_all_example :
    lines
      (write_all
        (new_ring_buffer (pos 8))
        ((97 ∷ newline ∷ []) ∷ (newline ∷ 97 ∷ newline ∷ 97 ∷ []) ∷ []))
      (pos 2)
    ≡ some (letter_a ∷ letter_a ∷ [])
lines-write_all_example =
    lines-write_all (pos 8) ((97 ∷ newline ∷ []) ∷ (newline ∷ 97 ∷ newline ∷ 97 ∷ []) ∷ []) 2 logged
      letter_a logged_are_lines letter_a-IsLine refl fits
