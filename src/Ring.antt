-- ===== src/Ring.antt =====
-- klog/ringbuffer.go: the byte ring that keeps the newest output of the log.
-- The mutex makes each method one step, so that methods are functions on the state. `int` values
-- stay far below 2 ^ 63 (the capacity is that of a slice in memory), and are natural numbers but
-- for those that a caller may make negative.
-- The children: Index has the arithmetic of the indices, Window the bytes that the ring holds,
-- History what they are after any writes, Lines the lines of the log.
pub mod Index
pub mod Window
pub mod History
pub mod Lines
mod Tests
use kinz.Base.{
  ℕ, zero, suc, ◌+◌, ◌-◌, ◌*◌, ◌%◌, List, [], ◌∷◌, ◌++◌, Option, none, some, Bool, true, false, ℤ,
  pos, negsuc, length, get_or, set, drop, replicate, ltb, leb, ◌==◌, if◌then◌else◌,
}

pub record RingBuffer : Type 0 where
  pub buf : List ℕ
  pub cap : ℕ
  pub start : ℕ
  pub len : ℕ

abbrev pub default_capacity : ℕ
default_capacity = 64 * 1024

unfoldable pub with_capacity : ℕ → RingBuffer
with_capacity cap = record { buf = replicate cap 0; cap = cap; start = 0; len = 0 }

-- A capacity of 0 or less means the default.
unfoldable pub new_ring_buffer : ℤ → RingBuffer
new_ring_buffer (pos zero) = with_capacity default_capacity
new_ring_buffer (pos (suc n)) = with_capacity (suc n)
new_ring_buffer (negsuc n) = with_capacity default_capacity

-- The body of the loop of `Write`.
unfoldable pub write_byte : RingBuffer → ℕ → RingBuffer
write_byte r b =
    if ltb r.len r.cap
    then record r { buf = set r.buf ((r.start + r.len) % r.cap) b; len = r.len + 1 }
    else record r { buf = set r.buf r.start b; start = (r.start + 1) % r.cap }

unfoldable pub write_loop : RingBuffer → List ℕ → RingBuffer
write_loop r [] = r
write_loop r (b ∷ p) = write_loop (write_byte r b) p

-- The count that `Write` returns, and the ring; its error is always nil.
unfoldable pub write : RingBuffer → List ℕ → ℕ × RingBuffer
unfolding write_loop
write r p = (length p, write_loop r p)

-- The loop of `Bytes` with `n` rounds left, from index `i`.
unfoldable pub copy_loop : RingBuffer → ℕ → ℕ → List ℕ
copy_loop r zero i = []
copy_loop r (suc n) i = get_or r.buf ((r.start + i) % r.cap) 0 ∷ copy_loop r n (i + 1)

unfoldable pub bytes : RingBuffer → List ℕ
unfolding copy_loop
bytes r = copy_loop r r.len 0

abbrev pub newline : ℕ
newline = b'\n'

-- `strings.Split(content, "\n")`.
abbrev pub to_first : ℕ → List (List ℕ) → List (List ℕ)
to_first c [] = (c ∷ []) ∷ []
to_first c (l ∷ ls) = (c ∷ l) ∷ ls

unfoldable pub split : List ℕ → List (List ℕ)
split [] = [] ∷ []
split (c ∷ cs) = let rest = split cs in if c == newline then [] ∷ rest else to_first c rest

-- `parts` without a last fragment that is empty.
unfoldable pub drop_trailing : List (List ℕ) → List (List ℕ)
drop_trailing [] = []
drop_trailing ([] ∷ []) = []
drop_trailing ((c ∷ l) ∷ []) = (c ∷ l) ∷ []
drop_trailing (l ∷ k ∷ ls) = l ∷ drop_trailing (k ∷ ls)

-- `parts[len(parts)-n:]` for a negative `n` is a slice out of range: `none` is the panic.
unfoldable pub last_parts : List (List ℕ) → ℤ → Option (List (List ℕ))
last_parts parts (negsuc n) = none
last_parts parts (pos n) =
    if leb (length parts) n then some parts else some (drop (length parts - n) parts)

lines_of : List ℕ → ℤ → Option (List (List ℕ))
unfolding split drop_trailing last_parts
lines_of [] n = some []
lines_of (c ∷ cs) n = last_parts (drop_trailing (split (c ∷ cs))) n

-- `Lines(n)`.
unfoldable pub lines : RingBuffer → ℤ → Option (List (List ℕ))
unfolding bytes lines_of
lines r n = lines_of (bytes r) n
