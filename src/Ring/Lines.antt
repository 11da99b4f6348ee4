-- ===== src/Ring/Lines.antt =====
-- `Lines` of klog/ringbuffer.go on a log of lines.
use kinz.Base.{
  ℕ, ◌≤◌, ◌≡◌, ◌≢◌, refl, sym, ap, ◌∙◌, List, [], ◌∷◌, ◌++◌, length, All, newest, newest_all, arith,
  ℤ, pos, some, leb, leb_iff, Bool-cases, inl, inr,
}
use kinz.Ring.{
  RingBuffer, newline, split, drop_trailing, last_parts, lines_of, lines, bytes, new_ring_buffer,
}
use kinz.Ring.History.{joined, write_all, bytes-write_all}

-- A line has no newline in it.
abbrev pub IsLine : List ℕ → Type 0
IsLine l = All (λ c. c ≢ newline) l

-- A log: each line with its newline behind it, and then a line that is not finished.
abbrev pub log_of : List (List ℕ) → List ℕ → List ℕ
log_of [] last = last
log_of (l ∷ ls) last = l ++ newline ∷ log_of ls last

-- The lines of that log; an unfinished line counts if it is not empty.
abbrev pub log_lines : List (List ℕ) → List ℕ → List (List ℕ)
log_lines ls [] = ls
log_lines ls (c ∷ l) = ls ++ ((c ∷ l) ∷ [])

split-line : (l rest : List ℕ) → IsLine l → split (l ++ newline ∷ rest) ≡ l ∷ split rest
unfolding split
split-line [] rest h = refl
split-line (c ∷ l) rest h = ground (arith, split-line l rest h.1)

split_last : (l : List ℕ) → IsLine l → split l ≡ l ∷ []
unfolding split
split_last [] h = refl
split_last (c ∷ l) h = ground (arith, split_last l h.1)

split-log_of :
    (ls : List (List ℕ)) (last : List ℕ)
    → All IsLine ls
    → IsLine last
    → split (log_of ls last) ≡ ls ++ (last ∷ [])
split-log_of [] last h k = split_last last k
split-log_of (l ∷ ls) last h k =
    split-line l (log_of ls last) h.0 ∙ ap (◌∷◌ l) (split-log_of ls last h.1 k)

log_lines-cons :
    (l : List ℕ) (ls : List (List ℕ)) (last : List ℕ)
    → l ∷ log_lines ls last ≡ log_lines (l ∷ ls) last
log_lines-cons l ls [] = refl
log_lines-cons l ls (c ∷ k) = refl

drop_trailing_cons :
    (l k : List ℕ) (ls : List (List ℕ)) → drop_trailing (l ∷ k ∷ ls) ≡ l ∷ drop_trailing (k ∷ ls)
unfolding drop_trailing
drop_trailing_cons [] k ls = refl
drop_trailing_cons (c ∷ l) k ls = refl

drop_trailing_lem :
    (ls : List (List ℕ)) (last : List ℕ) → drop_trailing (ls ++ (last ∷ [])) ≡ log_lines ls last
unfolding drop_trailing
drop_trailing_lem [] [] = refl
drop_trailing_lem [] (c ∷ l) = refl
drop_trailing_lem (l ∷ []) last =
    drop_trailing_cons l last [] ∙ ap (◌∷◌ l) (drop_trailing_lem [] last) ∙ log_lines-cons l [] last
drop_trailing_lem (l ∷ k ∷ ls) last =
    drop_trailing_cons l k (ls ++ (last ∷ []))
    ∙ ap (◌∷◌ l) (drop_trailing_lem (k ∷ ls) last)
    ∙ log_lines-cons l (k ∷ ls) last

last_parts-newest :
    (parts : List (List ℕ)) (n : ℕ) → last_parts parts (pos n) ≡ some (newest n parts)
unfolding last_parts
last_parts-newest parts n = elim (Bool-cases (leb (length parts) n)) [
  | inl few ↦ rw few (ap some (sym (newest_all n parts ((leb_iff (length parts) n).0 few))))
  | inr many ↦ rw many
]

lines_of-newest :
    (content : List ℕ) (n : ℕ)
    → lines_of content (pos n) ≡ some (newest n (drop_trailing (split content)))
unfolding lines_of split drop_trailing
lines_of-newest [] n = ap some (sym (newest_all n [] (omega arith)))
lines_of-newest (c ∷ cs) n = last_parts-newest (drop_trailing (split (c ∷ cs))) n

pub lines-newest :
    (r : RingBuffer) (n : ℕ) → lines r (pos n) ≡ some (newest n (drop_trailing (split (bytes r))))
unfolding lines
lines-newest r n = lines_of-newest (bytes r) n

-- `Lines(n)` of a ring that holds a log is the last `n` lines of the log, in order, or all of them
-- if there are fewer; empty lines count, but for what follows the last newline.
pub lines_lem :
    (r : RingBuffer) (n : ℕ) (ls : List (List ℕ)) (last : List ℕ)
    → All IsLine ls
    → IsLine last
    → bytes r ≡ log_of ls last
    → lines r (pos n) ≡ some (newest n (log_lines ls last))
unfolding lines
lines_lem r n ls last h k e =
    rw (e, lines_of-newest (log_of ls last) n, split-log_of ls last h k, drop_trailing_lem ls last)

-- The last lines of a log survive in the ring: if all writes to a new ring together make up a log
-- that fits its capacity, then `Lines(n)` is the last `n` lines that were written, however the
-- writes cut them.
pub lines-write_all :
    (capacity : ℤ) (ps : List (List ℕ)) (n : ℕ) (ls : List (List ℕ)) (last : List ℕ)
    → All IsLine ls
    → IsLine last
    → joined ps ≡ log_of ls last
    → length (joined ps) ≤ (new_ring_buffer capacity).cap
    → lines (write_all (new_ring_buffer capacity) ps) (pos n) ≡ some (newest n (log_lines ls last))
lines-write_all capacity ps n ls last h k e fits =
    lines_lem _ n ls last h k
      (bytes-write_all capacity ps ∙ newest_all (new_ring_buffer capacity).cap (joined ps) fits ∙ e)
