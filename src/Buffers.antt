-- ===== src/Buffers.antt =====
-- kpool/pool.go: byte buffers in size classes.
-- A buffer is the array behind the slice, as long as the slice's capacity, and the slice's length.
-- Each class stands with its pool, `classes[i]` with `pools[i]`. A sync.Pool hands out any of its
-- buffers, or a new one also if it has some: which one is an argument, `none` for a new one.
-- The children: Bounds has what Get and Put do on every branch, Traffic what holds after any calls.
pub mod Bounds
pub mod Traffic
mod Tests
use kinz.Base.{
  ℕ, zero, suc, ◌-◌, Bool, true, List, [], ◌∷◌, Option, none, some, ℤ, pos, negsuc, length, set,
  replicate, leb, ◌==◌, if◌then◌else◌,
}

pub record Buffer : Type 0 where
  pub array : List ℕ
  pub len : ℕ

abbrev pub cap : Buffer → ℕ
cap b = length b.array

-- `make([]byte, n)`.
abbrev pub make : ℕ → Buffer
make n = record { array = replicate n 0; len = n }

abbrev pub Pools : Type 0
Pools = List (ℕ × List Buffer)

abbrev pub pools : Pools
pools = (4096, []) ∷ (16384, []) ∷ (65536, []) ∷ []

abbrev pub put_poison : ℕ
put_poison = 0xAA

-- `pools[i].Get()`.
abbrev pub pool_get : ℕ → List Buffer → Option ℕ → List Buffer × Buffer
pool_get c [] which = ([], make c)
pool_get c (b ∷ bs) none = (b ∷ bs, make c)
pool_get c (b ∷ bs) (some zero) = (bs, b)
pool_get c (b ∷ bs) (some (suc i)) = let (rest, found) = pool_get c bs (some i) in (b ∷ rest, found)

-- `size <= c`.
abbrev pub fits : ℤ → ℕ → Bool
fits (pos size) c = leb size c
fits (negsuc size) c = true

abbrev pub amount : ℤ → ℕ
amount (pos n) = n
amount (negsuc n) = 0

-- The loop of `Get`.
unfoldable pub get_loop : Pools → ℤ → Option ℕ → Pools × Buffer
get_loop [] size which = ([], make (amount size))
get_loop ((c, bs) ∷ ps) size which =
    let rest = get_loop ps size which in
    if fits size c
    then (let (bs', b) = pool_get c bs which in ((c, bs') ∷ ps, b))
    else ((c, bs) ∷ rest.0, rest.1)

unfoldable pub get : Pools → ℤ → Option ℕ → Pools × Buffer
unfolding get_loop
get ps size which = get_loop ps size which

-- `buf[0] = putPoison; buf[len(buf)-1] = putPoison`; both are out of range for an empty slice, which
-- is the panic `none`.
unfoldable pub poison : Buffer → Option Buffer
poison b =
    if b.len == 0
    then none
    else some (record b { array = set (set b.array 0 put_poison) (b.len - 1) put_poison })

-- `pools[i].Put(buf[:c])`.
abbrev pub pool_put : ℕ → List Buffer → Buffer → List Buffer
pool_put c bs b = record b { len = c } ∷ bs

-- The loop of `Put`; `none` is a panic.
unfoldable pub put : Pools → Buffer → Option Pools
unfolding poison
put [] b = some []
put ((c, bs) ∷ ps) b =
    let rest = put ps b in
    if cap b == c
    then elim (poison b) [ none ↦ none | some b' ↦ some ((c, pool_put c bs b') ∷ ps) ]
    else elim rest [ none ↦ none | some ps' ↦ some ((c, bs) ∷ ps') ]
