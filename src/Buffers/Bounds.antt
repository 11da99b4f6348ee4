-- ===== src/Buffers/Bounds.antt =====
-- What Get and Put of kpool/pool.go do, on every branch.
use kinz.Base.{
  ℕ, zero, suc, ◌-◌, ◌≡◌, refl, ap, ◌∙◌, Bool-cases, false, List, [], ◌∷◌, Option, none, some, inl,
  inr, ℤ, set, length-set, length-replicate, All, arith, ◌==◌, ==_iff, if◌then◌else◌,
}
use kinz.Buffers.{
  Buffer, cap, make, Pools, put_poison, pool_get, fits, amount, get_loop, poison, pool_put, put,
}

-- A buffer of a class: its capacity and its length are those of the class.
abbrev pub Whole : ℕ → Buffer → Type 0
Whole c b = (cap b ≡ c) × (b.len ≡ c)

abbrev pub IsValid : Pools → Type 0
IsValid [] = Unit
IsValid ((c, bs) ∷ ps) = All (Whole c) bs × IsValid ps

make-Whole : (n : ℕ) → Whole n (make n)
make-Whole n = (length-replicate n 0, refl)

pool_get-Whole :
    (c : ℕ) (bs : List Buffer) (which : Option ℕ)
    → All (Whole c) bs
    → let (bs', b) = pool_get c bs which in All (Whole c) bs' × Whole c b
pool_get-Whole c [] which h = (tt, make-Whole c)
pool_get-Whole c (b ∷ bs) none h = (h, make-Whole c)
pool_get-Whole c (b ∷ bs) (some zero) h = (h.1, h.0)
pool_get-Whole c (b ∷ bs) (some (suc i)) h =
    let rest = pool_get-Whole c bs (some i) h.1 in ((h.0, rest.0), rest.1)

abbrev pub classes_of : Pools → List ℕ
classes_of [] = []
classes_of ((c, bs) ∷ ps) = c ∷ classes_of ps

-- The first class that is enough, or the size itself.
abbrev pub smallest : List ℕ → ℤ → ℕ
smallest [] size = amount size
smallest (c ∷ cs) size = if fits size c then c else smallest cs size

pub get_loop-classes :
    (ps : Pools) (size : ℤ) (which : Option ℕ)
    → classes_of (get_loop ps size which).0 ≡ classes_of ps
unfolding get_loop
get_loop-classes [] size which = refl
get_loop-classes ((c, bs) ∷ ps) size which =
    ground (arith, ap (◌∷◌ c) (get_loop-classes ps size which))

pub get_loop-Whole :
    (ps : Pools) (size : ℤ) (which : Option ℕ)
    → IsValid ps
    → Whole (smallest (classes_of ps) size) (get_loop ps size which).1
unfolding get_loop
get_loop-Whole [] size which v = make-Whole (amount size)
get_loop-Whole ((c, bs) ∷ ps) size which v =
    ground (arith, get_loop-Whole ps size which v.1, pool_get-Whole c bs which v.0)

pub get_loop-IsValid :
    (ps : Pools) (size : ℤ) (which : Option ℕ) → IsValid ps → IsValid (get_loop ps size which).0
unfolding get_loop
get_loop-IsValid [] size which v = tt
get_loop-IsValid ((c, bs) ∷ ps) size which v = elim (Bool-cases (fits size c)) [
  | inl here ↦ rw here ((pool_get-Whole c bs which v.0).0, v.1)
  | inr later ↦ rw later (v.0, get_loop-IsValid ps size which v.1)
]

-- A buffer with the poison in its first and its last byte.
abbrev pub poisoned : Buffer → Buffer
poisoned b = record b { array = set (set b.array 0 put_poison) (b.len - 1) put_poison }

poison-cap : (b b' : Buffer) → poison b ≡ some b' → cap b' ≡ cap b
unfolding poison
poison-cap b b' e =
    let same : cap (poisoned b) ≡ cap b =
      length-set (set b.array 0 put_poison) (b.len - 1) put_poison
      ∙ length-set b.array 0 put_poison in
    ground (arith, same)

-- The pools that a call leaves: those before it, if it panics.
abbrev pub kept : Pools → Option Pools → Pools
kept ps none = ps
kept ps (some ps') = ps'

kept-cons :
    (c : ℕ) (bs : List Buffer) (ps : Pools) (o : Option Pools)
    → kept ((c, bs) ∷ ps) (elim o [ none ↦ none | some ps' ↦ some ((c, bs) ∷ ps') ])
      ≡ (c, bs) ∷ kept ps o
kept-cons c bs ps none = refl
kept-cons c bs ps (some ps') = refl

put_nil : (b : Buffer) → classes_of (kept [] (put [] b)) ≡ []
unfolding put
put_nil b = refl

put_nil-IsValid : (b : Buffer) → IsValid (kept [] (put [] b))
unfolding put
put_nil-IsValid b = tt

-- What Put does where the class is its buffer's.
pub put_here :
    (c : ℕ) (bs : List Buffer) (ps : Pools) (b : Buffer)
    → cap b ≡ c
    → put ((c, bs) ∷ ps) b
      ≡ elim (poison b) [ none ↦ none | some b' ↦ some ((c, pool_put c bs b') ∷ ps) ]
unfolding put
put_here c bs ps b e = rw ((==_iff (cap b) c).1 e) refl

pub put_there :
    (c : ℕ) (bs : List Buffer) (ps : Pools) (b : Buffer)
    → (cap b == c) ≡ false
    → put ((c, bs) ∷ ps) b ≡ elim (put ps b) [ none ↦ none | some ps' ↦ some ((c, bs) ∷ ps') ]
unfolding put
put_there c bs ps b e = rw e refl

-- The pool of the class after that.
abbrev refilled : ℕ → List Buffer → Option Buffer → List Buffer
refilled c bs none = bs
refilled c bs (some b') = pool_put c bs b'

kept-here :
    (c : ℕ) (bs : List Buffer) (ps : Pools) (o : Option Buffer)
    → kept ((c, bs) ∷ ps) (elim o [ none ↦ none | some b' ↦ some ((c, pool_put c bs b') ∷ ps) ])
      ≡ (c, refilled c bs o) ∷ ps
kept-here c bs ps none = refl
kept-here c bs ps (some b') = refl

refilled-Whole :
    (c : ℕ) (bs : List Buffer) (o : Option Buffer)
    → All (Whole c) bs
    → ((b' : Buffer) → o ≡ some b' → cap b' ≡ c)
    → All (Whole c) (refilled c bs o)
refilled-Whole c bs none h e = h
refilled-Whole c bs (some b') h e = ((e b' refl, refl), h)

pub put-classes : (ps : Pools) (b : Buffer) → classes_of (kept ps (put ps b)) ≡ classes_of ps
put-classes [] b = put_nil b
put-classes ((c, bs) ∷ ps) b = elim (Bool-cases (cap b == c)) [
  | inl here ↦
      rw (put_here c bs ps b ((==_iff (cap b) c).0 here), kept-here c bs ps (poison b)) refl
  | inr there ↦
      rw (put_there c bs ps b there, kept-cons c bs ps (put ps b)) (ap (◌∷◌ c) (put-classes ps b))
]

pub put-IsValid : (ps : Pools) (b : Buffer) → IsValid ps → IsValid (kept ps (put ps b))
put-IsValid [] b v = put_nil-IsValid b
put-IsValid ((c, bs) ∷ ps) b v = elim (Bool-cases (cap b == c)) [
  | inl here ↦
      let mine = (==_iff (cap b) c).0 here in
      rw (put_here c bs ps b mine, kept-here c bs ps (poison b))
        (refilled-Whole c bs (poison b) v.0 (λ b' e. poison-cap b b' e ∙ mine), v.1)
  | inr there ↦
      rw (put_there c bs ps b there, kept-cons c bs ps (put ps b)) (v.0, put-IsValid ps b v.1)
]
