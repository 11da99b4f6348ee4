-- ===== src/Buffers/Traffic.antt =====
-- The pools of kpool/pool.go after any calls.
use kinz.Base.{
  ℕ, ◌-◌, ◌≤◌, ◌<◌, ◌≡◌, ◌≢◌, refl, sym, ap, subst, ◌∙◌, List, [], ◌∷◌, Option, none, some, ℤ, pos,
  set, arith, leb, leb_iff, leb-false_iff, some-inj, inl, inr, ◌⊎◌, if◌then◌else◌,
}
use kinz.Buffers.{Buffer, cap, Pools, pools, put_poison, get_loop, get, poison, pool_put, put}
use kinz.Buffers.Bounds.{
  IsValid, classes_of, smallest, get_loop-classes, get_loop-Whole, get_loop-IsValid, kept,
  put-classes, put-IsValid, poisoned, put_here, put_there,
}

pub data Call : Type 0 where
  get_call : ℤ → Option ℕ → Call
  put_call : Buffer → Call

-- Calls one after the other; a panic of Put leaves the pools.
abbrev pub run_calls : List Call → Pools → Pools
run_calls [] ps = ps
run_calls (get_call size which ∷ cs) ps = run_calls cs (get ps size which).0
run_calls (put_call b ∷ cs) ps = run_calls cs (kept ps (put ps b))

run_calls-IsValid : (cs : List Call) (ps : Pools) → IsValid ps → IsValid (run_calls cs ps)
unfolding get
run_calls-IsValid [] ps v = v
run_calls-IsValid (get_call size which ∷ cs) ps v =
    run_calls-IsValid cs _ (get_loop-IsValid ps size which v)
run_calls-IsValid (put_call b ∷ cs) ps v = run_calls-IsValid cs _ (put-IsValid ps b v)

run_calls-classes : (cs : List Call) (ps : Pools) → classes_of (run_calls cs ps) ≡ classes_of ps
unfolding get
run_calls-classes [] ps = refl
run_calls-classes (get_call size which ∷ cs) ps =
    run_calls-classes cs _ ∙ get_loop-classes ps size which
run_calls-classes (put_call b ∷ cs) ps = run_calls-classes cs _ ∙ put-classes ps b

-- After any calls of Get and Put, whatever buffers were put, a Get of any size, whichever buffer the
-- pool hands out, gives one whose length is its capacity, at least the size: 4096, 16384 or 65536,
-- the smallest of these that is enough, or the size itself if none is.
pub get_lem :
    (cs : List Call) (n : ℕ) (which : Option ℕ)
    → let b = (get (run_calls cs pools) (pos n) which).1 in
      (n ≤ cap b)
      × (b.len ≡ cap b)
      × (cap b ≡ (
          if leb n 4096
          then 4096
          else if leb n 16384
          then 16384
          else if leb n 65536
          then 65536
          else n))
unfolding get
get_lem cs n which =
    let ps = run_calls cs pools in
    let w = get_loop-Whole ps (pos n) which (run_calls-IsValid cs pools (tt, (tt, (tt, tt)))) in
    let e : cap (get_loop ps (pos n) which).1 ≡ smallest (classes_of pools) (pos n) =
      w.0 ∙ ap (λ (ks : List ℕ). smallest ks (pos n)) (run_calls-classes cs pools) in
    (ground (arith, e), w.1 ∙ sym w.0, e)

-- It is one of the classes, and greater than those in front.
abbrev IsClass : ℕ → List ℕ → Type 0
IsClass k [] = ⊥
IsClass k (c ∷ cs) = (k ≡ c) ⊎ ((c < k) × IsClass k cs)

-- What Get gives for a size, if Put returned.
abbrev pub get_after : Option Pools → ℕ → Option (Pools × Buffer)
get_after none n = none
get_after (some ps) n = some (get ps (pos n) (some 0))

poison-some : (b : Buffer) → b.len ≢ 0 → poison b ≡ some (poisoned b)
unfolding poison
poison-some b h = ground (arith, h)

abbrev returned : Buffer → Buffer
returned b = record (poisoned b) { len = cap b }

get_after-here :
    (c : ℕ) (bs : List Buffer) (ps : Pools) (b : Buffer)
    → get_after (some ((c, pool_put c bs b) ∷ ps)) c ≡ some ((c, bs) ∷ ps, record b { len = c })
unfolding get get_loop
get_after-here c bs ps b = rw ((leb_iff c c).1 (omega arith)) refl

get_after-there :
    (c k : ℕ) (bs : List Buffer) (ps : Pools) (o : Option Pools) (b : Buffer)
    → c < k
    → get_after o k ≡ some (ps, b)
    → get_after (elim o [ none ↦ none | some ps' ↦ some ((c, bs) ∷ ps') ]) k
      ≡ some ((c, bs) ∷ ps, b)
unfolding get get_loop
get_after-there c k bs ps none b lt e = cc
get_after-there c k bs ps (some ps') b lt e =
    rw ((leb-false_iff k c).1 lt)
      (ap (λ (p : Pools × Buffer). some ((c, bs) ∷ p.0, p.1)) (some-inj e))

get_after-put :
    (ps : Pools) (b : Buffer)
    → b.len ≢ 0
    → IsClass (cap b) (classes_of ps)
    → get_after (put ps b) (cap b) ≡ some (ps, returned b)
get_after-put [] b h k = absurd k
get_after-put ((c, bs) ∷ ps) b h (inl mine) =
    rw (put_here c bs ps b mine, poison-some b h, mine) (get_after-here c bs ps (poisoned b))
get_after-put ((c, bs) ∷ ps) b h (inr (lt, later)) =
    rw (put_there c bs ps b (ground (arith, lt)))
      (get_after-there c (cap b) bs ps (put ps b) (returned b) lt (get_after-put ps b h later))

IsClass-of :
    (k : ℕ) → (k ≡ 4096) ⊎ (k ≡ 16384) ⊎ (k ≡ 65536) → IsClass k (4096 ∷ 16384 ∷ 65536 ∷ [])
IsClass-of k (inl e) = inl e
IsClass-of k (inr (inl e)) = inr (omega arith, inl e)
IsClass-of k (inr (inr e)) = inr (omega arith, inr (omega arith, inl e))

-- After any calls, Put of a buffer that is not empty and has the capacity of a class returns, and
-- the next Get of that size, if the pool hands out what it got last, gives the same array with the
-- poison in the first byte and the last of the old length, in its full length, and leaves the pools
-- as they were before the Put.
pub get-put :
    (cs : List Call) (b : Buffer)
    → b.len ≢ 0
    → (cap b ≡ 4096) ⊎ (cap b ≡ 16384) ⊎ (cap b ≡ 65536)
    → let ps = run_calls cs pools in
      get_after (put ps b) (cap b)
      ≡ some (
        ps,
        record { array = set (set b.array 0 put_poison) (b.len - 1) put_poison; len = cap b },
      )
get-put cs b h k =
    let ps = run_calls cs pools in
    get_after-put ps b h
      (subst (IsClass (cap b)) (sym (run_calls-classes cs pools)) (IsClass-of (cap b) k))
