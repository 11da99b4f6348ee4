-- ===== src/Buffers/Tests.antt =====
-- Tests of the buffer pool.
use kinz.Base.{
  arith, ◌-◌, ◌≤◌, ◌≡◌, refl, List, [], ◌∷◌, none, some, pos, leb, inl, set, if◌then◌else◌,
}
use kinz.Buffers.{Buffer, cap, make, pools, get, put, poison, put_poison}
use kinz.Buffers.Traffic.{Call, get_call, put_call, run_calls, get_lem, get_after, get-put}

abbrev calls : List Call
calls = get_call (pos 100) none ∷ put_call (make 4096) ∷ put_call (make 10) ∷ []

get_lem_example :
    let b = (get (run_calls calls pools) (pos 5000) (some 0)).1 in
    (5000 ≤ cap b)
    × (b.len ≡ cap b)
    × (cap b ≡ (
        if leb 5000 4096
        then 4096
        else if leb 5000 16384
        then 16384
        else if leb 5000 65536
        then 65536
        else 5000))
get_lem_example = get_lem calls 5000 (some 0)

-- The first two bytes of a buffer of 4096.
abbrev used : Buffer
used = record (make 4096) { len = 2 }

get-put_example :
    let ps = run_calls calls pools in
    get_after (put ps used) (cap used)
    ≡ some (
      ps,
      record {
        array = set (set used.array 0 put_poison) (used.len - 1) put_poison;
        len = cap used;
      },
    )
get-put_example = get-put calls used (λ e. omega arith) (inl refl)

-- An empty slice of a pooled buffer cannot be put.
put_empty : put pools (record (make 4096) { len = 0 }) ≡ none
unfolding put poison
put_empty = refl
