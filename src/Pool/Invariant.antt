-- ===== src/Pool/Invariant.antt =====
-- The invariant of the worker pool of knet/msgHandler.go, and the ways in which a step keeps it.
use kinz.Base.{
  ℕ, ◌%◌, ◌≤◌, ◌<◌, ◌≡◌, ◌≢◌, refl, ap, sym, subst, ◌∙◌, Bool, true, false, List, [], ◌∷◌, ◌++◌,
  append_assoc, append-nil, length, length-append, length-set, length-replicate, get_or, replicate,
  ◌==◌, if◌then◌else◌, arith, All, ◌||◌, Bool-cases, ==_iff, ◌⊎◌, inl, inr,
}
use kinz.Pool.{
  Pool, Task, Worker, Status, new_worker, of_conn, new_pool, start_worker_pool, stop_worker_pool,
  uses_pool, worker_of, queue_at, put_worker,
}
use kinz.Pool.Queues.{of_conn-append, of_conn_last, of_conn_middle, get_or-put, get_or-replicate}

-- The workers are there, as many as the pool has, from the start of the pool on.
abbrev pub IsSized : Pool → Type 0
IsSized p =
    ((p.workers ≡ []) × (p.created ≡ false))
    ⊎ ((length p.workers ≡ p.size) × (0 < p.size) × (p.created ≡ true))

pub record Inv (p : Pool) : Type 0 where
  pub sized : IsSized p
  pub idle : p.workers ≡ [] → p.in_flight ≡ []
  pub placed : (w : ℕ) → All (λ t. worker_of p t ≡ w) (queue_at p w)
  pub bounded : (w : ℕ) → length (queue_at p w) ≤ p.max_len
  pub single : (c : ℕ) → length (of_conn c p.in_flight) ≤ 1
  pub ordered :
      (c : ℕ)
      → of_conn c p.log ++ (of_conn c (queue_at p (c % p.size)) ++ of_conn c p.in_flight)
        ≡ of_conn c p.sent

pub new_pool-Inv : (size max_len : ℕ) → Inv (new_pool size max_len)
unfolding new_pool
new_pool-Inv size max_len = record {
  sized = inl (refl, refl);
  idle = λ _. refl;
  placed = λ w. tt;
  bounded = λ w. omega arith;
  single = λ c. omega arith;
  ordered = λ c. refl;
}

-- Fresh workers have empty queues.
fresh_queue : (p : Pool) (w : ℕ) → (get_or (replicate p.size new_worker) w new_worker).queue ≡ []
fresh_queue p w = ap (λ (x : Worker). x.queue) (get_or-replicate p.size w)

created-Inv :
    (p : Pool)
    → p.created ≡ false
    → 0 < p.size
    → Inv p
    → Inv (record p { created = true; active = true; workers = replicate p.size new_worker })
created-Inv p c h v = record {
  sized = inr (length-replicate p.size new_worker, h, refl);
  idle = λ e. v.idle none_yet;
  placed = λ w. rw (fresh_queue p w) tt;
  bounded = λ w. rw (fresh_queue p w) (omega arith);
  single = v.single;
  ordered = λ k. ground (
    arith,
    v.ordered k,
    fresh_queue p (k % p.size),
    ap (λ (ws : List Worker). (get_or ws (k % p.size) new_worker).queue) none_yet,
  );
}
  where
    none_yet : p.workers ≡ []
    none_yet = ground (arith, v.sized)

pub start-Inv : {p : Pool} → Inv p → Inv (start_worker_pool p)
unfolding start_worker_pool
start-Inv {p} v = elim (Bool-cases (p.created || p.size == 0)) [
  | inl e ↦ rw (e, start_worker_pool) v
  | inr e ↦ rw (e, start_worker_pool) (created-Inv p (ground (arith, e)) (ground (arith, e)) v)
]

cancelled-Inv : {p : Pool} → Inv p → Inv (record p { active = false; cancelled = true })
cancelled-Inv v = record {
  sized = v.sized;
  idle = v.idle;
  placed = v.placed;
  bounded = v.bounded;
  single = v.single;
  ordered = v.ordered;
}

if-Inv : (b : Bool) {p q : Pool} → Inv p → Inv q → Inv (if b then p else q)
if-Inv true v w = v
if-Inv false v w = w

pub stop-Inv : {p : Pool} → Inv p → Inv (stop_worker_pool p)
unfolding stop_worker_pool
stop-Inv {p} v = if-Inv p.active (cancelled-Inv v) v

pub choose-Inv :
    (p : Pool) (t : Task)
    → uses_pool p ≡ true
    → of_conn t.conn_id p.in_flight ≡ []
    → Inv p
    → Inv (record p { in_flight = p.in_flight ++ (t ∷ []); sent = p.sent ++ (t ∷ []) })
unfolding uses_pool
choose-Inv p t used alone v = record {
  sized = v.sized;
  idle = λ e. ground (arith, e);
  placed = v.placed;
  bounded = v.bounded;
  single = λ c. ground (arith, of_conn_last c p.in_flight t, v.single c);
  ordered = λ c. ground (
    arith,
    of_conn_last c p.in_flight t,
    of_conn_last c p.sent t,
    v.ordered c,
    append_assoc (of_conn c p.log) (of_conn c (queue_at p (c % p.size))) (t ∷ []),
    append-nil (of_conn c (queue_at p (c % p.size))),
  );
}

middle-ne-nil : (before after : List Task) (t : Task) → before ++ (t ∷ after) ≢ []
middle-ne-nil [] after t e = cc
middle-ne-nil (x ∷ before) after t e = cc

-- A request in flight goes to a worker that is there.
in_range :
    (p : Pool) (t : Task) (before after : List Task)
    → Inv p
    → p.in_flight ≡ before ++ (t ∷ after)
    → worker_of p t < length p.workers
in_range p t before after v e = sized v.sized
  where
    sized : IsSized p → worker_of p t < length p.workers
    sized (inl (none_yet, _)) = absurd (middle-ne-nil before after t (sym e ∙ v.idle none_yet))
    sized (inr (all, some_there, _)) = omega arith

-- Requests leave the flight, and the queue of one worker changes: what is to be shown of it.
module _ (p : Pool) (v : Inv p) (t : Task) (before after q log' : List Task) (s : Status)
    (e : p.in_flight ≡ before ++ (t ∷ after)) where
  unfoldable pub landed : Pool
  landed = record p {
    in_flight = before ++ after;
    workers = put_worker p (worker_of p t) q s;
    log = log';
  }

  landed_queue : (w : ℕ) → queue_at landed w ≡ (if worker_of p t == w then q else queue_at p w)
  unfolding landed
  landed_queue w = ground (
    arith,
    get_or-put p.workers (worker_of p t) w (record { queue = q; status = s })
        (in_range p t before after v e),
  )

  landed_single : (c : ℕ) → length (of_conn c (before ++ after)) ≤ 1
  landed_single c = ground (
    arith,
    v.single c,
    e,
    of_conn_middle c before after t,
    of_conn-append c before after,
    length-append (of_conn c before) (of_conn c after),
    length-append (of_conn c before) (t ∷ of_conn c after),
  )

  landed_placed :
      All (λ u. worker_of p u ≡ worker_of p t) q
      → (w : ℕ) → All (λ u. worker_of p u ≡ w) (queue_at landed w)
  landed_placed h w = rw (landed_queue w) (elim (Bool-cases (worker_of p t == w)) [
    | inl same ↦
        rw same
          (subst (λ (k : ℕ). All (λ u. worker_of p u ≡ k) q) ((==_iff (worker_of p t) w).0 same) h)
    | inr other ↦ rw other (v.placed w)
  ])

  landed_ordered :
      ((c : ℕ)
        → c % p.size ≡ worker_of p t
        → of_conn c log' ++ (of_conn c q ++ of_conn c (before ++ after)) ≡ of_conn c p.sent)
      → ((c : ℕ) → c ≢ t.conn_id → of_conn c log' ≡ of_conn c p.log)
      → (c : ℕ)
      → of_conn c log' ++ (of_conn c (queue_at landed (c % p.size)) ++ of_conn c (before ++ after))
        ≡ of_conn c p.sent
  landed_ordered at_worker elsewhere c = elim (Bool-cases (worker_of p t == c % p.size)) [
    | inl same ↦
        rw (landed_queue (c % p.size), same)
          (at_worker c (sym ((==_iff (worker_of p t) (c % p.size)).0 same)))
    | inr other ↦
        rw (landed_queue (c % p.size), other)
          (ground (arith, other, elsewhere c, v.ordered c, e, of_conn_middle c before after t))
  ]

  pub landed-Inv :
      All (λ u. worker_of p u ≡ worker_of p t) q
      → length q ≤ p.max_len
      → ((c : ℕ)
          → c % p.size ≡ worker_of p t
          → of_conn c log' ++ (of_conn c q ++ of_conn c (before ++ after)) ≡ of_conn c p.sent)
      → ((c : ℕ) → c ≢ t.conn_id → of_conn c log' ≡ of_conn c p.log)
      → Inv landed
  unfolding landed
  landed-Inv placed bounded at_worker elsewhere = record {
    sized = ground (
      arith,
      v.sized,
      in_range p t before after v e,
      length-set p.workers (worker_of p t) (record { queue = q; status = s }),
    );
    idle = λ z. absurd (
        omega (
          arith,
          ap (length {A = Worker}) z,
          length-set p.workers (worker_of p t) (record { queue = q; status = s }),
          in_range p t before after v e,
        ));
    placed = landed_placed placed;
    bounded = λ w. rw (landed_queue w) (ground (arith, bounded, v.bounded w));
    single = landed_single;
    ordered = landed_ordered at_worker elsewhere;
  }
