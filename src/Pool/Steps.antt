-- ===== src/Pool/Steps.antt =====
-- Every step of the worker pool of knet/msgHandler.go keeps the invariant.
use kinz.Base.{
  ℕ, zero, suc, ◌%◌, ◌<◌, ◌≡◌, refl, ap, subst, ◌∙◌, List, [], ◌∷◌, ◌++◌, append_assoc, append-nil,
  length, length-append, length-set, set, ◌==◌, if◌then◌else◌, arith, All, All-append, Bool-cases,
  ==_iff, inl, inr,
}
use kinz.Pool.{
  Pool, Task, Worker, Status, waiting, executing, exited, of_conn, new_pool, worker_of, worker_at,
  queue_at, put_worker, Step, start, stop, choose, spawn, deliver, hand_over, take, finish, exit,
  Reach, here, further,
}
use kinz.Pool.Queues.{
  of_conn_last, of_conn_middle, of_conn_single, get_or-put, in_range_of_queue, queue-put_same,
}
use kinz.Pool.Invariant.{
  Inv, IsSized, new_pool-Inv, start-Inv, stop-Inv, choose-Inv, landed, landed-Inv,
}

module _ (p : Pool) (v : Inv p) (t : Task) (before after : List Task)
    (e : p.in_flight ≡ before ++ (t ∷ after)) where
  -- The queue of the worker that serves a connection, as `ordered` speaks of it.
  at_worker_ordered :
      (c : ℕ)
      → c % p.size ≡ worker_of p t
      → of_conn c p.log ++ (of_conn c (queue_at p (worker_of p t)) ++ of_conn c p.in_flight)
        ≡ of_conn c p.sent
  at_worker_ordered c h = rw (← h) (v.ordered c)

  -- If the connection is the request's own, the request is all that it has in flight.
  own_flight :
      (c : ℕ)
      → t.conn_id ≡ c
      → (of_conn c (before ++ after) ≡ []) × (of_conn c p.in_flight ≡ t ∷ [])
  own_flight c h = rw (← h, e) (of_conn_single before after t (rw (← e) (v.single t.conn_id)))

  deliver-Inv :
      length (queue_at p (worker_of p t)) < p.max_len
      → Inv (record p {
        in_flight = before ++ after;
        workers =
            put_worker p
              (worker_of p t)
              (queue_at p (worker_of p t) ++ (t ∷ []))
              (worker_at p (worker_of p t)).status;
      })
  unfolding landed
  deliver-Inv room =
      landed-Inv p v t before after (queue_at p (worker_of p t) ++ (t ∷ [])) p.log
        (worker_at p (worker_of p t)).status e
        (All-append (λ u. worker_of p u ≡ worker_of p t) (queue_at p (worker_of p t)) (t ∷ [])
          (v.placed (worker_of p t)) (refl, tt))
        (omega (arith, length-append (queue_at p (worker_of p t)) (t ∷ []), room))
        (λ c h. ground (
          arith,
          at_worker_ordered c h,
          own_flight c,
          e,
          of_conn_middle c before after t,
          of_conn_last c (queue_at p (worker_of p t)) t,
          append-nil (of_conn c (queue_at p (worker_of p t)) ++ (t ∷ [])),
        ))
        (λ c h. refl)

  hand_over-Inv :
      queue_at p (worker_of p t) ≡ []
      → Inv (record p {
        in_flight = before ++ after;
        workers = put_worker p (worker_of p t) [] executing;
        log = p.log ++ (t ∷ []);
      })
  unfolding landed
  hand_over-Inv empty =
      landed-Inv p v t before after [] (p.log ++ (t ∷ [])) executing e tt (omega arith)
        (λ c h. ground (
          arith,
          at_worker_ordered c h,
          own_flight c,
          e,
          of_conn_middle c before after t,
          of_conn_last c p.log t,
          empty,
          append-nil (of_conn c p.log ++ (t ∷ [])),
        ))
        (λ c h. ground (arith, of_conn_last c p.log t, h))

set-nil : (ws : List Worker) (w : ℕ) (x : Worker) → set ws w x ≡ [] → ws ≡ []
set-nil [] w x e = refl
set-nil (y ∷ ws) zero x e = cc
set-nil (y ∷ ws) (suc w) x e = cc

put-IsSized :
    (p : Pool) (w : ℕ) (x : Worker) → IsSized p → IsSized (record p { workers = set p.workers w x })
put-IsSized p w x (inl (e, c)) = inl (rw e, c)
put-IsSized p w x (inr (e, h, c)) = inr (length-set p.workers w x ∙ e, h, c)

-- A worker changes its status only.
status-Inv :
    (p : Pool) (w : ℕ) (q : List Task) (s : Status)
    → queue_at p w ≡ q
    → Inv p
    → Inv (record p { workers = put_worker p w q s })
status-Inv p w q s e v = record {
  sized = put-IsSized p w (record { queue = q; status = s }) v.sized;
  idle = λ z. v.idle (set-nil p.workers w (record { queue = q; status = s }) z);
  placed = λ k. rw (queue-put_same p.workers w k q s e) (v.placed k);
  bounded = λ k. rw (queue-put_same p.workers w k q s e) (v.bounded k);
  single = v.single;
  ordered = λ c. rw (queue-put_same p.workers w (c % p.size) q s e) (v.ordered c);
}

module _ (p : Pool) (v : Inv p) (w : ℕ) (t : Task) (rest : List Task)
    (e : queue_at p w ≡ t ∷ rest) where
  taken : Pool
  taken = record p { workers = put_worker p w rest executing; log = p.log ++ (t ∷ []) }

  taken_queue : (k : ℕ) → queue_at taken k ≡ (if w == k then rest else queue_at p k)
  unfolding taken
  taken_queue k = ground (
    arith,
    get_or-put p.workers w k (record { queue = rest; status = executing })
        (in_range_of_queue p.workers w e),
  )

  -- The request that is taken is in the queue of its own connection.
  taken_placed : (worker_of p t ≡ w) × All (λ u. worker_of p u ≡ w) rest
  taken_placed = subst (All (λ (u : Task). worker_of p u ≡ w)) e (v.placed w)

  taken_ordered :
      (c : ℕ)
      → of_conn c (p.log ++ (t ∷ []))
          ++ (of_conn c (queue_at taken (c % p.size)) ++ of_conn c p.in_flight)
        ≡ of_conn c p.sent
  taken_ordered c = elim (Bool-cases (w == c % p.size)) [
    | inl same ↦
        rw (taken_queue (c % p.size), same)
          (ground (
            arith,
            of_conn_last c p.log t,
            v.ordered c,
            ap (queue_at p) ((==_iff w (c % p.size)).0 same),
            e,
            append_assoc (of_conn c p.log) (t ∷ []) (of_conn c rest ++ of_conn c p.in_flight),
          ))
    | inr other ↦
        rw (taken_queue (c % p.size), other)
          (ground (arith, other, of_conn_last c p.log t, v.ordered c, taken_placed.0))
  ]

  take-Inv : Inv (record p { workers = put_worker p w rest executing; log = p.log ++ (t ∷ []) })
  unfolding taken
  take-Inv = record {
    sized = put-IsSized p w (record { queue = rest; status = executing }) v.sized;
    idle = λ z. v.idle (set-nil p.workers w (record { queue = rest; status = executing }) z);
    placed = λ k. rw (taken_queue k) (elim (Bool-cases (w == k)) [
      | inl same ↦ rw same (
          subst (λ (j : ℕ). All (λ u. worker_of p u ≡ j) rest) ((==_iff w k).0 same) taken_placed.1)
      | inr other ↦ rw other (v.placed k)
    ]);
    bounded = λ k.
        rw (taken_queue k) (ground (arith, v.bounded k, v.bounded w, ap (length {A = Task}) e));
    single = v.single;
    ordered = taken_ordered;
  }

spawn-Inv : (p : Pool) (ts : List Task) → Inv p → Inv (record p { spawned = ts })
spawn-Inv p ts v = record {
  sized = v.sized;
  idle = v.idle;
  placed = v.placed;
  bounded = v.bounded;
  single = v.single;
  ordered = v.ordered;
}

pub Step-Inv : {p q : Pool} → Step p q → Inv p → Inv q
Step-Inv start v = start-Inv v
Step-Inv stop v = stop-Inv v
Step-Inv {p} (choose t used alone) v = choose-Inv p t used alone v
Step-Inv {p} (spawn t unused alone) v = spawn-Inv p (p.spawned ++ (t ∷ [])) v
Step-Inv {p} (deliver t before after e room) v = deliver-Inv p v t before after e room
Step-Inv {p} (hand_over t before after e free empty) v = hand_over-Inv p v t before after e empty
Step-Inv {p} (take w t rest free e) v = take-Inv p v w t rest e
Step-Inv {p} (finish w busy) v = status-Inv p w (queue_at p w) waiting refl v
Step-Inv {p} (exit w done free empty) v = status-Inv p w [] exited empty v

pub Reach-Inv : {p q : Pool} → Reach p q → Inv p → Inv q
Reach-Inv here v = v
Reach-Inv (further r s) v = Step-Inv s (Reach-Inv r v)

pub new_pool-Reach-Inv : (size max_len : ℕ) {p : Pool} → Reach (new_pool size max_len) p → Inv p
new_pool-Reach-Inv size max_len r = Reach-Inv r (new_pool-Inv size max_len)
