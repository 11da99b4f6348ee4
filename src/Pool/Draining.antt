-- ===== src/Pool/Draining.antt =====
-- A worker of knet/msgHandler.go whose pool was stopped drains its queue and exits. The child Wait
-- says that so the wait of `StopWorkerPool` can end, Executed what a worker has executed by the
-- time it exits.
pub mod Wait
pub mod Executed
use kinz.Base.{
  ℕ, zero, suc, ◌+◌, ◌≤◌, ◌<◌, ◌≡◌, ◌≢◌, ◌⊎◌, refl, sym, ap, ap₂, subst, ◌∙◌, Bool, true, false,
  List, [], ◌∷◌, ◌++◌, append_assoc, append-nil, map, inl, inr, length, length-set, get_or,
  get_or-set_self, get_or-set_ne, take as prefix, arith,
}
use kinz.Pool.{
  Task, Status, waiting, executing, exited, Worker, new_worker, Pool, worker_at, queue_at,
  put_worker, Step, take, finish, exit, Reach, here, further,
}

-- What a worker has still to execute: nothing once it has exited.
abbrev pub todo_in : Status → List Task → List Task
todo_in exited queue = []
todo_in waiting queue = queue
todo_in executing queue = queue

abbrev pub todo : Worker → List Task
todo x = todo_in x.status x.queue

abbrev pub todo_all : List Worker → List Task
todo_all [] = []
todo_all (x ∷ xs) = todo x ++ todo_all xs

-- What stays in its queue for ever.
abbrev pub left_in : Status → List Task → List Task
left_in exited queue = queue
left_in waiting queue = []
left_in executing queue = []

abbrev pub gone : Worker → Worker
gone x = record { queue = left_in x.status x.queue; status = exited }

-- `q` comes from `p` by steps of worker `w`, which in `q` is out and has executed what it had to.
pub record Drained (w : ℕ) (p q : Pool) : Type 0 where
  pub reached : Reach p q
  pub own : worker_at q w ≡ gone (worker_at p w)
  pub others : (j : ℕ) → j ≢ w → worker_at q j ≡ worker_at p j
  pub still_cancelled : q.cancelled ≡ true
  pub same_size : length q.workers ≡ length p.workers
  pub executed : q.log ≡ p.log ++ todo (worker_at p w)

pub join : {p q r : Pool} → Reach p q → Reach q r → Reach p r
join s here = s
join s (further t u) = further (join s t) u

worker-put_self :
    (p : Pool) (w : ℕ) (queue : List Task) (status : Status)
    → w < length p.workers
    → get_or (put_worker p w queue status) w new_worker ≡ record { queue = queue; status = status }
worker-put_self p w queue status h = get_or-set_self p.workers w _ new_worker h

worker-put_ne :
    (p : Pool) (w j : ℕ) (queue : List Task) (status : Status)
    → j ≢ w
    → get_or (put_worker p w queue status) j new_worker ≡ worker_at p j
worker-put_ne p w j queue status ne = get_or-set_ne p.workers _ new_worker (λ e. ne (sym e))

-- A worker is its queue and its status.
of_fields :
    (x : Worker) (queue : List Task) (status : Status)
    → x.queue ≡ queue
    → x.status ≡ status
    → x ≡ record { queue = queue; status = status }
of_fields x queue status e f = ap₂ (λ q s. record { queue = q; status = s }) e f

module _ (w : ℕ) where
  leave :
      (p : Pool)
      → w < length p.workers
      → p.cancelled ≡ true
      → (worker_at p w) ≡ record { queue = []; status = waiting }
      → Drained w p (record p { workers = put_worker p w [] exited })
  leave p h c e = record {
    reached =
        further here (exit w c (ap (λ (x : Worker). x.status) e) (ap (λ (x : Worker). x.queue) e));
    own = worker-put_self p w [] exited h ∙ sym (ap gone e);
    others = λ j ne. worker-put_ne p w j [] exited ne;
    still_cancelled = c;
    same_size = length-set p.workers w _;
    executed = sym (append-nil p.log) ∙ ap (◌++◌ p.log) (sym (ap todo e));
  }

  -- The worker ends the request that it executes.
  finished : Pool → Pool
  finished p = record p { workers = put_worker p w (queue_at p w) waiting }

  taken : Pool → Task → List Task → Pool
  taken p t ts = record p { workers = put_worker p w ts executing; log = p.log ++ (t ∷ []) }

  drain_executing :
      (p : Pool) (queue : List Task)
      → w < length p.workers
      → worker_at p w ≡ record { queue = queue; status = executing }
      → ((q : Pool) × Drained w (finished p) q)
      → (q : Pool) × Drained w p q
  unfolding finished
  drain_executing p queue h e (q, d) =
      let back = worker-put_self p w (queue_at p w) waiting h in
      (
        q,
        record {
          reached = join (further here (finish w (ap (λ (x : Worker). x.status) e))) d.reached;
          own = d.own ∙ ap gone back ∙ sym (ap gone e);
          others = λ j ne. d.others j ne ∙ worker-put_ne p w j (queue_at p w) waiting ne;
          still_cancelled = d.still_cancelled;
          same_size = d.same_size ∙ length-set p.workers w _;
          executed =
              d.executed
              ∙ ap (◌++◌ p.log) (ap todo back ∙ ap (λ (x : Worker). x.queue) e ∙ sym (ap todo e));
        },
      )

  drain_waiting :
      (queue : List Task) (p : Pool)
      → w < length p.workers
      → p.cancelled ≡ true
      → worker_at p w ≡ record { queue = queue; status = waiting }
      → (q : Pool) × Drained w p q
  unfolding taken finished
  drain_waiting [] p h c e = (_, leave p h c e)
  drain_waiting (t ∷ ts) p h c e =
      let p' = taken p t ts in
      let busy = worker-put_self p w ts executing h in
      let h' : w < length p'.workers =
        subst (λ (n : ℕ). w < n) (sym (length-set p.workers w _)) h in
      let (q, d) = drain_executing p' ts h' busy (
        drain_waiting ts (finished p')
          (subst (λ (n : ℕ). w < n) (sym (length-set p'.workers w _)) h') c
          (worker-put_self p' w (queue_at p' w) waiting h'
            ∙ ap (λ (k : List Task). record { queue = k; status = waiting })
                (ap (λ (x : Worker). x.queue) busy))) in
      (
        q,
        record {
          reached =
              join
                (further here
                  (take w t ts (ap (λ (x : Worker). x.status) e) (ap (λ (x : Worker). x.queue) e)))
                d.reached;
          own = d.own ∙ ap gone busy ∙ sym (ap gone e);
          others = λ j ne. d.others j ne ∙ worker-put_ne p w j ts executing ne;
          still_cancelled = d.still_cancelled;
          same_size = d.same_size ∙ length-set p.workers w _;
          executed =
              d.executed
              ∙ ap (◌++◌ (p.log ++ (t ∷ []))) (ap todo busy)
              ∙ append_assoc p.log (t ∷ []) ts
              ∙ ap (◌++◌ p.log) (sym (ap todo e));
        },
      )

  stays :
      (p : Pool) (queue : List Task)
      → p.cancelled ≡ true
      → worker_at p w ≡ record { queue = queue; status = exited }
      → Drained w p p
  stays p queue c e = record {
    reached = here;
    own = e ∙ sym (ap gone e);
    others = λ j ne. refl;
    still_cancelled = c;
    same_size = refl;
    executed = sym (append-nil p.log) ∙ ap (◌++◌ p.log) (sym (ap todo e));
  }

  pub drain : (p : Pool) → w < length p.workers → p.cancelled ≡ true → (q : Pool) × Drained w p q
  unfolding finished
  drain p h c = go (worker_at p w).status refl
    where
      go : (s : Status) → (worker_at p w).status ≡ s → (q : Pool) × Drained w p q
      go waiting e = drain_waiting _ p h c (of_fields (worker_at p w) _ waiting refl e)
      go exited e = (p, stays p _ c (of_fields (worker_at p w) _ exited refl e))
      go executing e = drain_executing p _ h (of_fields (worker_at p w) _ executing refl e) (
          drain_waiting _ (finished p) (subst (λ (n : ℕ). w < n) (sym (length-set p.workers w _)) h)
            c (worker-put_self p w (queue_at p w) waiting h))
