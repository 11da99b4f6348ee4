-- ===== src/Pool/Draining/Executed.antt =====
-- What a worker of knet/msgHandler.go has executed when it exits, whatever the scheduler does.
use kinz.Base.{
  ℕ, zero, suc, ap₂, ◌≡◌, ◌≢◌, refl, sym, ap, subst, ◌∙◌, true, List, [], ◌∷◌, ◌++◌, append_assoc,
  append-nil, get_or, set, inl, inr, ◌⊎◌, arith,
}
use kinz.Pool.{
  Task, Status, waiting, executing, exited, Worker, new_worker, Pool, start_worker_pool,
  stop_worker_pool, worker_of, worker_at, queue_at, Step, start, stop, choose, spawn, deliver,
  hand_over, take, finish, exit, Reach, here, further,
}
use kinz.Pool.Stopped.{start_created, workers-stop, Reach-created}
use kinz.Pool.Draining.{todo_in, todo}

-- The first list stands in the second, in order, with anything between.
pub data InOrder : List Task → List Task → Type 0 where
  nothing : {ys : List Task} → InOrder [] ys
  both : {x : Task} {xs ys : List Task} → InOrder xs ys → InOrder (x ∷ xs) (x ∷ ys)
  between : {y : Task} {xs ys : List Task} → InOrder xs ys → InOrder xs (y ∷ ys)

InOrder-refl : (xs : List Task) → InOrder xs xs
InOrder-refl [] = nothing
InOrder-refl (x ∷ xs) = both (InOrder-refl xs)

InOrder-append : {xs ys : List Task} (zs : List Task) → InOrder xs ys → InOrder xs (ys ++ zs)
InOrder-append zs nothing = nothing
InOrder-append zs (both h) = both (InOrder-append zs h)
InOrder-append zs (between h) = between (InOrder-append zs h)

InOrder-insert :
    {xs : List Task} (front : List Task) (t : Task) (bs : List Task)
    → InOrder xs (front ++ bs)
    → InOrder xs ((front ++ (t ∷ [])) ++ bs)
InOrder-insert [] t bs h = between h
InOrder-insert (a ∷ front) t bs nothing = nothing
InOrder-insert (a ∷ front) t bs (both h) = both (InOrder-insert front t bs h)
InOrder-insert (a ∷ front) t bs (between h) = between (InOrder-insert front t bs h)

-- What `xs` is to have been executed of, from `p` on: the log has grown by `since`, and `xs` stands in
-- that and what the worker has still to do.
record Due (xs : List Task) (w : ℕ) (p q : Pool) : Type 0 where
  since : List Task
  logged : q.log ≡ p.log ++ since
  due : InOrder xs (since ++ todo (worker_at q w))

-- A step that logs nothing and leaves the worker as much to do, or more.
more-Due :
    {xs : List Task} {w : ℕ} {p q : Pool} (r : Pool) (extra : List Task)
    → r.log ≡ q.log
    → todo (worker_at r w) ≡ todo (worker_at q w) ++ extra
    → Due xs w p q
    → Due xs w p r
more-Due {xs} {w} {p} {q} r extra l e d = record {
  since = d.since;
  logged = l ∙ d.logged;
  due =
      subst (InOrder xs)
        (append_assoc d.since (todo (worker_at q w)) extra ∙ ap (◌++◌ d.since) (sym e))
        (InOrder-append extra d.due);
}

same-Due :
    {xs : List Task} {w : ℕ} {p q : Pool} (r : Pool)
    → r.log ≡ q.log
    → todo (worker_at r w) ≡ todo (worker_at q w)
    → Due xs w p q
    → Due xs w p r
same-Due {xs} {w} {p} {q} r l e d = more-Due r [] l (e ∙ sym (append-nil _)) d

-- Another worker executes a request.
other-Due :
    {xs : List Task} {w : ℕ} {p q : Pool} (r : Pool) (t : Task)
    → r.log ≡ q.log ++ (t ∷ [])
    → todo (worker_at r w) ≡ todo (worker_at q w)
    → Due xs w p q
    → Due xs w p r
other-Due {xs} {w} {p} {q} r t l e d = record {
  since = d.since ++ (t ∷ []);
  logged =
      l ∙ ap (λ (ts : List Task). ts ++ (t ∷ [])) d.logged ∙ append_assoc p.log d.since (t ∷ []);
  due =
      subst (λ (ts : List Task). InOrder xs ((d.since ++ (t ∷ [])) ++ ts)) (sym e)
        (InOrder-insert d.since t (todo (worker_at q w)) d.due);
}

-- The worker itself does.
own-Due :
    {xs : List Task} {w : ℕ} {p q : Pool} (r : Pool) (t : Task)
    → r.log ≡ q.log ++ (t ∷ [])
    → t ∷ todo (worker_at r w) ≡ todo (worker_at q w)
    → Due xs w p q
    → Due xs w p r
own-Due {xs} {w} {p} {q} r t l e d = record {
  since = d.since ++ (t ∷ []);
  logged =
      l ∙ ap (λ (ts : List Task). ts ++ (t ∷ [])) d.logged ∙ append_assoc p.log d.since (t ∷ []);
  due =
      subst (InOrder xs)
        (ap (◌++◌ d.since) (sym e) ∙ sym (append_assoc d.since (t ∷ []) (todo (worker_at r w))))
        d.due;
}

-- The workers after one of them was written back.
put_cases :
    (ws : List Worker) (k w : ℕ) (x : Worker)
    → ((k ≡ w) × (get_or (set ws k x) w new_worker ≡ x))
      ⊎ (get_or (set ws k x) w new_worker ≡ get_or ws w new_worker)
put_cases [] k w x = inr refl
put_cases (y ∷ ws) zero zero x = inl (refl, refl)
put_cases (y ∷ ws) zero (suc w) x = inr refl
put_cases (y ∷ ws) (suc k) zero x = inr refl
put_cases (y ∷ ws) (suc k) (suc w) x = elim (put_cases ws k w x) [
  | inl (e, put) ↦ inl (ap suc e, put)
  | inr same ↦ inr same
]

todo_push :
    (s : Status) (queue : List Task) (t : Task)
    → (extra : List Task) × (todo_in s (queue ++ (t ∷ [])) ≡ todo_in s queue ++ extra)
todo_push waiting queue t = (t ∷ [], refl)
todo_push executing queue t = (t ∷ [], refl)
todo_push exited queue t = ([], refl)

-- What a worker in a given state has to do.
todo_at :
    (p : Pool) (k w : ℕ) (s : Status) (queue : List Task)
    → k ≡ w
    → (worker_at p k).status ≡ s
    → queue_at p k ≡ queue
    → todo (worker_at p w) ≡ todo_in s queue
todo_at p k w s queue self e f = ap (λ (i : ℕ). todo (worker_at p i)) (sym self) ∙ ap₂ todo_in e f

Step-Due :
    {xs : List Task} {w : ℕ} {p q r : Pool}
    → q.created ≡ true
    → Step q r
    → Due xs w p q
    → Due xs w p r
unfolding stop_worker_pool start_worker_pool
Step-Due {w = w} {q = q} c start d =
    same-Due (start_worker_pool q) (ground (arith, c))
      (ap (λ (ws : List Worker). todo (get_or ws w new_worker)) (start_created q c)) d
Step-Due {w = w} {q = q} c stop d =
    same-Due (stop_worker_pool q) (ground arith)
      (ap (λ (ws : List Worker). todo (get_or ws w new_worker)) (workers-stop q)) d
Step-Due {q = q} c (choose t used alone) d = same-Due _ refl refl d
Step-Due {q = q} c (spawn t unused alone) d = same-Due _ refl refl d
Step-Due {w = w} {q = q} c (deliver t before after e room) d =
    let k = worker_of q t in
    elim (put_cases q.workers k w
      (record { queue = queue_at q k ++ (t ∷ []); status = (worker_at q k).status })) [
        | inl (self, put) ↦
            let (extra, pushed) = todo_push (worker_at q k).status (queue_at q k) t in
            more-Due _ extra refl
              (ap todo put ∙ pushed ∙ ap (λ (i : ℕ). todo (worker_at q i) ++ extra) self) d
        | inr same ↦ same-Due _ refl (ap todo same) d
      ]
Step-Due {w = w} {q = q} c (hand_over t before after e free empty) d =
    let k = worker_of q t in
    elim (put_cases q.workers k w (record { queue = []; status = executing })) [
      | inl (self, put) ↦
          other-Due _ t refl (ap todo put ∙ sym (todo_at q k w waiting [] self free empty)) d
      | inr same ↦ other-Due _ t refl (ap todo same) d
    ]
Step-Due {w = w} {q = q} c (take k t rest free e) d =
    elim (put_cases q.workers k w (record { queue = rest; status = executing })) [
      | inl (self, put) ↦
          own-Due _ t refl
            (ap (λ (x : Worker). t ∷ todo x) put
              ∙ sym (todo_at q k w waiting (t ∷ rest) self free e))
            d
      | inr same ↦ other-Due _ t refl (ap todo same) d
    ]
Step-Due {w = w} {q = q} c (finish k busy) d =
    elim (put_cases q.workers k w (record { queue = queue_at q k; status = waiting })) [
      | inl (self, put) ↦
          same-Due _ refl
            (ap todo put ∙ sym (todo_at q k w executing (queue_at q k) self busy refl)) d
      | inr same ↦ same-Due _ refl (ap todo same) d
    ]
Step-Due {w = w} {q = q} c (exit k over free empty) d =
    elim (put_cases q.workers k w (record { queue = []; status = exited })) [
      | inl (self, put) ↦
          same-Due _ refl (ap todo put ∙ sym (todo_at q k w waiting [] self free empty)) d
      | inr same ↦ same-Due _ refl (ap todo same) d
    ]

todo_of_running : (x : Worker) (s : Status) → x.status ≡ s → s ≢ exited → todo x ≡ x.queue
todo_of_running x waiting e ne = ap (λ (s : Status). todo_in s x.queue) e
todo_of_running x executing e ne = ap (λ (s : Status). todo_in s x.queue) e
todo_of_running x exited e ne = absurd (ne refl)

Reach-Due :
    (p q : Pool) (w : ℕ)
    → p.created ≡ true
    → (worker_at p w).status ≢ exited
    → Reach p q
    → Due (queue_at p w) w p q
Reach-Due p q w c ne here = record {
  since = [];
  logged = sym (append-nil p.log);
  due =
      subst (InOrder (queue_at p w))
        (sym (todo_of_running (worker_at p w) (worker_at p w).status refl ne))
        (InOrder-refl (queue_at p w));
}
Reach-Due p q w c ne (further {q = m} r s) = Step-Due (Reach-created r c) s (Reach-Due p m w c ne r)

-- Whatever the scheduler does: when a worker has exited, then every request that was in its queue in
-- an earlier state of the started pool, in which the worker had not exited, has been executed since,
-- and these in the order of the queue.
pub exited-InOrder :
    (p q : Pool) (w : ℕ)
    → p.created ≡ true
    → (worker_at p w).status ≢ exited
    → Reach p q
    → (worker_at q w).status ≡ exited
    → (since : List Task) × (q.log ≡ p.log ++ since) × InOrder (queue_at p w) since
exited-InOrder p q w c ne r out =
    let d = Reach-Due p q w c ne r in
    let over : todo (worker_at q w) ≡ [] = ap (λ (s : Status). todo_in s (queue_at q w)) out in
    (
      d.since,
      d.logged,
      subst (InOrder (queue_at p w)) (ap (◌++◌ d.since) over ∙ append-nil d.since) d.due,
    )
