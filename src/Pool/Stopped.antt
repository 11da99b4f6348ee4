-- ===== src/Pool/Stopped.antt =====
-- What becomes of the worker pool of knet/msgHandler.go after `StopWorkerPool`.
use kinz.Base.{
  ℕ, zero, suc, ◌%◌, ◌<◌, ◌≡◌, ◌≢◌, refl, ap, sym, ◌∙◌, true, false, List, [], ◌∷◌, ◌++◌,
  append_assoc, append-nil, length, get_or, get_or-set_ne, set, ◌==◌, if_false, arith, Bool-cases,
  ==_iff, inl, inr,
}
use kinz.Pool.{
  Pool, Task, Worker, exited, new_worker, of_conn, new_pool, start_worker_pool, stop_worker_pool,
  uses_pool, worker_of, worker_at, queue_at, Step, start, stop, choose, spawn, deliver, hand_over,
  take, finish, exit, Reach, here, further,
}
use kinz.Pool.Steps.{Reach-Inv, new_pool-Reach-Inv}
use kinz.Pool.Queues.{get_or-put}

-- A pool that was started and stopped.
pub record IsStopped (p : Pool) : Type 0 where
  pub was_created : p.created ≡ true
  pub not_active : p.active ≡ false

start-stopped : {p : Pool} → IsStopped p → start_worker_pool p ≡ p
unfolding start_worker_pool
start-stopped h = rw h.was_created

stop-stopped : {p : Pool} → IsStopped p → stop_worker_pool p ≡ p
unfolding stop_worker_pool
stop-stopped {p} h = if_false p.active _ p h.not_active

uses_pool-stopped : {p : Pool} → IsStopped p → uses_pool p ≡ false
unfolding uses_pool
uses_pool-stopped h = rw h.not_active

Step-IsStopped : {p q : Pool} → Step p q → IsStopped p → IsStopped q × (q.sent ≡ p.sent)
Step-IsStopped start h = rw (start-stopped h) (h, refl)
Step-IsStopped stop h = rw (stop-stopped h) (h, refl)
Step-IsStopped {p} (choose t used alone) h = cc (uses_pool-stopped h)
Step-IsStopped {p} (spawn t unused alone) h =
    (record { was_created = h.was_created; not_active = h.not_active }, refl)
Step-IsStopped {p} (deliver t before after e room) h =
    (record { was_created = h.was_created; not_active = h.not_active }, refl)
Step-IsStopped {p} (hand_over t before after e free empty) h =
    (record { was_created = h.was_created; not_active = h.not_active }, refl)
Step-IsStopped {p} (take w t rest free e) h =
    (record { was_created = h.was_created; not_active = h.not_active }, refl)
Step-IsStopped {p} (finish w busy) h =
    (record { was_created = h.was_created; not_active = h.not_active }, refl)
Step-IsStopped {p} (exit w done free empty) h =
    (record { was_created = h.was_created; not_active = h.not_active }, refl)

-- A pool that was stopped is never used again: whatever happens later, `StartWorkerPool` included,
-- it stays stopped, and no request is sent to a worker.
pub Reach-IsStopped : {p q : Pool} → Reach p q → IsStopped p → IsStopped q × (q.sent ≡ p.sent)
Reach-IsStopped here h = (h, refl)
Reach-IsStopped (further r s) h =
    let (k, e) = Reach-IsStopped r h in let (l, f) = Step-IsStopped s k in (l, f ∙ e)

-- What is left of an exited worker: its queue may grow, and that is all.
record Keeps (p q : Pool) (w : ℕ) : Type 0 where
  still : (worker_at q w).status ≡ exited
  extra : List Task
  grown : queue_at q w ≡ queue_at p w ++ extra

Keeps_same :
    (p q : Pool) (w : ℕ)
    → worker_at q w ≡ worker_at p w
    → (worker_at p w).status ≡ exited
    → Keeps p q w
Keeps_same p q w e h = record {
  still = rw e h;
  extra = [];
  grown = ap (λ (x : Worker). x.queue) e ∙ sym (append-nil (queue_at p w));
}

in_range_of_exited :
    (ws : List Worker) (w : ℕ) → (get_or ws w new_worker).status ≡ exited → w < length ws
in_range_of_exited [] w e = cc
in_range_of_exited (x ∷ ws) zero e = omega arith
in_range_of_exited (x ∷ ws) (suc w) e = omega (arith, in_range_of_exited ws w e)

-- A step of a worker that waits or works is not one of a worker that has exited.
put_other :
    (p : Pool) (w k : ℕ) (x : Worker)
    → (worker_at p w).status ≡ exited
    → (worker_at p k).status ≢ exited
    → get_or (set p.workers k x) w new_worker ≡ worker_at p w
put_other p w k x h other = get_or-set_ne p.workers x new_worker (λ e. other (rw e h))

pub start_created : (p : Pool) → p.created ≡ true → (start_worker_pool p).workers ≡ p.workers
unfolding start_worker_pool
start_created p c = rw c

pub workers-stop : (p : Pool) → (stop_worker_pool p).workers ≡ p.workers
unfolding stop_worker_pool
workers-stop p = ground arith

Step-Keeps :
    {p q : Pool} (w : ℕ)
    → Step p q
    → p.created ≡ true
    → (worker_at p w).status ≡ exited
    → Keeps p q w
Step-Keeps {p} w start c h =
    Keeps_same p (start_worker_pool p) w
      (ap (λ (ws : List Worker). get_or ws w new_worker) (start_created p c)) h
Step-Keeps {p} w stop c h =
    Keeps_same p (stop_worker_pool p) w
      (ap (λ (ws : List Worker). get_or ws w new_worker) (workers-stop p)) h
Step-Keeps {p} w (choose t used alone) c h = Keeps_same p _ w refl h
Step-Keeps {p} w (spawn t unused alone) c h = Keeps_same p _ w refl h
Step-Keeps {p} w (deliver t before after e room) c h = elim (Bool-cases (worker_of p t == w)) [
  | inl same ↦
      let self : worker_of p t ≡ w = (==_iff (worker_of p t) w).0 same in
      let put =
        get_or-put p.workers (worker_of p t) w
          (record {
            queue = queue_at p (worker_of p t) ++ (t ∷ []);
            status = (worker_at p (worker_of p t)).status;
          })
          (rw self (in_range_of_exited p.workers w h)) in
      record {
        still =
            ap (λ (x : Worker). x.status) put
            ∙ rw same (ap (λ (k : ℕ). (worker_at p k).status) self ∙ h);
        extra = t ∷ [];
        grown =
            ap (λ (x : Worker). x.queue) put
            ∙ rw same (ap (λ (k : ℕ). queue_at p k ++ (t ∷ [])) self);
      }
  | inr other ↦
      Keeps_same p _ w
        (get_or-set_ne p.workers
          (record {
            queue = queue_at p (worker_of p t) ++ (t ∷ []);
            status = (worker_at p (worker_of p t)).status;
          })
          new_worker (λ z. ground (arith, other, z)))
        h
]
Step-Keeps {p} w (hand_over t before after e free empty) c h =
    Keeps_same p _ w (put_other p w (worker_of p t) _ h (λ z. cc)) h
Step-Keeps {p} w (take k t rest free e) c h = Keeps_same p _ w (put_other p w k _ h (λ z. cc)) h
Step-Keeps {p} w (finish k busy) c h = Keeps_same p _ w (put_other p w k _ h (λ z. cc)) h
Step-Keeps {p} w (exit k done free empty) c h = Keeps_same p _ w (put_other p w k _ h (λ z. cc)) h

pub Step-created : {p q : Pool} → Step p q → p.created ≡ true → q.created ≡ true
unfolding start_worker_pool stop_worker_pool
Step-created start c = ground arith
Step-created stop c = ground arith
Step-created (choose t used alone) c = c
Step-created (spawn t unused alone) c = c
Step-created (deliver t before after e room) c = c
Step-created (hand_over t before after e free empty) c = c
Step-created (take k t rest free e) c = c
Step-created (finish k busy) c = c
Step-created (exit k done free empty) c = c

pub Reach-created : {p q : Pool} → Reach p q → p.created ≡ true → q.created ≡ true
Reach-created here c = c
Reach-created (further r s) c = Step-created s (Reach-created r c)

Reach-Keeps :
    {p q : Pool} (w : ℕ)
    → Reach p q
    → p.created ≡ true
    → (worker_at p w).status ≡ exited
    → Keeps p q w
Reach-Keeps {p} w here c h = Keeps_same p p w refl h
Reach-Keeps {p} w (further r s) c h =
    let k = Reach-Keeps w r c h in
    let l = Step-Keeps w s (Reach-created r c) k.still in
    record {
      still = l.still;
      extra = k.extra ++ l.extra;
      grown =
          l.grown
          ∙ ap (λ (q : List Task). q ++ l.extra) k.grown
          ∙ append_assoc (queue_at p w) k.extra l.extra;
    }

-- A request that reaches the queue of a worker that has exited is never executed: in every state
-- that can follow, the worker has exited, and the request is still in its queue.
pub exited_keeps_queue :
    (p q : Pool) (w : ℕ)
    → p.created ≡ true
    → (worker_at p w).status ≡ exited
    → Reach p q
    → ((worker_at q w).status ≡ exited)
      × (extra : List Task) × (queue_at q w ≡ queue_at p w ++ extra)
exited_keeps_queue p q w c h r = let k = Reach-Keeps w r c h in (k.still, k.extra, k.grown)

-- A run in which a request is lost. Its connection's reader has chosen the queue when the pool is
-- stopped; the worker finds its queue empty and exits; then the reader sends.
abbrev late : ℕ → Task
late tag = record { conn_id = 0; tag = tag }

abbrev pub late_pool : ℕ → Pool
late_pool tag = record {
  size = 1;
  max_len = 1;
  created = true;
  active = false;
  cancelled = true;
  workers = record { queue = late tag ∷ []; status = exited } ∷ [];
  in_flight = [];
  spawned = [];
  sent = late tag ∷ [];
  log = [];
}

late_run : (tag : ℕ) → Reach (new_pool 1 1) (late_pool tag)
unfolding new_pool start_worker_pool stop_worker_pool uses_pool
late_run tag =
    further
      (further (further (further (further here start) (choose (late tag) refl refl)) stop)
        (exit 0 refl refl refl))
      (deliver (late tag) [] [] refl (omega arith))

Step-size : {p q : Pool} → Step p q → q.size ≡ p.size
unfolding start_worker_pool stop_worker_pool
Step-size start = ground arith
Step-size stop = ground arith
Step-size (choose t used alone) = refl
Step-size (spawn t unused alone) = refl
Step-size (deliver t before after e room) = refl
Step-size (hand_over t before after e free empty) = refl
Step-size (take k t rest free e) = refl
Step-size (finish k busy) = refl
Step-size (exit k done free empty) = refl

Reach-size : {p q : Pool} → Reach p q → q.size ≡ p.size
Reach-size here = refl
Reach-size (further r s) = Step-size s ∙ Reach-size r

nothing_before : (xs ys : List Task) (t : Task) → xs ++ (t ∷ ys) ≡ t ∷ [] → xs ≡ []
nothing_before [] ys t e = refl
nothing_before (x ∷ xs) ys t e = absurd (middle_not_nil xs (cc))
  where
    middle_not_nil : (zs : List Task) → zs ++ (t ∷ ys) ≡ [] → ⊥
    middle_not_nil [] p = cc
    middle_not_nil (z ∷ zs) p = cc

nothing_begun : (tag : ℕ) (q : Pool) → Reach (late_pool tag) q → of_conn 0 q.log ≡ []
nothing_begun tag q r =
    let v = Reach-Inv r (new_pool-Reach-Inv 1 1 (late_run tag)) in
    let (_, extra, kept) = exited_keeps_queue (late_pool tag) q 0 refl refl r in
    let (_, sent) = Reach-IsStopped r (record { was_created = refl; not_active = refl }) in
    let kept' : queue_at q (0 % q.size) ≡ late tag ∷ extra =
      ap (λ (n : ℕ). queue_at q (0 % n)) (Reach-size r) ∙ kept in
    nothing_before (of_conn 0 q.log) (of_conn 0 extra ++ of_conn 0 q.in_flight) (late tag) (
      sym (ap (λ (k : List Task). of_conn 0 q.log ++ (of_conn 0 k ++ of_conn 0 q.in_flight)) kept')
      ∙ v.ordered 0
      ∙ ap (of_conn 0) sent)

-- `StopWorkerPool` does not drain every request that was sent to the pool: for each request there
-- is a run of a pool with one worker after which the request has been sent and is in the queue, and
-- no later state has begun to execute it, though the pool has been stopped and its worker is done.
pub stop_loses_request :
    (tag : ℕ)
    → (p : Pool) × Reach (new_pool 1 1) p
      × IsStopped p
      × (p.sent ≡ record { conn_id = 0; tag = tag } ∷ [])
      × ((q : Pool) → Reach p q → of_conn 0 q.log ≡ [])
stop_loses_request tag = (
  late_pool tag,
  late_run tag,
  record { was_created = refl; not_active = refl },
  refl,
  λ q r. nothing_begun tag q r,
)
