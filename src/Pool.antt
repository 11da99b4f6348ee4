-- ===== src/Pool.antt =====
-- knet/msgHandler.go: the worker pool (`StartWorkerPool`, `StopWorkerPool`, `worker` and
-- `SendMsgToTaskQueue`), with the goroutines that use it, as a step relation.
-- A step is what one goroutine does between two points where another may come in. The reader of a
-- connection calls `SendMsgToTaskQueue` for one request after the other. It first reads the pool
-- under the lock and chooses where the request goes; then it sends, and waits while the queue is
-- full: such a request is in flight. A buffered channel takes a request while it holds fewer than
-- its capacity, or hands it to a worker that waits for one. The Go scheduler may choose any step.
-- `sent` and `log` are histories for the statements: the requests that went to the pool, and those
-- that a worker has begun to execute, oldest first. The counter of full queues is not modelled. The
-- wait of `StopWorkerPool` for the workers changes nothing; Draining is about its end.
-- The children: Queues has the list lemmas, Invariant the invariant and how a step keeps it, Steps
-- that every step does, Order what the pool guarantees, Stopped what becomes of a pool that was
-- stopped, Draining how its workers leave.
pub mod Queues
pub mod Invariant
pub mod Steps
pub mod Order
pub mod Stopped
pub mod Draining
mod Tests
use kinz.Base.{
  ℕ, zero, suc, ◌+◌, ◌%◌, ◌<◌, ◌≡◌, ◌≢◌, Bool, true, false, ◌&&◌, ◌||◌, not, List, [], ◌∷◌, ◌++◌,
  length, get_or, set, replicate, ◌==◌, if◌then◌else◌,
}

-- A request, as the pool sees it: the connection that it came from, and which one it is.
pub record Task : Type 0 where
  pub conn_id : ℕ
  pub tag : ℕ

pub data Status : Type 0 where
  waiting executing exited : Status

-- A worker with its channel.
pub record Worker : Type 0 where
  pub queue : List Task
  pub status : Status

abbrev pub new_worker : Worker
new_worker = record { queue = []; status = waiting }

-- `created` is workerCtx != nil, `active` is workerCancel != nil, `cancelled` is workerCtx.Done().
pub record Pool : Type 0 where
  pub size : ℕ
  pub max_len : ℕ
  pub created : Bool
  pub active : Bool
  pub cancelled : Bool
  pub workers : List Worker
  pub in_flight : List Task
  pub spawned : List Task
  pub sent : List Task
  pub log : List Task

unfoldable pub new_pool : ℕ → ℕ → Pool
new_pool size max_len = record {
  size = size;
  max_len = max_len;
  created = false;
  active = false;
  cancelled = false;
  workers = [];
  in_flight = [];
  spawned = [];
  sent = [];
  log = [];
}

unfoldable pub start_worker_pool : Pool → Pool
start_worker_pool p =
    if p.created || p.size == 0
    then p
    else record p { created = true; active = true; workers = replicate p.size new_worker }

unfoldable pub stop_worker_pool : Pool → Pool
stop_worker_pool p = if p.active then record p { active = false; cancelled = true } else p

-- The test of `SendMsgToTaskQueue`: does a request go to a worker?
unfoldable pub uses_pool : Pool → Bool
uses_pool p = not (not p.active || p.size == 0 || length p.workers == 0)

-- `request.GetConnection().GetConnID() % uint64(poolSize)`
abbrev pub worker_of : Pool → Task → ℕ
worker_of p t = t.conn_id % p.size

abbrev pub worker_at : Pool → ℕ → Worker
worker_at p w = get_or p.workers w new_worker

abbrev pub queue_at : Pool → ℕ → List Task
queue_at p w = (worker_at p w).queue

abbrev pub put_worker : Pool → ℕ → List Task → Status → List Worker
put_worker p w queue status = set p.workers w (record { queue = queue; status = status })

-- The requests of one connection.
abbrev pub of_conn : ℕ → List Task → List Task
of_conn c [] = []
of_conn c (t ∷ ts) = if t.conn_id == c then t ∷ of_conn c ts else of_conn c ts

pub data Step (p : Pool) : Pool → Type 0 where
  start : Step p (start_worker_pool p)
  stop : Step p (stop_worker_pool p)
  -- The reader of `t.conn_id` has no other request in flight.
  choose :
      (t : Task)
      → uses_pool p ≡ true
      → of_conn t.conn_id p.in_flight ≡ []
      → Step p (record p { in_flight = p.in_flight ++ (t ∷ []); sent = p.sent ++ (t ∷ []) })
  -- Without a pool each request is executed by a goroutine of its own.
  spawn :
      (t : Task)
      → uses_pool p ≡ false
      → of_conn t.conn_id p.in_flight ≡ []
      → Step p (record p { spawned = p.spawned ++ (t ∷ []) })
  deliver :
      (t : Task) (before after : List Task)
      → p.in_flight ≡ before ++ (t ∷ after)
      → length (queue_at p (worker_of p t)) < p.max_len
      → Step p (record p {
        in_flight = before ++ after;
        workers =
            put_worker p
              (worker_of p t)
              (queue_at p (worker_of p t) ++ (t ∷ []))
              (worker_at p (worker_of p t)).status;
      })
  hand_over :
      (t : Task) (before after : List Task)
      → p.in_flight ≡ before ++ (t ∷ after)
      → (worker_at p (worker_of p t)).status ≡ waiting
      → queue_at p (worker_of p t) ≡ []
      → Step p (record p {
        in_flight = before ++ after;
        workers = put_worker p (worker_of p t) [] executing;
        log = p.log ++ (t ∷ []);
      })
  take :
      (w : ℕ) (t : Task) (rest : List Task)
      → (worker_at p w).status ≡ waiting
      → queue_at p w ≡ t ∷ rest
      → Step p (record p { workers = put_worker p w rest executing; log = p.log ++ (t ∷ []) })
  finish :
      (w : ℕ)
      → (worker_at p w).status ≡ executing
      → Step p (record p { workers = put_worker p w (queue_at p w) waiting })
  -- A worker whose context is done drains its queue first.
  exit :
      (w : ℕ)
      → p.cancelled ≡ true
      → (worker_at p w).status ≡ waiting
      → queue_at p w ≡ []
      → Step p (record p { workers = put_worker p w [] exited })

pub data Reach (p : Pool) : Pool → Type 0 where
  here : Reach p p
  further : {q r : Pool} → Reach p q → Step q r → Reach p r
