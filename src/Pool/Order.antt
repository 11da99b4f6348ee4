-- ===== src/Pool/Order.antt =====
-- What the worker pool of knet/msgHandler.go guarantees in every state that it can reach.
use kinz.Base.{ℕ, ◌%◌, ◌≤◌, ◌≡◌, ◌++◌, length, All}
use kinz.Pool.{Pool, of_conn, new_pool, worker_of, queue_at, Reach}
use kinz.Pool.Steps.{new_pool-Reach-Inv}

-- Requests of one connection are executed in the order in which they were sent, whatever the
-- scheduler does and however many connections and workers there are: those that a worker has begun
-- to execute, then those in the queue of the connection's worker, then the one in flight are those
-- that were sent to the pool, each once. So none is lost, doubled or overtaken.
pub per_connection_order :
    (size max_len : ℕ) (p : Pool)
    → Reach (new_pool size max_len) p
    → (c : ℕ)
    → of_conn c p.log ++ (of_conn c (queue_at p (c % p.size)) ++ of_conn c p.in_flight)
      ≡ of_conn c p.sent
per_connection_order size max_len p r = (new_pool-Reach-Inv size max_len r).ordered

-- A queue never holds more than its capacity, holds only requests of connections that its worker
-- serves, and no connection has two requests in flight.
pub queues_bounded :
    (size max_len : ℕ) (p : Pool)
    → Reach (new_pool size max_len) p
    → ((w : ℕ) → length (queue_at p w) ≤ p.max_len)
      × ((w : ℕ) → All (λ t. worker_of p t ≡ w) (queue_at p w))
      × ((c : ℕ) → length (of_conn c p.in_flight) ≤ 1)
queues_bounded size max_len p r =
    let v = new_pool-Reach-Inv size max_len r in (v.bounded, v.placed, v.single)
