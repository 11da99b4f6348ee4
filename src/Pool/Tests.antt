-- ===== src/Pool/Tests.antt =====
-- Runs of the worker pool of knet/msgHandler.go.
use kinz.Base.{ℕ, ◌%◌, ◌≤◌, ◌≡◌, refl, List, map, [], ◌∷◌, ◌++◌, length, All, arith, true, false}
use kinz.Pool.{
  Task, Pool, waiting, executing, exited, of_conn, new_pool, start_worker_pool, uses_pool,
  worker_of, worker_at, queue_at, start, choose, deliver, take, Reach, here, further, finish, exit,
}
use kinz.Pool.Order.{per_connection_order, queues_bounded}
use kinz.Pool.Draining.{gone, todo_all}
use kinz.Pool.Draining.Wait.{stop_drains}
use kinz.Pool.Draining.Executed.{InOrder, exited-InOrder}
use kinz.Pool.Stopped.{IsStopped, Reach-IsStopped, exited_keeps_queue}

abbrev task : ℕ → ℕ → Task
task conn_id tag = record { conn_id = conn_id; tag = tag }

-- Two workers; connection 3 has a request that is executed and one in a queue, and connection 4 has
-- one in flight.
abbrev busy_pool : Pool
busy_pool = record {
  size = 2;
  max_len = 1;
  created = true;
  active = true;
  cancelled = false;
  workers =
      record { queue = []; status = waiting }
      ∷ record { queue = task 3 2 ∷ []; status = executing }
      ∷ [];
  in_flight = task 4 3 ∷ [];
  spawned = [];
  sent = task 3 1 ∷ task 3 2 ∷ task 4 3 ∷ [];
  log = task 3 1 ∷ [];
}

busy_run : Reach (new_pool 2 1) busy_pool
unfolding new_pool start_worker_pool uses_pool
busy_run =
    further
      (further
        (further
          (further
            (further (further (further here start) (choose (task 3 1) refl refl))
              (deliver (task 3 1) [] [] refl (omega arith)))
            (take 1 (task 3 1) [] refl refl))
          (choose (task 3 2) refl refl))
        (deliver (task 3 2) [] [] refl (omega arith)))
      (choose (task 4 3) refl refl)

per_connection_order_example :
    of_conn 3 busy_pool.log
      ++ (of_conn 3 (queue_at busy_pool (3 % busy_pool.size)) ++ of_conn 3 busy_pool.in_flight)
    ≡ of_conn 3 busy_pool.sent
per_connection_order_example = per_connection_order 2 1 busy_pool busy_run 3

queues_bounded_example :
    ((w : ℕ) → length (queue_at busy_pool w) ≤ busy_pool.max_len)
    × ((w : ℕ) → All (λ t. worker_of busy_pool t ≡ w) (queue_at busy_pool w))
    × ((c : ℕ) → length (of_conn c busy_pool.in_flight) ≤ 1)
queues_bounded_example = queues_bounded 2 1 busy_pool busy_run

abbrev stopped_pool : Pool
stopped_pool = record {
  size = 1;
  max_len = 1;
  created = true;
  active = false;
  cancelled = true;
  workers = record { queue = task 1 1 ∷ []; status = exited } ∷ [];
  in_flight = [];
  spawned = [];
  sent = task 1 1 ∷ [];
  log = [];
}

-- Starting again changes nothing.
restarted : Reach stopped_pool stopped_pool
unfolding start_worker_pool
restarted = further here start

Reach-IsStopped_example : IsStopped stopped_pool × (stopped_pool.sent ≡ stopped_pool.sent)
Reach-IsStopped_example =
    Reach-IsStopped restarted (record { was_created = refl; not_active = refl })

exited_keeps_queue_example :
    ((worker_at stopped_pool 0).status ≡ exited)
    × (extra : List Task) × (queue_at stopped_pool 0 ≡ queue_at stopped_pool 0 ++ extra)
exited_keeps_queue_example = exited_keeps_queue stopped_pool stopped_pool 0 refl refl restarted

stop_drains_example :
    (q : Pool) × Reach stopped_pool q
    × (q.workers ≡ map gone stopped_pool.workers)
    × (q.log ≡ stopped_pool.log ++ todo_all stopped_pool.workers)
stop_drains_example = stop_drains stopped_pool refl

-- A pool that was stopped while its worker had two requests, and after the worker has run them.
abbrev left_work : Pool
left_work = record stopped_pool {
  workers = record { queue = task 1 1 ∷ task 1 2 ∷ []; status = waiting } ∷ [];
  sent = task 1 1 ∷ task 1 2 ∷ [];
}

abbrev worked_off : Pool
worked_off = record left_work {
  workers = record { queue = []; status = exited } ∷ [];
  log = task 1 1 ∷ task 1 2 ∷ [];
}

working_off : Reach left_work worked_off
working_off =
    further
      (further
        (further
          (further (further here (take 0 (task 1 1) (task 1 2 ∷ []) refl refl)) (finish 0 refl))
          (take 0 (task 1 2) [] refl refl))
        (finish 0 refl))
      (exit 0 refl refl refl)

exited-InOrder_example :
    (since : List Task) × (worked_off.log ≡ left_work.log ++ since)
    × InOrder (queue_at left_work 0) since
exited-InOrder_example = exited-InOrder left_work worked_off 0 refl (λ e. cc) working_off refl
