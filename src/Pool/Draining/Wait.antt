-- ===== src/Pool/Draining/Wait.antt =====
-- `StopWorkerPool` of knet/msgHandler.go can end its wait: all workers drain their queues and exit.
use kinz.Base.{
  ℕ, zero, suc, ◌≤◌, ◌<◌, ◌≡◌, ◌≢◌, refl, sym, ap, ap₂, subst, ◌∙◌, true, false, List, [], ◌∷◌,
  ◌++◌, append_assoc, append-nil, map, inl, inr, Bool-cases, ◌==◌, ==_iff, length, get_or,
  take as prefix, arith,
}
use kinz.Pool.{Worker, new_worker, Pool, worker_at, Reach, here}
use kinz.Pool.Draining.{todo, todo_all, gone, join, drain}

-- `q` comes from `p` by steps of the first `n` workers, one after the other.
record DrainedTo (n : ℕ) (p q : Pool) : Type 0 where
  reached : Reach p q
  done : (j : ℕ) → j < n → worker_at q j ≡ gone (worker_at p j)
  waits : (j : ℕ) → n ≤ j → worker_at q j ≡ worker_at p j
  still_cancelled : q.cancelled ≡ true
  same_size : length q.workers ≡ length p.workers
  executed : q.log ≡ p.log ++ todo_all (prefix n p.workers)

not_equal : (j n : ℕ) → (j == n) ≡ false → j ≢ n
not_equal j n h e = ground (arith, h, e)

-- What one more worker has to execute.
todo_next :
    (n : ℕ) (xs : List Worker)
    → n < length xs
    → todo_all (prefix (suc n) xs) ≡ todo_all (prefix n xs) ++ todo (get_or xs n new_worker)
todo_next n [] h = absurd (omega arith)
todo_next zero (x ∷ xs) h = append-nil (todo x)
todo_next (suc n) (x ∷ xs) h =
    ap (◌++◌ (todo x)) (todo_next n xs (omega arith))
    ∙ sym (append_assoc (todo x) (todo_all (prefix n xs)) (todo (get_or xs n new_worker)))

drain_to :
    (n : ℕ) (p : Pool) → n ≤ length p.workers → p.cancelled ≡ true → (q : Pool) × DrainedTo n p q
drain_to zero p h c = (
  p,
  record {
    reached = here;
    done = λ j lt. absurd (omega arith);
    waits = λ j le. refl;
    still_cancelled = c;
    same_size = refl;
    executed = sym (append-nil p.log);
  },
)
drain_to (suc n) p h c =
    let (q, d) = drain_to n p (omega arith) c in
    let (r, e) = drain n q (omega (arith, d.same_size)) d.still_cancelled in
    (
      r,
      record {
        reached = join d.reached e.reached;
        done = λ j lt. elim (Bool-cases (j == n)) [
          | inl same ↦
              subst (λ (k : ℕ). worker_at r k ≡ gone (worker_at p k)) (sym ((==_iff j n).0 same))
                (e.own ∙ ap gone (d.waits n (omega arith)))
          | inr other ↦
              let ne = not_equal j n other in e.others j ne ∙ d.done j (omega (arith, ne, lt))
        ];
        waits =
            λ j le. e.others j (λ same. omega (arith, same, le)) ∙ d.waits j (omega (arith, le));
        still_cancelled = e.still_cancelled;
        same_size = e.same_size ∙ d.same_size;
        executed =
            e.executed
            ∙ ap₂ (◌++◌) d.executed (ap todo (d.waits n (omega arith)))
            ∙ append_assoc p.log (todo_all (prefix n p.workers)) (todo (worker_at p n))
            ∙ ap (◌++◌ p.log) (sym (todo_next n p.workers (omega arith)));
      },
    )

prefix_all : (xs : List Worker) → prefix (length xs) xs ≡ xs
prefix_all [] = refl
prefix_all (x ∷ xs) = ap (◌∷◌ x) (prefix_all xs)

-- Lists of workers with the same entries.
workers_ext :
    (xs ys : List Worker) (f : Worker → Worker)
    → length xs ≡ length ys
    → ((j : ℕ) → j < length ys → get_or xs j new_worker ≡ f (get_or ys j new_worker))
    → xs ≡ map f ys
workers_ext [] [] f e h = refl
workers_ext [] (y ∷ ys) f e h = absurd (omega arith)
workers_ext (x ∷ xs) [] f e h = absurd (omega arith)
workers_ext (x ∷ xs) (y ∷ ys) f e h =
    ap₂ (◌∷◌) (h zero (omega arith))
      (workers_ext xs ys f (omega arith) (λ j lt. h (suc j) (omega (arith, lt))))

-- From every state of a pool that was stopped, some steps lead to one in which all workers have
-- exited, so that the wait of StopWorkerPool ends: the log has got everything that was queued at the
-- workers that had not exited before, worker by worker, each queue in its order, and their queues
-- are empty; a worker that had exited keeps its queue.
pub stop_drains :
    (p : Pool)
    → p.cancelled ≡ true
    → (q : Pool) × Reach p q
      × (q.workers ≡ map gone p.workers)
      × (q.log ≡ p.log ++ todo_all p.workers)
stop_drains p c =
    let (q, d) = drain_to (length p.workers) p (omega arith) c in
    (
      q,
      d.reached,
      workers_ext q.workers p.workers gone d.same_size d.done,
      d.executed ∙ ap (λ (xs : List Worker). p.log ++ todo_all xs) (prefix_all p.workers),
    )
