-- ===== src/Pool/Queues.antt =====
-- Lists of requests and of workers, for the worker pool of knet/msgHandler.go.
use kinz.Base.{
  ℕ, zero, suc, ◌≤◌, ◌<◌, ◌≡◌, refl, ap, sym, List, [], ◌∷◌, ◌++◌, append-nil, length,
  length-append, get_or, set, replicate, ◌==◌, if◌then◌else◌, arith,
}
use kinz.Pool.{Task, Worker, Status, new_worker, of_conn}

pub of_conn-append :
    (c : ℕ) (xs ys : List Task) → of_conn c (xs ++ ys) ≡ of_conn c xs ++ of_conn c ys
of_conn-append c [] ys = refl
of_conn-append c (t ∷ xs) ys = ground (arith, of_conn-append c xs ys)

-- One more request at the end.
pub of_conn_last :
    (c : ℕ) (xs : List Task) (t : Task)
    → of_conn c (xs ++ (t ∷ []))
      ≡ (if t.conn_id == c then of_conn c xs ++ (t ∷ []) else of_conn c xs)
of_conn_last c xs t = ground (arith, of_conn-append c xs (t ∷ []), append-nil (of_conn c xs))

-- A request taken out of the middle.
pub of_conn_middle :
    (c : ℕ) (xs ys : List Task) (t : Task)
    → of_conn c (xs ++ (t ∷ ys))
      ≡ (if t.conn_id == c then of_conn c xs ++ (t ∷ of_conn c ys) else of_conn c (xs ++ ys))
of_conn_middle c xs ys t = ground (arith, of_conn-append c xs (t ∷ ys), of_conn-append c xs ys)

nil_of_length : (xs : List Task) → length xs ≤ 0 → xs ≡ []
nil_of_length [] h = refl
nil_of_length (x ∷ xs) h = absurd (omega arith)

-- The one request of a connection, taken out: none is left.
pub of_conn_single :
    (xs ys : List Task) (t : Task)
    → length (of_conn t.conn_id (xs ++ (t ∷ ys))) ≤ 1
    → (of_conn t.conn_id (xs ++ ys) ≡ []) × (of_conn t.conn_id (xs ++ (t ∷ ys)) ≡ t ∷ [])
of_conn_single xs ys t h =
    let a = of_conn-append t.conn_id xs (t ∷ ys) in
    ground (
      arith,
      a,
      of_conn-append t.conn_id xs ys,
      ap (length {A = Task}) a,
      length-append (of_conn t.conn_id xs) (of_conn t.conn_id (t ∷ ys)),
      nil_of_length (of_conn t.conn_id xs),
      nil_of_length (of_conn t.conn_id ys),
    )

pub get_or-put :
    (ws : List Worker) (w v : ℕ) (x : Worker)
    → w < length ws
    → get_or (set ws w x) v new_worker ≡ (if w == v then x else get_or ws v new_worker)
get_or-put [] w v x h = absurd (omega arith)
get_or-put (y ∷ ws) zero zero x h = ground arith
get_or-put (y ∷ ws) zero (suc v) x h = ground arith
get_or-put (y ∷ ws) (suc w) zero x h = ground arith
get_or-put (y ∷ ws) (suc w) (suc v) x h = ground (arith, get_or-put ws w v x)

-- A worker with a request in its queue, or at work, is one of the pool's.
pub in_range_of_queue :
    (ws : List Worker) (w : ℕ) {t : Task} {rest : List Task}
    → (get_or ws w new_worker).queue ≡ t ∷ rest
    → w < length ws
in_range_of_queue [] w e = cc
in_range_of_queue (x ∷ ws) zero e = omega arith
in_range_of_queue (x ∷ ws) (suc w) e = omega (arith, in_range_of_queue ws w e)

-- A worker whose queue is written back as it was.
pub queue-put_same :
    (ws : List Worker) (w v : ℕ) (q : List Task) (s : Status)
    → (get_or ws w new_worker).queue ≡ q
    → (get_or (set ws w (record { queue = q; status = s })) v new_worker).queue
      ≡ (get_or ws v new_worker).queue
queue-put_same [] w v q s e = refl
queue-put_same (x ∷ ws) zero zero q s e = sym e
queue-put_same (x ∷ ws) zero (suc v) q s e = refl
queue-put_same (x ∷ ws) (suc w) zero q s e = refl
queue-put_same (x ∷ ws) (suc w) (suc v) q s e = queue-put_same ws w v q s e

pub get_or-replicate : (n w : ℕ) → get_or (replicate n new_worker) w new_worker ≡ new_worker
get_or-replicate zero w = refl
get_or-replicate (suc n) zero = refl
get_or-replicate (suc n) (suc w) = get_or-replicate n w
