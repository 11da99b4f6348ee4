-- ===== src/Server/System.antt =====
-- `Run` and `Shutdown` of knet/server.go with the worker pool: the connections first, then the pool.
use kinz.Base.{
  ◌≡◌, refl, sym, ap, ap₂, subst, ◌∙◌, if◌then◌else◌, arith, Bool, true, false, List, [], ◌∷◌, ◌++◌,
  Option, none, some, map,
}
use kinz.Pool.{Pool, Reach, start_worker_pool, stop_worker_pool}
use kinz.Pool.Draining.{todo_all, gone}
use kinz.Pool.Draining.Wait.{stop_drains}
use kinz.Server.{Server, ServerError, shutdown, run}
use kinz.Server.Shutdown.{shutdown_lem, shutdown_closed}

pub record System : Type 0 where
  pub server : Server
  pub pool : Pool

abbrev pub started_pool : Option ServerError → Pool → Pool
started_pool none pool = start_worker_pool pool
started_pool (some e) pool = pool

-- `Run` up to its wait: the pool is started when the server listens.
unfoldable pub run_system : System → Bool → System × Option ServerError
unfolding run start_worker_pool
run_system sys listens =
    let (server, err) = run sys.server listens in
    (record { server = server; pool = started_pool err sys.pool }, err)

abbrev pub stopped_pool : Bool → Bool → Pool → Pool
stopped_pool closed in_time pool = elim closed [
  | true ↦ pool
  | false ↦ elim in_time [ true ↦ stop_worker_pool pool | false ↦ pool ]
]

-- `Shutdown`: it returns before it stops the pool if it was called before, or if the connections
-- have not stopped in time.
unfoldable pub shutdown_system : System → Bool → System × Option ServerError
unfolding shutdown stop_worker_pool
shutdown_system sys in_time =
    let (server, err) = shutdown sys.server in_time in
    (record { server = server; pool = stopped_pool sys.server.closed in_time sys.pool }, err)

-- Calls of Shutdown one after the other.
abbrev pub shutdown_all : List Bool → System → System
shutdown_all [] sys = sys
shutdown_all (in_time ∷ more) sys = shutdown_all more (shutdown_system sys in_time).0

again_same :
    (sys : System) (in_time : Bool)
    → sys.server.closed ≡ true
    → (shutdown_system sys in_time).0 ≡ sys
unfolding shutdown_system
again_same sys in_time c =
    ap₂ (λ (s : Server) (p : Pool). record { server = s; pool = p })
      (ap (λ (o : Server × Option ServerError). o.0) (shutdown_closed sys.server in_time c))
      (ap (λ (b : Bool). stopped_pool b in_time sys.pool) c)

closed_stays :
    (more : List Bool) (sys : System) → sys.server.closed ≡ true → shutdown_all more sys ≡ sys
closed_stays [] sys c = refl
closed_stays (in_time ∷ more) sys c =
    ap (shutdown_all more) (again_same sys in_time c) ∙ closed_stays more sys c

pool-first :
    (sys : System) (in_time : Bool)
    → sys.server.closed ≡ false
    → (shutdown_system sys in_time).0.pool
      ≡ (if in_time then stop_worker_pool sys.pool else sys.pool)
unfolding shutdown_system
pool-first sys true c = ap (λ (b : Bool). stopped_pool b true sys.pool) c
pool-first sys false c = ap (λ (b : Bool). stopped_pool b false sys.pool) c

server-first :
    (sys : System) (in_time : Bool)
    → sys.server.closed ≡ false
    → (shutdown_system sys in_time).0.server.closed ≡ true
unfolding shutdown_system
server-first sys in_time c = (shutdown_lem sys.server in_time true c).0

-- Whether the worker pool of a server is ever stopped is settled by the first call of Shutdown: if
-- its connections stop in time, the pool is stopped then; if not, no later call stops it.
pub shutdown_all_lem :
    (sys : System) (in_time : Bool) (more : List Bool)
    → sys.server.closed ≡ false
    → (shutdown_all (in_time ∷ more) sys).pool
      ≡ (if in_time then stop_worker_pool sys.pool else sys.pool)
shutdown_all_lem sys in_time more c =
    ap (λ (t : System). t.pool)
      (closed_stays more (shutdown_system sys in_time).0 (server-first sys in_time c))
    ∙ pool-first sys in_time c

stop_cancels :
    (p : Pool)
    → p.active ≡ true
    → stop_worker_pool p ≡ record p { active = false; cancelled = true }
unfolding stop_worker_pool
stop_cancels p a = ground (arith, a)

-- After a first Shutdown of a server with a running pool, whose connections stop in time, some steps
-- of the workers lead to a state in which each has exited, and everything that was queued at those
-- that had not exited has been executed, each queue in its order.
pub shutdown_drains :
    (sys : System)
    → sys.server.closed ≡ false
    → sys.pool.active ≡ true
    → (q : Pool) × Reach (shutdown_system sys true).0.pool q
      × (q.workers ≡ map gone sys.pool.workers)
      × (q.log ≡ sys.pool.log ++ todo_all sys.pool.workers)
shutdown_drains sys c a =
    let stopped : Pool = record sys.pool { active = false; cancelled = true } in
    let (q, r, w, l) = stop_drains stopped refl in
    (
      q,
      subst (λ (p : Pool). Reach p q) (sym (pool-first sys true c ∙ stop_cancels sys.pool a)) r,
      w,
      l,
    )
