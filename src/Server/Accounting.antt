-- ===== src/Server/Accounting.antt =====
-- The counters of knet/server.go, its connection manager and its live connections, whatever is
-- accepted, stopped and shut down in whatever order.
use kinz.Base.{ℕ, suc, ◌+◌, ◌≡◌, refl, Bool, true, List, [], ◌∷◌, some, ℤ, inl, inr, length, arith}
use kinz.ConnManager.{get, new_conn_manager}
use kinz.ConnManager.Limit.{IsValid, new_conn_manager-IsValid}
use kinz.Server.{Server, new_server, same_id, accept_conn, member, conn_stopped, shutdown}
use kinz.Server.Balance.{Balanced, accept-Balanced, conn_stopped-Balanced, shutdown-Balanced}

-- What happens to a server: a peer connects, a connection stops, the server is shut down.
pub data Event : Type 0 where
  connected : Event
  stopped : ℕ → Event
  shut_down : Bool → Event

unfoldable pub happens : Server → Event → Server
happens s connected = (accept_conn s).0
happens s (stopped id) = conn_stopped s id
happens s (shut_down in_time) = (shutdown s in_time).0

unfoldable pub happen_all : Server → List Event → Server
happen_all s [] = s
happen_all s (e ∷ es) = happen_all (happens s e) es

abbrev pub connections_in : List Event → ℕ
connections_in [] = 0
connections_in (connected ∷ es) = suc (connections_in es)
connections_in (stopped _ ∷ es) = connections_in es
connections_in (shut_down _ ∷ es) = connections_in es

happens-Balanced :
    (s : Server) (e : Event)
    → Balanced s
    → Balanced (happens s e)
      × ((happens s e).conns_total + (happens s e).conns_rejected
          ≡ connections_in (e ∷ []) + (s.conns_total + s.conns_rejected))
unfolding happens
happens-Balanced s connected v = let (w, t) = accept-Balanced s v in (w, omega (arith, t))
happens-Balanced s (stopped id) v =
    let (w, t, r) = conn_stopped-Balanced s id v in (w, omega (arith, t, r))
happens-Balanced s (shut_down in_time) v =
    let (w, t, r) = shutdown-Balanced s in_time v in (w, omega (arith, t, r))

connections_in-cons :
    (e : Event) (es : List Event)
    → connections_in (e ∷ es) ≡ connections_in (e ∷ []) + connections_in es
connections_in-cons connected es = omega arith
connections_in-cons (stopped _) es = omega arith
connections_in-cons (shut_down _) es = omega arith

happen_all-Balanced :
    (s : Server) (es : List Event)
    → Balanced s
    → Balanced (happen_all s es)
      × ((happen_all s es).conns_total + (happen_all s es).conns_rejected
          ≡ connections_in es + (s.conns_total + s.conns_rejected))
unfolding happen_all
happen_all-Balanced s [] v = (v, omega arith)
happen_all-Balanced s (e ∷ es) v =
    let (w, t) = happens-Balanced s e v in
    let (x, u) = happen_all-Balanced (happens s e) es w in
    (x, omega (arith, t, u, connections_in-cons e es))

new_server-Balanced : (max : ℤ) (size : ℕ) → Balanced (new_server max size)
unfolding new_server new_conn_manager get
new_server-Balanced max size = record {
  incs_lem = refl;
  decs_lem = refl;
  live_lem = omega arith;
  manager = new_conn_manager-IsValid same_id max;
  managed = λ j. inl refl;
}

-- Whatever a new server accepts, sees stopping and shuts down, in whatever order: every accepted
-- connection is counted as either total or rejected, the gauge of active connections (its
-- increments less its decrements) is the number of live connections, those that are counted as
-- total and not as closed, and the manager is valid.
pub accounting :
    (max : ℤ) (size : ℕ) (es : List Event)
    → let s = happen_all (new_server max size) es in
      (s.conns_total + s.conns_rejected ≡ connections_in es)
      × (s.active_incs ≡ s.active_decs + length s.live)
      × (s.conns_total ≡ s.conns_closed + length s.live)
      × IsValid same_id s.conn_mgr
unfolding new_server
accounting max size es =
    let (v, t) = happen_all-Balanced (new_server max size) es (new_server-Balanced max size) in
    (omega (arith, t), omega (arith, v.incs_lem, v.decs_lem, v.live_lem), v.live_lem, v.manager)

-- The manager of a server never holds a connection that has stopped: an id that it finds is live.
pub managed_are_live :
    (max : ℤ) (size : ℕ) (es : List Event) (id j : ℕ)
    → let s = happen_all (new_server max size) es in
      (get s.conn_mgr j).0 ≡ some id → member j s.live ≡ true
managed_are_live max size es id j h =
    elim ((happen_all-Balanced (new_server max size) es (new_server-Balanced max size)).0.managed
      j) [ inl absent ↦ cc | inr there ↦ there ]
