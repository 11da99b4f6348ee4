-- ===== src/Server/Shutdown.antt =====
-- `Run` and `Shutdown` of knet/server.go.
use kinz.Base.{ℕ, ◌≡◌, refl, ◌∙◌, Bool, true, false, List, [], ◌∷◌, none, arith}
use kinz.ConnManager.{remove, clear_conn}
use kinz.Server.{Server, shutdown, run, stop_all, conn_stopped}

pub shutdown_closed :
    (s : Server) (in_time : Bool) → s.closed ≡ true → shutdown s in_time ≡ (s, none)
unfolding shutdown
shutdown_closed s in_time e = ground (arith, e)

-- Stopping the connections of an emptied manager leaves it empty.
stop-empty :
    (s : Server) (id : ℕ)
    → s.conn_mgr.connections ≡ []
    → ((conn_stopped s id).conn_mgr.connections ≡ [])
      × ((conn_stopped s id).closed ≡ s.closed)
      × ((conn_stopped s id).listening ≡ s.listening)
unfolding conn_stopped remove
stop-empty s id e = ground (arith, e)

stop_all-empty :
    (s : Server) (ids : List ℕ)
    → s.conn_mgr.connections ≡ []
    → ((stop_all s ids).conn_mgr.connections ≡ [])
      × ((stop_all s ids).closed ≡ s.closed)
      × ((stop_all s ids).listening ≡ s.listening)
stop_all-empty s [] e = (e, refl, refl)
stop_all-empty s (id ∷ ids) e =
    let (f, c, l) = stop-empty s id e in
    let (g, d, m) = stop_all-empty (conn_stopped s id) ids f in (g, d ∙ c, m ∙ l)

abbrev IsDown : Server → Type 0
IsDown t = (t.closed ≡ true) × (t.listening ≡ false) × (t.conn_mgr.connections ≡ [])

abbrev emptied : Server → Server
emptied s = record s {
  closed = true;
  listening = false;
  conn_mgr = record s.conn_mgr { connections = [] };
}

shutdown_in_time :
    (s : Server)
    → s.closed ≡ false
    → (shutdown s true).0 ≡ stop_all (emptied s) (clear_conn s.conn_mgr).1
unfolding shutdown clear_conn
shutdown_in_time s e = ground (arith, e)

shutdown_late : (s : Server) → s.closed ≡ false → (shutdown s false).0 ≡ emptied s
unfolding shutdown clear_conn
shutdown_late s e = ground (arith, e)

shutdown-IsDown : (s : Server) (in_time : Bool) → s.closed ≡ false → IsDown (shutdown s in_time).0
shutdown-IsDown s true e =
    let (m, c, l) = stop_all-empty (emptied s) (clear_conn s.conn_mgr).1 refl in
    rw (shutdown_in_time s e) (c, l, m)
shutdown-IsDown s false e = rw (shutdown_late s e) (refl, refl, refl)

-- The first shutdown of a server closes it and its listener and leaves the manager without
-- connections, whether or not the connections stop in time, and every later one does nothing and
-- reports no error.
pub shutdown_lem :
    (s : Server) (in_time again : Bool)
    → s.closed ≡ false
    → let t = (shutdown s in_time).0 in
      (t.closed ≡ true)
      × (t.listening ≡ false)
      × (t.conn_mgr.connections ≡ [])
      × (shutdown t again ≡ (t, none))
shutdown_lem s in_time again e =
    let (c, l, m) = shutdown-IsDown s in_time e in
    (c, l, m, shutdown_closed (shutdown s in_time).0 again c)

run_fresh :
    (s : Server)
    → s.started ≡ false
    → run s true ≡ (record s { started = true; listening = true }, none)
unfolding run
run_fresh s e = ground (arith, e)

-- A server that was shut down before it runs cannot be stopped any more: `Run` listens, and the
-- shutdown at its end does nothing, so that the listener stays open.
pub run_after_shutdown :
    (s : Server) (in_time : Bool)
    → s.started ≡ false
    → s.closed ≡ true
    → let r = (run s true).0 in
      ((run s true).1 ≡ none) × (r.listening ≡ true) × (shutdown r in_time ≡ (r, none))
run_after_shutdown s in_time e c = rw (run_fresh s e) (refl, refl, shutdown_closed _ in_time c)
