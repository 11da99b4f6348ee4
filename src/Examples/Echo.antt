-- ===== src/Examples/Echo.antt =====
-- examples/echo/server/main.go: two middlewares around an echo.
-- The effects are numbered; whether the reply could be sent is an argument.
use kinz.Base.{ℕ, ◌≡◌, Bool, true, false, [], ◌∷◌, ◌++◌, none, ◌==◌, if◌then◌else◌, arith}
use kinz.Codec.{Message}
use kinz.Request.{
  Handler, done, next, act, new_request, current, run, router_slices_next, bind_router_slices,
}
use kinz.Router.{
  Routes, new_routes, add_slices, add_router_slices, use_global, group_handlers, assemble, chain,
  recovered, execute,
}
use kinz.Heartbeat.{heart_beat_default_msg_id}

-- `klog.L().Info("message received", …)`.
abbrev pub log_received : ℕ
log_received = 0

-- `klog.L().Info("handled", …)`.
abbrev pub log_handled : ℕ
log_handled = 1

-- `klog.L().Info("echo", …)`.
abbrev pub log_echo : ℕ
log_echo = 2

-- `SendMsg(2, req.GetData())`.
abbrev pub send_pong : ℕ
send_pong = 3

-- `klog.L().Warn("send pong failed", …)`.
abbrev pub warn_failed : ℕ
warn_failed = 4

-- The default heartbeat handler logs.
abbrev pub log_heartbeat : ℕ
log_heartbeat = 5

abbrev pub log_middleware : Handler
log_middleware = act log_received (next done)

abbrev pub timing_middleware : Handler
timing_middleware = next (act log_handled done)

abbrev pub echo_handler : Bool → Handler
echo_handler sends = act log_echo (act send_pong (if sends then done else act warn_failed done))

abbrev pub heartbeat_handler : Handler
heartbeat_handler = act log_heartbeat done

-- The registrations of `main`, that of `StartHeartBeat` included.
unfoldable pub echo_routes : Bool → Routes Handler
unfolding new_routes use_global add_router_slices
echo_routes sends =
    let logged = use_global new_routes (log_middleware ∷ []) in
    let timed = use_global logged (timing_middleware ∷ []) in
    let echo = (add_router_slices timed 1 (echo_handler sends ∷ [])).0 in
    (add_router_slices echo heart_beat_default_msg_id (heartbeat_handler ∷ [])).0

-- Every message is logged first and timed last, whatever is registered for it; a message 1 is logged
-- and echoed in between, with a warning if it cannot be sent.
pub echo_lem :
    (sends : Bool) (conn_id : ℕ) (m : Message)
    → (execute (echo_routes sends) none (new_request conn_id m)).1.run.trace
      ≡ log_received
        ∷ ((if m.id == 1
              then log_echo ∷ send_pong ∷ (if sends then [] else warn_failed ∷ [])
              else if m.id == heart_beat_default_msg_id
              then log_heartbeat ∷ []
              else [])
            ++ log_handled ∷ [])
unfolding execute chain echo_routes add_slices new_routes use_global add_router_slices
    group_handlers assemble recovered router_slices_next bind_router_slices current run new_request
echo_lem true conn_id m = ground arith
echo_lem false conn_id m = ground arith
