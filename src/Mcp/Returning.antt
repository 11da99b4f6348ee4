-- ===== src/Mcp/Returning.antt =====
-- The tools of kmcp/tools.go return, once they have their arguments.
use kinz.Base.{ℕ, List, [], Option, none, some, ℤ, zero, suc, pos, negsuc}
use kinz.ConnManager.{conn_not_found, get}
use kinz.Ring.{RingBuffer, lines}
use kinz.Ring.Lines.{lines-newest}
use kinz.Base.Maps.{lookup}
use kinz.Mcp.{
  IServer, McpServer, Result, required, Outcome, ok, tool_server_info, returned, failed, panicked,
  or_error, with_conn, if_found, logs, logs_or_panic, line_count, tool_get_connection,
  tool_send_to_connection, tool_broadcast, tool_close_connection, tool_get_logs, tool_shutdown,
}

-- An outcome that no missing argument is the reason for, and no panic.
abbrev pub Sound : {E Float : Type 0} → Outcome E Float → Type 0
Sound (returned r) = Unit {0}
Sound (failed (required key)) = ⊥
Sound (failed e) = Unit
Sound panicked = ⊥

module _ {W C E Float A : Type 0} (srv : IServer W C E Float) (s : McpServer A) where
  pub or_error-Sound : (r : Result Float) (o : W × Option E) → Sound (or_error srv s r o).1
  or_error-Sound r (w, none) = tt
  or_error-Sound r (w, some e) = tt

  -- What the manager finds, or that it does not find it, is never a panic.
  pub with_conn-Sound :
      (id : ℕ) (w : W) (f : C → W × Outcome E Float)
      → ((c : C) → Sound (f c).1)
      → Sound (with_conn srv s id w f).1
  unfolding get
  with_conn-Sound id w f h = found (lookup id (srv.conn_mgr w).connections)
    where
      found :
          (o : Option C)
          → Sound
              (if_found srv s w
                (elim o [ some c ↦ (some c, none) | none ↦ (none, some conn_not_found) ])
                f).1
      found none = tt
      found (some c) = h c

  pub logs-Sound : (r : RingBuffer) (n : ℕ) → Sound (logs_or_panic srv s (lines r (pos n)))
  logs-Sound r n = rw (lines-newest r n) tt

  pub tool_get_logs-Sound : (n : ℤ) → Sound (tool_get_logs srv s n)
  unfolding tool_get_logs
  tool_get_logs-Sound n = go s.ring n
    where
      go :
          (o : Option RingBuffer) (n : ℤ)
          → Sound (elim o as (λ _. Outcome E Float) [
            | none ↦ returned (logs [])
            | some ring ↦ logs_or_panic srv s (lines ring (line_count srv s n))
          ])
      go none n = tt
      go (some r) (pos zero) = logs-Sound r 50
      go (some r) (pos (suc n)) = logs-Sound r (suc n)
      go (some r) (negsuc n) = logs-Sound r 50

  pub server_info-Sound : (now : ℕ) (w : W) → Sound (tool_server_info srv s now w)
  unfolding tool_server_info
  server_info-Sound now w = tt

  pub get_connection-Sound : (id : ℕ) (w : W) → Sound (tool_get_connection srv s id w).1
  unfolding tool_get_connection
  get_connection-Sound id w = with_conn-Sound id w _ (λ c. tt)

  pub send-Sound :
      (id msg_id : ℕ) (text : List ℕ) (w : W)
      → Sound (tool_send_to_connection srv s id msg_id text w).1
  unfolding tool_send_to_connection
  send-Sound id msg_id text w =
      with_conn-Sound id w _ (λ c. or_error-Sound ok (srv.send_msg c msg_id text w))

  pub broadcast-Sound :
      (msg_id : ℕ) (text : List ℕ) (w : W) → Sound (tool_broadcast srv s msg_id text w).1
  unfolding tool_broadcast
  broadcast-Sound msg_id text w = tt

  pub close_connection-Sound : (id : ℕ) (w : W) → Sound (tool_close_connection srv s id w).1
  unfolding tool_close_connection
  close_connection-Sound id w = with_conn-Sound id w _ (λ c. tt)

  pub shutdown-Sound : (w : W) → Sound (tool_shutdown srv s w).1
  unfolding tool_shutdown
  shutdown-Sound w = or_error-Sound ok (srv.shutdown w)
