-- ===== src/Mcp/Tests.antt =====
-- Tests of the tools, over the live server of two connections and a full one.
use Prim.Native.Nat.{ℕ}
use kinz.Base.{
  ◌≤◌, ◌≡◌, ◌↔◌, refl, List, [], ◌∷◌, Option, none, some, pos, length, newest, false, String,
  if◌then◌else◌, arith,
}
use text.Mathlib.Text.{◌==◌}
use kinz.Base.Maps.{lookup}
use kinz.ConnManager.{conns_of, len}
use kinz.ConnManager.Limit.{IsValid}
use kinz.Connection.{Connection, new_connection, state_running}
use kinz.Server.{new_server, same_id}
use kinz.Ring.{new_ring_buffer, with_capacity}
use kinz.Ring.History.{write_all}
use kinz.Ring.Lines.{IsLine, log_lines}
use kinz.Mcp.{
  McpServer, Args, float_arg, string_arg, int_arg, arg_uint, returned, failed, required,
  connections, sent, logs, authorize, tool_broadcast, tool_list_connections, tool_get_connection,
}
use kinz.Mcp.Tools.{broadcast, get_logs, run_tool}
use kinz.Mcp.Arguments.{first_missing, required_args, run_tool-refused_iff}
use kinz.Mcp.Access.{ToolCall, call_tools, Served, call_tools_lem}
use kinz.Mcp.Connections.{
  send_all, successes, broadcast_lem, infos, entries_for, looked_up, list_get_lem,
}
use kinz.Mcp.Logs.{asked, get_logs-write_all}
use kinz.Mcp.Live.{Live, live, if_managed, got, broadcast_delivers}

abbrev running : ℕ → Connection
running size = record (new_connection false false size) { state = state_running }

-- Connections 1 and 2 run; that of 2 has no room; 3 is not managed.
abbrev world : Live
world = record {
  server = record (new_server (pos 10) 4096) {
    conn_mgr = record { connections = (1, 1) ∷ (2, 2) ∷ []; max_conn = pos 10 };
  };
  conns = (1, running 8) ∷ (2, running 0) ∷ (3, running 8) ∷ [];
}

world-IsValid : IsValid same_id world.server.conn_mgr
world-IsValid = record {
  distinct = (((λ e. omega arith), tt), (tt, tt));
  keyed = (refl, (refl, tt));
  within = omega arith;
}

-- Denies the tools with 401, and reading with 403.
abbrev deny : String → Option ℕ
deny method = if method == "tools/call" then some 401 else some 403

abbrev denying : McpServer ℕ
denying = record { cfg = none; ring = none; auth = some deny; version = []; start_time = 0 }

abbrev open_server : McpServer ℕ
open_server = record denying { auth = none }

abbrev to_all : Args ℕ
to_all = some (("msgID", float_arg 7) ∷ ("data", string_arg (b'h' ∷ b'i' ∷ [])) ∷ [])

-- A broadcast, and one without its data.
abbrev calls : List (ToolCall ℕ)
calls =
    record { tool = broadcast; args = to_all; time = 0 }
    ∷ record { tool = broadcast; args = some (("msgID", int_arg (pos 7)) ∷ []); time = 1 }
    ∷ []

call_tools_lem_example :
    Served live denying
      (λ n. n)
      (authorize denying "tools/call")
      calls
      world
      (call_tools live denying (λ n. n) calls world)
call_tools_lem_example = call_tools_lem live denying (λ n. n) calls world

run_tool-refused_iff_example :
    (run_tool live open_server (λ n. n) broadcast (some (("msgID", int_arg (pos 7)) ∷ [])) 0 world
      ≡ (world, failed (required "data")))
    ↔ (first_missing (λ n. n) (some (("msgID", int_arg (pos 7)) ∷ [])) (required_args broadcast)
        ≡ some "data")
run_tool-refused_iff_example =
    run_tool-refused_iff live open_server (λ n. n) (some (("msgID", int_arg (pos 7)) ∷ []))
      broadcast 0 world "data"

broadcast_lem_example :
    let all =
      send_all live open_server 7 (b'h' ∷ []) (conns_of world.server.conn_mgr.connections) world in
    (tool_broadcast live open_server 7 (b'h' ∷ []) world
      ≡ (all.0, returned (sent (successes live open_server all.1))))
    × (length all.1 ≡ len world.server.conn_mgr)
broadcast_lem_example = broadcast_lem live open_server 7 (b'h' ∷ []) world

broadcast_delivers_example :
    let w' = (tool_broadcast live open_server 7 (b'h' ∷ []) world).0 in
    (lookup 1 w'.conns
      ≡ if_managed open_server 7
          (b'h' ∷ [])
          (lookup 1 world.server.conn_mgr.connections)
          (lookup 1 world.conns)
          (got open_server 7 (b'h' ∷ []) world.server.codec (lookup 1 world.conns)))
    × (w'.server ≡ world.server)
broadcast_delivers_example = broadcast_delivers open_server 7 (b'h' ∷ []) world 1 world-IsValid

list_get_lem_example :
    (tool_list_connections live open_server world
      ≡ connections (len world.server.conn_mgr) (infos live open_server world))
    × (length (infos live open_server world) ≡ len world.server.conn_mgr)
    × (tool_get_connection live open_server 2 world ≡ (
      world,
      looked_up live open_server (entries_for live open_server 2 (infos live open_server world)),
    ))
list_get_lem_example = list_get_lem live open_server world 2 world-IsValid

abbrev letter : List ℕ
letter = 97 ∷ []

abbrev writes : List (List ℕ)
writes = (97 ∷ 10 ∷ []) ∷ (10 ∷ 97 ∷ 10 ∷ 97 ∷ []) ∷ []

abbrev logging : McpServer ℕ
logging = record open_server { ring = some (write_all (new_ring_buffer (pos 8)) writes) }

letter-IsLine : IsLine letter
letter-IsLine = ground arith

fits : 6 ≤ (new_ring_buffer (pos 8)).cap
unfolding new_ring_buffer with_capacity
fits = omega arith

get_logs-write_all_example :
    run_tool live logging (λ n. n) get_logs (some (("lines", float_arg 2) ∷ [])) 0 world ≡ (
      world,
      returned (
          logs (
            newest
              (asked (arg_uint (λ n. n) (some (("lines", float_arg 2) ∷ [])) "lines"))
              (log_lines (letter ∷ [] ∷ letter ∷ []) letter))),
    )
get_logs-write_all_example =
    get_logs-write_all live logging (λ n. n) (pos 8) writes (letter ∷ [] ∷ letter ∷ []) letter
      (some (("lines", float_arg 2) ∷ [])) 0 world refl (letter-IsLine, (tt, (letter-IsLine, tt)))
      letter-IsLine refl fits
