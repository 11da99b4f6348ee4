-- ===== src/Mcp.antt =====
-- kmcp: the tools and resources by which an AI client manages a server (server.go, tools.go,
-- resources.go).
-- The server is an interface, `IServer`: its state, its connection manager, and what the tools call
-- of it and of a connection. Strings of the client and of the server are lists of bytes; the names
-- of tools, arguments and methods are strings. The MCP library is not modelled: it looks a tool or
-- a resource up by its name and calls it. What `encoding/json` and `fmt` make of a result or an
-- error stands for itself, `pretty` and `error_text`. `to_uint64` is Go's conversion of a
-- floating-point number.
-- The children: Tools has the tools as they are registered, Returning that they return, Arguments
-- what they require, Access the authorization, Connections the tools that use the manager, Logs the
-- one that reads the log ring, Live the interface over the models of the server and its connections.
pub mod Tools
pub mod Returning
pub mod Arguments
pub mod Access
pub mod Connections
pub mod Logs
pub mod Live
mod Tests
use kinz.Base.{
  ℕ, zero, suc, ◌+◌, ◌-◌, ◌%◌, ◌^◌, ◌/◌, Bool, true, false, List, [], ◌∷◌, ◌++◌, Option, none, some,
  ℤ, pos, negsuc, length, ltb, String, if◌then◌else◌,
}
use kinz.Base.Names.{lookup}
use kinz.ConnManager.{ConnManager, ConnError, range, get}
use kinz.Ring.{RingBuffer, lines}
use kinz.Config.{Config}
use kinz.Metrics.Snapshot.{Snapshot}

pub record IServer (W C E Float : Type 0) : Type 0 where
  pub conn_mgr : W → ConnManager C
  pub conn_id : C → ℕ
  pub remote_addr : W → C → List ℕ
  pub local_addr : W → C → List ℕ
  pub send_msg : C → ℕ → List ℕ → W → W × Option E
  pub stop : C → W → W
  pub shutdown : W → W × Option E
  pub name : W → List ℕ
  pub address : W → Option (List ℕ)
  pub metrics : W → Snapshot Float

-- `AuthFunc`, with its errors in `A`.
abbrev pub AuthFunc : Type 0 → Type 0
AuthFunc A = String → Option A

-- `startTime` is in nanoseconds.
pub record McpServer (A : Type 0) : Type 0 where
  pub cfg : Option Config
  pub ring : Option RingBuffer
  pub auth : Option (AuthFunc A)
  pub version : List ℕ
  pub start_time : ℕ

pub data McpOption (A : Type 0) : Type 0 where
  with_config : Config → McpOption A
  with_log_ring : RingBuffer → McpOption A
  with_auth : AuthFunc A → McpOption A
  with_version : List ℕ → McpOption A

module _ {A : Type 0} where
  abbrev pub apply_option : McpServer A → McpOption A → McpServer A
  apply_option s (with_config cfg) = record s { cfg = some cfg }
  apply_option s (with_log_ring ring) = record s { ring = some ring }
  apply_option s (with_auth f) = record s { auth = some f }
  apply_option s (with_version v) = record s { version = v }

  abbrev pub apply_options : McpServer A → List (McpOption A) → McpServer A
  apply_options s [] = s
  apply_options s (opt ∷ opts) = apply_options (apply_option s opt) opts

  -- `NewServer` at the time `now`.
  unfoldable pub new_mcp_server : ℕ → List (McpOption A) → McpServer A
  new_mcp_server now opts =
      apply_options
        (record {
          cfg = none;
          ring = none;
          auth = none;
          version = b'0' ∷ b'.' ∷ b'1' ∷ b'.' ∷ b'0' ∷ [];
          start_time = now;
        })
        opts

  unfoldable pub authorize : McpServer A → String → Option A
  authorize s method = elim s.auth [ none ↦ none | some auth ↦ auth method ]

-- A value of the arguments, of the type `any`.
pub data Arg (Float : Type 0) : Type 0 where
  float_arg : Float → Arg Float
  int_arg : ℤ → Arg Float
  int64_arg : ℤ → Arg Float
  string_arg : List ℕ → Arg Float
  other_arg : Arg Float

-- What `argMap` returns; `none` is nil.
abbrev pub Args : Type 0 → Type 0
Args Float = Option (List (String × Arg Float))

-- `uint64(n)`.
abbrev pub wrap_int : ℤ → ℕ
wrap_int (pos n) = n % 2 ^ 64
wrap_int (negsuc n) = (2 ^ 64 - (n + 1) % 2 ^ 64) % 2 ^ 64

-- `int(n)` of a uint64.
abbrev pub to_int : ℕ → ℤ
to_int n = if ltb n (2 ^ 63) then pos n else negsuc (2 ^ 64 - 1 - n)

module _ {Float : Type 0} where
  -- The type assertion on an argument that is there.
  abbrev pub as_string : Arg Float → Option (List ℕ)
  as_string (string_arg s) = some s
  as_string _ = none

  abbrev pub as_uint : (Float → ℕ) → Arg Float → Option ℕ
  as_uint to_uint64 (float_arg n) = some (to_uint64 n)
  as_uint to_uint64 (int_arg n) = some (wrap_int n)
  as_uint to_uint64 (int64_arg n) = some (wrap_int n)
  as_uint to_uint64 _ = none

  unfoldable pub arg_string : Args Float → String → Option (List ℕ)
  arg_string none key = none
  arg_string (some args) key = elim (lookup key args) [ none ↦ none | some v ↦ as_string v ]

  unfoldable pub arg_uint : (Float → ℕ) → Args Float → String → Option ℕ
  arg_uint to_uint64 none key = none
  arg_uint to_uint64 (some args) key = elim (lookup key args) [
    | none ↦ none
    | some v ↦ as_uint to_uint64 v
  ]

pub record ConnInfo : Type 0 where
  pub id : ℕ
  pub remote : List ℕ
  pub local : List ℕ

-- What a tool returns without an error.
pub data Result (Float : Type 0) : Type 0 where
  info : List ℕ → List ℕ → List ℕ → ℕ → Result Float
  connections : ℕ → List ConnInfo → Result Float
  connection : ConnInfo → Result Float
  ok : Result Float
  sent : ℕ → Result Float
  metrics : Snapshot Float → Result Float
  config : Option Config → Result Float
  logs : List (List ℕ) → Result Float

pub data ToolError (E : Type 0) : Type 0 where
  required : String → ToolError E
  not_found : ConnError → ToolError E
  server_error : E → ToolError E

pub data Outcome (E Float : Type 0) : Type 0 where
  returned : Result Float → Outcome E Float
  failed : ToolError E → Outcome E Float
  panicked : Outcome E Float

-- `uint32(msgID)`.
abbrev pub to_uint32 : ℕ → ℕ
to_uint32 n = n % 2 ^ 32

module _ {W C E Float A : Type 0} (srv : IServer W C E Float) (s : McpServer A) where
  abbrev pub conn_info : W → C → ConnInfo
  conn_info w c = record {
    id = srv.conn_id c;
    remote = srv.remote_addr w c;
    local = srv.local_addr w c;
  }

  unfoldable pub tool_server_info : ℕ → W → Outcome E Float
  tool_server_info now w = returned (
      info (srv.name w) s.version (elim (srv.address w) [ none ↦ [] | some addr ↦ addr ])
        ((now - s.start_time) / 1000000000))

  -- The callback of `toolListConnections`.
  abbrev pub list_conn : W → List ConnInfo → ℕ → C → List ConnInfo × Bool
  list_conn w conns id c = (conns ++ (record (conn_info w c) { id = id }) ∷ [], true)

  unfoldable pub tool_list_connections : W → Result Float
  unfolding range
  tool_list_connections w =
      let conns = range srv.conn_id (srv.conn_mgr w) (list_conn w) [] in
      connections (length conns) conns

  -- What is done with what `Get` of the manager returned.
  abbrev pub if_found :
      W → Option C × Option ConnError → (C → W × Outcome E Float) → W × Outcome E Float
  if_found w (some c, err) f = f c
  if_found w (none, some err) f = (w, failed (not_found err))
  if_found w (none, none) f = (w, panicked)

  abbrev pub with_conn : ℕ → W → (C → W × Outcome E Float) → W × Outcome E Float
  with_conn id w = if_found w (get (srv.conn_mgr w) id)

  unfoldable pub tool_get_connection : ℕ → W → W × Outcome E Float
  unfolding get
  tool_get_connection id w = with_conn id w (λ c. (w, returned (connection (conn_info w c))))

  -- The result of a call of the server that returns an error or nothing.
  abbrev pub or_error : Result Float → W × Option E → W × Outcome E Float
  or_error r (w, none) = (w, returned r)
  or_error r (w, some e) = (w, failed (server_error e))

  unfoldable pub tool_send_to_connection : ℕ → ℕ → List ℕ → W → W × Outcome E Float
  unfolding get
  tool_send_to_connection conn_id msg_id data_bytes w =
      with_conn conn_id w (λ c. or_error ok (srv.send_msg c msg_id data_bytes w))

  -- The callback of `toolBroadcast`.
  abbrev pub broadcast_to : ℕ → List ℕ → W × ℕ → ℕ → C → (W × ℕ) × Bool
  broadcast_to msg_id data_bytes (w, count) id c =
      let (w', err) = srv.send_msg c msg_id data_bytes w in
      ((w', elim err [ none ↦ count + 1 | some _ ↦ count ]), true)

  unfoldable pub tool_broadcast : ℕ → List ℕ → W → W × Outcome E Float
  unfolding range
  tool_broadcast msg_id data_bytes w =
      let (w', count) =
        range srv.conn_id (srv.conn_mgr w) (broadcast_to msg_id data_bytes) (w, 0) in
      (w', returned (sent count))

  unfoldable pub tool_close_connection : ℕ → W → W × Outcome E Float
  unfolding get
  tool_close_connection id w = with_conn id w (λ c. (srv.stop c w, returned ok))

  unfoldable pub tool_get_metrics : W → Result Float
  tool_get_metrics w = metrics (srv.metrics w)

  unfoldable pub tool_get_config : Result Float
  tool_get_config = config s.cfg

  -- `lines <= 0` means 50.
  abbrev pub line_count : ℤ → ℤ
  line_count (pos zero) = pos 50
  line_count (pos (suc n)) = pos (suc n)
  line_count (negsuc n) = pos 50

  abbrev pub logs_or_panic : Option (List (List ℕ)) → Outcome E Float
  logs_or_panic none = panicked
  logs_or_panic (some ls) = returned (logs ls)

  unfoldable pub tool_get_logs : ℤ → Outcome E Float
  tool_get_logs n = elim s.ring [
    | none ↦ returned (logs [])
    | some ring ↦ logs_or_panic (lines ring (line_count n))
  ]

  unfoldable pub tool_shutdown : W → W × Outcome E Float
  tool_shutdown w = or_error ok (srv.shutdown w)
