-- ===== src/Mcp/Tools.antt =====
-- The tools and resources that kmcp registers (tools.go, resources.go), behind the authorization of
-- server.go.
use kinz.Base.{ℕ, Bool, true, false, List, Option, none, some, ℤ, pos, String}
use kinz.Mcp.{
  IServer, McpServer, authorize, Args, arg_string, arg_uint, to_int, to_uint32, Result, ToolError,
  required, Outcome, returned, failed, panicked, tool_server_info, tool_list_connections,
  tool_get_connection, tool_send_to_connection, tool_broadcast, tool_close_connection,
  tool_get_metrics, tool_get_config, tool_get_logs, tool_shutdown,
}

pub data Tool : Type 0 where
  server_info list_connections get_connection send_to_connection broadcast : Tool
  close_connection get_metrics get_config get_logs shutdown_server : Tool

pub data Resource : Type 0 where
  connections_uri metrics_uri config_uri logs_uri : Resource

-- The text of a result.
pub data Content (E Float : Type 0) : Type 0 where
  pretty : Result Float → Content E Float
  error_text : ToolError E → Content E Float

pub record CallToolResult (E Float : Type 0) : Type 0 where
  pub content : Content E Float
  pub is_error : Bool

-- What a handler gives back to the library: an error, a result, or a panic.
pub data Reply (A R : Type 0) : Type 0 where
  denied : A → Reply A R
  answer : R → Reply A R
  reply_panicked : Reply A R

module _ {E Float A : Type 0} where
  abbrev pub text_result : Content E Float → Bool → Reply A (CallToolResult E Float)
  text_result content is_error = answer (record { content = content; is_error = is_error })

  abbrev pub to_reply : Outcome E Float → Reply A (CallToolResult E Float)
  to_reply (returned r) = text_result (pretty r) false
  to_reply (failed e) = text_result (error_text e) true
  to_reply panicked = reply_panicked

  -- `wrapTool`.
  unfoldable pub wrap_tool :
      {W : Type 0}
      → McpServer A
      → (W → W × Outcome E Float)
      → W
      → W × Reply A (CallToolResult E Float)
  unfolding authorize
  wrap_tool s f w = elim (authorize s "tools/call") [
    | some err ↦ (w, denied err)
    | none ↦ (let (w', outcome) = f w in (w', to_reply outcome))
  ]

module _ {W C E Float A : Type 0} (srv : IServer W C E Float) (s : McpServer A)
    (to_uint64 : Float → ℕ) where
  -- An argument that a tool requires, and what it does with it.
  abbrev pub given :
      {T : Type 0} → String → Option T → (T → W → W × Outcome E Float) → W → W × Outcome E Float
  given key none f w = (w, failed (required key))
  given key (some value) f w = f value w

  abbrev pub with_uint :
      String → Args Float → (ℕ → W → W × Outcome E Float) → W → W × Outcome E Float
  with_uint key args = given key (arg_uint to_uint64 args key)

  abbrev pub with_string :
      String → Args Float → (List ℕ → W → W × Outcome E Float) → W → W × Outcome E Float
  with_string key args = given key (arg_string args key)

  -- The number of lines that `get_logs` asks for.
  abbrev pub wanted_lines : Args Float → ℤ
  wanted_lines args = elim (arg_uint to_uint64 args "lines") [ none ↦ pos 50 | some n ↦ to_int n ]

  -- The functions that `registerTools` registers, at the time `now`.
  unfoldable pub run_tool : Tool → Args Float → ℕ → W → W × Outcome E Float
  unfolding arg_uint arg_string tool_server_info tool_list_connections tool_get_connection
      tool_send_to_connection tool_broadcast tool_close_connection tool_get_metrics tool_get_config
      tool_get_logs tool_shutdown
  run_tool server_info args now w = (w, tool_server_info srv s now w)
  run_tool list_connections args now w = (w, returned (tool_list_connections srv s w))
  run_tool get_connection args now w = with_uint "connID" args (tool_get_connection srv s) w
  run_tool send_to_connection args now w =
      with_uint "connID" args
        (λ conn_id. with_uint "msgID" args (λ msg_id.
          with_string "data" args (tool_send_to_connection srv s conn_id (to_uint32 msg_id))))
        w
  run_tool broadcast args now w =
      with_uint "msgID" args
        (λ msg_id. with_string "data" args (tool_broadcast srv s (to_uint32 msg_id))) w
  run_tool close_connection args now w = with_uint "connID" args (tool_close_connection srv s) w
  run_tool get_metrics args now w = (w, returned (tool_get_metrics srv s w))
  run_tool get_config args now w = (w, returned (tool_get_config srv s))
  run_tool get_logs args now w = (w, tool_get_logs srv s (wanted_lines args))
  run_tool shutdown_server args now w = tool_shutdown srv s w

  -- A call of a tool.
  unfoldable pub call_tool : Tool → Args Float → ℕ → W → W × Reply A (CallToolResult E Float)
  unfolding wrap_tool run_tool
  call_tool tool args now = wrap_tool s (run_tool tool args now)

  abbrev pub to_contents : Outcome E Float → Reply A (Outcome E Float)
  to_contents panicked = reply_panicked
  to_contents (returned r) = answer (returned r)
  to_contents (failed e) = answer (failed e)

  -- The functions that `registerResources` registers.
  unfoldable pub read_resource : Resource → W → Reply A (Outcome E Float)
  unfolding authorize tool_list_connections tool_get_metrics tool_get_config tool_get_logs
  read_resource connections_uri w = answer (returned (tool_list_connections srv s w))
  read_resource metrics_uri w = answer (returned (tool_get_metrics srv s w))
  read_resource config_uri w = answer (returned (tool_get_config srv s))
  read_resource logs_uri w = elim (authorize s "resources/read") [
    | some err ↦ denied err
    | none ↦ to_contents (tool_get_logs srv s (pos 100))
  ]
