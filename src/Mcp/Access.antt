-- ===== src/Mcp/Access.antt =====
-- The authorization of kmcp/server.go in front of the tools, and the replies of wrapTool in
-- kmcp/tools.go.
use kinz.Base.{ℕ, ◌≡◌, refl, ap, true, false, List, [], ◌∷◌, map, Option, none, some}
use kinz.Mcp.{IServer, McpServer, authorize, Args, Outcome, returned, failed, panicked}
use kinz.Mcp.Tools.{
  Tool, CallToolResult, pretty, error_text, Reply, answer, reply_panicked, denied, to_reply,
  run_tool, call_tool, wrap_tool,
}

-- A call of a tool, with its arguments and its time.
pub record ToolCall (Float : Type 0) : Type 0 where
  pub tool : Tool
  pub args : Args Float
  pub time : ℕ

module _ {W C E Float A : Type 0} (srv : IServer W C E Float) (s : McpServer A)
    (to_uint64 : Float → ℕ) where
  -- Calls one after the other, with the replies.
  abbrev pub call_tools : List (ToolCall Float) → W → W × List (Reply A (CallToolResult E Float))
  call_tools [] w = (w, [])
  call_tools (c ∷ cs) w =
      let (w', reply) = call_tool srv s to_uint64 c.tool c.args c.time w in
      let (w'', replies) = call_tools cs w' in (w'', reply ∷ replies)

  -- The same calls of the functions behind, with nothing in front of them, and what each gave.
  abbrev pub run_tools : List (ToolCall Float) → W → W × List (Outcome E Float)
  run_tools [] w = (w, [])
  run_tools (c ∷ cs) w =
      let (w', outcome) = run_tool srv s to_uint64 c.tool c.args c.time w in
      let (w'', outcomes) = run_tools cs w' in (w'', outcome ∷ outcomes)

  -- What a client is to see of an outcome.
  abbrev pub Tells : Outcome E Float → Reply A (CallToolResult E Float) → Type 0
  Tells (returned r) reply = reply ≡ answer (record { content = pretty r; is_error = false })
  Tells (failed e) reply = reply ≡ answer (record { content = error_text e; is_error = true })
  Tells panicked reply = reply ≡ reply_panicked

  abbrev pub AllTell : List (Outcome E Float) → List (Reply A (CallToolResult E Float)) → Type 0
  AllTell [] replies = replies ≡ []
  AllTell (o ∷ os) [] = ⊥
  AllTell (o ∷ os) (reply ∷ replies) = Tells o reply × AllTell os replies

  -- What a client and the server are to see of some calls.
  abbrev pub Served :
      Option A → List (ToolCall Float) → W → W × List (Reply A (CallToolResult E Float)) → Type 0
  Served (some err) cs w r = (r.0 ≡ w) × (r.1 ≡ map (λ c. denied err) cs)
  Served none cs w r = (r.0 ≡ (run_tools cs w).0) × AllTell (run_tools cs w).1 r.1

  Tells-to_reply : (o : Outcome E Float) → Tells o (to_reply o)
  Tells-to_reply (returned r) = refl
  Tells-to_reply (failed e) = refl
  Tells-to_reply panicked = refl

  call-guarded :
      (c : ToolCall Float) (w : W)
      → call_tool srv s to_uint64 c.tool c.args c.time w ≡ elim (authorize s "tools/call") [
        | some err ↦ (w, denied err)
        | none ↦ (
          (run_tool srv s to_uint64 c.tool c.args c.time w).0,
          to_reply (run_tool srv s to_uint64 c.tool c.args c.time w).1,
        )
      ]
  unfolding call_tool wrap_tool
  call-guarded c w = refl

  Served-call_tools :
      (o : Option A) (cs : List (ToolCall Float)) (w : W)
      → authorize s "tools/call" ≡ o
      → Served o cs w (call_tools cs w)
  Served-call_tools none [] w e = (refl, refl)
  Served-call_tools (some err) [] w e = (refl, refl)
  Served-call_tools none (c ∷ cs) w e =
      let (w', outcome) = run_tool srv s to_uint64 c.tool c.args c.time w in
      let rest = Served-call_tools none cs w' e in
      rw (call-guarded c w, e) (rest.0, (Tells-to_reply outcome, rest.1))
  Served-call_tools (some err) (c ∷ cs) w e =
      let rest = Served-call_tools (some err) cs w e in
      rw (call-guarded c w, e) (rest.0, ap (◌∷◌ (denied err)) rest.1)

  -- Any calls of tools: if the authorization turns down "tools/call", the server stays as it is, and
  -- every reply is the authorization's error. Otherwise, or if there is none, the server is as after
  -- the functions behind them, and for each call the reply is an error result with the text of the
  -- error if that function failed, a result with its value and no error mark if it returned, and a
  -- panic if it panicked.
  pub call_tools_lem :
      (cs : List (ToolCall Float)) (w : W)
      → Served (authorize s "tools/call") cs w (call_tools cs w)
  call_tools_lem cs w = Served-call_tools (authorize s "tools/call") cs w refl
