-- ===== src/Mcp/Logs.antt =====
-- The tool of kmcp/tools.go that reads the log ring of klog/ringbuffer.go.
use kinz.Base.{
  ℕ, zero, suc, ◌^◌, ◌≤◌, ◌≡◌, refl, ap, ◌∙◌, Bool-cases, List, Option, none, some, inl, inr, ℤ,
  pos, length, newest, All, ltb, if◌then◌else◌,
}
use kinz.Ring.{RingBuffer, new_ring_buffer, lines}
use kinz.Ring.History.{write_all, joined}
use kinz.Ring.Lines.{IsLine, log_of, log_lines, lines-write_all}
use kinz.Mcp.{
  IServer, McpServer, Args, arg_uint, to_int, Outcome, returned, logs, logs_or_panic, line_count,
  tool_get_logs,
}
use kinz.Mcp.Tools.{get_logs, run_tool, wanted_lines}

-- How many lines an argument asks for: 50 if it is not given, is 0, or is negative as an `int`.
abbrev pub asked : Option ℕ → ℕ
asked none = 50
asked (some zero) = 50
asked (some (suc n)) = if ltb (suc n) (2 ^ 63) then suc n else 50

module _ {W C E Float A : Type 0} (srv : IServer W C E Float) (s : McpServer A)
    (to_uint64 : Float → ℕ) where
  count-asked :
      (o : Option ℕ)
      → line_count srv s (elim o [ none ↦ pos 50 | some n ↦ to_int n ]) ≡ pos (asked o)
  count-asked none = refl
  count-asked (some zero) = refl
  count-asked (some (suc n)) = elim (Bool-cases (ltb (suc n) (2 ^ 63))) [
    | inl small ↦ rw small refl
    | inr large ↦ rw large refl
  ]

  tool-ring :
      (r : RingBuffer) (n : ℤ)
      → s.ring ≡ some r
      → tool_get_logs srv s n ≡ logs_or_panic srv s (lines r (line_count srv s n))
  unfolding tool_get_logs
  tool-ring r n e = rw (e, tool_get_logs) refl

  -- If the log ring of the MCP server was made with any capacity and has since been written a log
  -- that fits it, however the writes cut it, then get_logs returns, without changing the server, the
  -- last lines of that log, in order: as many as its argument asks for, 50 if that is missing, is
  -- not a number, or is not positive, and all if there are fewer.
  pub get_logs-write_all :
      (capacity : ℤ) (ps : List (List ℕ)) (ls : List (List ℕ)) (last : List ℕ) (args : Args Float)
      (now : ℕ) (w : W)
      → s.ring ≡ some (write_all (new_ring_buffer capacity) ps)
      → All IsLine ls
      → IsLine last
      → joined ps ≡ log_of ls last
      → length (joined ps) ≤ (new_ring_buffer capacity).cap
      → run_tool srv s to_uint64 get_logs args now w ≡ (
        w,
        returned (logs (newest (asked (arg_uint to_uint64 args "lines")) (log_lines ls last))),
      )
  unfolding run_tool
  get_logs-write_all capacity ps ls last args now w ring h k e fits =
      let r = write_all (new_ring_buffer capacity) ps in
      let o = arg_uint to_uint64 args "lines" in
      ap (λ (t : Outcome E Float). (w, t))
        (tool-ring r (wanted_lines srv s to_uint64 args) ring
          ∙ ap (λ (n : ℤ). logs_or_panic srv s (lines r n)) (count-asked o)
          ∙ ap (logs_or_panic srv s) (lines-write_all capacity ps (asked o) ls last h k e fits))
