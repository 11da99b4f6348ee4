-- ===== src/Connection/Closing.antt =====
-- What closing a connection of knet/connection.go leaves behind, under every interleaving.
use kinz.Base.{
  if◌then◌else◌, ◌+◌, Bool-cases, inl, inr, ℕ, ◌≤◌, ◌<◌, ◌≡◌, refl, subst, sym, Bool, true, false,
  arith,
}
use kinz.Connection.{
  ConnState, state_closed, not_started, StopPc, not_stopped, marked, hooked, taken, quiet, counted,
  hung_up, signalled, removed, Connection, new_connection, start_cas, launch, mark_closed,
  call_on_conn_stop, take_heartbeat, stop_heartbeat, count_closed, hang_up, signal_done,
  remove_self, enqueue, Step, begin, bind, arm, go, mark, hook, take, quieten, count, close, signal,
  remove, send, pass, fetch, write, write_error, writer_left, writer_done, reader_done, Reach, here,
  further, not_launched,
}
use kinz.Connection.Lifecycle.{Guarded, Marks, times}
use kinz.Connection.Steps.{new_connection-Reach-Inv}

-- What the counters of `stopOnce`, taken together, say of the state and the heartbeat loop.
abbrev Ordered : Bool → ConnState → Bool → ℕ × ℕ × ℕ × ℕ → Type 0
Ordered metered state loop t =
    (t.0 ≤ 1)
    × (t.1 ≤ t.0)
    × (t.2 ≤ t.0)
    × ((if metered then t.2 else t.1) ≤ (if metered then t.1 else 0))
    × (t.3 ≤ t.2)
    × (0 < t.0 → state ≡ state_closed)
    × (0 < t.1 + t.2 → loop ≡ false)

Ordered-times :
    (metered : Bool) (p : StopPc) (hb loop : Bool) (state : ConnState)
    → Guarded p hb loop
    → Marks p state
    → Ordered metered state loop (times metered p)
Ordered-times metered not_stopped hb loop state g m = ground arith
Ordered-times metered marked hb loop state g m = ground arith
Ordered-times metered hooked hb loop state g m = ground arith
Ordered-times metered (taken held) hb loop state g m = ground arith
Ordered-times metered quiet hb loop state g m = ground arith
Ordered-times metered counted hb loop state g m = ground arith
Ordered-times metered hung_up hb loop state g m = ground arith
Ordered-times metered signalled hb loop state g m = ground arith
Ordered-times metered removed hb loop state g m = ground arith

Reach-Ordered :
    (has_template metered : Bool) (n : ℕ) (c : Connection)
    → Reach (new_connection has_template metered n) c
    → Ordered c.metered c.state c.hb_loop (c.stop_hooks, c.active_decs, c.done_closes, c.removals)
Reach-Ordered has_template metered n c r =
    let v = new_connection-Reach-Inv has_template metered n r in
    subst (Ordered c.metered c.state c.hb_loop) (sym v.once)
      (Ordered-times c.metered c.stop_pc c.hb c.hb_loop c.state v.guarded v.marks)

-- However `Start`, `Stop`, the reader and the writer interleave: the stop hook is called, the metric
-- counted, done closed and the connection removed from the manager at most once each. The metric and
-- done come behind the hook, and the removal behind done. With metrics done comes behind the metric;
-- without, nothing is counted.
pub stop_once_lem :
    (has_template metered : Bool) (n : ℕ) (c : Connection)
    → Reach (new_connection has_template metered n) c
    → (c.stop_hooks ≤ 1)
      × (c.active_decs ≤ c.stop_hooks)
      × (c.done_closes ≤ c.stop_hooks)
      × ((if c.metered then c.done_closes else c.active_decs)
          ≤ (if c.metered then c.active_decs else 0))
      × (c.removals ≤ c.done_closes)
stop_once_lem has_template metered n c r =
    let o = Reach-Ordered has_template metered n c r in (o.0, o.1, o.2, o.3, o.4)

-- No heartbeat loop outlives its connection, also if `Start` is still under way while another
-- goroutine stops the connection: once the stop has been counted, or done is closed, none runs.
pub heartbeat_never_leaks :
    (has_template metered : Bool) (n : ℕ) (c : Connection)
    → Reach (new_connection has_template metered n) c
    → 0 < c.active_decs + c.done_closes
    → c.hb_loop ≡ false
heartbeat_never_leaks has_template metered n c r h = (Reach-Ordered has_template metered n c r).6 h

-- A connection that was closed before `Start`: no goroutine, no hook and no heartbeat.
abbrev pub Unborn : Connection → Type 0
Unborn c =
    (c.state ≡ state_closed)
    × (c.start_pc ≡ not_started)
    × (c.reader ≡ not_launched)
    × (c.writer ≡ not_launched)
    × (c.start_hooks ≡ 0)
    × (c.hb_loop ≡ false)

Unborn-start_cas : (c : Connection) → Unborn c → Unborn (start_cas c)
unfolding start_cas
Unborn-start_cas c u = rw (u.0, start_cas) u

count_closed-Unborn : (c : Connection) → Unborn c → Unborn (count_closed c)
unfolding count_closed
count_closed-Unborn c u = elim (Bool-cases c.metered) [
  | inl e ↦ rw (e, count_closed) u
  | inr e ↦ rw (e, count_closed) u
]

Step-Unborn : {c d : Connection} → Step c d → Unborn c → Unborn d
unfolding launch mark_closed call_on_conn_stop hang_up signal_done remove_self enqueue
    take_heartbeat stop_heartbeat
Step-Unborn {c} (begin h) u = Unborn-start_cas c u
Step-Unborn (bind h) u = cc
Step-Unborn (arm h) u = cc
Step-Unborn (go h) u = cc
Step-Unborn (mark h) u = (refl, u.1, u.2, u.3, u.4, u.5)
Step-Unborn (hook h) u = u
Step-Unborn (take h) u = u
Step-Unborn (quieten true h) u = (u.0, u.1, u.2, u.3, u.4, refl)
Step-Unborn (quieten false h) u = u
Step-Unborn {c} (count h) u = count_closed-Unborn c u
Step-Unborn (close h) u = u
Step-Unborn (signal h) u = u
Step-Unborn (remove h) u = u
Step-Unborn (send wire room) u = u
Step-Unborn (pass wire h w e) u = cc
Step-Unborn (fetch wire rest h w e) u = cc
Step-Unborn (write wire h e) u = cc
Step-Unborn (write_error wire part rest h e p) u = cc
Step-Unborn (writer_left h e) u = cc
Step-Unborn (writer_done h w e) u = cc
Step-Unborn (reader_done h e) u = cc

-- A connection that is closed before `Start` was called is never started: whatever happens later,
-- it stays closed, and there is no reader, no writer, no start hook and no heartbeat loop.
pub closed_before_start : {c d : Connection} → Reach c d → Unborn c → Unborn d
closed_before_start here u = u
closed_before_start (further r s) u = Step-Unborn s (closed_before_start r u)
