-- ===== src/Connection.antt =====
-- knet/connection.go: the life of one connection, as a step relation.
-- A step is what a goroutine does between two points where another may come in: the caller of
-- `Start`, whoever wins `closeOnce` in `stopOnce`, the reader, the writer, and the callers of
-- `SendMsg`. `start_pc` and `stop_pc` say how far `Start` and `stopOnce` have come; `metered` says
-- whether there are metrics; `writing` is the packet that the writer has taken and not yet written,
-- and `broken_off` what a write that failed has put on the wire of its packet. The counters and the
-- lists `accepted`, `written` and `lost` are histories for the statements. The heartbeat checker is
-- two bits here: whether the field `hb` holds it, and whether its loop runs; Heartbeat models the
-- checker itself. What the reader makes of the bytes is `read_chunks`. The hooks of the application
-- return; how long the reader waits for a worker is not modelled.
-- The children: Lifecycle has the invariant of `Start` and `stopOnce`, Steps that every step keeps
-- it, Closing what it means for a connection that is closed, Queue the invariant of the write queue,
-- Writing what the peer receives, Reading the reader's loop, Metering what it counts, Properties the
-- properties of a connection.
pub mod Lifecycle
pub mod Steps
pub mod Closing
pub mod Queue
pub mod Writing
pub mod Reading
pub mod Properties
pub mod Metering
mod Tests
use kinz.Base.{
  ℕ, zero, suc, ◌+◌, ◌-◌, ◌≤◌, ◌<◌, ◌≡◌, ◌≢◌, Bool, true, false, List, [], ◌∷◌, ◌++◌, Option, none,
  some, length, leb, ltb, ℤ, pos, negsuc, ◌==◌, if◌then◌else◌, map,
}
use kinz.Codec.{Message, TlvPack, Decoded, DecodeError, decode, pack, new_message}

pub data ConnState : Type 0 where
  state_created state_running state_closed : ConnState

-- `Start`: not called; past the compare-and-swap; the checker bound; past the heartbeat; returned.
pub data StartPc : Type 0 where
  not_started won bound armed launched : StartPc

-- `stopOnce`: not called; state stored; hook called; checker taken from the field; checker stopped;
-- metrics counted; socket closed; done closed; removed from the manager.
pub data StopPc : Type 0 where
  not_stopped marked hooked : StopPc
  taken : Bool → StopPc
  quiet counted hung_up signalled removed : StopPc

pub data Goroutine : Type 0 where
  not_launched going leaving gone : Goroutine

pub record Connection : Type 0 where
  pub has_template : Bool
  pub metered : Bool
  pub write_queue_size : ℕ
  pub state : ConnState
  pub start_pc : StartPc
  pub stop_pc : StopPc
  pub started : Bool
  pub hb : Bool
  pub hb_loop : Bool
  pub reader : Goroutine
  pub writer : Goroutine
  pub msg_chan : List (List ℕ)
  pub writing : List (List ℕ)
  pub accepted : List (List ℕ)
  pub written : List (List ℕ)
  pub lost : List (List ℕ)
  pub broken_off : List ℕ
  pub start_hooks : ℕ
  pub stop_hooks : ℕ
  pub active_decs : ℕ
  pub done_closes : ℕ
  pub removals : ℕ

unfoldable pub new_connection : Bool → Bool → ℕ → Connection
new_connection has_template metered write_queue_size = record {
  has_template = has_template;
  metered = metered;
  write_queue_size = write_queue_size;
  state = state_created;
  start_pc = not_started;
  stop_pc = not_stopped;
  started = false;
  hb = false;
  hb_loop = false;
  reader = not_launched;
  writer = not_launched;
  msg_chan = [];
  writing = [];
  accepted = [];
  written = [];
  lost = [];
  broken_off = [];
  start_hooks = 0;
  stop_hooks = 0;
  active_decs = 0;
  done_closes = 0;
  removals = 0;
}

-- `c.state.CompareAndSwap(stateCreated, stateRunning)`, and the return of a `Start` that loses.
unfoldable pub start_cas : Connection → Connection
start_cas c = elim c.state [
  | state_created ↦ record c { state = state_running; start_pc = won }
  | state_running ↦ c
  | state_closed ↦ c
]

-- `hb.BindConn(c)` if there is a template.
unfoldable pub bind_heartbeat : Connection → Connection
bind_heartbeat c =
    if c.has_template
    then record c { hb = true; start_pc = bound }
    else record c { start_pc = armed }

-- The critical section of `Start`: the loop of the checker is started only if the connection still
-- runs, otherwise the reference is dropped.
unfoldable pub arm_heartbeat : Connection → Connection
arm_heartbeat c = elim c.state [
  | state_created ↦ record c { hb = false; start_pc = armed }
  | state_running ↦ record c { hb_loop = true; start_pc = armed }
  | state_closed ↦ record c { hb = false; start_pc = armed }
]

-- The end of `Start`.
unfoldable pub launch : Connection → Connection
launch c = record c {
  started = true;
  reader = going;
  writer = going;
  start_hooks = c.start_hooks + 1;
  start_pc = launched;
}

unfoldable pub mark_closed : Connection → Connection
mark_closed c = record c { state = state_closed; stop_pc = marked }

unfoldable pub call_on_conn_stop : Connection → Connection
call_on_conn_stop c = record c { stop_hooks = c.stop_hooks + 1; stop_pc = hooked }

-- `hb := c.hb; c.hb = nil` under the lock.
unfoldable pub take_heartbeat : Connection → Connection
take_heartbeat c = record c { hb = false; stop_pc = taken c.hb }

-- `hb.Stop()` if there was one.
unfoldable pub stop_heartbeat : Bool → Connection → Connection
stop_heartbeat held c =
    if held then record c { hb_loop = false; stop_pc = quiet } else record c { stop_pc = quiet }

-- The metrics are nil if they are disabled.
unfoldable pub count_closed : Connection → Connection
count_closed c =
    if c.metered
    then record c { active_decs = c.active_decs + 1; stop_pc = counted }
    else record c { stop_pc = counted }

unfoldable pub hang_up : Connection → Connection
hang_up c = record c { stop_pc = hung_up }

unfoldable pub signal_done : Connection → Connection
signal_done c = record c { done_closes = c.done_closes + 1; stop_pc = signalled }

unfoldable pub remove_self : Connection → Connection
remove_self c = record c { removals = c.removals + 1; stop_pc = removed }

-- A `SendMsg` that found the connection running, and room in the queue.
unfoldable pub enqueue : List ℕ → Connection → Connection
enqueue wire c = record c {
  msg_chan = c.msg_chan ++ (wire ∷ []);
  accepted = c.accepted ++ (wire ∷ []);
}

-- The case that the `select` of `SendMsg` takes: the queue has room, done is closed, or the timer
-- fires, which it does only for a positive timeout.
pub data SelectCase : Type 0 where
  room done_closed timer : SelectCase

pub data SendError : Type 0 where
  conn_closed write_queue_full : SendError

-- `SendMsg`; packing does not fail.
unfoldable pub send_msg :
    Connection → TlvPack → ℕ → List ℕ → SelectCase → Connection × Option SendError
unfolding enqueue
send_msg c codec msg_id payload which = elim c.state [
  | state_created ↦ (c, some conn_closed)
  | state_closed ↦ (c, some conn_closed)
  | state_running ↦ elim which [
    | room ↦ (enqueue (pack codec (new_message msg_id payload)) c, none)
    | done_closed ↦ (c, some conn_closed)
    | timer ↦ (c, some write_queue_full)
  ]
]

-- The reader's loop, given what the reads return one after the other: the messages that it hands to
-- the task queue, in order, and whether it closed the connection for a decoding error. The outer
-- `none` is that of `decode`.
unfoldable pub read_chunks : TlvPack → List (List ℕ) → Option (List Message × Bool)
read_chunks codec [] = some ([], false)
read_chunks codec (buf ∷ bufs) = elim (decode codec buf) [
  | none ↦ none
  | some d ↦ elim d.error [
    | some derr ↦ some ([], true)
    | none ↦ elim (read_chunks d.codec bufs) [
      | none ↦ none
      | some (msgs, closing) ↦ some (d.msgs ++ msgs, closing)
    ]
  ]
]

-- `IsAlive`, with the clock and the last activity as numbers of nanoseconds; 0 is none yet.
unfoldable pub is_alive : ℕ → ℕ → ℤ → Bool
is_alive last now (negsuc timeout) = true
is_alive last now (pos timeout) =
    if timeout == 0 then true else if last == 0 then true else leb (now - last) timeout

pub data Step (c : Connection) : Connection → Type 0 where
  begin : c.start_pc ≡ not_started → Step c (start_cas c)
  bind : c.start_pc ≡ won → Step c (bind_heartbeat c)
  arm : c.start_pc ≡ bound → Step c (arm_heartbeat c)
  go : c.start_pc ≡ armed → Step c (launch c)
  mark : c.stop_pc ≡ not_stopped → Step c (mark_closed c)
  hook : c.stop_pc ≡ marked → Step c (call_on_conn_stop c)
  take : c.stop_pc ≡ hooked → Step c (take_heartbeat c)
  quieten : (held : Bool) → c.stop_pc ≡ taken held → Step c (stop_heartbeat held c)
  count : c.stop_pc ≡ quiet → Step c (count_closed c)
  close : c.stop_pc ≡ counted → Step c (hang_up c)
  signal : c.stop_pc ≡ hung_up → Step c (signal_done c)
  remove : c.stop_pc ≡ signalled → Step c (remove_self c)
  -- The state was read before; it may have been closed since.
  send : (wire : List ℕ) → length c.msg_chan < c.write_queue_size → Step c (enqueue wire c)
  -- The queue is empty, and the writer waits for a packet.
  pass :
      (wire : List ℕ)
      → c.writer ≡ going
      → c.writing ≡ []
      → c.msg_chan ≡ []
      → Step c (record c { writing = wire ∷ []; accepted = c.accepted ++ (wire ∷ []) })
  fetch :
      (wire : List ℕ) (rest : List (List ℕ))
      → c.writer ≡ going
      → c.writing ≡ []
      → c.msg_chan ≡ wire ∷ rest
      → Step c (record c { msg_chan = rest; writing = wire ∷ [] })
  write :
      (wire : List ℕ)
      → c.writer ≡ going
      → c.writing ≡ wire ∷ []
      → Step c (record c { writing = []; written = c.written ++ (wire ∷ []) })
  -- The write of `wire` fails behind a part of it, which is on the wire; the writer waits for
  -- `stopOnce` to be over.
  write_error :
      (wire part rest : List ℕ)
      → c.writer ≡ going
      → c.writing ≡ wire ∷ []
      → wire ≡ part ++ rest
      → Step c (record c {
        writing = [];
        lost = c.lost ++ (wire ∷ []);
        broken_off = part;
        writer = leaving;
      })
  writer_left : c.writer ≡ leaving → c.stop_pc ≡ removed → Step c (record c { writer = gone })
  -- The writer sees that done is closed.
  writer_done :
      c.writer ≡ going → c.writing ≡ [] → 0 < c.done_closes → Step c (record c { writer = gone })
  -- The reader leaves its loop on any error, and waits for `stopOnce` to be over. It may do so late:
  -- while it waits in `SendMsgToTaskQueue`, this step is not taken.
  reader_done : c.reader ≡ going → c.stop_pc ≡ removed → Step c (record c { reader = gone })

pub data Reach (c : Connection) : Connection → Type 0 where
  here : Reach c c
  further : {d e : Connection} → Reach c d → Step d e → Reach c e
