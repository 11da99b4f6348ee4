-- ===== src/Lib.antt =====
-- Kinz: a Go framework for TCP servers and clients with a length-prefixed message protocol. This
-- library models its core and proves what makes it correct.
--
-- The program. A server (knet/server.go) accepts sockets, registers each as a connection in a
-- manager (knet/connmanager.go) and starts it (knet/connection.go). A connection has a reader,
-- which turns bytes into messages (knet/datapack.go, knet/message.go) and hands each, as a request
-- (knet/request.go), to the message handler (knet/msgHandler.go); a writer with a queue; and a
-- heartbeat checker cloned from the server's template (knet/heartbeat.go). The message handler
-- sends the requests of one connection to one worker, which runs the chain of handlers that was
-- registered for the message's id (knet/routerSlices.go). The log may go to a ring of bytes
-- (klog/ringbuffer.go). Counters are handles of a registry (kmetrics/registry.go); readers take
-- their buffers from pools (kpool/pool.go); and a management endpoint (kmcp/) offers tools that
-- look at the server and act on it.
--
-- The files, each with the code that it models:
--   Base         names, lists over native numbers, maps with keys that are numbers (Maps) or strings
--                (Names), Boolean tests
--   Codec        knet/datapack.go, knet/message.go: TLVPack, Decode (decode), Pack (pack)
--   Ring         klog/ringbuffer.go: Write (write), Bytes (bytes), Lines (lines)
--   Request      knet/request.go: RouterSlicesNext (router_slices_next), Abort, Copy, Set, Get
--   Router       knet/msgHandler.go (addSlices, Group, Use, Execute) and knet/routerSlices.go
--   Pool         knet/msgHandler.go: StartWorkerPool, StopWorkerPool, worker, SendMsgToTaskQueue as a
--                step relation; Draining: the workers of a stopped pool
--   ConnManager  knet/connmanager.go
--   Connection   knet/connection.go: Start, stopOnce, the writer and SendMsg as a step relation, the
--                reader's loop as a function (read_chunks); Properties: SetProperty and the like;
--                Metering: the reader with its counters
--   Heartbeat    knet/heartbeat.go, and the options of knet/server.go and knet/client.go
--   Client       knet/client.go: Start (start), Stop (stop), Restart (restart), dial (assign_conn,
--                add_conn), run, and their parts as a step relation; Backoff: backoffValue, delay,
--                WithReconnect; Setup: NewClient, its options and setters
--   Config       kconf/config.go: Default (default), Load (load), applyEnv (apply_env); Durations:
--                UnmarshalYAML
--   Server       knet/server.go: handleConn, rejectConn, acceptLoop, Run, Shutdown; Setup: NewServer and
--                its options; System: Run and Shutdown with the worker pool;
--                Endpoint: AttachMetrics; Hooks: SetCodec, SetOnConnStart and the like
--   Metrics      kmetrics/registry.go: Counter, Gauge, Histogram (get_or_create), Snapshot, and
--                knet/metrics.go (Framework)
--   Buffers      kpool/pool.go: Get (get), Put (put)
--   Mcp          kmcp/server.go, kmcp/tools.go, kmcp/resources.go: the tool functions; Tools: what
--                serves them, with the authorization; Live: over the models of server and connection
--   Examples     the handlers of the servers in examples/auth-middleware, examples/echo and
--                examples/chatroom
-- A file of a component states its data and operations; the files below it have the lemmas and
-- theorems, and Tests has runs on concrete inputs. The components meet as in the code: Connection
-- uses decode and pack, Router uses router_slices_next of Request, Server uses the manager, Mcp
-- uses the manager, the ring and the codec's packets, Examples registers its handlers with Router
-- or uses the server of Mcp.
--
-- Concurrency. What a mutex guards is one step. Where goroutines interleave (the worker pool, the
-- life of a connection, a client) a step relation has one constructor for each thing that a
-- goroutine does between two points where another may come in; Reach is any sequence of steps, and
-- invariants are proved by induction on it; so it is with the callers of a metrics registry.
-- `closeOnce` is a program counter that leaves its first value once.
--
-- Fuel. The loop of Decode takes one more than the number of buffered bytes: every turn that goes
-- on removes eight bytes or more. RouterSlicesNext, which handlers call again, takes the length of
-- the chain: every call inside a call moves the index forward. Running out is a value of the
-- result (`none`, `starved`).
--
-- Numbers. Bytes, ids, lengths and durations are native natural numbers; uint32 conversions and
-- the 64-bit connection counter wrap in the definitions. A parameter that may be negative is an
-- integer. Go's `int` values (buffer sizes, counts of handlers) are taken to stay below 2 ^ 63.
--
-- Parameters. The YAML library and time.ParseDuration are parameters of Config. The prometheus
-- client is one of Metrics: that a registry takes a collector with a valid name exactly once is
-- the hypothesis Registers. Floating-point numbers are one of Client.Backoff: FloatLaws says what
-- IEEE 754 says of numbers that are not NaN and of durations up to 2 ^ 53 nanoseconds. The server
-- is one of Mcp, as the interface IServer. That sync.Pool hands out any buffer that was put, or a
-- new one, is an argument of Buffers.
--
-- Not modelled: sockets, TLS, timers and clocks (which case of a select fires is an argument or a
-- choice of the scheduler); what handlers and hooks of an application do, beyond the calls that
-- they make on the request; handlers that bind a new chain to their request, recover, or never
-- return; how long a reader waits for a worker; calls of Start and Stop of one client that overlap;
-- counters, but for those that Server counts, those of a reader, and the gauge that a stop of a
-- connection decrements; the HTTP endpoints, and what the MCP SDK does between a client and the
-- tool functions; logging but for the ring; the clients of the examples.
pub mod Base
pub mod Codec
pub mod Ring
pub mod Request
pub mod Router
pub mod Pool
pub mod ConnManager
pub mod Connection
pub mod Heartbeat
pub mod Server
pub mod Client
pub mod Config
pub mod Buffers
pub mod Examples
pub mod Mcp
pub mod Metrics
