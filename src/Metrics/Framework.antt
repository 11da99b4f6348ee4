-- ===== src/Metrics/Framework.antt =====
-- knet/metrics.go: the handles that the framework takes from a registry.
-- A method of a registry is a function on it that returns or panics (`none`); the do blocks are the
-- code's composite literals, whose fields are evaluated in order. The children: Sharing says that
-- they are the same for all who ask, Available when asking does not panic.
pub mod Sharing
pub mod Available
use kinz.Base.{List, Option, none, some, String, Bool, true, false, []}
use kinz.Metrics.{Prometheus, Registry, Call, get_counter, get_gauge, get_histogram, call}

abbrev pub Metered : Type 0 → Type 0 → Type 0 → Type 0
Metered Reg Collector A = Registry Reg Collector → Registry Reg Collector × Option A

module _ {Reg Collector A : Type 0} where
  pub pure : A → Metered Reg Collector A
  pure a r = (r, some a)

module _ {Reg Collector A B : Type 0} where
  abbrev pub continue :
      (A → Metered Reg Collector B)
      → Registry Reg Collector × Option A
      → Registry Reg Collector × Option B
  continue f (r, none) = (r, none)
  continue f (r, some a) = f a r

  infixl 10 ◌>>=◌
  unfoldable pub ◌>>=◌ :
      Metered Reg Collector A → (A → Metered Reg Collector B) → Metered Reg Collector B
  unfolding pure
  ◌>>=◌ m f r = continue f (m r)

module _ {Reg Collector A : Type 0} where
  unfoldable pub unless_nil : Metered Reg Collector A → Bool → Metered Reg Collector (Option A)
  unfolding pure ◌>>=◌
  unless_nil m true = m >>= λ a. pure (some a)
  unless_nil m false = pure none

abbrev pub conn_total : String
conn_total = "kinz_conns_total"

abbrev pub conn_rejected : String
conn_rejected = "kinz_conns_rejected_total"

abbrev pub conn_active : String
conn_active = "kinz_conns_active"

abbrev pub conn_closed : String
conn_closed = "kinz_conns_closed_total"

abbrev pub msgs_received : String
msgs_received = "kinz_msgs_received_total"

abbrev pub msgs_sent : String
msgs_sent = "kinz_msgs_sent_total"

abbrev pub bytes_in : String
bytes_in = "kinz_bytes_in_total"

abbrev pub bytes_out : String
bytes_out = "kinz_bytes_out_total"

abbrev pub panics : String
panics = "kinz_handler_panics_total"

abbrev pub queue_full : String
queue_full = "kinz_queue_full_total"

abbrev pub heartbeat_missed : String
heartbeat_missed = "kinz_heartbeat_missed_total"

abbrev pub handle_duration : String
handle_duration = "kinz_msg_handle_duration_seconds"

pub record ConnMetrics (Collector : Type 0) : Type 0 where
  pub active : Collector
  pub closed : Collector
  pub bytes_in : Collector
  pub bytes_out : Collector
  pub msgs_recv : Collector
  pub msgs_sent : Collector

-- The fields of a Server.
pub record ServerMetrics (Collector : Type 0) : Type 0 where
  pub conns_total : Collector
  pub conns_active : Collector
  pub conns_closed : Collector
  pub conns_rejected : Collector

pub record HandlerMetrics (Collector : Type 0) : Type 0 where
  pub panics : Collector
  pub duration : Collector
  pub queue_full : Collector

pub record HeartbeatMetrics (Collector : Type 0) : Type 0 where
  pub missed : Collector

module _ {Reg Collector Float : Type 0} (prom : Prometheus Reg Collector Float) where
  abbrev pub conn_metrics : Metered Reg Collector (ConnMetrics Collector)
  conn_metrics = do
    active ← call prom (get_gauge conn_active "Currently active connections")
    closed ← call prom (get_counter conn_closed "Connections closed")
    received ← call prom (get_counter bytes_in "Bytes received from peers")
    sent ← call prom (get_counter bytes_out "Bytes sent to peers")
    msgs_recv ← call prom (get_counter msgs_received "Messages received")
    msgs_out ← call prom (get_counter msgs_sent "Messages sent")
    pure (record {
      active = active;
      closed = closed;
      bytes_in = received;
      bytes_out = sent;
      msgs_recv = msgs_recv;
      msgs_sent = msgs_out;
    })

  abbrev pub handler_metrics : Metered Reg Collector (HandlerMetrics Collector)
  handler_metrics = do
    recovered ← call prom (get_counter panics "Panics recovered in handlers")
    duration ← call prom (get_histogram handle_duration "Message handler duration in seconds" [])
    full ← call prom (get_counter queue_full "Worker queue full (backpressure) events")
    pure (record { panics = recovered; duration = duration; queue_full = full })

  abbrev pub heartbeat_metrics : Metered Reg Collector (HeartbeatMetrics Collector)
  heartbeat_metrics = do
    missed ← call prom (get_counter heartbeat_missed "Heartbeat liveness timeouts")
    pure (record { missed = missed })

  -- What `NewServer` takes from its registry.
  unfoldable pub server_metrics : Metered Reg Collector (ServerMetrics Collector)
  unfolding pure ◌>>=◌
  server_metrics = do
    total ← call prom (get_counter conn_total "Total connections accepted")
    active ← call prom (get_gauge conn_active "Currently active connections")
    closed ← call prom (get_counter conn_closed "Connections closed")
    rejected ← call prom (get_counter conn_rejected "Connections rejected (max reached)")
    pure (record {
      conns_total = total;
      conns_active = active;
      conns_closed = closed;
      conns_rejected = rejected;
    })

  -- `if reg == nil { return nil }`, and the rest. The argument says whether there is a registry.
  unfoldable pub new_conn_metrics : Bool → Metered Reg Collector (Option (ConnMetrics Collector))
  unfolding unless_nil
  new_conn_metrics = unless_nil conn_metrics

  unfoldable pub new_handler_metrics :
      Bool → Metered Reg Collector (Option (HandlerMetrics Collector))
  unfolding unless_nil
  new_handler_metrics = unless_nil handler_metrics

  unfoldable pub new_heartbeat_metrics :
      Bool → Metered Reg Collector (Option (HeartbeatMetrics Collector))
  unfolding unless_nil
  new_heartbeat_metrics = unless_nil heartbeat_metrics
