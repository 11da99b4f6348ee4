-- ===== src/Server/Tests.antt =====
-- Runs of knet/server.go.
use kinz.Base.{
  ℕ, if◌then◌else◌, arith, ◌+◌, ◌≡◌, refl, true, false, List, [], ◌∷◌, none, some, pos, length,
}
use kinz.ConnManager.{new_conn_manager, add, remove, get}
use kinz.ConnManager.Limit.{IsValid}
use kinz.Codec.{TlvPack, clone, new_tlv_pack_with_order, little_endian}
use kinz.Server.{
  Server, new_server, same_id, handle_conn, reject_conn, after_handle, accept_conn, conn_stopped,
  shutdown, run,
}
use kinz.Server.Accounting.{connected, stopped, Event, happens, happen_all, accounting}
use kinz.Config.{default}
use kinz.Pool.{new_pool, stop_worker_pool, waiting}
use kinz.Server.Setup.{Store, make_server, with_max_conn, with_tls, config_at}
use kinz.Server.Setup.Sharing.{overridden, make_server_lem}
use kinz.Server.Endpoint.{
  new_endpoint, attach_metrics, shutdown_endpoint, attaches, shuts_down,
  happen_all as endpoint_after,
}
use kinz.Server.Hooks.{
  Hosting, sets_codec, sets_on_conn_start, handles, conn_starts, happen_all as hosting_after,
}
use kinz.Server.System.{System, shutdown_all, shutdown_all_lem}
use kinz.Server.Shutdown.{shutdown_lem, run_after_shutdown}

-- Three peers connect to a server for two; the first leaves, and it takes the fourth.
abbrev events : List Event
events = connected ∷ connected ∷ connected ∷ stopped 1 ∷ stopped 1 ∷ connected ∷ []

abbrev small_server : Server
small_server = new_server (pos 2) 16

third_rejected : (happen_all small_server events).conns_rejected ≡ 1
unfolding happen_all happens new_server new_conn_manager new_tlv_pack_with_order accept_conn
    handle_conn after_handle reject_conn conn_stopped add remove
third_rejected = refl

fourth_found : (get (happen_all small_server events).conn_mgr 4).0 ≡ some 4
unfolding happen_all happens new_server new_conn_manager new_tlv_pack_with_order accept_conn
    handle_conn after_handle reject_conn conn_stopped add remove get
fourth_found = refl

accounting_example :
    ((happen_all small_server events).conns_total + (happen_all small_server events).conns_rejected
      ≡ 4)
    × ((happen_all small_server events).active_incs
        ≡ (happen_all small_server events).active_decs
          + length (happen_all small_server events).live)
    × ((happen_all small_server events).conns_total
        ≡ (happen_all small_server events).conns_closed
          + length (happen_all small_server events).live)
    × IsValid same_id (happen_all small_server events).conn_mgr
accounting_example = accounting (pos 2) 16 events

shutdown_lem_example :
    ((shutdown small_server true).0.closed ≡ true)
    × ((shutdown small_server true).0.listening ≡ false)
    × ((shutdown small_server true).0.conn_mgr.connections ≡ [])
    × (shutdown (shutdown small_server true).0 false ≡ ((shutdown small_server true).0, none))
shutdown_lem_example = shutdown_lem small_server true false not_closed
  where
    not_closed : small_server.closed ≡ false
    not_closed = unfold new_server in refl

abbrev stopped_early : Server
stopped_early = record small_server { closed = true }

not_started : stopped_early.started ≡ false
unfolding new_server
not_started = refl

run_after_shutdown_example :
    ((run stopped_early true).1 ≡ none)
    × ((run stopped_early true).0.listening ≡ true)
    × (shutdown (run stopped_early true).0 true ≡ ((run stopped_early true).0, none))
run_after_shutdown_example = run_after_shutdown stopped_early true not_started refl

-- A server whose pool runs one worker, with a request in its queue.
abbrev working : System
working = record {
  server = small_server;
  pool = record {
    size = 1;
    max_len = 4;
    created = true;
    active = true;
    cancelled = false;
    workers = record { queue = record { conn_id = 1; tag = 1 } ∷ []; status = waiting } ∷ [];
    in_flight = [];
    spawned = [];
    sent = record { conn_id = 1; tag = 1 } ∷ [];
    log = [];
  };
}

still_open : working.server.closed ≡ false
unfolding new_server
still_open = refl

-- The first Shutdown times out.
shutdown_all_lem_example :
    (shutdown_all (false ∷ true ∷ []) working).pool
    ≡ (if false then stop_worker_pool working.pool else working.pool)
shutdown_all_lem_example = shutdown_all_lem working false (true ∷ []) still_open

abbrev configs : Store
configs = default ∷ []

make_server_lem_example :
    let (store', s) = make_server configs (with_max_conn (pos 5) ∷ with_tls 1 ∷ []) in
    let c = overridden (with_max_conn (pos 5) ∷ with_tls 1 ∷ []) default in
    (config_at store' s.cfg ≡ c)
    × (s.conn_mgr.max_conn ≡ c.max_conn)
    × (s.pool ≡ new_pool c.worker_pool_size c.max_worker_task_len)
    × (s.codec ≡ new_tlv_pack_with_order (some little_endian) c.max_packet_size)
    × (config_at store' 0 ≡ config_at configs 0)
make_server_lem_example =
    make_server_lem configs (with_max_conn (pos 5) ∷ with_tls 1 ∷ []) 0 (omega arith) (tt, (tt, tt))

-- An endpoint is attached, the server is shut down, and another one is attached.
closed_with_server :
    (endpoint_after (attaches true ∷ attaches true ∷ shuts_down ∷ []) new_endpoint).open_listeners
    ≡ []
unfolding attach_metrics shutdown_endpoint new_endpoint
closed_with_server = refl

late_opened :
    (endpoint_after
      (attaches true ∷ attaches true ∷ shuts_down ∷ attaches true ∷ shuts_down ∷ [])
      new_endpoint).open_listeners
    ≡ 2 ∷ []
unfolding attach_metrics shutdown_endpoint new_endpoint
late_opened = refl

abbrev tlv : ℕ → TlvPack
tlv limit = record { order = little_endian; max_packet_size = limit; input = [] }

abbrev hosting : Hosting ℕ
hosting = record {
  codec = tlv 16;
  on_conn_start = none;
  on_conn_stop = none;
  taken = [];
  called = [];
}

-- The second of three connections is made after SetCodec; the hook of the third is nil again.
codecs_lem :
    (hosting_after
      (handles
        ∷ sets_codec (tlv 32)
        ∷ sets_on_conn_start (some 5)
        ∷ handles
        ∷ conn_starts
        ∷ sets_on_conn_start none
        ∷ handles
        ∷ conn_starts
        ∷ [])
      hosting)
    ≡ record hosting { codec = tlv 32; taken = tlv 16 ∷ tlv 32 ∷ tlv 32 ∷ []; called = 5 ∷ [] }
unfolding clone
codecs_lem = refl
