-- ===== src/Server.antt =====
-- knet/server.go: accepting, rejecting and shutting down.
-- A connection is known by its id here; what happens inside one is modelled in Connection. The
-- gauge of active connections is kept as its increments and its decrements. `live` are the ids of
-- the connections that were accepted and whose `stopOnce` has not run. The deadline on
-- the rejecting write is not modelled; whether listening
-- succeeds, and whether the connections stop in time, are arguments.
-- The children: Balance has what one call does to the books, Accounting what the counters, the
-- manager and the live connections have in common, Shutdown how a server ends, Setup what NewServer
-- makes, System the server with its worker pool, Endpoint the listener of the metrics,
-- Hooks its codec and its hooks.
pub mod Balance
pub mod Accounting
pub mod Shutdown
pub mod Setup
pub mod System
pub mod Endpoint
pub mod Hooks
mod Tests
use kinz.Base.{
  ℕ, zero, suc, ◌+◌, ◌%◌, ◌^◌, Bool, true, false, List, [], ◌∷◌, ◌++◌, Option, none, some, ℤ, ◌==◌,
  if◌then◌else◌,
}
use kinz.Codec.{TlvPack, new_tlv_pack_with_order, little_endian, new_message, pack}
use kinz.ConnManager.{
  ConnManager, ConnError, server_full, conn_not_found, new_conn_manager, add, remove, clear_conn,
}

pub record Server : Type 0 where
  pub conn_mgr : ConnManager ℕ
  pub codec : TlvPack
  pub started : Bool
  pub closed : Bool
  pub listening : Bool
  pub conn_id : ℕ
  pub conns_total : ℕ
  pub active_incs : ℕ
  pub active_decs : ℕ
  pub conns_closed : ℕ
  pub conns_rejected : ℕ
  pub live : List ℕ

pub data ServerError : Type 0 where
  already_started listen_failed shutdown_timed_out : ServerError

unfoldable pub new_server : ℤ → ℕ → Server
unfolding new_conn_manager new_tlv_pack_with_order
new_server max_conn max_packet_size = record {
  conn_mgr = new_conn_manager max_conn;
  codec = new_tlv_pack_with_order (some little_endian) max_packet_size;
  started = false;
  closed = false;
  listening = false;
  conn_id = 0;
  conns_total = 0;
  active_incs = 0;
  active_decs = 0;
  conns_closed = 0;
  conns_rejected = 0;
  live = [];
}

abbrev pub same_id : ℕ → ℕ
same_id c = c

-- The atomic counter wraps.
abbrev pub next_id : Server → ℕ
next_id s = (s.conn_id + 1) % 2 ^ 64

unfoldable pub handle_conn : Server → Server × Option ConnError
unfolding add
handle_conn s =
    let id = next_id s in
    let (mgr, err) = add same_id s.conn_mgr id in
    elim err [
      | some e ↦ (record s { conn_id = id }, some e)
      | none ↦ (
        record s {
          conn_mgr = mgr;
          conn_id = id;
          conns_total = s.conns_total + 1;
          active_incs = s.active_incs + 1;
          live = id ∷ s.live;
        },
        none,
      )
    ]

abbrev pub server_full_msg_id : ℕ
server_full_msg_id = 4294967294

-- `Error()`: "kinz: server reached max connections" and "kinz: connection not found".
abbrev pub error_text : ConnError → List ℕ
error_text server_full =
    107 ∷ 105 ∷ 110 ∷ 122 ∷ 58 ∷ 32 ∷ 115 ∷ 101 ∷ 114 ∷ 118 ∷ 101 ∷ 114 ∷ 32 ∷ 114 ∷ 101 ∷ 97 ∷ 99
    ∷ 104 ∷ 101 ∷ 100 ∷ 32 ∷ 109 ∷ 97 ∷ 120 ∷ 32 ∷ 99 ∷ 111 ∷ 110 ∷ 110 ∷ 101 ∷ 99 ∷ 116 ∷ 105 ∷ 111
    ∷ 110 ∷ 115 ∷ []
error_text conn_not_found =
    107 ∷ 105 ∷ 110 ∷ 122 ∷ 58 ∷ 32 ∷ 99 ∷ 111 ∷ 110 ∷ 110 ∷ 101 ∷ 99 ∷ 116 ∷ 105 ∷ 111 ∷ 110 ∷ 32
    ∷ 110 ∷ 111 ∷ 116 ∷ 32 ∷ 102 ∷ 111 ∷ 117 ∷ 110 ∷ 100 ∷ []

-- The bytes that a rejected peer is sent, beside the server.
unfoldable pub reject_conn : Server → ConnError → Server × List ℕ
unfolding pack new_message
reject_conn s cause = (
  record s { conns_rejected = s.conns_rejected + 1 },
  pack s.codec (new_message server_full_msg_id (error_text cause)),
)

-- One turn of `acceptLoop` with a connection: what `handleConn` refuses is rejected.
unfoldable pub after_handle : Server × Option ConnError → Server × List ℕ
unfolding reject_conn
after_handle (s, none) = (s, [])
after_handle (s, some cause) = reject_conn s cause

unfoldable pub accept_conn : Server → Server × List ℕ
unfolding handle_conn after_handle
accept_conn s = after_handle (handle_conn s)

abbrev pub member : ℕ → List ℕ → Bool
member id [] = false
member id (k ∷ ks) = if k == id then true else member id ks

abbrev pub remove_first : ℕ → List ℕ → List ℕ
remove_first id [] = []
remove_first id (k ∷ ks) = if k == id then ks else k ∷ remove_first id ks

-- What `stopOnce` of a connection does to its server, once.
unfoldable pub conn_stopped : Server → ℕ → Server
unfolding remove
conn_stopped s id =
    if member id s.live
    then record s {
      conn_mgr = remove same_id s.conn_mgr id;
      active_decs = s.active_decs + 1;
      conns_closed = s.conns_closed + 1;
      live = remove_first id s.live;
    }
    else s

abbrev pub stop_all : Server → List ℕ → Server
stop_all s [] = s
stop_all s (id ∷ ids) = stop_all (conn_stopped s id) ids

-- `Shutdown`. If the context is done first, the connections may still be stopping.
unfoldable pub shutdown : Server → Bool → Server × Option ServerError
unfolding clear_conn conn_stopped
shutdown s in_time =
    if s.closed
    then (s, none)
    else let (mgr, conns) = clear_conn s.conn_mgr in
      let emptied = record s { closed = true; listening = false; conn_mgr = mgr } in
      if in_time then (stop_all emptied conns, none) else (emptied, some shutdown_timed_out)

-- `Run` up to its wait for the context.
unfoldable pub run : Server → Bool → Server × Option ServerError
run s listens =
    if s.started
    then (s, some already_started)
    else if listens
    then (record s { started = true; listening = true }, none)
    else (record s { started = false }, some listen_failed)
