-- ===== src/Mcp/Live.antt =====
-- The interface of kmcp over the models of knet/server.go and knet/connection.go: what a broadcast
-- does to the connections.
-- A connection is known by its id. The write timeout of the configuration is taken to be positive,
-- and a full queue to get no room before it is over: such a send is a timeout. A write timeout that
-- is not positive, with which `SendMsg` waits without end, is not modelled. `Stop` has run to its
-- end when it returns.
use kinz.Base.{
  ℕ, ◌≡◌, refl, sym, ap, subst, ◌∙◌, Bool-cases, true, false, List, [], ◌∷◌, Option, none, some,
  inl, inr, length, ltb, ◌==◌, ==_iff, if◌then◌else◌,
}
use kinz.Base.Maps.{lookup, insert, lookup-insert, lookup_of_Lacks, Lacks, Distinct}
use kinz.Codec.{TlvPack}
use kinz.ConnManager.{conns_of}
use kinz.ConnManager.Limit.{Keyed, IsValid}
use kinz.Connection.{Connection, SendError, conn_closed, room, timer, send_msg, mark_closed}
use kinz.Server.{Server, ServerError, same_id, shutdown, conn_stopped}
use kinz.Metrics.Snapshot.{no_values}
use kinz.Mcp.{IServer, McpServer, Outcome, tool_broadcast}
use kinz.Mcp.Connections.{send_all, broadcast_lem}

pub record Live : Type 0 where
  pub server : Server
  pub conns : List (ℕ × Connection)

pub data LiveError : Type 0 where
  send_error : SendError → LiveError
  shutdown_error : ServerError → LiveError

abbrev pub lift_error {ℓ κ} : {X : Type ℓ} {Y : Type κ} → (X → Y) → Option X → Option Y
lift_error f none = none
lift_error f (some e) = some (f e)

-- `SendMsg` on one connection.
abbrev pub deliver : TlvPack → ℕ → List ℕ → Connection → Connection × Option SendError
deliver codec msg_id text c =
    send_msg c codec msg_id text
      (if ltb (length c.msg_chan) c.write_queue_size then room else timer)

abbrev pub send_found : ℕ → ℕ → List ℕ → Live → Option Connection → Live × Option LiveError
send_found id msg_id text w none = (w, some (send_error conn_closed))
send_found id msg_id text w (some c) = (
  record w { conns = insert id (deliver w.server.codec msg_id text c).0 w.conns },
  lift_error send_error (deliver w.server.codec msg_id text c).1,
)

abbrev pub live_send : ℕ → ℕ → List ℕ → Live → Live × Option LiveError
live_send id msg_id text w = send_found id msg_id text w (lookup id w.conns)

abbrev pub live_stop : ℕ → Live → Live
live_stop id w = elim (lookup id w.conns) [
  | none ↦ w
  | some c ↦ record w {
    server = conn_stopped w.server id;
    conns = insert id (mark_closed c) w.conns;
  }
]

abbrev pub live_shutdown : Live → Live × Option LiveError
live_shutdown w =
    let (server, err) = shutdown w.server true in
    (record w { server = server }, lift_error shutdown_error err)

abbrev pub live : IServer Live ℕ LiveError ℕ
live = record {
  conn_mgr = λ w. w.server.conn_mgr;
  conn_id = same_id;
  remote_addr = λ w id. [];
  local_addr = λ w id. [];
  send_msg = live_send;
  stop = live_stop;
  shutdown = live_shutdown;
  name = λ w. [];
  address = λ w. none;
  metrics = λ w. no_values;
}

module _ {A : Type 0} (s : McpServer A) (msg_id : ℕ) (text : List ℕ) where
  abbrev sends : List ℕ → Live → Live × List (Option LiveError)
  sends = send_all live s msg_id text

  server-send_found :
      (id : ℕ) (w : Live) (o : Option Connection)
      → (send_found id msg_id text w o).0.server ≡ w.server
  server-send_found id w none = refl
  server-send_found id w (some c) = refl

  -- What a send makes of a connection.
  abbrev pub got : TlvPack → Option Connection → Option Connection
  got codec none = none
  got codec (some c) = some (deliver codec msg_id text c).0

  lookup-send_found :
      (id j : ℕ) (w : Live) (o : Option Connection)
      → lookup id w.conns ≡ o
      → lookup j (send_found id msg_id text w o).0.conns
        ≡ (if id == j then got w.server.codec (lookup j w.conns) else lookup j w.conns)
  lookup-send_found id j w o e = elim (Bool-cases (id == j)) [
    | inl same ↦ rw same (
        subst
          (λ (k : ℕ).
            lookup k (send_found id msg_id text w o).0.conns
            ≡ got w.server.codec (lookup k w.conns))
          ((==_iff id j).0 same) (own o e))
    | inr other ↦ rw other (others o other)
  ]
    where
      own :
          (o : Option Connection)
          → lookup id w.conns ≡ o
          → lookup id (send_found id msg_id text w o).0.conns
            ≡ got w.server.codec (lookup id w.conns)
      own none e = rw e refl
      own (some c) e =
          lookup-insert id id _ w.conns
          ∙ rw ((==_iff id id).1 refl) (sym (ap (got w.server.codec) e))

      others :
          (o : Option Connection)
          → (id == j) ≡ false
          → lookup j (send_found id msg_id text w o).0.conns ≡ lookup j w.conns
      others none ne = refl
      others (some c) ne = lookup-insert id j _ w.conns ∙ rw ne refl

  server-sends : (ids : List ℕ) (w : Live) → (sends ids w).0.server ≡ w.server
  server-sends [] w = refl
  server-sends (id ∷ ids) w =
      server-sends ids (live_send id msg_id text w).0 ∙ server-send_found id w (lookup id w.conns)

  -- The second if the connection is managed.
  abbrev pub if_managed : Option ℕ → Option Connection → Option Connection → Option Connection
  if_managed none kept changed = kept
  if_managed (some _) kept changed = changed

  -- A connection after one send, whether over it or over another.
  after_send :
      (id j : ℕ) (w : Live)
      → lookup j (live_send id msg_id text w).0.conns
        ≡ (if id == j then got w.server.codec (lookup j w.conns) else lookup j w.conns)
  after_send id j w = lookup-send_found id j w (lookup id w.conns) refl

  lookup-sends :
      (j : ℕ) (m : List (ℕ × ℕ)) (w : Live)
      → Keyed same_id m
      → Distinct m
      → lookup j (sends (conns_of m) w).0.conns
        ≡ if_managed (lookup j m) (lookup j w.conns) (got w.server.codec (lookup j w.conns))
  lookup-sends j [] w h d = refl
  lookup-sends j ((k, c) ∷ m) w h d =
      let w' = (live_send c msg_id text w).0 in
      lookup-sends j m w' h.1 d.1 ∙ elim (Bool-cases (k == j)) [
        | inl same ↦
            rw
              (
                same,
                lookup_of_Lacks j m (subst (λ (i : ℕ). Lacks i m) ((==_iff k j).0 same) d.0),
                after_send c j w,
                sym h.0,
                same,
              )
              refl
        | inr other ↦
            rw (other, after_send c j w, server-send_found c w (lookup c w.conns), sym h.0, other)
              refl
      ]

  -- A broadcast over a valid manager does to each connection that it holds what one SendMsg of the
  -- packed message does, with the queue as it was, and leaves every other connection and the server
  -- alone.
  pub broadcast_delivers :
      (w : Live) (j : ℕ)
      → IsValid same_id w.server.conn_mgr
      → let w' = (tool_broadcast live s msg_id text w).0 in
        (lookup j w'.conns
          ≡ if_managed
              (lookup j w.server.conn_mgr.connections)
              (lookup j w.conns)
              (got w.server.codec (lookup j w.conns)))
        × (w'.server ≡ w.server)
  broadcast_delivers w j v =
      let m = w.server.conn_mgr.connections in
      let e = (broadcast_lem live s msg_id text w).0 in
      (
        ap (λ (p : Live × Outcome LiveError ℕ). lookup j p.0.conns) e
            ∙ lookup-sends j m w v.keyed v.distinct,
        ap (λ (p : Live × Outcome LiveError ℕ). p.0.server) e ∙ server-sends (conns_of m) w,
      )
