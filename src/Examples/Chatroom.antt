-- ===== src/Examples/Chatroom.antt =====
-- examples/chatroom/server/main.go: a message goes to everyone.
-- The server is the interface of Mcp; logging is not modelled.
use kinz.Base.{ℕ, ◌≡◌, refl, sym, ap, ◌∙◌, Bool, true, List, [], ◌∷◌}
use kinz.Base.Maps.{lookup}
use kinz.Codec.{Message}
use kinz.ConnManager.{range, range_loop, conns_of}
use kinz.ConnManager.Limit.{IsValid}
use kinz.Server.{same_id}
use kinz.Mcp.{IServer, McpServer, tool_broadcast}
use kinz.Mcp.Connections.{send_all, broadcast_lem}
use kinz.Mcp.Live.{Live, live, if_managed, got, broadcast_delivers}

abbrev pub msg_chat : ℕ
msg_chat = 2

module _ {W C E Float A : Type 0} (srv : IServer W C E Float) (s : McpServer A) where
  -- The function that the handler hands to Range.
  abbrev pub chat_to : Message → W → ℕ → C → W × Bool
  chat_to m w id c = ((srv.send_msg c msg_chat m.payload w).0, true)

  -- The handler of a chat message.
  unfoldable pub chat : Message → W → W
  unfolding range
  chat m w = range srv.conn_id (srv.conn_mgr w) (chat_to m) w

  chat-loop :
      (m : Message) (cs : List C) (w : W)
      → range_loop srv.conn_id (chat_to m) cs w ≡ (send_all srv s msg_chat m.payload cs w).0
  unfolding range_loop
  chat-loop m [] w = refl
  chat-loop m (c ∷ cs) w = chat-loop m cs (srv.send_msg c msg_chat m.payload w).0

  -- A chat message does to the server what the tool broadcast_message does with its text.
  pub chat-tool_broadcast :
      (m : Message) (w : W) → chat m w ≡ (tool_broadcast srv s msg_chat m.payload w).0
  unfolding chat range
  chat-tool_broadcast m w =
      chat-loop m (conns_of (srv.conn_mgr w).connections) w
      ∙ sym (ap (λ p. p.0) (broadcast_lem srv s msg_chat m.payload w).0)

module _ {A : Type 0} (s : McpServer A) (m : Message) where
  -- Over a valid manager, a chat message is sent once over each connection that the manager holds,
  -- its sender's included, and changes nothing else.
  pub chat_delivers :
      (w : Live) (j : ℕ)
      → IsValid same_id w.server.conn_mgr
      → (lookup j (chat live s m w).conns
          ≡ if_managed s msg_chat m.payload
              (lookup j w.server.conn_mgr.connections)
              (lookup j w.conns)
              (got s msg_chat m.payload w.server.codec (lookup j w.conns)))
        × ((chat live s m w).server ≡ w.server)
  chat_delivers w j v =
      let e = chat-tool_broadcast live s m w in
      let (there, same) = broadcast_delivers s msg_chat m.payload w j v in
      (ap (λ (w' : Live). lookup j w'.conns) e ∙ there, ap (λ (w' : Live). w'.server) e ∙ same)
