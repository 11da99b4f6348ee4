-- ===== src/Mcp/Connections.antt =====
-- The tools of kmcp/tools.go that use the connection manager.
use kinz.Base.{
  ℕ, suc, ◌+◌, ◌==◌, if◌then◌else◌, ◌≡◌, refl, sym, ap, ◌∙◌, List, [], ◌∷◌, ◌++◌, append_assoc,
  append-nil, map, Option, none, some, length, arith,
}
use kinz.Base.Maps.{lookup, Lacks, Distinct}
use kinz.ConnManager.{conn_not_found, conns_of, range, range_loop, get, len}
use kinz.ConnManager.Limit.{Keyed, IsValid}
use kinz.Mcp.{
  IServer, McpServer, ConnInfo, connections, sent, connection, Outcome, returned, failed, panicked,
  not_found, conn_info, if_found, list_conn, tool_list_connections, broadcast_to, tool_broadcast,
  tool_get_connection,
}

length-map : {X Y : Type 0} (f : X → Y) (xs : List X) → length (map f xs) ≡ length xs
length-map f [] = refl
length-map f (x ∷ xs) = ap suc (length-map f xs)

module _ {W C E Float A : Type 0} (srv : IServer W C E Float) (s : McpServer A) where
  -- Sending a message over some connections, one after the other, with what each send returned.
  abbrev pub send_all : ℕ → List ℕ → List C → W → W × List (Option E)
  send_all msg_id text [] w = (w, [])
  send_all msg_id text (c ∷ cs) w =
      let (w', err) = srv.send_msg c msg_id text w in
      let (w'', errs) = send_all msg_id text cs w' in (w'', err ∷ errs)

  abbrev pub successes : List (Option E) → ℕ
  successes [] = 0
  successes (none ∷ errs) = successes errs + 1
  successes (some e ∷ errs) = successes errs

  count-successes :
      (count : ℕ) (err : Option E) (errs : List (Option E))
      → (elim err as (λ _. ℕ) [ none ↦ count + 1 | some _ ↦ count ]) + successes errs
        ≡ count + successes (err ∷ errs)
  count-successes count none errs = omega arith
  count-successes count (some e) errs = refl

  length-send_all :
      (msg_id : ℕ) (text : List ℕ) (m : List (ℕ × C)) (w : W)
      → length (send_all msg_id text (conns_of m) w).1 ≡ length m
  length-send_all msg_id text [] w = refl
  length-send_all msg_id text ((k, c) ∷ m) w =
      ap suc (length-send_all msg_id text m (srv.send_msg c msg_id text w).0)

  broadcast-loop :
      (msg_id : ℕ) (text : List ℕ) (cs : List C) (w : W) (count : ℕ)
      → range_loop srv.conn_id (broadcast_to srv s msg_id text) cs (w, count)
        ≡ ((send_all msg_id text cs w).0, count + successes (send_all msg_id text cs w).1)
  unfolding range_loop
  broadcast-loop msg_id text [] w count = ap (λ (n : ℕ). (w, n)) (omega arith)
  broadcast-loop msg_id text (c ∷ cs) w count =
      let (w', err) = srv.send_msg c msg_id text w in
      let rest = send_all msg_id text cs w' in
      broadcast-loop msg_id text cs w' _
      ∙ ap (λ (n : ℕ). (rest.0, n)) (count-successes count err rest.1)

  -- A broadcast sends the message once over each connection that the manager held when it began,
  -- and over no other, also after some of the sends have failed, and reports how many of the sends
  -- returned no error.
  pub broadcast_lem :
      (msg_id : ℕ) (text : List ℕ) (w : W)
      → let all = send_all msg_id text (conns_of (srv.conn_mgr w).connections) w in
        (tool_broadcast srv s msg_id text w ≡ (all.0, returned (sent (successes all.1))))
        × (length all.1 ≡ len (srv.conn_mgr w))
  unfolding tool_broadcast range len
  broadcast_lem msg_id text w =
      let all = send_all msg_id text (conns_of (srv.conn_mgr w).connections) w in
      (
        ap (λ (p : W × ℕ). (p.0, returned (sent p.1)))
            (broadcast-loop msg_id text (conns_of (srv.conn_mgr w).connections) w 0
              ∙ ap (λ (n : ℕ). (all.0, n)) (omega arith)),
        length-send_all msg_id text (srv.conn_mgr w).connections w,
      )

  abbrev pub infos : W → List ConnInfo
  infos w = map (λ entry. conn_info srv s w entry.1) (srv.conn_mgr w).connections

  list-loop :
      (w : W) (m : List (ℕ × C)) (conns : List ConnInfo)
      → Keyed srv.conn_id m
      → range_loop srv.conn_id (list_conn srv s w) (conns_of m) conns
        ≡ conns ++ map (λ entry. conn_info srv s w entry.1) m
  unfolding range_loop
  list-loop w [] conns h = sym (append-nil conns)
  list-loop w ((k, c) ∷ m) conns h =
      list-loop w m _ h.1 ∙ append_assoc conns (conn_info srv s w c ∷ []) _

  abbrev pub entries_for : ℕ → List ConnInfo → List ConnInfo
  entries_for id [] = []
  entries_for id (i ∷ is) = if i.id == id then i ∷ entries_for id is else entries_for id is

  -- What a list with at most one entry for an id says of it.
  abbrev pub looked_up : List ConnInfo → Outcome E Float
  looked_up [] = failed (not_found conn_not_found)
  looked_up (i ∷ []) = returned (connection i)
  looked_up (i ∷ j ∷ is) = panicked

  entries_of_Lacks :
      (id : ℕ) (w : W) (m : List (ℕ × C))
      → Keyed srv.conn_id m
      → Lacks id m
      → entries_for id (map (λ entry. conn_info srv s w entry.1) m) ≡ []
  entries_of_Lacks id w [] h l = refl
  entries_of_Lacks id w ((k, c) ∷ m) h l =
      rw (sym h.0) (ground (arith, entries_of_Lacks id w m h.1 l.1))

  entries_for-lookup :
      (id : ℕ) (w : W) (m : List (ℕ × C))
      → Keyed srv.conn_id m
      → Distinct m
      → entries_for id (map (λ entry. conn_info srv s w entry.1) m)
        ≡ elim (lookup id m) [ none ↦ [] | some c ↦ conn_info srv s w c ∷ [] ]
  entries_for-lookup id w [] h d = refl
  entries_for-lookup id w ((k, c) ∷ m) h d =
      rw (sym h.0) (ground (arith, entries_for-lookup id w m h.1 d.1, entries_of_Lacks id w m h.1))

  get-looked_up :
      (w : W) (id : ℕ)
      → tool_get_connection srv s id w ≡ (
        w,
        looked_up (elim (lookup id (srv.conn_mgr w).connections) [
          | none ↦ []
          | some c ↦ conn_info srv s w c ∷ []
        ]),
      )
  unfolding tool_get_connection get
  get-looked_up w id = found (lookup id (srv.conn_mgr w).connections)
    where
      found :
          (o : Option C)
          → if_found srv s w
              (elim o [ some c ↦ (some c, none) | none ↦ (none, some conn_not_found) ])
              (λ c. (w, returned (connection (conn_info srv s w c))))
            ≡ (w, looked_up (elim o [ none ↦ [] | some c ↦ conn_info srv s w c ∷ [] ]))
      found none = refl
      found (some c) = refl

  -- On a valid manager, list_connections gives as many entries as there are connections; and for
  -- every id get_connection gives the one entry of that list with this id, or the manager's error
  -- if there is none, and changes nothing.
  pub list_get_lem :
      (w : W) (id : ℕ)
      → IsValid srv.conn_id (srv.conn_mgr w)
      → (tool_list_connections srv s w ≡ connections (len (srv.conn_mgr w)) (infos w))
        × (length (infos w) ≡ len (srv.conn_mgr w))
        × (tool_get_connection srv s id w ≡ (w, looked_up (entries_for id (infos w))))
  unfolding tool_list_connections range len
  list_get_lem w id v =
      let m = (srv.conn_mgr w).connections in
      (
        ap (λ (is : List ConnInfo). connections (length is) is) (list-loop w m [] v.keyed)
            ∙ ap (λ (n : ℕ). connections n (infos w)) (length-map _ m),
        length-map _ m,
        get-looked_up w id
            ∙ ap (λ (is : List ConnInfo). (w, looked_up is))
                (sym (entries_for-lookup id w m v.keyed v.distinct)),
      )
