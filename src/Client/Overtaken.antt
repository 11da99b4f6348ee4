-- ===== src/Client/Overtaken.antt =====
-- A Stop of knet/client.go that comes between the assignment of `conn` and Add in `dial`.
use kinz.Base.{ℕ, Bool, Option, List, [], ◌∷◌}
use kinz.Client.{Client, ClientError, add_conn, start, cancel, stop_orphan, stale_over}

-- What calls of Start return, one after the other; the network is there or not.
abbrev pub starts : Client → List Bool → List (Option ClientError)
starts c [] = []
starts c (network ∷ networks) = let (d, err) = start c network in err ∷ starts d networks

-- Stop, up to the end of `conn.Stop()`, and then the Add of the dial that was under way.
abbrev pub overtaken : ℕ → Client → Client
overtaken k c = stale_over [] (add_conn k (stop_orphan (cancel c))).0
