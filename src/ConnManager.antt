-- ===== src/ConnManager.antt =====
-- knet/connmanager.go: the live connections and the limit on their number.
-- The mutex makes each method one step. A connection is any type with an id (`GetConnID` of
-- kiface.IConnection), the section's parameter. A Go map is iterated in an order that is not
-- specified: `range_loop` and `clear_conn` take the connections in the order of the list, and what
-- is proved of them holds for every order or counts entries.
-- The children: Limit has the invariant and the limit, Range the iteration.
pub mod Limit
pub mod Range
mod Tests
use kinz.Base.{
  ℕ, zero, suc, Bool, true, false, ◌&&◌, List, [], ◌∷◌, ◌++◌, map, Option, none, some, ℤ, pos,
  negsuc, length, ltb, leb, if◌then◌else◌,
}
use kinz.Base.Maps.{lookup, insert, delete}

pub record ConnManager (C : Type 0) : Type 0 where
  pub connections : List (ℕ × C)
  pub max_conn : ℤ

pub data ConnError : Type 0 where
  server_full conn_not_found : ConnError

-- `cm.maxConn > 0 && len(cm.connections) >= cm.maxConn`
abbrev pub is_full : ℤ → ℕ → Bool
is_full (pos max) n = ltb 0 max && leb max n
is_full (negsuc max) n = false

module _ {C : Type 0} where
  unfoldable pub new_conn_manager : ℤ → ConnManager C
  new_conn_manager max_conn = record { connections = []; max_conn = max_conn }

  unfoldable pub get : ConnManager C → ℕ → Option C × Option ConnError
  get cm conn_id = elim (lookup conn_id cm.connections) [
    | some conn ↦ (some conn, none)
    | none ↦ (none, some conn_not_found)
  ]

  unfoldable pub len : ConnManager C → ℕ
  len cm = length cm.connections

  abbrev pub conns_of : List (ℕ × C) → List C
  conns_of [] = []
  conns_of ((k, c) ∷ m) = c ∷ conns_of m

  -- `ClearConn`: the manager is emptied under the lock, and the connections that it held are to be
  -- stopped outside it.
  unfoldable pub clear_conn : ConnManager C → ConnManager C × List C
  clear_conn cm = (record cm { connections = [] }, conns_of cm.connections)

module _ {C : Type 0} (get_conn_id : C → ℕ) where
  unfoldable pub add : ConnManager C → C → ConnManager C × Option ConnError
  add cm conn =
      if is_full cm.max_conn (length cm.connections)
      then (cm, some server_full)
      else (record cm { connections = insert (get_conn_id conn) conn cm.connections }, none)

  unfoldable pub remove : ConnManager C → C → ConnManager C
  remove cm conn = record cm { connections = delete (get_conn_id conn) cm.connections }

  -- The loop of `Range` over its snapshot. `f` may change a state of its own, and returns false to
  -- stop.
  unfoldable pub range_loop {ℓ} : {S : Type ℓ} → (S → ℕ → C → S × Bool) → List C → S → S
  range_loop f [] s = s
  range_loop f (conn ∷ conns) s =
      let (s', go) = f s (get_conn_id conn) conn in
      elim go [ true ↦ range_loop f conns s' | false ↦ s' ]

  unfoldable pub range {ℓ} : {S : Type ℓ} → ConnManager C → (S → ℕ → C → S × Bool) → S → S
  unfolding range_loop
  range cm f s = range_loop f (conns_of cm.connections) s
