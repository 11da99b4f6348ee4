-- ===== src/ConnManager/Tests.antt =====
-- Runs of knet/connmanager.go, with connections that are their ids and a name.
use kinz.Base.{ℕ, ◌≡◌, refl, [], ◌∷◌, none, some, pos, ltb, arith}
use kinz.ConnManager.{
  ConnManager, server_full, conn_not_found, new_conn_manager, get, len, add, remove, clear_conn,
  range,
}
use kinz.ConnManager.Limit.{IsValid, Within, added, change_all, change_all-IsValid}
use kinz.ConnManager.Range.{noting, with_id, range_lem, clear_conn_lem}

pub record NamedConn : Type 0 where
  pub conn_id : ℕ
  pub label : ℕ

abbrev get_conn_id : NamedConn → ℕ
get_conn_id c = c.conn_id

abbrev conn : ℕ → ℕ → NamedConn
conn conn_id label = record { conn_id = conn_id; label = label }

-- Two of at most two connections.
abbrev two_conns : ConnManager NamedConn
two_conns = record { connections = (1, conn 1 10) ∷ (2, conn 2 20) ∷ []; max_conn = pos 2 }

two_conns-IsValid : IsValid get_conn_id two_conns
two_conns-IsValid = record {
  distinct = ground arith;
  keyed = (refl, (refl, tt));
  within = omega arith;
}

full_refuses : add get_conn_id two_conns (conn 3 30) ≡ (two_conns, some server_full)
unfolding add
full_refuses = refl

change_all-IsValid_example :
    let cm =
      change_all get_conn_id
        (new_conn_manager (pos 1))
        (added (conn 1 10) ∷ added (conn 2 20) ∷ []) in
    IsValid get_conn_id cm × Within (pos 1) (len cm)
change_all-IsValid_example =
    change_all-IsValid get_conn_id (pos 1) (added (conn 1 10) ∷ added (conn 2 20) ∷ [])

range_lem_example :
    range get_conn_id two_conns (noting get_conn_id (λ i c. ltb i 1)) [] ≡ (1, conn 1 10) ∷ []
range_lem_example = range_lem get_conn_id two_conns (λ i c. ltb i 1) two_conns-IsValid

clear_conn_lem_example :
    (len (clear_conn two_conns).0 ≡ 0)
    × ((clear_conn two_conns).0.max_conn ≡ pos 2)
    × ((j : ℕ) → get (clear_conn two_conns).0 j ≡ (none, some conn_not_found))
    × ((c : NamedConn) → remove get_conn_id (clear_conn two_conns).0 c ≡ (clear_conn two_conns).0)
    × ((j : ℕ)
        → with_id get_conn_id j (clear_conn two_conns).1
          ≡ elim (get two_conns j).0 [ none ↦ [] | some c ↦ c ∷ [] ])
clear_conn_lem_example = clear_conn_lem get_conn_id two_conns two_conns-IsValid
