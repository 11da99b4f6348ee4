-- ===== src/ConnManager/Range.antt =====
-- The iterations of knet/connmanager.go: what Range visits, and what ClearConn hands over to be
-- stopped.
use kinz.Base.{
  ℕ, ◌≡◌, refl, sym, ◌∙◌, Bool, Bool-cases, true, false, List, [], ◌∷◌, ◌++◌, append_assoc,
  append-nil, none, some, inl, inr, arith, ◌==◌, if◌then◌else◌,
}
use kinz.Base.Maps.{Lacks, Distinct, lookup}
use kinz.ConnManager.{
  ConnManager, conn_not_found, get, len, remove, range, range_loop, conns_of, clear_conn,
}
use kinz.ConnManager.Limit.{Keyed, IsValid, get-found}

module _ {C : Type 0} (get_conn_id : C → ℕ) where
  -- A callback that keeps the calls it gets, and asks to stop where `go` says so.
  abbrev pub noting : (ℕ → C → Bool) → List (ℕ × C) → ℕ → C → List (ℕ × C) × Bool
  noting go calls conn_id conn = (calls ++ (conn_id, conn) ∷ [], go conn_id conn)

  -- The entries up to the first that `go` turns down, that one included.
  abbrev pub through_first_no : (ℕ → C → Bool) → List (ℕ × C) → List (ℕ × C)
  through_first_no go [] = []
  through_first_no go ((conn_id, conn) ∷ entries) =
      (conn_id, conn) ∷ elim (go conn_id conn) [ true ↦ through_first_no go entries | false ↦ [] ]

  loop-noting :
      (go : ℕ → C → Bool) (m calls : List (ℕ × C))
      → Keyed get_conn_id m
      → range_loop get_conn_id (noting go) (conns_of m) calls ≡ calls ++ through_first_no go m
  unfolding range_loop
  loop-noting go [] calls h = sym (append-nil calls)
  loop-noting go ((k, c) ∷ m) calls h = rw h.0 (elim (Bool-cases (go (get_conn_id c) c)) [
    | inl going ↦ rw going (
        loop-noting go m (calls ++ (get_conn_id c, c) ∷ []) h.1
        ∙ append_assoc calls ((get_conn_id c, c) ∷ []) (through_first_no go m))
    | inr stop ↦ rw stop refl
  ])

  -- On a valid manager Range calls its function once for each entry, with the id and the
  -- connection that stand there, in the order of the snapshot, up to and including the first call
  -- that returns false.
  pub range_lem :
      (cm : ConnManager C) (go : ℕ → C → Bool)
      → IsValid get_conn_id cm
      → range get_conn_id cm (noting go) [] ≡ through_first_no go cm.connections
  unfolding range
  range_lem cm go v = loop-noting go cm.connections [] v.keyed

  abbrev pub with_id : ℕ → List C → List C
  with_id j [] = []
  with_id j (c ∷ cs) = if get_conn_id c == j then c ∷ with_id j cs else with_id j cs

  with_id_of_Lacks :
      (j : ℕ) (m : List (ℕ × C)) → Keyed get_conn_id m → Lacks j m → with_id j (conns_of m) ≡ []
  with_id_of_Lacks j [] h l = refl
  with_id_of_Lacks j ((k, c) ∷ m) h l = rw (sym h.0) (ground (arith, with_id_of_Lacks j m h.1 l.1))

  with_id-conns_of :
      (j : ℕ) (m : List (ℕ × C))
      → Keyed get_conn_id m
      → Distinct m
      → with_id j (conns_of m) ≡ elim (lookup j m) [ none ↦ [] | some c ↦ c ∷ [] ]
  with_id-conns_of j [] h d = refl
  with_id-conns_of j ((k, c) ∷ m) h d =
      rw (sym h.0) (ground (arith, with_id-conns_of j m h.1 d.1, with_id_of_Lacks j m h.1))

  -- ClearConn on a valid manager leaves one without connections, with the same limit, in which no
  -- id is found and which Remove of any connection (what the Stop of each does) leaves alone; and
  -- for every id it hands over, to be stopped, exactly the one connection that Get found, or none.
  pub clear_conn_lem :
      (cm : ConnManager C)
      → IsValid get_conn_id cm
      → let cleared = (clear_conn cm).0 in
        (len cleared ≡ 0)
        × (cleared.max_conn ≡ cm.max_conn)
        × ((j : ℕ) → get cleared j ≡ (none, some conn_not_found))
        × ((c : C) → remove get_conn_id cleared c ≡ cleared)
        × ((j : ℕ)
            → with_id j (clear_conn cm).1 ≡ elim (get cm j).0 [ none ↦ [] | some c ↦ c ∷ [] ])
  unfolding clear_conn len get remove
  clear_conn_lem cm v = (
    refl,
    refl,
    λ j. refl,
    λ c. refl,
    λ j. rw (get-found get_conn_id cm j) (with_id-conns_of j cm.connections v.keyed v.distinct),
  )
