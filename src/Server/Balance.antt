-- ===== src/Server/Balance.antt =====
-- What accepting, stopping and shutting down in knet/server.go do to the counters, the manager and
-- the live connections.
use kinz.Base.{
  ℕ, suc, ◌⊎◌, ◌+◌, ◌≡◌, refl, ap, ◌∙◌, Bool, Bool-cases, true, false, List, [], ◌∷◌, Option, none,
  some, inl, inr, length, ◌==◌, if◌then◌else◌, arith,
}
use kinz.ConnManager.{ConnError, server_full, conn_not_found, get, add, clear_conn}
use kinz.ConnManager.Limit.{
  IsValid, add_lem, remove_lem, add-IsValid, remove-IsValid, clear_conn-IsValid,
}
use kinz.ConnManager.Range.{clear_conn_lem}
use kinz.Server.{
  Server, same_id, next_id, handle_conn, reject_conn, after_handle, accept_conn, member,
  remove_first, conn_stopped, stop_all, shutdown,
}

-- The books balance.
pub record Balanced (s : Server) : Type 0 where
  pub incs_lem : s.active_incs ≡ s.conns_total
  pub decs_lem : s.active_decs ≡ s.conns_closed
  pub live_lem : s.conns_total ≡ s.conns_closed + length s.live
  pub manager : IsValid same_id s.conn_mgr
  pub managed : (j : ℕ) → ((get s.conn_mgr j).0 ≡ none) ⊎ (member j s.live ≡ true)

length-remove_first :
    (id : ℕ) (ks : List ℕ) → member id ks ≡ true → suc (length (remove_first id ks)) ≡ length ks
length-remove_first id [] h = cc
length-remove_first id (k ∷ ks) h = ground (arith, length-remove_first id ks)

member-remove_first :
    (id j : ℕ) (ks : List ℕ) → (id == j) ≡ false → member j (remove_first id ks) ≡ member j ks
member-remove_first id j [] ne = refl
member-remove_first id j (k ∷ ks) ne = ground (arith, member-remove_first id j ks ne)

handle-cases :
    (s : Server)
    → (handle_conn s ≡ (record s { conn_id = next_id s }, some server_full))
      ⊎ ((handle_conn s ≡ (
        record s {
          conn_mgr = (add same_id s.conn_mgr (next_id s)).0;
          conn_id = next_id s;
          conns_total = s.conns_total + 1;
          active_incs = s.active_incs + 1;
          live = next_id s ∷ s.live;
        },
        none,
      ))
          × ((j : ℕ)
              → get (add same_id s.conn_mgr (next_id s)).0 j
                ≡ (if next_id s == j then (some (next_id s), none) else get s.conn_mgr j)))
unfolding handle_conn
handle-cases s = elim (add_lem same_id s.conn_mgr (next_id s)) [
  | inl (full, e) ↦ inl (rw (e, handle_conn) refl)
  | inr (room, ok, found, _) ↦ inr (rw (ok, handle_conn) refl, found)
]

abbrev Managed : Option ℕ × Option ConnError → ℕ → List ℕ → Type 0
Managed g j live = (g.0 ≡ none) ⊎ (member j live ≡ true)

Managed-add :
    (id j : ℕ) (live : List ℕ) (g : Option ℕ × Option ConnError) {h : Option ℕ × Option ConnError}
    → h ≡ (if id == j then (some id, none) else g)
    → Managed g j live
    → Managed h j (id ∷ live)
Managed-add id j live g e m = elim (Bool-cases (id == j)) [
  | inl same ↦ inr (rw same refl)
  | inr other ↦ elim m [
    | inl absent ↦ inl (rw (e, other) absent)
    | inr there ↦ inr (rw other there)
  ]
]

Managed-remove :
    (id j : ℕ) (live : List ℕ) (g : Option ℕ × Option ConnError) {h : Option ℕ × Option ConnError}
    → h ≡ (if id == j then (none, some conn_not_found) else g)
    → Managed g j live
    → Managed h j (remove_first id live)
Managed-remove id j live g e m = elim (Bool-cases (id == j)) [
  | inl same ↦ inl (rw (e, same) refl)
  | inr other ↦ elim m [
    | inl absent ↦ inl (rw (e, other) absent)
    | inr there ↦ inr (rw (member-remove_first id j live other) there)
  ]
]

accept-cases :
    (s : Server)
    → ((accept_conn s).0 ≡ record s { conn_id = next_id s; conns_rejected = s.conns_rejected + 1 })
      ⊎ (((accept_conn s).0 ≡ record s {
        conn_mgr = (add same_id s.conn_mgr (next_id s)).0;
        conn_id = next_id s;
        conns_total = s.conns_total + 1;
        active_incs = s.active_incs + 1;
        live = next_id s ∷ s.live;
      })
          × ((j : ℕ)
              → get (add same_id s.conn_mgr (next_id s)).0 j
                ≡ (if next_id s == j then (some (next_id s), none) else get s.conn_mgr j)))
unfolding accept_conn after_handle reject_conn
accept-cases s = elim (handle-cases s) [
  | inl e ↦ inl (ap (λ (r : Server × Option ConnError). (after_handle r).0) e)
  | inr (e, found) ↦ inr (ap (λ (r : Server × Option ConnError). (after_handle r).0) e, found)
]

pub accept-Balanced :
    (s : Server)
    → Balanced s
    → Balanced (accept_conn s).0
      × ((accept_conn s).0.conns_total + (accept_conn s).0.conns_rejected
          ≡ suc (s.conns_total + s.conns_rejected))
accept-Balanced s v = elim (accept-cases s) [
  | inl e ↦ rw e (
    record {
      incs_lem = v.incs_lem;
      decs_lem = v.decs_lem;
      live_lem = v.live_lem;
      manager = v.manager;
      managed = v.managed;
    },
    omega arith,
  )
  | inr (e, found) ↦ rw e (
    record {
      incs_lem = omega (arith, v.incs_lem);
      decs_lem = v.decs_lem;
      live_lem = omega (arith, v.live_lem);
      manager = add-IsValid same_id s.conn_mgr (next_id s) v.manager;
      managed = λ j. Managed-add (next_id s) j s.live (get s.conn_mgr j) (found j) (v.managed j);
    },
    omega arith,
  )
]

pub conn_stopped-Balanced :
    (s : Server) (id : ℕ)
    → Balanced s
    → Balanced (conn_stopped s id)
      × ((conn_stopped s id).conns_total ≡ s.conns_total)
      × ((conn_stopped s id).conns_rejected ≡ s.conns_rejected)
unfolding conn_stopped
conn_stopped-Balanced s id v = elim (Bool-cases (member id s.live)) [
  | inl there ↦
      rw (there, conn_stopped)
        (
          record {
            incs_lem = v.incs_lem;
            decs_lem = omega (arith, v.decs_lem);
            live_lem = omega (arith, v.live_lem, length-remove_first id s.live there);
            manager = remove-IsValid same_id s.conn_mgr id v.manager;
            managed = λ j.
                Managed-remove id j s.live (get s.conn_mgr j)
                  ((remove_lem same_id s.conn_mgr id v.manager).0 j) (v.managed j);
          },
          refl,
          refl,
        )
  | inr gone ↦ rw (gone, conn_stopped) (v, refl, refl)
]

stop_all-Balanced :
    (s : Server) (ids : List ℕ)
    → Balanced s
    → Balanced (stop_all s ids)
      × ((stop_all s ids).conns_total ≡ s.conns_total)
      × ((stop_all s ids).conns_rejected ≡ s.conns_rejected)
stop_all-Balanced s [] v = (v, refl, refl)
stop_all-Balanced s (id ∷ ids) v =
    let (w, t, r) = conn_stopped-Balanced s id v in
    let (x, t', r') = stop_all-Balanced (conn_stopped s id) ids w in (x, t' ∙ t, r' ∙ r)

emptied-Balanced :
    (s : Server)
    → Balanced s
    → Balanced (record s { closed = true; listening = false; conn_mgr = (clear_conn s.conn_mgr).0 })
emptied-Balanced s v = record {
  incs_lem = v.incs_lem;
  decs_lem = v.decs_lem;
  live_lem = v.live_lem;
  manager = clear_conn-IsValid same_id s.conn_mgr v.manager;
  managed = λ j. inl (
      ap (λ (g : Option ℕ × Option ConnError). g.0)
        ((clear_conn_lem same_id s.conn_mgr v.manager).2 j));
}

shutdown-cases :
    (s : Server) (in_time : Bool)
    → let emptied = record s {
      closed = true;
      listening = false;
      conn_mgr = (clear_conn s.conn_mgr).0;
    } in
      ((shutdown s in_time).0 ≡ s)
      ⊎ (((shutdown s in_time).0 ≡ stop_all emptied (clear_conn s.conn_mgr).1)
          ⊎ ((shutdown s in_time).0 ≡ emptied))
unfolding shutdown
shutdown-cases s in_time = by_tests s.closed in_time refl
  where
    by_tests :
        (c b : Bool)
        → s.closed ≡ c
        → let emptied = record s {
          closed = true;
          listening = false;
          conn_mgr = (clear_conn s.conn_mgr).0;
        } in
          ((shutdown s b).0 ≡ s)
          ⊎ (((shutdown s b).0 ≡ stop_all emptied (clear_conn s.conn_mgr).1)
              ⊎ ((shutdown s b).0 ≡ emptied))
    by_tests true b e = inl (ground (arith, e))
    by_tests false true e = inr (inl (ground (arith, e)))
    by_tests false false e = inr (inr (ground (arith, e)))

pub shutdown-Balanced :
    (s : Server) (in_time : Bool)
    → Balanced s
    → Balanced (shutdown s in_time).0
      × ((shutdown s in_time).0.conns_total ≡ s.conns_total)
      × ((shutdown s in_time).0.conns_rejected ≡ s.conns_rejected)
shutdown-Balanced s in_time v = elim (shutdown-cases s in_time) [
  | inl e ↦ rw e (v, refl, refl)
  | inr (inl e) ↦ rw e (stop_all-Balanced _ (clear_conn s.conn_mgr).1 (emptied-Balanced s v))
  | inr (inr e) ↦ rw e (emptied-Balanced s v, refl, refl)
]
