-- ===== src/Server/Setup/Sharing.antt =====
-- Which configurations the options of knet/server.go change.
use kinz.Base.{
  ℕ, zero, suc, ◌<◌, ◌≡◌, ◌≢◌, refl, ap, ◌∙◌, List, [], ◌∷◌, ◌++◌, none, some, All, length,
  length-append, length-set, get_or, set, get_or-set_self, get_or-set_ne, arith,
}
use kinz.ConnManager.{new_conn_manager}
use kinz.Pool.{new_pool}
use kinz.Codec.{new_tlv_pack_with_order, little_endian}
use kinz.Config.{Config, default}
use kinz.Server.Setup.{
  Store, ServerOption, with_config, with_max_conn, with_name, with_tls, Draft, config_at,
  apply_options, make_server, server_name,
}

-- The option does not make a server use this configuration.
abbrev pub Spares : ℕ → ServerOption → Type 0
Spares p (with_config q) = q ≢ p
Spares p (with_max_conn n) = Unit {0}
Spares p (with_name name) = Unit
Spares p (with_tls tls) = Unit

apply_options-Spares :
    (opts : List ServerOption) (store : Store) (s : Draft) (p : ℕ)
    → s.cfg ≢ p
    → All (Spares p) opts
    → config_at (apply_options opts store s).0 p ≡ config_at store p
apply_options-Spares [] store s p ne h = refl
apply_options-Spares (with_config q ∷ opts) store s p ne h =
    apply_options-Spares opts store (record s { cfg = q }) p h.0 h.1
apply_options-Spares (with_max_conn n ∷ opts) store s p ne h =
    apply_options-Spares opts _ s p ne h.1 ∙ get_or-set_ne store _ default ne
apply_options-Spares (with_name name ∷ opts) store s p ne h =
    apply_options-Spares opts _ s p ne h.1 ∙ get_or-set_ne store _ default ne
apply_options-Spares (with_tls tls ∷ opts) store s p ne h =
    apply_options-Spares opts store _ p ne h.1

get_or-append :
    (xs ys : Store) (p : ℕ) → p < length xs → get_or (xs ++ ys) p default ≡ get_or xs p default
get_or-append [] ys p h = absurd (omega arith)
get_or-append (x ∷ xs) ys zero h = refl
get_or-append (x ∷ xs) ys (suc p) h = get_or-append xs ys p (omega arith)

-- Making a server changes no configuration that was there before, unless WithConfig names it.
pub make_server-Spares :
    (store : Store) (opts : List ServerOption) (p : ℕ)
    → p < length store
    → All (Spares p) opts
    → config_at (make_server store opts).0 p ≡ config_at store p
unfolding make_server
make_server-Spares store opts p h spares =
    apply_options-Spares opts _ _ p (λ e. omega (arith, e)) spares ∙ get_or-append store _ p h

-- What the options leave of a configuration that no other is put in place of: the last limit, the
-- last name.
abbrev pub overridden : List ServerOption → Config → Config
overridden [] c = c
overridden (with_config q ∷ opts) c = overridden opts c
overridden (with_max_conn n ∷ opts) c = overridden opts (record c { max_conn = n })
overridden (with_name name ∷ opts) c = overridden opts (record c { name = name })
overridden (with_tls tls ∷ opts) c = overridden opts c

abbrev pub KeepsConfig : ServerOption → Type 0
KeepsConfig (with_config q) = ⊥
KeepsConfig (with_max_conn n) = Unit {0}
KeepsConfig (with_name name) = Unit
KeepsConfig (with_tls tls) = Unit

apply_options-own :
    (opts : List ServerOption) (store : Store) (s : Draft)
    → s.cfg < length store
    → All KeepsConfig opts
    → let (store', s') = apply_options opts store s in
      (s'.cfg ≡ s.cfg) × (config_at store' s.cfg ≡ overridden opts (config_at store s.cfg))
apply_options-own [] store s h k = (refl, refl)
apply_options-own (with_config q ∷ opts) store s h k = absurd k.0
apply_options-own (with_max_conn n ∷ opts) store s h k =
    let c = record (config_at store s.cfg) { max_conn = n } in
    let (own, rest) =
      apply_options-own opts (set store s.cfg c) s (omega (arith, h, length-set store s.cfg c))
        k.1 in
    (own, rest ∙ ap (overridden opts) (get_or-set_self store s.cfg c default h))
apply_options-own (with_name name ∷ opts) store s h k =
    let c = record (config_at store s.cfg) { name = name } in
    let (own, rest) =
      apply_options-own opts (set store s.cfg c) s (omega (arith, h, length-set store s.cfg c))
        k.1 in
    (own, rest ∙ ap (overridden opts) (get_or-set_self store s.cfg c default h))
apply_options-own (with_tls tls ∷ opts) store s h k =
    apply_options-own opts store (record s { tls_config = some tls }) h k.1

get_or-last : (xs : Store) (c : Config) → get_or (xs ++ c ∷ []) (length xs) default ≡ c
get_or-last [] c = refl
get_or-last (x ∷ xs) c = get_or-last xs c

All-Spares : (p : ℕ) (opts : List ServerOption) → All KeepsConfig opts → All (Spares p) opts
All-Spares p [] k = tt
All-Spares p (with_config q ∷ opts) k = absurd k.0
All-Spares p (with_max_conn n ∷ opts) k = (tt, All-Spares p opts k.1)
All-Spares p (with_name name ∷ opts) k = (tt, All-Spares p opts k.1)
All-Spares p (with_tls tls ∷ opts) k = (tt, All-Spares p opts k.1)

-- A server that is made without WithConfig has a configuration of its own, the default with the last
-- limit and the last name of its options, and its manager, its pool and its codec have the limits
-- that stand there; no other configuration changes.
pub make_server_lem :
    (store : Store) (opts : List ServerOption) (p : ℕ)
    → p < length store
    → All KeepsConfig opts
    → let (store', s) = make_server store opts in
      let c = overridden opts default in
      (config_at store' s.cfg ≡ c)
      × (s.conn_mgr.max_conn ≡ c.max_conn)
      × (s.pool ≡ new_pool c.worker_pool_size c.max_worker_task_len)
      × (s.codec ≡ new_tlv_pack_with_order (some little_endian) c.max_packet_size)
      × (config_at store' p ≡ config_at store p)
unfolding make_server new_conn_manager
make_server_lem store opts p h k =
    let s : Draft = record { cfg = length store; tls_config = none } in
    let (own, rest) =
      apply_options-own opts (store ++ default ∷ []) s
        (omega (arith, length-append store (default ∷ []))) k in
    let store' = (apply_options opts (store ++ default ∷ []) s).0 in
    let e : config_at store' (apply_options opts (store ++ default ∷ []) s).1.cfg
        ≡ overridden opts default =
      ap (config_at store') own ∙ rest ∙ ap (overridden opts) (get_or-last store default) in
    (
      e,
      ap (λ (c : Config). c.max_conn) e,
      ap (λ (c : Config). new_pool c.worker_pool_size c.max_worker_task_len) e,
      ap (λ (c : Config). new_tlv_pack_with_order (some little_endian) c.max_packet_size) e,
      make_server-Spares store opts p h (All-Spares p opts k),
    )

-- Two servers are made with one configuration, the second also with a name: from then on the first
-- has this name too.
pub shared_name :
    (store : Store) (p : ℕ) (name : List ℕ)
    → p < length store
    → let (store', first) = make_server store (with_config p ∷ []) in
      let (store'', second) = make_server store' (with_config p ∷ with_name name ∷ []) in
      (server_name store'' first ≡ name) × (server_name store'' second ≡ name)
unfolding make_server server_name
shared_name store p name h =
    let all = (store ++ default ∷ []) ++ default ∷ [] in
    let there : p < length all = omega (
      arith,
      h,
      length-append store (default ∷ []),
      length-append (store ++ default ∷ []) (default ∷ []),
    ) in
    let e = ap (λ (c : Config). c.name) (get_or-set_self all p _ default there) in (e, e)
