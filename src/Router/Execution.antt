-- ===== src/Router/Execution.antt =====
-- `Execute` of knet/msgHandler.go: what runs for a request, and what is counted.
use kinz.Base.{
  ℕ, ◌+◌, ◌≡◌, ◌≢◌, refl, ap, sym, ◌∙◌, List, [], ◌∷◌, ◌++◌, map, map-append, Option, none, some,
  arith, Option-cases, append_assoc, append-nil, length, inl, inr,
}
use kinz.Request.{
  Handler, done, Request, Ended, returned, panicked, starved, bind_router_slices,
  router_slices_next,
}
use kinz.Request.Fuel.{router_slices_next-Ends}
use kinz.Request.Onion.{Layer, layer, acts, befores, afters, bound, onion_order, run-acts, run_done}
use kinz.Router.{Routes, new_routes, chain, HandlerMetrics, Executed, recovered, execute}
use kinz.Router.Registrations.{
  Registration, register_all, all_middleware, all_ranges, first_route, specified,
}
use kinz.Router.History.{chain-register_all}

execute-none :
    (mh : Routes Handler) (metrics : Option HandlerMetrics) (r : Request)
    → chain mh r.msg.id ≡ none
    → execute mh metrics r ≡ (
      returned,
      record { run = record { request = r; trace = [] }; metrics = recovered returned metrics },
    )
unfolding execute
execute-none mh metrics r e = rw (e, execute)

execute-some :
    (mh : Routes Handler) (metrics : Option HandlerMetrics) (r : Request) (all : List Handler)
    → chain mh r.msg.id ≡ some all
    → let (ended, t) = router_slices_next (length all) (bound r all) in
      execute mh metrics r ≡ (ended, record { run = t; metrics = recovered ended metrics })
unfolding execute
execute-some mh metrics r all e = rw (e, execute)

abbrev pub panics_of : Ended → ℕ
panics_of panicked = 1
panics_of returned = 0
panics_of starved = 0

recovered_lem :
    (e : Ended) (m : HandlerMetrics)
    → recovered e (some m)
      ≡ some (record {
        panics = m.panics + panics_of e;
        durations = m.durations + 1;
        queue_full = m.queue_full;
      })
unfolding recovered
recovered_lem returned m = ground arith
recovered_lem panicked m = ground arith
recovered_lem starved m = ground arith

-- For handlers that come to an end by themselves (finite trees of calls on the request, none of
-- which binds a new chain or recovers), whatever is registered: Execute never runs out of the fuel
-- that the length of the chain gives, also if handlers call the next one several times; the request
-- stays with its connection; and the metrics count one duration, and one panic exactly if a handler
-- panicked.
pub execute_lem :
    (mh : Routes Handler) (m : HandlerMetrics) (r : Request)
    → let (ended, x) = execute mh (some m) r in
      (ended ≢ starved)
      × (x.run.request.conn_id ≡ r.conn_id)
      × (x.metrics
          ≡ some (record {
            panics = m.panics + panics_of ended;
            durations = m.durations + 1;
            queue_full = m.queue_full;
          }))
unfolding bind_router_slices
execute_lem mh m r = elim (Option-cases (chain mh r.msg.id)) [
  | inl e ↦ rw (execute-none mh (some m) r e) ((λ p. cc), refl, recovered_lem returned m)
  | inr (all, e) ↦
      let (fed, _, conn, _, _, _) = router_slices_next-Ends (bound r all) (omega arith) in
      rw (execute-some mh (some m) r all e) (fed, conn, recovered_lem _ m)
]

-- A message for which nothing is registered, neither middleware nor route, changes nothing.
pub execute_unregistered :
    (rs : List (Registration Handler)) (metrics : Option HandlerMetrics) (r : Request)
    → all_middleware rs ≡ []
    → all_ranges r.msg.id rs ≡ []
    → first_route r.msg.id rs ≡ none
    → (execute (register_all new_routes rs) metrics r).1.run ≡ record { request = r; trace = [] }
execute_unregistered rs metrics r a b c =
    ap (λ (o : Ended × Executed). o.1.run)
      (execute-none _ metrics r (chain-register_all rs r.msg.id ∙ rw (c, specified, a, b)))

befores-append : (ls ks : List Layer) → befores (ls ++ ks) ≡ befores ls ++ befores ks
befores-append [] ks = refl
befores-append (l ∷ ls) ks =
    rw (befores-append ls ks) (sym (append_assoc l.before (befores ls) (befores ks)))

afters-append : (ls ks : List Layer) → afters (ls ++ ks) ≡ afters ks ++ afters ls
afters-append [] ks = sym (append-nil (afters ks))
afters-append (l ∷ ls) ks = rw (afters-append ls ks) (append_assoc (afters ks) (afters ls) l.after)

-- The chain of an id whose middleware are layers.
chain_of_layers :
    (rs : List (Registration Handler)) (id : ℕ) (gs ks : List Layer) (route : List Handler)
    → all_middleware rs ≡ map layer gs
    → all_ranges id rs ≡ map layer ks
    → first_route id rs ≡ some route
    → chain (register_all new_routes rs) id ≡ some (map layer (gs ++ ks) ++ route)
chain_of_layers rs id gs ks route a b c =
    chain-register_all rs id
    ∙ rw (c, specified, a, b)
        (ap (λ (hs : List Handler). some (hs ++ route)) (sym (map-append layer gs ks)))

module _ (rs : List (Registration Handler)) (metrics : Option HandlerMetrics) (r : Request)
    (gs ks : List Layer) (own : List ℕ) (rest : List Handler)
    (global : all_middleware rs ≡ map layer gs)
    (ranges : all_ranges r.msg.id rs ≡ map layer ks) where
  -- For any registrations: the global middleware act first, then those of the ranges that hold the
  -- id, then the route's handler, and then the middleware on their way back, the innermost first.
  -- The handlers behind a route handler that does not ask for them do not run.
  pub execute_order :
      first_route r.msg.id rs ≡ some (acts own done ∷ rest)
      → let (ended, x) = execute (register_all new_routes rs) metrics r in
        (ended ≡ returned)
        × (x.run.trace ≡ ((befores gs ++ befores ks) ++ own) ++ (afters ks ++ afters gs))
  execute_order route =
      rw
        (
          execute-some _ metrics r _ (chain_of_layers rs r.msg.id gs ks _ global ranges route),
          onion_order r (gs ++ ks) (acts own done) rest,
          run-acts (length rest) own done _,
          run_done (length rest) _,
          befores-append gs ks,
          afters-append gs ks,
        )
        (refl, refl)
