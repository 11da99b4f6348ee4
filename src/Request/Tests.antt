-- ===== src/Request/Tests.antt =====
-- Runs of chains of knet/request.go.
use kinz.Base.{◌≡◌, ◌≢◌, ◌≤◌, refl, true, List, [], ◌∷◌, ◌++◌, map, some, none, arith}
use kinz.Codec.{Message}
use kinz.Request.{
  Handler, done, panic, next, abort, act, set, get, Request, Run, returned, panicked, starved,
  new_request, bind_router_slices, copy, current, run, and_then, router_slices_next,
}
use kinz.Request.Fuel.{router_slices_next-Ends}
use kinz.Request.Onion.{
  Layer, layer, acts, bound, innermost, aborting, onion_order, onion_abort, onion_panic,
}

abbrev message : Message
message = record { id = 7; data_len = 0; payload = []; raw = [] }

abbrev request : Request
request = new_request 1 message

abbrev two_layers : List Layer
two_layers =
    record { before = 1 ∷ []; after = 10 ∷ [] } ∷ record { before = 2 ∷ []; after = 20 ∷ [] } ∷ []

-- A value set by one handler is read by the next.
abbrev shown : Handler
shown = get 5 (λ v. elim v [ none ↦ act 99 done | some n ↦ act n done ])

context_kept :
    (router_slices_next 2 (bound request (set 5 6 (next done) ∷ shown ∷ []))).1.trace ≡ 6 ∷ []
unfolding router_slices_next run current bind_router_slices new_request
context_kept = refl

copy_forgets :
    (router_slices_next 1 (record {
      request = copy (record (bind_router_slices request (shown ∷ [])) { ctx = (5, 6) ∷ [] });
      trace = [];
    })).1.trace
    ≡ 99 ∷ []
unfolding router_slices_next run current bind_router_slices new_request copy
copy_forgets = refl

abbrev chain_of_three : Run
chain_of_three = bound request (map layer two_layers ++ (act 3 (abort (next done)) ∷ []))

router_slices_next-Ends_example :
    ((router_slices_next 3 chain_of_three).0 ≢ starved)
    × ((router_slices_next 3 chain_of_three).1.request.handlers ≡ chain_of_three.request.handlers)
    × ((router_slices_next 3 chain_of_three).1.request.conn_id ≡ chain_of_three.request.conn_id)
    × (chain_of_three.request.index ≤ (router_slices_next 3 chain_of_three).1.request.index)
    × ((router_slices_next 3 chain_of_three).1.request.index ≤ 3)
    × (chain_of_three.request.aborted ≡ true
        → (router_slices_next 3 chain_of_three).1.request.aborted ≡ true)
unfolding bind_router_slices
router_slices_next-Ends_example = router_slices_next-Ends chain_of_three (omega arith)

onion_order_example :
    router_slices_next 4 (bound request (map layer two_layers ++ (act 3 done ∷ act 4 done ∷ [])))
    ≡ and_then
        (run 1
          (act 3 done)
          (innermost request (map layer two_layers ++ (act 3 done ∷ act 4 done ∷ [])) two_layers))
        (λ t. (returned, record t { trace = t.trace ++ (20 ∷ 10 ∷ []) }))
onion_order_example = onion_order request two_layers (act 3 done) (act 4 done ∷ [])

onion_abort_example :
    router_slices_next 4
      (bound request (map layer two_layers ++ (aborting (3 ∷ []) (5 ∷ []) ∷ act 4 done ∷ [])))
    ≡ (
      returned,
      record {
        request =
            record (bind_router_slices request
              (map layer two_layers ++ (aborting (3 ∷ []) (5 ∷ []) ∷ act 4 done ∷ []))) {
                index = 3;
                aborted = true;
              };
        trace = 1 ∷ 2 ∷ 3 ∷ 5 ∷ 20 ∷ 10 ∷ [];
      },
    )
onion_abort_example = onion_abort request two_layers (3 ∷ []) (5 ∷ []) (act 4 done ∷ [])

onion_panic_example :
    router_slices_next 4
      (bound request (map layer two_layers ++ (acts (3 ∷ []) panic ∷ act 4 done ∷ [])))
    ≡ (
      panicked,
      record (innermost request
          (map layer two_layers ++ (acts (3 ∷ []) panic ∷ act 4 done ∷ []))
          two_layers) { trace = 1 ∷ 2 ∷ 3 ∷ [] },
    )
onion_panic_example = onion_panic request two_layers (3 ∷ []) (act 4 done ∷ [])
