-- ===== src/Router/Tests.antt =====
-- Registrations and dispatches of knet/msgHandler.go.
use kinz.Base.{ℕ, ◌+◌, ◌≤◌, ◌<◌, ◌≡◌, ◌≢◌, ◌⊎◌, inl, refl, List, [], ◌∷◌, ◌++◌, some, arith}
use kinz.Codec.{Message}
use kinz.Request.{Handler, done, panic, act, Request, new_request, returned, starved}
use kinz.Request.Onion.{Layer, layer, acts}
use kinz.Router.{
  Routes, msg_id_registered, outside_range, new_routes, add_slices, group_use, group_add_handler,
  group_handlers, assemble, chain, HandlerMetrics, execute,
}
use kinz.Router.Registry.{group_add_handler_lem, group_handlers-group_use, chain-group_use_outside}
use kinz.Router.Registrations.{Registration, route, middleware, range, range_use, register_all}
use kinz.Router.History.{chain-register_all}
use kinz.Router.Execution.{execute_lem, execute_order, panics_of}

-- Handlers are numbers where only their order matters.
abbrev routes : Routes ℕ
routes = record {
  apis = (7, 70 ∷ []) ∷ [];
  group_ranges =
      record { start = 1; end = 5; handlers = 15 ∷ [] }
      ∷ record { start = 6; end = 9; handlers = 69 ∷ [] }
      ∷ [];
  global_handlers = 1 ∷ [];
}

chain_of_seven : chain routes 7 ≡ some (1 ∷ 69 ∷ 70 ∷ [])
unfolding chain group_handlers assemble
chain_of_seven = refl

duplicate : add_slices routes 7 (71 ∷ []) ≡ (routes, some (msg_id_registered 7))
unfolding add_slices
duplicate = refl

group_add_handler_lem_example :
    ((6 ≤ 10)
      × (10 ≤ 9)
      × (group_add_handler routes 6 9 10 (100 ∷ []) ≡ add_slices routes 10 (100 ∷ [])))
    ⊎ (((10 < 6) ⊎ (9 < 10))
        × (group_add_handler routes 6 9 10 (100 ∷ []) ≡ (routes, some (outside_range 10 6 9))))
group_add_handler_lem_example = group_add_handler_lem routes 6 9 10 (100 ∷ [])

group_handlers-group_use_example :
    group_handlers 7 (group_use routes 6 9 (60 ∷ [])).group_ranges
    ≡ group_handlers 7 (record { start = 1; end = 5; handlers = 15 ∷ [] } ∷ [])
      ++ (69 ∷ 60 ∷ group_handlers 7 [])
group_handlers-group_use_example =
    group_handlers-group_use routes 6 9 7 (60 ∷ [])
      (record { start = 1; end = 5; handlers = 15 ∷ [] } ∷ []) []
      (record { start = 6; end = 9; handlers = 69 ∷ [] }) refl (inl (ground arith), tt) refl refl
      (omega arith) (omega arith)

chain-group_use_outside_example : chain (group_use routes 6 9 (60 ∷ [])) 5 ≡ chain routes 5
chain-group_use_outside_example = chain-group_use_outside routes 6 9 5 (60 ∷ []) (inl (omega arith))

-- A route is registered twice, before and after some middleware; a group takes more when another one
-- has been made.
abbrev registered : List (Registration ℕ)
registered =
    route 7 (70 ∷ [])
    ∷ range 6 9 (69 ∷ [])
    ∷ range 7 8 (78 ∷ [])
    ∷ middleware (1 ∷ [])
    ∷ range_use 6 9 (99 ∷ [])
    ∷ route 7 (71 ∷ [])
    ∷ []

chain-register_all_example :
    chain (register_all new_routes registered) 7 ≡ some (1 ∷ 69 ∷ 99 ∷ 78 ∷ 70 ∷ [])
chain-register_all_example = chain-register_all registered 7

abbrev message : Message
message = record { id = 7; data_len = 0; payload = []; raw = [] }

abbrev request : Request
request = new_request 1 message

abbrev metrics : HandlerMetrics
metrics = record { panics = 0; durations = 4; queue_full = 0 }

abbrev panicking : Routes Handler
panicking = record { apis = (7, act 1 panic ∷ []) ∷ []; group_ranges = []; global_handlers = [] }

execute_lem_example :
    ((execute panicking (some metrics) request).0 ≢ starved)
    × ((execute panicking (some metrics) request).1.run.request.conn_id ≡ request.conn_id)
    × ((execute panicking (some metrics) request).1.metrics
        ≡ some (record {
          panics = 0 + panics_of (execute panicking (some metrics) request).0;
          durations = 5;
          queue_full = 0;
        }))
execute_lem_example = execute_lem panicking metrics request

abbrev before_and_after : ℕ → Layer
before_and_after n = record { before = n ∷ []; after = (n + 10) ∷ [] }

abbrev layered : List (Registration Handler)
layered =
    route 7 (acts (70 ∷ []) done ∷ [])
    ∷ range 6 9 (layer (before_and_after 2) ∷ [])
    ∷ middleware (layer (before_and_after 1) ∷ [])
    ∷ []

execute_order_example :
    ((execute (register_all new_routes layered) (some metrics) request).0 ≡ returned)
    × ((execute (register_all new_routes layered) (some metrics) request).1.run.trace
        ≡ 1 ∷ 2 ∷ 70 ∷ 12 ∷ 11 ∷ [])
unfolding new_request
execute_order_example =
    execute_order layered (some metrics) request (before_and_after 1 ∷ []) (before_and_after 2 ∷ [])
      (70 ∷ []) [] refl refl refl
