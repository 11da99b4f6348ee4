-- ===== src/Router.antt =====
-- knet/msgHandler.go (registration and `Execute`) and knet/routerSlices.go.
-- `Routes` holds the fields of MsgHandler that routing uses: the handlers of each message id, the
-- ranges with their middleware, and the global middleware. Its lock makes each method one step. A
-- method that may fail returns its error beside the routes that it leaves. The handles
-- routerSlices and groupRouterSlices are the routes with, for a group, its range. The worker pool
-- of MsgHandler is modelled in Pool.
-- The children: Registry has what a registration changes, Registrations what is specified for a
-- sequence of them, Ranges the middleware of ranges after it, History the chains, Execution how a
-- request is dispatched.
pub mod Registry
pub mod Registrations
pub mod Ranges
pub mod History
pub mod Execution
mod Tests
use kinz.Base.{
  ℕ, zero, suc, ◌+◌, Bool, true, false, ◌&&◌, List, [], ◌∷◌, ◌++◌, Option, none, some, length, ltb,
  leb, ◌==◌, if◌then◌else◌,
}
use kinz.Base.Maps.{lookup, insert}
use kinz.Codec.{Message}
use kinz.Request.{
  Handler, Request, Run, Ended, returned, panicked, starved, bind_router_slices, router_slices_next,
}

-- A range of message ids with its middleware.
pub record GroupRange (H : Type 0) : Type 0 where
  pub start : ℕ
  pub end : ℕ
  pub handlers : List H

pub record Routes (H : Type 0) : Type 0 where
  pub apis : List (ℕ × List H)
  pub group_ranges : List (GroupRange H)
  pub global_handlers : List H

pub data RouteError : Type 0 where
  msg_id_registered : ℕ → RouteError
  invalid_range : ℕ → ℕ → RouteError
  outside_range : ℕ → ℕ → ℕ → RouteError

module _ {H : Type 0} where
  -- The routes of `NewMsgHandler`.
  unfoldable pub new_routes : Routes H
  new_routes = record { apis = []; group_ranges = []; global_handlers = [] }

  -- A map entry is there also when it holds no handler.
  unfoldable pub add_slices : Routes H → ℕ → List H → Routes H × Option RouteError
  add_slices mh msg_id handlers = elim (lookup msg_id mh.apis) [
    | some _ ↦ (mh, some (msg_id_registered msg_id))
    | none ↦ (record mh { apis = insert msg_id handlers mh.apis }, none)
  ]

  unfoldable pub add_router_slices : Routes H → ℕ → List H → Routes H × Option RouteError
  unfolding add_slices
  add_router_slices mh msg_id handlers = add_slices mh msg_id handlers

  unfoldable pub group : Routes H → ℕ → ℕ → List H → Routes H × Option RouteError
  group mh start end handlers = if ltb end start then (mh, some (invalid_range start end)) else (
    record mh {
      group_ranges =
          mh.group_ranges ++ (record { start = start; end = end; handlers = handlers } ∷ []);
    },
    none,
  )

  -- `Use` of MsgHandler, and of routerSlices.
  unfoldable pub use_global : Routes H → List H → Routes H
  use_global mh handlers =
      if length handlers == 0
      then mh
      else record mh { global_handlers = mh.global_handlers ++ handlers }

  unfoldable pub router_use : Routes H → List H → Routes H
  router_use mh handlers = record mh { global_handlers = mh.global_handlers ++ handlers }

  unfoldable pub get_handlers : Routes H → ℕ → Option (List H)
  get_handlers mh msg_id = lookup msg_id mh.apis

  -- The loop of `groupRouterSlices.Use`: the first range with these ends takes the middleware.
  unfoldable pub extend_first : ℕ → ℕ → List H → List (GroupRange H) → List (GroupRange H)
  extend_first start end handlers [] = []
  extend_first start end handlers (g ∷ gs) =
      let rest = extend_first start end handlers gs in
      if g.start == start && g.end == end
      then record g { handlers = g.handlers ++ handlers } ∷ gs
      else g ∷ rest

  unfoldable pub group_use : Routes H → ℕ → ℕ → List H → Routes H
  unfolding extend_first
  group_use mh start end handlers = record mh {
    group_ranges = extend_first start end handlers mh.group_ranges;
  }

  unfoldable pub group_add_handler : Routes H → ℕ → ℕ → ℕ → List H → Routes H × Option RouteError
  unfolding add_slices
  group_add_handler mh start end msg_id handlers =
      let added = add_slices mh msg_id handlers in
      if ltb msg_id start
      then (mh, some (outside_range msg_id start end))
      else if ltb end msg_id
      then (mh, some (outside_range msg_id start end))
      else added

  -- The loop of `Execute` over the ranges.
  unfoldable pub group_handlers : ℕ → List (GroupRange H) → List H
  group_handlers msg_id [] = []
  group_handlers msg_id (g ∷ gs) =
      let rest = group_handlers msg_id gs in
      if leb g.start msg_id && leb msg_id g.end then g.handlers ++ rest else rest

  -- `all` in `Execute`, of a route, the global middleware and that of the ranges; `none` if nothing
  -- is registered for the id.
  unfoldable pub assemble : Option (List H) → List H → List H → Option (List H)
  assemble (some handlers) global groups = some ((global ++ groups) ++ handlers)
  assemble none global groups =
      if length global == 0 && length groups == 0 then none else some ((global ++ groups) ++ [])

  -- The chain that `Execute` binds.
  unfoldable pub chain : Routes H → ℕ → Option (List H)
  unfolding group_handlers assemble
  chain mh msg_id =
      assemble (lookup msg_id mh.apis) mh.global_handlers (group_handlers msg_id mh.group_ranges)

-- handlerMetrics: `durations` counts the observations of the duration histogram.
pub record HandlerMetrics : Type 0 where
  pub panics : ℕ
  pub durations : ℕ
  pub queue_full : ℕ

-- What `Execute` leaves: the request, the effects of the handlers, the metrics.
pub record Executed : Type 0 where
  pub run : Run
  pub metrics : Option HandlerMetrics

abbrev pub count_panic : HandlerMetrics → HandlerMetrics
count_panic m = record m { panics = m.panics + 1 }

abbrev pub observe_duration : HandlerMetrics → HandlerMetrics
observe_duration m = record m { durations = m.durations + 1 }

-- The deferred function: a panic is recovered and counted, and the duration is always observed.
unfoldable pub recovered : Ended → Option HandlerMetrics → Option HandlerMetrics
recovered e none = none
recovered panicked (some m) = some (observe_duration (count_panic m))
recovered returned (some m) = some (observe_duration m)
recovered starved (some m) = some (observe_duration m)

-- The request's `trace` is empty when it is dispatched.
unfoldable pub execute : Routes Handler → Option HandlerMetrics → Request → Ended × Executed
unfolding chain recovered router_slices_next bind_router_slices
execute mh metrics request = elim (chain mh request.msg.id) [
  | none ↦ (
    returned,
    record { run = record { request = request; trace = [] }; metrics = recovered returned metrics },
  )
  | some all ↦
      let (ended, r) =
        router_slices_next (length all)
          (record { request = bind_router_slices request all; trace = [] }) in
      (ended, record { run = r; metrics = recovered ended metrics })
]
