-- ===== src/Request.antt =====
-- knet/request.go: a request and its chain of handlers.
-- A handler (kiface.RouterHandler) is code of the application. It is modelled by the calls that it
-- makes on the request, as a tree: what it does next may depend on what a call returned. `act n`
-- stands for any effect of its own, visible by its number in the trace; a key and a value of the
-- request's context are numbers too. The tree is finite and has no branch for
-- `BindRouterSlices`, for a recover of its own, or for a message that is nil: a handler that rebinds
-- its own chain, and then may run for ever, that loops, or that stops the panic of one behind it, is
-- not modelled. `RouterSlicesNext` calls a handler from inside a handler, so `run`
-- takes as fuel how deep the calls may go; Fuel shows that the length of the chain is enough.
-- The children: Fuel has the termination of a chain, Onion the order in which a chain runs.
pub mod Fuel
pub mod Onion
mod Tests
use kinz.Base.{
  ℕ, zero, suc, ◌+◌, Bool, true, false, List, [], ◌∷◌, ◌++◌, Option, none, some, get_elem?,
  if◌then◌else◌,
}
use kinz.Base.Maps.{lookup, insert}
use kinz.Codec.{Message}

pub data Handler : Type 0 where
  done panic : Handler
  next abort : Handler → Handler
  act : ℕ → Handler → Handler
  set : ℕ → ℕ → Handler → Handler
  get : ℕ → (Option ℕ → Handler) → Handler
  set_message : Message → Handler → Handler
  get_message : (Message → Handler) → Handler

pub record Request : Type 0 where
  pub conn_id : ℕ
  pub msg : Message
  pub handlers : List Handler
  pub index : ℕ
  pub aborted : Bool
  pub ctx : List (ℕ × ℕ)

unfoldable pub new_request : ℕ → Message → Request
new_request conn_id msg = record {
  conn_id = conn_id;
  msg = msg;
  handlers = [];
  index = 0;
  aborted = false;
  ctx = [];
}

unfoldable pub bind_router_slices : Request → List Handler → Request
bind_router_slices r handlers = record r { handlers = handlers; index = 0; aborted = false }

-- `Copy` keeps the place in the chain, and starts with no context and not aborted.
unfoldable pub copy : Request → Request
copy r = record r { aborted = false; ctx = [] }

-- A request while a chain runs, with the effects so far.
pub record Run : Type 0 where
  pub request : Request
  pub trace : List ℕ

pub data Ended : Type 0 where
  returned panicked starved : Ended

-- The handler that `RouterSlicesNext` calls, if it calls one.
unfoldable pub current : Request → Option Handler
current r = if r.aborted then none else get_elem? r.handlers r.index

abbrev pub advance : Run → Run
advance s = record s { request = record s.request { index = s.request.index + 1 } }

abbrev pub emit : ℕ → Run → Run
emit n s = record s { trace = s.trace ++ (n ∷ []) }

abbrev pub set_aborted : Run → Run
set_aborted s = record s { request = record s.request { aborted = true } }

abbrev pub set_ctx : ℕ → ℕ → Run → Run
set_ctx k v s = record s { request = record s.request { ctx = insert k v s.request.ctx } }

abbrev pub set_msg : Message → Run → Run
set_msg m s = record s { request = record s.request { msg = m } }

-- What comes behind a call happens only if the call returned.
abbrev pub and_then : Ended × Run → (Run → Ended × Run) → Ended × Run
and_then (returned, s) k = k s
and_then (panicked, s) k = (panicked, s)
and_then (starved, s) k = (starved, s)

-- A handler runs to its end, calling the handlers behind it where it asks for them. A panic leaves
-- every handler that is under way.
unfoldable pub run : ℕ → Handler → Run → Ended × Run
run fuel done s = (returned, s)
run fuel panic s = (panicked, s)
run fuel (abort h) s = run fuel h (set_aborted s)
run fuel (act n h) s = run fuel h (emit n s)
run fuel (set k v h) s = run fuel h (set_ctx k v s)
run fuel (get k h) s = run fuel (h (lookup k s.request.ctx)) s
run fuel (set_message m h) s = run fuel h (set_msg m s)
run fuel (get_message h) s = run fuel (h s.request.msg) s
run zero (next h) s = elim (current s.request) [ none ↦ run zero h s | some g ↦ (starved, s) ]
run (suc fuel) (next h) s = elim (current s.request) [
  | none ↦ run (suc fuel) h s
  | some g ↦ and_then (run fuel g (advance s)) (λ s'. run (suc fuel) h s')
]

-- `request.RouterSlicesNext()`, called from outside the chain.
unfoldable pub router_slices_next : ℕ → Run → Ended × Run
unfolding run
router_slices_next fuel s = run fuel (next done) s
