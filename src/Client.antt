-- ===== src/Client.antt =====
-- knet/client.go: dialling, the loop that reconnects, Start, Stop and Restart.
-- A connection is known by its id. `managed` is the connection in the client's manager, which holds
-- one. `conn` is the field that `Conn` returns; `orphan` says that the manager has not accepted it.
-- `conn_gone` is the buffered channel of one signal. `loop` is where the loop of the last Start is,
-- or the first dial of that Start; the context of the loops of earlier ones is done: `stale` are the
-- dials that such loops have under way, and `cancelled` counts those that are not dialling and have
-- not returned yet.
-- `start`, `stop`, `restart` and `redial` are calls that nothing disturbs. `Step` takes them apart
-- where another goroutine may come in between: the assignment of `conn` and Add are two steps of a
-- dial, and the signal of a connection that stops and its removal from the manager are two steps as
-- well. The relation allows more than the code does: a connection may leave without a signal, Start
-- need not wait until Stop has closed the connection. The application is taken to call Start, Stop
-- and Restart one after the other. Whether the network lets a dial through is an argument or a
-- choice. The delay before a redial is that of the child Backoff, and the worker pool is modelled in
-- Pool.
-- The children: Stranded and Overtaken have runs in which the client is cut off, Backoff how long it
-- waits, Setup what NewClient makes.
pub mod Stranded
pub mod Overtaken
pub mod Backoff
pub mod Setup
mod Tests
use kinz.Base.{
  ℕ, suc, ◌+◌, ◌%◌, ◌^◌, ◌≡◌, ◌==◌, Bool, true, false, ◌||◌, Option, none, some, List, [], ◌∷◌,
  ◌++◌, if◌then◌else◌,
}

-- A dial, the first one of Start or one of the loop, has made its connection `conn` or not yet.
pub data LoopPc : Type 0 where
  no_loop waiting delaying : LoopPc
  dialing : Bool → Option ℕ → LoopPc

pub record Client : Type 0 where
  pub started : Bool
  pub stopping : Bool
  pub conn : Option ℕ
  pub orphan : Bool
  pub managed : Option ℕ
  pub conn_gone : Bool
  pub conn_id : ℕ
  pub loop : LoopPc
  pub attempt : ℕ
  pub cancelled : ℕ
  pub stale : List (Option ℕ)

pub data ClientError : Type 0 where
  already_started dial_failed : ClientError

unfoldable pub new_client : Client
new_client = record {
  started = false;
  stopping = false;
  conn = none;
  orphan = false;
  managed = none;
  conn_gone = false;
  conn_id = 0;
  loop = no_loop;
  attempt = 0;
  cancelled = 0;
  stale = [];
}

abbrev pub next_id : Client → ℕ
next_id c = (c.conn_id + 1) % 2 ^ 64

-- `dial` behind the network, up to the unlock: a client that stops closes the socket; otherwise the
-- new connection becomes `conn` before the manager has accepted it.
unfoldable pub assign_conn : Client → Client × Option ℕ
assign_conn c = if c.stopping then (record c { conn_id = next_id c }, none) else (
  record c { conn_id = next_id c; conn = some (next_id c); orphan = true },
  some (next_id c),
)

abbrev pub still_orphan : ℕ → Option ℕ → Bool → Bool
still_orphan k none orphan = orphan
still_orphan k (some i) orphan = if i == k then false else orphan

-- `Add`, which a full manager refuses.
unfoldable pub add_conn : ℕ → Client → Client × Bool
add_conn k c = elim c.managed [
  | some _ ↦ (c, false)
  | none ↦ (record c { managed = some k; orphan = still_orphan k c.conn c.orphan }, true)
]

abbrev pub after_assign : Client × Option ℕ → Client × Bool
unfolding add_conn
after_assign (c, none) = (c, false)
after_assign (c, some k) = add_conn k c

unfoldable pub dial : Client → Bool → Client × Bool
unfolding assign_conn add_conn
dial c true = after_assign (assign_conn c)
dial c false = (c, false)

abbrev pub after_first_dial : Client × Bool → Client × Option ClientError
after_first_dial (c, true) = (record c { loop = waiting; attempt = 0 }, none)
after_first_dial (c, false) = (record c { started = false; loop = no_loop }, some dial_failed)

unfoldable pub start : Client → Bool → Client × Option ClientError
unfolding dial
start c network =
    if c.started
    then (c, some already_started)
    else after_first_dial (dial (record c { started = true; stopping = false }) network)

-- `CallOnConnStop` of a connection of the client signals, unless there is a signal already.
unfoldable pub signal_gone : Client → Client
signal_gone c = record c { conn_gone = true }

unfoldable pub leave_manager : Client → Client
leave_manager c = record c { managed = none }

-- `ClearConn`: the whole of `stopOnce` of the managed connection.
unfoldable pub clear_conn : Client → Client
unfolding signal_gone leave_manager
clear_conn c = elim c.managed [ none ↦ c | some _ ↦ leave_manager (signal_gone c) ]

abbrev pub count_loop : LoopPc → ℕ
count_loop no_loop = 0
count_loop waiting = 1
count_loop delaying = 1
count_loop (dialing first made) = 0

abbrev pub dial_of : LoopPc → List (Option ℕ)
dial_of no_loop = []
dial_of waiting = []
dial_of delaying = []
dial_of (dialing first made) = made ∷ []

-- `Stop` up to the call of cancel.
unfoldable pub cancel : Client → Client
cancel c = record c {
  started = false;
  stopping = true;
  loop = no_loop;
  cancelled = c.cancelled + count_loop c.loop;
  stale = c.stale ++ dial_of c.loop;
}

-- `Stop` of a `conn` that was never accepted signals too.
unfoldable pub stop_orphan : Client → Client
stop_orphan c = record c { conn_gone = c.conn_gone || c.orphan; orphan = false }

-- `Stop` stops `conn`, and then what is in the manager.
unfoldable pub stop : Client → Client
unfolding cancel stop_orphan clear_conn
stop c = if c.started then clear_conn (stop_orphan (cancel c)) else c

unfoldable pub restart : Client → Bool → Client
unfolding stop start
restart c network = (start (stop c) network).0

-- The loop receives from `connGone`.
unfoldable pub take_gone : Client → Client
take_gone c =
    if c.stopping
    then record c { conn_gone = false; loop = no_loop }
    else record c { conn_gone = false; loop = delaying; attempt = c.attempt + 1 }

abbrev pub after_redial : Client × Bool → Client
after_redial (c, true) = record c { loop = waiting; attempt = 0 }
after_redial (c, false) = record c { loop = waiting }

-- The delay is over.
unfoldable pub redial : Client → Bool → Client
unfolding dial
redial c network = after_redial (dial c network)

abbrev pub dial_over : Bool → Client × Bool → Client
dial_over true x = (after_first_dial x).0
dial_over false x = after_redial x

abbrev pub assigned : Bool → Client × Option ℕ → Client
assigned first (c, none) = dial_over first (c, false)
assigned first (c, some k) = record c { loop = dialing first (some k) }

-- A dial of a loop whose context is done, which has `front` and `rest` beside it.
abbrev pub stale_over : List (Option ℕ) → Client → Client
stale_over others c = record c { stale = others; cancelled = c.cancelled + 1 }

abbrev pub stale_assigned : List (Option ℕ) → List (Option ℕ) → Client × Option ℕ → Client
stale_assigned front rest (c, none) = stale_over (front ++ rest) c
stale_assigned front rest (c, some k) = record c { stale = front ++ (some k ∷ rest) }

pub data Step (c : Client) : Client → Type 0 where
  begin :
      c.started ≡ false
      → c.loop ≡ no_loop
      → Step c (record c { started = true; stopping = false; loop = dialing true none })
  refuse : (first : Bool) → c.loop ≡ dialing first none → Step c (dial_over first (c, false))
  assign : (first : Bool) → c.loop ≡ dialing first none → Step c (assigned first (assign_conn c))
  add :
      (first : Bool) (k : ℕ)
      → c.loop ≡ dialing first (some k)
      → Step c (dial_over first (add_conn k c))
  signal : (k : ℕ) → c.managed ≡ some k → Step c (signal_gone c)
  remove : (k : ℕ) → c.managed ≡ some k → Step c (leave_manager c)
  wake : c.loop ≡ waiting → c.conn_gone ≡ true → Step c (take_gone c)
  retry : c.loop ≡ delaying → Step c (record c { loop = dialing false none })
  halt : c.started ≡ true → Step c (cancel c)
  stop_conn : c.stopping ≡ true → Step c (stop_orphan c)
  -- A loop whose context is done may take the signal instead of returning at once.
  swallow :
      (n : ℕ)
      → c.cancelled ≡ suc n
      → c.conn_gone ≡ true
      → Step c (record c { cancelled = n; conn_gone = false })
  leave : (n : ℕ) → c.cancelled ≡ suc n → Step c (record c { cancelled = n })
  -- Its dial fails, since it is cancelled; or it got through before, and goes on.
  stale_refuse :
      (front rest : List (Option ℕ))
      → c.stale ≡ front ++ (none ∷ rest)
      → Step c (stale_over (front ++ rest) c)
  stale_assign :
      (front rest : List (Option ℕ))
      → c.stale ≡ front ++ (none ∷ rest)
      → Step c (stale_assigned front rest (assign_conn c))
  stale_add :
      (k : ℕ) (front rest : List (Option ℕ))
      → c.stale ≡ front ++ (some k ∷ rest)
      → Step c (stale_over (front ++ rest) (add_conn k c).0)

pub data Reach (c : Client) : Client → Type 0 where
  here : Reach c c
  further : {d e : Client} → Reach c d → Step d e → Reach c e
