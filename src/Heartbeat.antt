-- ===== src/Heartbeat.antt =====
-- knet/heartbeat.go: the heartbeat checker, and the options with which knet/server.go and
-- knet/client.go make its template.
-- The functions that the application may set are values of the section's types; only which one is
-- used matters. Durations are numbers of nanoseconds, far below 2 ^ 63. `quits` is the number of
-- quit channels that were made, `closed` the numbers of those that are closed: the loop that
-- `Start` launches with a channel runs until that is closed. A method that would panic, closing a
-- channel twice, returns none.
-- The children: Loops has the loops that run, Options what a template and its clones do.
pub mod Loops
pub mod Options
mod Tests
use kinz.Base.{
  ℕ, zero, suc, ◌+◌, ◌-◌, ◌*◌, ◌≡◌, Bool, true, false, List, [], ◌∷◌, ◌++◌, Option, none, some, ℤ,
  pos, negsuc, length, ltb, ◌==◌, if◌then◌else◌,
}

pub record HeartBeatChecker (M N B H C : Type 0) : Type 0 where
  pub interval : ℕ
  pub timeout : ℕ
  pub started : Bool
  pub quits : ℕ
  pub closed : List ℕ
  pub make_msg : M
  pub on_remote_not_alive : N
  pub beat_func : Option B
  pub msg_id : ℕ
  pub router_slices : List H
  -- The counter of missed heartbeats, if it is wired.
  pub metrics : Option ℕ
  pub conn : Option C

-- kiface.HeartBeatOption.
pub record HeartBeatOption (M N H : Type 0) : Type 0 where
  pub make_msg : Option M
  pub on_remote_not_alive : Option N
  pub heart_beat_msg_id : ℕ
  pub router_slices : List H
  pub timeout : ℤ

abbrev pub second : ℕ
second = 1000000000

abbrev pub heart_beat_default_msg_id : ℕ
heart_beat_default_msg_id = 99999

-- What one `check` does.
pub data Checked (N B M C : Type 0) : Type 0 where
  unbound : Checked N B M C
  not_alive : N → C → Checked N B M C
  beat : B → C → Checked N B M C
  send_heartbeat : C → ℕ → M → Checked N B M C

module _ {M N B H C : Type 0} (make_default_msg : M) (not_alive_default : N) where
  abbrev pub with_interval : ℕ → HeartBeatChecker M N B H C
  with_interval interval = record {
    interval = interval;
    timeout = 3 * interval;
    started = false;
    quits = 0;
    closed = [];
    make_msg = make_default_msg;
    on_remote_not_alive = not_alive_default;
    beat_func = none;
    msg_id = heart_beat_default_msg_id;
    router_slices = [];
    metrics = none;
    conn = none;
  }

  unfoldable pub new_heartbeat_checker : ℤ → HeartBeatChecker M N B H C
  new_heartbeat_checker (pos zero) = with_interval (10 * second)
  new_heartbeat_checker (pos (suc n)) = with_interval (suc n)
  new_heartbeat_checker (negsuc n) = with_interval (10 * second)

abbrev pub member : ℕ → List ℕ → Bool
member n [] = false
member n (k ∷ ks) = if k == n then true else member n ks

module _ {M N B H C : Type 0} where
  unfoldable pub set_timeout : HeartBeatChecker M N B H C → ℤ → HeartBeatChecker M N B H C
  set_timeout h (pos zero) = h
  set_timeout h (pos (suc n)) = record h { timeout = suc n }
  set_timeout h (negsuc n) = h

  unfoldable pub set_on_remote_not_alive :
      HeartBeatChecker M N B H C → Option N → HeartBeatChecker M N B H C
  set_on_remote_not_alive h none = h
  set_on_remote_not_alive h (some f) = record h { on_remote_not_alive = f }

  unfoldable pub set_heart_beat_msg_func :
      HeartBeatChecker M N B H C → Option M → HeartBeatChecker M N B H C
  set_heart_beat_msg_func h none = h
  set_heart_beat_msg_func h (some f) = record h { make_msg = f }

  unfoldable pub set_heartbeat_func :
      HeartBeatChecker M N B H C → Option B → HeartBeatChecker M N B H C
  set_heartbeat_func h none = h
  set_heartbeat_func h (some f) = record h { beat_func = some f }

  unfoldable pub bind_router_slices :
      HeartBeatChecker M N B H C → ℕ → List H → HeartBeatChecker M N B H C
  bind_router_slices h msg_id [] = h
  bind_router_slices h msg_id (f ∷ fs) = record h {
    msg_id = msg_id;
    router_slices = h.router_slices ++ (f ∷ fs);
  }

  unfoldable pub bind_conn : HeartBeatChecker M N B H C → C → HeartBeatChecker M N B H C
  bind_conn h conn = record h { conn = some conn }

  unfoldable pub start : HeartBeatChecker M N B H C → HeartBeatChecker M N B H C
  start h = if h.started then h else record h { started = true; quits = h.quits + 1 }

  -- `h.quit` is the channel that was made last.
  unfoldable pub stop : HeartBeatChecker M N B H C → Option (HeartBeatChecker M N B H C)
  stop h =
      if h.started
      then if member h.quits h.closed
        then none
        else some (record h { started = false; closed = h.quits ∷ h.closed })
      else some h

  -- `check`, where `alive` answers `conn.IsAlive`.
  unfoldable pub check :
      (C → ℕ → Bool) → HeartBeatChecker M N B H C → HeartBeatChecker M N B H C × Checked N B M C
  check alive h = elim h.conn [
    | none ↦ (h, unbound)
    | some conn ↦ elim (alive conn h.timeout) [
      | false ↦ elim h.metrics [
        | none ↦ (h, not_alive h.on_remote_not_alive conn)
        | some missed ↦
            (record h { metrics = some (missed + 1) }, not_alive h.on_remote_not_alive conn)
      ]
      | true ↦ elim h.beat_func [
        | some f ↦ (h, beat f conn)
        | none ↦ (h, send_heartbeat conn h.msg_id h.make_msg)
      ]
    ]
  ]

  unfoldable pub clone : HeartBeatChecker M N B H C → HeartBeatChecker M N B H C
  clone h = record h { started = false; quits = 0; closed = []; metrics = none; conn = none }

  -- The option as `SetHeartBeatWithOption` and `StartHeartBeatWithOption` apply it.
  unfoldable pub apply_option :
      HeartBeatChecker M N B H C → Option (HeartBeatOption M N H) → HeartBeatChecker M N B H C
  unfolding set_heart_beat_msg_func set_on_remote_not_alive set_timeout bind_router_slices
  apply_option tpl none = tpl
  apply_option tpl (some o) =
      let a = set_heart_beat_msg_func tpl o.make_msg in
      let b = set_on_remote_not_alive a o.on_remote_not_alive in
      let c = set_timeout b o.timeout in
      let d = if o.heart_beat_msg_id == 0 then c else record c { msg_id = o.heart_beat_msg_id } in
      bind_router_slices d o.heart_beat_msg_id o.router_slices

module _ {M N B H C : Type 0} (make_default_msg : M) (not_alive_default : N) where
  -- The template of a server, whose metrics are wired.
  unfoldable pub server_template : ℤ → Option (HeartBeatOption M N H) → HeartBeatChecker M N B H C
  unfolding new_heartbeat_checker apply_option
  server_template interval option =
      apply_option
        (record (new_heartbeat_checker make_default_msg not_alive_default interval) {
          metrics = some 0;
        })
        option

  unfoldable pub client_template : ℤ → Option (HeartBeatOption M N H) → HeartBeatChecker M N B H C
  unfolding new_heartbeat_checker apply_option
  client_template interval option =
      apply_option (new_heartbeat_checker make_default_msg not_alive_default interval) option
