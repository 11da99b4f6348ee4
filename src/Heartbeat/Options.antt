-- ===== src/Heartbeat/Options.antt =====
-- The template that knet/server.go and knet/client.go make from the options, and what a clone of it
-- does for its connection.
use kinz.Base.{
  ℕ, zero, suc, ◌*◌, ◌≡◌, refl, ap, sym, ◌∙◌, Bool, Bool-cases, true, false, List, [], ◌∷◌, Option,
  none, some, ℤ, pos, negsuc, length, inl, inr, ◌==◌, if◌then◌else◌, arith,
}
use kinz.Heartbeat.{
  HeartBeatChecker, HeartBeatOption, second, heart_beat_default_msg_id, Checked, not_alive,
  send_heartbeat, new_heartbeat_checker, set_timeout, set_on_remote_not_alive,
  set_heart_beat_msg_func, bind_router_slices, bind_conn, check, clone, apply_option,
  server_template, client_template,
}

abbrev pub or_else {ℓ} : {A : Type ℓ} → Option A → A → A
or_else none d = d
or_else (some x) d = x

abbrev pub if_positive : ℤ → ℕ → ℕ
if_positive (pos zero) d = d
if_positive (pos (suc n)) d = suc n
if_positive (negsuc n) d = d

-- The message id that the options come to.
abbrev pub effective_msg_id : ℕ → ℕ → ℕ
effective_msg_id id slices =
    if slices == 0 then (if id == 0 then heart_beat_default_msg_id else id) else id

module _ {M N B H C : Type 0} where
  -- What a checker is to do once it is bound.
  pub record Settings (h : HeartBeatChecker M N B H C) (msg : M) (dead : N)
      (interval timeout msg_id : ℕ) : Type 0 where
    pub make_msg_lem : h.make_msg ≡ msg
    pub dead_lem : h.on_remote_not_alive ≡ dead
    pub beat_lem : h.beat_func ≡ none
    pub interval_lem : h.interval ≡ interval
    pub timeout_lem : h.timeout ≡ timeout
    pub msg_id_lem : h.msg_id ≡ msg_id

  msg_func-Settings :
      {h : HeartBeatChecker M N B H C} {m : M} {d : N} {i t n : ℕ} (f : Option M)
      → Settings h m d i t n
      → Settings (set_heart_beat_msg_func h f) (or_else f m) d i t n
  unfolding set_heart_beat_msg_func
  msg_func-Settings none s = s
  msg_func-Settings (some f) s = record {
    make_msg_lem = refl;
    dead_lem = s.dead_lem;
    beat_lem = s.beat_lem;
    interval_lem = s.interval_lem;
    timeout_lem = s.timeout_lem;
    msg_id_lem = s.msg_id_lem;
  }

  not_alive-Settings :
      {h : HeartBeatChecker M N B H C} {m : M} {d : N} {i t n : ℕ} (f : Option N)
      → Settings h m d i t n
      → Settings (set_on_remote_not_alive h f) m (or_else f d) i t n
  unfolding set_on_remote_not_alive
  not_alive-Settings none s = s
  not_alive-Settings (some f) s = record {
    make_msg_lem = s.make_msg_lem;
    dead_lem = refl;
    beat_lem = s.beat_lem;
    interval_lem = s.interval_lem;
    timeout_lem = s.timeout_lem;
    msg_id_lem = s.msg_id_lem;
  }

  timeout-Settings :
      {h : HeartBeatChecker M N B H C} {m : M} {d : N} {i t n : ℕ} (k : ℤ)
      → Settings h m d i t n
      → Settings (set_timeout h k) m d i (if_positive k t) n
  unfolding set_timeout
  timeout-Settings (pos zero) s = s
  timeout-Settings (pos (suc k)) s = record {
    make_msg_lem = s.make_msg_lem;
    dead_lem = s.dead_lem;
    beat_lem = s.beat_lem;
    interval_lem = s.interval_lem;
    timeout_lem = refl;
    msg_id_lem = s.msg_id_lem;
  }
  timeout-Settings (negsuc k) s = s

  msg_id-Settings :
      {h : HeartBeatChecker M N B H C} {m : M} {d : N} {i t n : ℕ} (id : ℕ)
      → Settings h m d i t n
      → Settings
          (if id == 0 then h else record h { msg_id = id })
          m
          d
          i
          t
          (if id == 0 then n else id)
  msg_id-Settings id s = elim (Bool-cases (id == 0)) [
    | inl e ↦ rw e s
    | inr e ↦ rw e (record {
      make_msg_lem = s.make_msg_lem;
      dead_lem = s.dead_lem;
      beat_lem = s.beat_lem;
      interval_lem = s.interval_lem;
      timeout_lem = s.timeout_lem;
      msg_id_lem = refl;
    })
  ]

  slices-Settings :
      {h : HeartBeatChecker M N B H C} {m : M} {d : N} {i t n : ℕ} (id : ℕ) (fs : List H)
      → Settings h m d i t n
      → Settings (bind_router_slices h id fs) m d i t (if length fs == 0 then n else id)
  unfolding bind_router_slices
  slices-Settings id [] s = s
  slices-Settings id (f ∷ fs) s = record {
    make_msg_lem = s.make_msg_lem;
    dead_lem = s.dead_lem;
    beat_lem = s.beat_lem;
    interval_lem = s.interval_lem;
    timeout_lem = s.timeout_lem;
    msg_id_lem = ground arith;
  }

  apply_option-Settings :
      {h : HeartBeatChecker M N B H C} {m : M} {d : N} {i t : ℕ} (o : HeartBeatOption M N H)
      → Settings h m d i t heart_beat_default_msg_id
      → Settings
          (apply_option h (some o))
          (or_else o.make_msg m)
          (or_else o.on_remote_not_alive d)
          i
          (if_positive o.timeout t)
          (effective_msg_id o.heart_beat_msg_id (length o.router_slices))
  unfolding apply_option
  apply_option-Settings o s = slices-Settings o.heart_beat_msg_id o.router_slices (
      msg_id-Settings o.heart_beat_msg_id (
        timeout-Settings o.timeout
          (not_alive-Settings o.on_remote_not_alive (msg_func-Settings o.make_msg s))))

  clone-Settings :
      {h : HeartBeatChecker M N B H C} {m : M} {d : N} {i t n : ℕ}
      → Settings h m d i t n
      → Settings (clone h) m d i t n
  unfolding clone
  clone-Settings s = record {
    make_msg_lem = s.make_msg_lem;
    dead_lem = s.dead_lem;
    beat_lem = s.beat_lem;
    interval_lem = s.interval_lem;
    timeout_lem = s.timeout_lem;
    msg_id_lem = s.msg_id_lem;
  }

  check_dead :
      (alive : C → ℕ → Bool) (h : HeartBeatChecker M N B H C) (conn : C)
      → h.metrics ≡ none
      → alive conn h.timeout ≡ false
      → check alive (bind_conn h conn) ≡ (bind_conn h conn, not_alive h.on_remote_not_alive conn)
  unfolding check bind_conn
  check_dead alive h conn off dead = ground (arith, dead, off)

  check_alive :
      (alive : C → ℕ → Bool) (h : HeartBeatChecker M N B H C) (conn : C)
      → h.beat_func ≡ none
      → alive conn h.timeout ≡ true
      → check alive (bind_conn h conn) ≡ (bind_conn h conn, send_heartbeat conn h.msg_id h.make_msg)
  unfolding check bind_conn
  check_alive alive h conn off live = ground (arith, live, off)

-- What one check of a checker with these settings does.
abbrev pub expected : {M N B C : Type 0} → (C → ℕ → Bool) → M → N → ℕ → ℕ → C → Checked N B M C
expected alive m d t n conn = if alive conn t then send_heartbeat conn n m else not_alive d conn

module _ {M N B H C : Type 0} where
  check-Settings :
      (alive : C → ℕ → Bool) (h : HeartBeatChecker M N B H C) {m : M} {d : N} {i t n : ℕ} (conn : C)
      → h.metrics ≡ none
      → Settings h m d i t n
      → check alive (bind_conn h conn) ≡ (bind_conn h conn, expected alive m d t n conn)
  check-Settings alive h {m} {d} {i} {t} {n} conn off s = elim (Bool-cases (alive conn h.timeout)) [
    | inl live ↦
        let at : alive conn t ≡ true = ap (alive conn) (sym s.timeout_lem) ∙ live in
        check_alive alive h conn s.beat_lem live ∙ rw (at, s.msg_id_lem, s.make_msg_lem) refl
    | inr dead ↦
        let at : alive conn t ≡ false = ap (alive conn) (sym s.timeout_lem) ∙ dead in
        check_dead alive h conn off dead ∙ rw (at, s.dead_lem) refl
  ]

  clone-metrics : (h : HeartBeatChecker M N B H C) → (clone h).metrics ≡ none
  unfolding clone
  clone-metrics h = refl

module _ {M N B H C : Type 0} (make_default_msg : M) (not_alive_default : N) where
  new-Settings :
      (k : ℤ)
      → Settings {M = M} {N = N} {B = B} {H = H} {C = C}
          (new_heartbeat_checker make_default_msg not_alive_default k)
          make_default_msg
          not_alive_default
          (if_positive k (10 * second))
          (3 * if_positive k (10 * second))
          heart_beat_default_msg_id
  unfolding new_heartbeat_checker
  new-Settings (pos zero) = record {
    make_msg_lem = refl;
    dead_lem = refl;
    beat_lem = refl;
    interval_lem = refl;
    timeout_lem = refl;
    msg_id_lem = refl;
  }
  new-Settings (pos (suc k)) = record {
    make_msg_lem = refl;
    dead_lem = refl;
    beat_lem = refl;
    interval_lem = refl;
    timeout_lem = refl;
    msg_id_lem = refl;
  }
  new-Settings (negsuc k) = record {
    make_msg_lem = refl;
    dead_lem = refl;
    beat_lem = refl;
    interval_lem = refl;
    timeout_lem = refl;
    msg_id_lem = refl;
  }

  server-Settings :
      (k : ℤ)
      → Settings {M = M} {N = N} {B = B} {H = H} {C = C}
          (record (new_heartbeat_checker make_default_msg not_alive_default k) { metrics = some 0 })
          make_default_msg
          not_alive_default
          (if_positive k (10 * second))
          (3 * if_positive k (10 * second))
          heart_beat_default_msg_id
  server-Settings k =
      let s = new-Settings k in
      record {
        make_msg_lem = s.make_msg_lem;
        dead_lem = s.dead_lem;
        beat_lem = s.beat_lem;
        interval_lem = s.interval_lem;
        timeout_lem = s.timeout_lem;
        msg_id_lem = s.msg_id_lem;
      }

  -- A check of a connection's checker, the clone of the template that the options make: if the peer
  -- has been silent for longer than the timeout, the function of the options, or the default one,
  -- is called with the connection; otherwise a heartbeat is sent, with the message id that the
  -- options come to. The timeout is that of the options if positive, otherwise three intervals; an
  -- interval that is not positive means ten seconds. The checker does not change: the missed
  -- heartbeat is counted neither on a client nor on a server, whose template has a counter.
  pub check-clone_template :
      (alive : C → ℕ → Bool) (k : ℤ) (o : HeartBeatOption M N H) (conn : C)
      → let server =
          clone {B = B} (server_template make_default_msg not_alive_default k (some o)) in
        let client =
          clone {B = B} (client_template make_default_msg not_alive_default k (some o)) in
        let does =
          expected alive
            (or_else o.make_msg make_default_msg)
            (or_else o.on_remote_not_alive not_alive_default)
            (if_positive o.timeout (3 * if_positive k (10 * second)))
            (effective_msg_id o.heart_beat_msg_id (length o.router_slices))
            conn in
        (check alive (bind_conn server conn) ≡ (bind_conn server conn, does))
        × (check alive (bind_conn client conn) ≡ (bind_conn client conn, does))
  unfolding server_template client_template
  check-clone_template alive k o conn = (
    check-Settings alive _ conn (clone-metrics _)
        (clone-Settings (apply_option-Settings o (server-Settings k))),
    check-Settings alive _ conn (clone-metrics _)
        (clone-Settings (apply_option-Settings o (new-Settings k))),
  )
