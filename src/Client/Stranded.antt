-- ===== src/Client/Stranded.antt =====
-- Runs of knet/client.go in which the client is left without a usable connection.
use kinz.Base.{ℕ, ◌+◌, ◌%◌, ◌^◌, ◌≡◌, refl, ap, ◌∙◌, true, false, none, some, [], ◌++◌, arith}
use kinz.Client.{
  no_loop, waiting, delaying, Client, next_id, assign_conn, add_conn, dial, start, cancel,
  stop_orphan, clear_conn, signal_gone, leave_manager, stop, restart, count_loop, dial_of,
  take_gone, redial,
}

-- Started, without a connection, and with a loop that waits for a signal that nobody sends.
pub record Stranded (c : Client) : Type 0 where
  pub is_started : c.started ≡ true
  pub no_conn : c.managed ≡ none
  pub no_signal : c.conn_gone ≡ false
  pub waits : c.loop ≡ waiting
  pub not_stopping : c.stopping ≡ false
  pub no_dial : c.stale ≡ []

stop_eq :
    (c : Client) (k : ℕ)
    → c.started ≡ true
    → c.managed ≡ some k
    → stop c ≡ record c {
      started = false;
      stopping = true;
      loop = no_loop;
      cancelled = c.cancelled + count_loop c.loop;
      conn_gone = true;
      orphan = false;
      managed = none;
      stale = c.stale ++ dial_of c.loop;
    }
unfolding stop cancel stop_orphan clear_conn signal_gone leave_manager
stop_eq c k e m = ground (arith, e, m)

start_eq :
    (c : Client)
    → c.started ≡ false
    → c.managed ≡ none
    → (start c true).0 ≡ record c {
      started = true;
      stopping = false;
      conn_id = next_id c;
      conn = some (next_id c);
      orphan = false;
      managed = some (next_id c);
      loop = waiting;
      attempt = 0;
    }
unfolding start dial assign_conn add_conn
start_eq c e m = ground (arith, e, m)

wake_going :
    (c : Client)
    → c.stopping ≡ false
    → take_gone c ≡ record c { conn_gone = false; loop = delaying; attempt = c.attempt + 1 }
unfolding take_gone
wake_going c e = ground (arith, e)

redial_full :
    (c : Client) (k : ℕ)
    → c.stopping ≡ false
    → c.managed ≡ some k
    → redial c true
      ≡ record c { conn_id = next_id c; conn = some (next_id c); orphan = true; loop = waiting }
unfolding redial dial assign_conn add_conn
redial_full c k e m = ground (arith, e, m)

abbrev then_id : ℕ → ℕ
then_id i = (i + 1) % 2 ^ 64

-- The client after Stop, and after a Start behind it.
abbrev at_rest : Client → Client
at_rest c = record c {
  started = false;
  stopping = true;
  loop = no_loop;
  cancelled = c.cancelled + count_loop c.loop;
  conn_gone = true;
  orphan = false;
  managed = none;
  stale = c.stale ++ dial_of c.loop;
}

abbrev started_again : Client → Client
started_again c = record (at_rest c) {
  started = true;
  stopping = false;
  conn_id = next_id c;
  conn = some (next_id c);
  managed = some (next_id c);
  loop = waiting;
  attempt = 0;
}

restart_eq :
    (c : Client) (k : ℕ) → c.started ≡ true → c.managed ≡ some k → restart c true ≡ started_again c
unfolding restart
restart_eq c k e m =
    ap (λ (s : Client). (start s true).0) (stop_eq c k e m) ∙ start_eq (at_rest c) refl refl

-- Restart may cut the application off: the signal of the connection that Stop closed is left in the
-- channel when the old loop returns without it, the new loop takes it and dials once more, and the
-- manager, which is full, refuses. Then Conn returns this second connection, which was never
-- started, and not the one that is managed, and the loop waits without a signal.
pub restart_orphans :
    (c : Client) (k : ℕ)
    → c.started ≡ true
    → c.managed ≡ some k
    → let d = redial (take_gone (restart c true)) true in
      ((restart c true).conn_gone ≡ true)
      × ((restart c true).loop ≡ waiting)
      × (d.managed ≡ some (next_id c))
      × (d.conn ≡ some (then_id (next_id c)))
      × (d.orphan ≡ true)
      × (d.loop ≡ waiting)
      × (d.conn_gone ≡ false)
restart_orphans c k e m =
    let woken : Client = record (started_again c) {
      conn_gone = false;
      loop = delaying;
      attempt = 1;
    } in
    rw
      (
        restart_eq c k e m,
        wake_going (started_again c) refl,
        redial_full woken (next_id c) refl refl,
      )
      (refl, refl, refl, refl, refl, refl, refl)
