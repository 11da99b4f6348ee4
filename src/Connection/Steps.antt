-- ===== src/Connection/Steps.antt =====
-- Every step of knet/connection.go keeps the invariant of `Start` and `stopOnce`.
use kinz.Base.{ℕ, ◌+◌, refl, ap, Bool, List}
use kinz.Connection.{
  marked, hooked, hung_up, signalled, removed, Goroutine, Connection, new_connection, launch,
  mark_closed, call_on_conn_stop, count_closed, hang_up, signal_done, remove_self, enqueue, Step,
  begin, bind, arm, go, mark, hook, take, quieten, count, close, signal, remove, send, pass, fetch,
  write, write_error, writer_left, writer_done, reader_done, Reach, here, further,
}
use kinz.Connection.Lifecycle.{
  Inv, new_connection-Inv, Bound-later, Guarded-at, Marks-at, times_at, begin-Inv, bind-Inv,
  arm-Inv, count-Inv, take-Inv, quieten-Inv,
}

-- The queue, the reader and the writer play no part in the invariant.
Inv-queue :
    (c : Connection) (chan writing accepted written lost : List (List ℕ)) (part : List ℕ)
    (reader writer : Goroutine)
    → Inv c
    → Inv (record c {
      msg_chan = chan;
      writing = writing;
      accepted = accepted;
      written = written;
      lost = lost;
      broken_off = part;
      reader = reader;
      writer = writer;
    })
Inv-queue c chan writing accepted written lost part reader writer v = record {
  guarded = v.guarded;
  marks = v.marks;
  bound_lem = v.bound_lem;
  once = v.once;
}

pub Step-Inv : {c d : Connection} → Step c d → Inv c → Inv d
unfolding launch mark_closed call_on_conn_stop count_closed hang_up signal_done remove_self enqueue
Step-Inv (begin h) v = begin-Inv h v
Step-Inv (bind h) v = bind-Inv h v
Step-Inv (arm h) v = arm-Inv h v
Step-Inv {c} (go h) v = record {
  guarded = v.guarded;
  marks = v.marks;
  bound_lem = tt;
  once = v.once;
}
Step-Inv {c} (mark h) v = record {
  guarded = Guarded-at v h;
  marks = refl;
  bound_lem = Bound-later c.start_pc c.stop_pc marked c.hb c.hb c.hb_loop (λ z. cc) v.bound_lem;
  once = times_at v h;
}
Step-Inv {c} (hook h) v = record {
  guarded = Guarded-at v h;
  marks = Marks-at v h;
  bound_lem = Bound-later c.start_pc c.stop_pc hooked c.hb c.hb c.hb_loop (λ z. cc) v.bound_lem;
  once = ap (λ (t : ℕ × ℕ × ℕ × ℕ). (t.0 + 1, t.1, t.2, t.3)) (times_at v h);
}
Step-Inv (take h) v = take-Inv h v
Step-Inv (quieten held h) v = quieten-Inv held h v
Step-Inv (count h) v = count-Inv h v
Step-Inv {c} (close h) v = record {
  guarded = Guarded-at v h;
  marks = Marks-at v h;
  bound_lem = Bound-later c.start_pc c.stop_pc hung_up c.hb c.hb c.hb_loop (λ z. cc) v.bound_lem;
  once = times_at v h;
}
Step-Inv {c} (signal h) v = record {
  guarded = Guarded-at v h;
  marks = Marks-at v h;
  bound_lem = Bound-later c.start_pc c.stop_pc signalled c.hb c.hb c.hb_loop (λ z. cc) v.bound_lem;
  once = ap (λ (t : ℕ × ℕ × ℕ × ℕ). (t.0, t.1, t.2 + 1, t.3)) (times_at v h);
}
Step-Inv {c} (remove h) v = record {
  guarded = Guarded-at v h;
  marks = Marks-at v h;
  bound_lem = Bound-later c.start_pc c.stop_pc removed c.hb c.hb c.hb_loop (λ z. cc) v.bound_lem;
  once = ap (λ (t : ℕ × ℕ × ℕ × ℕ). (t.0, t.1, t.2, t.3 + 1)) (times_at v h);
}
Step-Inv {c} (send wire room) v = Inv-queue c _ _ _ _ _ _ _ _ v
Step-Inv {c} (pass wire h w e) v = Inv-queue c _ _ _ _ _ _ _ _ v
Step-Inv {c} (fetch wire rest h w e) v = Inv-queue c _ _ _ _ _ _ _ _ v
Step-Inv {c} (write wire h e) v = Inv-queue c _ _ _ _ _ _ _ _ v
Step-Inv {c} (write_error wire part rest h e p) v = Inv-queue c _ _ _ _ _ _ _ _ v
Step-Inv {c} (writer_left h e) v = Inv-queue c _ _ _ _ _ _ _ _ v
Step-Inv {c} (writer_done h w e) v = Inv-queue c _ _ _ _ _ _ _ _ v
Step-Inv {c} (reader_done h e) v = Inv-queue c _ _ _ _ _ _ _ _ v

pub new_connection-Reach-Inv :
    (t m : Bool) (n : ℕ) {c : Connection} → Reach (new_connection t m n) c → Inv c
new_connection-Reach-Inv t m n here = new_connection-Inv t m n
new_connection-Reach-Inv t m n (further r s) = Step-Inv s (new_connection-Reach-Inv t m n r)
