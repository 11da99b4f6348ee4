-- ===== src/Connection/Queue.antt =====
-- The write queue of knet/connection.go: where the packets are that SendMsg accepted.
use kinz.Base.{
  ℕ, ◌≤◌, ◌≡◌, ◌≢◌, refl, ap, sym, ◌∙◌, Bool, List, [], ◌∷◌, ◌++◌, ◌⊎◌, inl, inr, length,
  length-append, append_assoc, append-nil, arith,
}
use kinz.Connection.{
  StartPc, not_started, won, bound, launched, Connection, ConnState, state_created, state_running,
  state_closed, new_connection, start_cas, bind_heartbeat, arm_heartbeat, launch, mark_closed,
  call_on_conn_stop, take_heartbeat, stop_heartbeat, count_closed, hang_up, signal_done,
  remove_self, enqueue, Step, begin, bind, arm, go, mark, hook, take, quieten, count, close, signal,
  remove, send, pass, fetch, write, write_error, writer_left, writer_done, reader_done, Reach, here,
  further, not_launched, going, leaving, gone,
}

-- The packet whose write failed, and the part of it that is on the wire.
abbrev pub Broken : List (List ℕ) → List ℕ → Type 0
Broken lost part = (wire : List ℕ) × (rest : List ℕ) × (lost ≡ wire ∷ []) × (wire ≡ part ++ rest)

-- Every message that was accepted is written, lost by the failing write, at the writer, or still
-- queued, in order.
pub record Queued (c : Connection) : Type 0 where
  pub order : c.accepted ≡ c.written ++ (c.lost ++ (c.writing ++ c.msg_chan))
  pub none_lost :
      ((c.lost ≡ []) × (c.broken_off ≡ []))
      ⊎ (Broken c.lost c.broken_off × ((c.writer ≡ leaving) ⊎ (c.writer ≡ gone)))
  pub bounded : length c.msg_chan ≤ c.write_queue_size
  pub asleep : (c.writer ≡ not_launched) ⊎ (c.start_pc ≡ launched)

-- A step that leaves the queue and the writer alone.
abbrev Keeps : Connection → Connection → Type 0
Keeps c d =
    (d.accepted ≡ c.accepted)
    × (d.written ≡ c.written)
    × (d.lost ≡ c.lost)
    × (d.msg_chan ≡ c.msg_chan)
    × (d.write_queue_size ≡ c.write_queue_size)
    × (d.writer ≡ c.writer)
    × (d.writing ≡ c.writing)
    × (d.broken_off ≡ c.broken_off)

Queued-Keeps :
    {c d : Connection}
    → Keeps c d
    → ((d.writer ≡ not_launched) ⊎ (d.start_pc ≡ launched))
    → Queued c
    → Queued d
Queued-Keeps {c} {d} k a q = record {
  order = rw (k.0, k.1, k.2, k.3, k.6) q.order;
  none_lost = rw (k.2, k.5, k.7) q.none_lost;
  bounded = rw (k.3, k.4) q.bounded;
  asleep = a;
}

-- Before `Start` returns there is no writer.
still_asleep :
    {c : Connection} (d : Connection) (s : StartPc)
    → c.start_pc ≡ s
    → s ≢ launched
    → d.writer ≡ c.writer
    → Queued c
    → (d.writer ≡ not_launched) ⊎ (d.start_pc ≡ launched)
still_asleep d s h ne e q = elim q.asleep [ inl w ↦ inl (e ∙ w) | inr l ↦ absurd (ne (sym h ∙ l)) ]

start_cas-Keeps : (c : Connection) → Keeps c (start_cas c)
unfolding start_cas
start_cas-Keeps c = by_state c.state refl
  where
    by_state : (s : ConnState) → c.state ≡ s → Keeps c (start_cas c)
    by_state state_created e = rw (e, start_cas) (refl, refl, refl, refl, refl, refl, refl, refl)
    by_state state_running e = rw (e, start_cas) (refl, refl, refl, refl, refl, refl, refl, refl)
    by_state state_closed e = rw (e, start_cas) (refl, refl, refl, refl, refl, refl, refl, refl)

bind_heartbeat-Keeps : (c : Connection) → Keeps c (bind_heartbeat c)
unfolding bind_heartbeat
bind_heartbeat-Keeps c = ground arith

arm_heartbeat-Keeps : (c : Connection) → Keeps c (arm_heartbeat c)
unfolding arm_heartbeat
arm_heartbeat-Keeps c = ground arith

stop_heartbeat-Keeps : (held : Bool) (c : Connection) → Keeps c (stop_heartbeat held c)
unfolding stop_heartbeat
stop_heartbeat-Keeps held c = ground arith

stop_heartbeat-start_pc :
    (held : Bool) (c : Connection) → (stop_heartbeat held c).start_pc ≡ c.start_pc
unfolding stop_heartbeat
stop_heartbeat-start_pc held c = ground arith

count_closed-Keeps : (c : Connection) → Keeps c (count_closed c)
unfolding count_closed
count_closed-Keeps c = ground arith

count_closed-start_pc : (c : Connection) → (count_closed c).start_pc ≡ c.start_pc
unfolding count_closed
count_closed-start_pc c = ground arith

abbrev unchanged : (c : Connection) → Keeps c c
unchanged c = (refl, refl, refl, refl, refl, refl, refl, refl)

-- The writer is at work, so that nothing is lost yet.
none_lost_yet : {c : Connection} → c.writer ≡ going → Queued c → (c.lost ≡ []) × (c.broken_off ≡ [])
none_lost_yet h q = elim q.none_lost [ inl e ↦ e | inr (_, inl w) ↦ cc | inr (_, inr w) ↦ cc ]

Step-Queued : {c d : Connection} → Step c d → Queued c → Queued d
unfolding launch mark_closed call_on_conn_stop take_heartbeat hang_up signal_done remove_self
    enqueue
Step-Queued {c} (begin h) q =
    Queued-Keeps (start_cas-Keeps c)
      (still_asleep (start_cas c) not_started h (λ z. cc) (start_cas-Keeps c).5 q) q
Step-Queued {c} (bind h) q =
    Queued-Keeps (bind_heartbeat-Keeps c)
      (still_asleep (bind_heartbeat c) won h (λ z. cc) (bind_heartbeat-Keeps c).5 q) q
Step-Queued {c} (arm h) q =
    Queued-Keeps (arm_heartbeat-Keeps c)
      (still_asleep (arm_heartbeat c) bound h (λ z. cc) (arm_heartbeat-Keeps c).5 q) q
Step-Queued {c} (go h) q = record {
  order = q.order;
  none_lost = elim q.asleep [
    | inl w ↦ elim q.none_lost [ inl e ↦ inl e | inr (_, inl l) ↦ cc | inr (_, inr l) ↦ cc ]
    | inr l ↦ cc
  ];
  bounded = q.bounded;
  asleep = inr refl;
}
Step-Queued {c} (mark h) q = Queued-Keeps (unchanged c) q.asleep q
Step-Queued {c} (hook h) q = Queued-Keeps (unchanged c) q.asleep q
Step-Queued {c} (take h) q = Queued-Keeps (unchanged c) q.asleep q
Step-Queued {c} (quieten held h) q =
    Queued-Keeps (stop_heartbeat-Keeps held c)
      (rw ((stop_heartbeat-Keeps held c).5, stop_heartbeat-start_pc held c) q.asleep) q
Step-Queued {c} (count h) q =
    Queued-Keeps (count_closed-Keeps c)
      (rw ((count_closed-Keeps c).5, count_closed-start_pc c) q.asleep) q
Step-Queued {c} (close h) q = Queued-Keeps (unchanged c) q.asleep q
Step-Queued {c} (signal h) q = Queued-Keeps (unchanged c) q.asleep q
Step-Queued {c} (remove h) q = Queued-Keeps (unchanged c) q.asleep q
Step-Queued {c} (send wire room) q = record {
  order =
      ap (λ (ws : List (List ℕ)). ws ++ (wire ∷ [])) q.order
      ∙ append_assoc c.written (c.lost ++ (c.writing ++ c.msg_chan)) (wire ∷ [])
      ∙ ap (◌++◌ c.written) (
          append_assoc c.lost (c.writing ++ c.msg_chan) (wire ∷ [])
          ∙ ap (◌++◌ c.lost) (append_assoc c.writing c.msg_chan (wire ∷ [])));
  none_lost = q.none_lost;
  bounded = omega (arith, room, length-append c.msg_chan (wire ∷ []));
  asleep = q.asleep;
}
Step-Queued {c} (pass wire h w e) q =
    let none_yet = (none_lost_yet h q).0 in
    let before : c.accepted ≡ c.written = q.order ∙ rw (none_yet, w, e) (append-nil c.written) in
    record {
      order = ap (λ (ws : List (List ℕ)). ws ++ (wire ∷ [])) before ∙ rw (none_yet, e) refl;
      none_lost = q.none_lost;
      bounded = q.bounded;
      asleep = q.asleep;
    }
Step-Queued {c} (fetch wire rest h w e) q = record {
  order = q.order ∙ rw (w, e) refl;
  none_lost = q.none_lost;
  bounded = omega (arith, q.bounded, ap length e);
  asleep = q.asleep;
}
Step-Queued {c} (write wire h e) q =
    let none_yet = (none_lost_yet h q).0 in
    record {
      order = q.order ∙ rw (none_yet, e) (sym (append_assoc c.written (wire ∷ []) c.msg_chan));
      none_lost = q.none_lost;
      bounded = q.bounded;
      asleep = q.asleep;
    }
Step-Queued {c} (write_error wire part rest h e p) q =
    let none_yet = (none_lost_yet h q).0 in
    record {
      order = q.order ∙ rw (none_yet, e) refl;
      none_lost = inr ((wire, rest, rw none_yet refl, p), inl refl);
      bounded = q.bounded;
      asleep = elim q.asleep [ inl w ↦ cc | inr l ↦ inr l ];
    }
Step-Queued {c} (writer_left h e) q = record {
  order = q.order;
  none_lost = elim q.none_lost [ inl e ↦ inl e | inr (l, _) ↦ inr (l, inr refl) ];
  bounded = q.bounded;
  asleep = elim q.asleep [ inl w ↦ cc | inr l ↦ inr l ];
}
Step-Queued {c} (writer_done h w e) q = record {
  order = q.order;
  none_lost = inl (none_lost_yet h q);
  bounded = q.bounded;
  asleep = elim q.asleep [ inl w ↦ cc | inr l ↦ inr l ];
}
Step-Queued {c} (reader_done h e) q = Queued-Keeps (unchanged c) q.asleep q

pub Reach-Queued : (t m : Bool) (n : ℕ) {c : Connection} → Reach (new_connection t m n) c → Queued c
unfolding new_connection
Reach-Queued t m n here = record {
  order = refl;
  none_lost = inl (refl, refl);
  bounded = omega arith;
  asleep = inl refl;
}
Reach-Queued t m n (further r s) = Step-Queued s (Reach-Queued t m n r)

-- The writer sends the messages in the order in which `SendMsg` accepted them, each at most once:
-- what was accepted is what was written, then what the one failing write lost, then what is at the
-- writer, then what is queued. At most one is lost, and the queue stays within its size.
pub write_order :
    (has_template metered : Bool) (n : ℕ) (c : Connection)
    → Reach (new_connection has_template metered n) c
    → (c.accepted ≡ c.written ++ (c.lost ++ (c.writing ++ c.msg_chan)))
      × (length c.lost ≤ 1)
      × (length c.msg_chan ≤ c.write_queue_size)
write_order has_template metered n c r =
    let q = Reach-Queued has_template metered n r in
    (
      q.order,
      elim q.none_lost [
        | inl (e, _) ↦ rw e (omega arith)
        | inr ((wire, rest, e, _), _) ↦ rw e (omega arith)
      ],
      q.bounded,
    )
