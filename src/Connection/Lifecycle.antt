-- ===== src/Connection/Lifecycle.antt =====
-- The invariant of `Start` and `stopOnce` of knet/connection.go, under every interleaving.
use kinz.Base.{
  if◌then◌else◌, ◌+◌, ℕ, ◌≡◌, ◌≢◌, refl, ap, subst, sym, ◌∙◌, Bool, Bool-cases, true, false, ◌⊎◌,
  inl, inr,
}
use kinz.Connection.{
  ConnState, state_created, state_running, state_closed, StartPc, not_started, won, bound, armed,
  launched, StopPc, not_stopped, marked, hooked, taken, quiet, counted, hung_up, signalled, removed,
  Connection, new_connection, start_cas, bind_heartbeat, arm_heartbeat, take_heartbeat,
  stop_heartbeat, count_closed,
}

-- Where `stopOnce` is, a loop that runs is one that it will stop.
abbrev pub Guarded : StopPc → Bool → Bool → Type 0
Guarded not_stopped hb loop = loop ≡ true → hb ≡ true
Guarded marked hb loop = loop ≡ true → hb ≡ true
Guarded hooked hb loop = loop ≡ true → hb ≡ true
Guarded (taken held) hb loop = loop ≡ true → held ≡ true
Guarded quiet hb loop = loop ≡ false
Guarded counted hb loop = loop ≡ false
Guarded hung_up hb loop = loop ≡ false
Guarded signalled hb loop = loop ≡ false
Guarded removed hb loop = loop ≡ false

-- The state is closed as soon as `stopOnce` has begun.
abbrev pub Marks : StopPc → ConnState → Type 0
Marks not_stopped state = state ≢ state_closed
Marks marked state = state ≡ state_closed
Marks hooked state = state ≡ state_closed
Marks (taken held) state = state ≡ state_closed
Marks quiet state = state ≡ state_closed
Marks counted state = state ≡ state_closed
Marks hung_up state = state ≡ state_closed
Marks signalled state = state ≡ state_closed
Marks removed state = state ≡ state_closed

-- Until `Start` is past the heartbeat, the loop does not run; a checker that was bound is there
-- while nobody stops the connection.
abbrev pub Bound : StartPc → StopPc → Bool → Bool → Type 0
Bound not_started stop hb loop = loop ≡ false
Bound won stop hb loop = loop ≡ false
Bound bound stop hb loop = (loop ≡ false) × (stop ≡ not_stopped → hb ≡ true)
Bound armed stop hb loop = Unit {0}
Bound launched stop hb loop = Unit {0}

-- How often each part of `stopOnce` has been done.
abbrev pub times : Bool → StopPc → ℕ × ℕ × ℕ × ℕ
times metered not_stopped = (0, 0, 0, 0)
times metered marked = (0, 0, 0, 0)
times metered hooked = (1, 0, 0, 0)
times metered (taken held) = (1, 0, 0, 0)
times metered quiet = (1, 0, 0, 0)
times metered counted = (1, if metered then 1 else 0, 0, 0)
times metered hung_up = (1, if metered then 1 else 0, 0, 0)
times metered signalled = (1, if metered then 1 else 0, 1, 0)
times metered removed = (1, if metered then 1 else 0, 1, 1)

pub record Inv (c : Connection) : Type 0 where
  pub guarded : Guarded c.stop_pc c.hb c.hb_loop
  pub marks : Marks c.stop_pc c.state
  pub bound_lem : Bound c.start_pc c.stop_pc c.hb c.hb_loop
  pub once : (c.stop_hooks, c.active_decs, c.done_closes, c.removals) ≡ times c.metered c.stop_pc

pub new_connection-Inv : (t m : Bool) (n : ℕ) → Inv (new_connection t m n)
unfolding new_connection
new_connection-Inv t m n = record {
  guarded = λ e. cc;
  marks = λ e. cc;
  bound_lem = refl;
  once = refl;
}

Guarded-off : (p : StopPc) (hb loop : Bool) → loop ≡ false → Guarded p hb loop
Guarded-off not_stopped hb loop off = λ e. cc
Guarded-off marked hb loop off = λ e. cc
Guarded-off hooked hb loop off = λ e. cc
Guarded-off (taken held) hb loop off = λ e. cc
Guarded-off quiet hb loop off = off
Guarded-off counted hb loop off = off
Guarded-off hung_up hb loop off = off
Guarded-off signalled hb loop off = off
Guarded-off removed hb loop off = off

-- While the state is not closed, `stopOnce` has not begun.
Marks-open :
    (p : StopPc) (state : ConnState) → Marks p state → state ≢ state_closed → p ≡ not_stopped
Marks-open not_stopped state m ne = refl
Marks-open marked state m ne = absurd (ne m)
Marks-open hooked state m ne = absurd (ne m)
Marks-open (taken held) state m ne = absurd (ne m)
Marks-open quiet state m ne = absurd (ne m)
Marks-open counted state m ne = absurd (ne m)
Marks-open hung_up state m ne = absurd (ne m)
Marks-open signalled state m ne = absurd (ne m)
Marks-open removed state m ne = absurd (ne m)

pub Bound-later :
    (s : StartPc) (p q : StopPc) (hb hb' loop : Bool)
    → q ≢ not_stopped
    → Bound s p hb loop
    → Bound s q hb' loop
Bound-later not_started p q hb hb' loop ne b = b
Bound-later won p q hb hb' loop ne b = b
Bound-later bound p q hb hb' loop ne b = (b.0, λ e. absurd (ne e))
Bound-later armed p q hb hb' loop ne b = tt
Bound-later launched p q hb hb' loop ne b = tt

Bound-off : (s : StartPc) (q : StopPc) (hb : Bool) → q ≢ not_stopped → Bound s q hb false
Bound-off not_started q hb ne = refl
Bound-off won q hb ne = refl
Bound-off bound q hb ne = (refl, λ e. absurd (ne e))
Bound-off armed q hb ne = tt
Bound-off launched q hb ne = tt

state-cases : (s : ConnState) → (s ≡ state_created) ⊎ ((s ≡ state_running) ⊎ (s ≡ state_closed))
state-cases state_created = inl refl
state-cases state_running = inr (inl refl)
state-cases state_closed = inr (inr refl)

module _ {c : Connection} (v : Inv c) where
  pub Bound-at : {s : StartPc} → c.start_pc ≡ s → Bound s c.stop_pc c.hb c.hb_loop
  Bound-at h = subst (λ s. Bound s c.stop_pc c.hb c.hb_loop) h v.bound_lem

  pub Guarded-at : {p : StopPc} → c.stop_pc ≡ p → Guarded p c.hb c.hb_loop
  Guarded-at h = subst (λ p. Guarded p c.hb c.hb_loop) h v.guarded

  pub Marks-at : {p : StopPc} → c.stop_pc ≡ p → Marks p c.state
  Marks-at h = subst (λ p. Marks p c.state) h v.marks

  pub times_at :
      {p : StopPc}
      → c.stop_pc ≡ p
      → (c.stop_hooks, c.active_decs, c.done_closes, c.removals) ≡ times c.metered p
  times_at h = v.once ∙ ap (times c.metered) h

pub begin-Inv : {c : Connection} → c.start_pc ≡ not_started → Inv c → Inv (start_cas c)
unfolding start_cas
begin-Inv {c} h v = elim (state-cases c.state) [
  | inl e ↦
      rw (e, start_cas)
        (record {
          guarded = v.guarded;
          marks = rw (Marks-open c.stop_pc c.state v.marks (λ z. cc)) (λ z. cc);
          bound_lem = Bound-at v h;
          once = v.once;
        })
  | inr (inl e) ↦ rw (e, start_cas) v
  | inr (inr e) ↦ rw (e, start_cas) v
]

pub bind-Inv : {c : Connection} → c.start_pc ≡ won → Inv c → Inv (bind_heartbeat c)
unfolding bind_heartbeat
bind-Inv {c} h v = elim (Bool-cases c.has_template) [
  | inl e ↦
      rw (e, bind_heartbeat)
        (record {
          guarded = Guarded-off c.stop_pc true c.hb_loop (Bound-at v h);
          marks = v.marks;
          bound_lem = (Bound-at v h, λ _. refl);
          once = v.once;
        })
  | inr e ↦
      rw (e, bind_heartbeat)
        (record { guarded = v.guarded; marks = v.marks; bound_lem = tt; once = v.once })
]

armed_off :
    {c : Connection} → c.start_pc ≡ bound → Inv c → Inv (record c { hb = false; start_pc = armed })
armed_off {c} h v = record {
  guarded = Guarded-off c.stop_pc false c.hb_loop (Bound-at v h).0;
  marks = v.marks;
  bound_lem = tt;
  once = v.once;
}

pub arm-Inv : {c : Connection} → c.start_pc ≡ bound → Inv c → Inv (arm_heartbeat c)
unfolding arm_heartbeat
arm-Inv {c} h v = elim (state-cases c.state) [
  | inl e ↦ rw (e, arm_heartbeat) (armed_off h v)
  | inr (inl e) ↦
      let open_ = Marks-open c.stop_pc c.state v.marks (λ z. cc) in
      rw (e, arm_heartbeat)
        (record {
          guarded = subst (λ p. Guarded p c.hb true) (sym open_) (λ _. (Bound-at v h).1 open_);
          marks = v.marks;
          bound_lem = tt;
          once = v.once;
        })
  | inr (inr e) ↦ rw (e, arm_heartbeat) (armed_off h v)
]

pub take-Inv : {c : Connection} → c.stop_pc ≡ hooked → Inv c → Inv (take_heartbeat c)
unfolding take_heartbeat
take-Inv {c} h v = record {
  guarded = Guarded-at v h;
  marks = Marks-at v h;
  bound_lem =
      Bound-later c.start_pc c.stop_pc (taken c.hb) c.hb false c.hb_loop (λ z. cc) v.bound_lem;
  once = times_at v h;
}

pub quieten-Inv :
    {c : Connection} (held : Bool) → c.stop_pc ≡ taken held → Inv c → Inv (stop_heartbeat held c)
unfolding stop_heartbeat
quieten-Inv {c} true h v = record {
  guarded = refl;
  marks = Marks-at v h;
  bound_lem = Bound-off c.start_pc quiet c.hb (λ z. cc);
  once = times_at v h;
}
quieten-Inv {c} false h v = record {
  guarded = elim (Bool-cases c.hb_loop) [ inl e ↦ absurd (ff (Guarded-at v h e)) | inr e ↦ e ];
  marks = Marks-at v h;
  bound_lem = Bound-later c.start_pc c.stop_pc quiet c.hb c.hb c.hb_loop (λ z. cc) v.bound_lem;
  once = times_at v h;
}
  where
    ff : false ≡ true → ⊥
    ff z = cc

pub count-Inv : {c : Connection} → c.stop_pc ≡ quiet → Inv c → Inv (count_closed c)
unfolding count_closed
count-Inv {c} h v = elim (Bool-cases c.metered) [
  | inl e ↦
      rw (e, count_closed)
        (record {
          guarded = Guarded-at v h;
          marks = Marks-at v h;
          bound_lem =
              Bound-later c.start_pc c.stop_pc counted c.hb c.hb c.hb_loop (λ z. cc) v.bound_lem;
          once = ap (λ (t : ℕ × ℕ × ℕ × ℕ). (t.0, t.1 + 1, t.2, t.3)) (times_at v h);
        })
  | inr e ↦
      rw (e, count_closed)
        (record {
          guarded = Guarded-at v h;
          marks = Marks-at v h;
          bound_lem =
              Bound-later c.start_pc c.stop_pc counted c.hb c.hb c.hb_loop (λ z. cc) v.bound_lem;
          once = times_at v h;
        })
]
