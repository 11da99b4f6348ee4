-- ===== src/Request/Fuel.antt =====
-- A chain of knet/request.go ends: each call of `RouterSlicesNext` uses up a handler.
use kinz.Base.{
  ℕ, zero, suc, ◌-◌, ◌≤◌, ◌<◌, ◌≡◌, ◌≢◌, refl, sym, subst, ◌∙◌, true, List, [], ◌∷◌, some,
  get_elem?, length, arith, Option-cases, inl, inr,
}
use kinz.Base.Maps.{lookup}
use kinz.Request.{
  Handler, done, panic, next, abort, act, set, get, set_message, get_message, Request, Run, Ended,
  returned, panicked, starved, current, advance, and_then, router_slices_next, run, set_aborted,
  set_ctx, set_msg, emit,
}

get_elem?-lt {ℓ} :
    {A : Type ℓ} (xs : List A) (i : ℕ) {x : A} → get_elem? xs i ≡ some x → i < length xs
get_elem?-lt [] i e = cc
get_elem?-lt (x ∷ xs) zero e = omega arith
get_elem?-lt (x ∷ xs) (suc i) e = omega (arith, get_elem?-lt xs i e)

pub current_in : (r : Request) {g : Handler} → current r ≡ some g → r.index < length r.handlers
unfolding current
current_in r {g} e = ground (arith, get_elem?-lt r.handlers r.index {x = g})

-- The places of the chain that are left.
abbrev pub room : Run → ℕ
room s = length s.request.handlers - s.request.index

-- How a part of a chain ends: by itself, with the chain as it was, and further on in it.
pub record Ends (s : Run) (out : Ended × Run) : Type 0 where
  pub fed : out.0 ≢ starved
  pub kept : out.1.request.handlers ≡ s.request.handlers
  pub same_conn : out.1.request.conn_id ≡ s.request.conn_id
  pub forward : s.request.index ≤ out.1.request.index
  pub inside :
      s.request.index ≤ length s.request.handlers → out.1.request.index ≤ length s.request.handlers
  pub stays_aborted : s.request.aborted ≡ true → out.1.request.aborted ≡ true

Ends-trans :
    {s t : Run} {out : Ended × Run}
    → t.request.handlers ≡ s.request.handlers
    → t.request.conn_id ≡ s.request.conn_id
    → s.request.index ≤ t.request.index
    → (s.request.index ≤ length s.request.handlers → t.request.index ≤ length s.request.handlers)
    → (s.request.aborted ≡ true → t.request.aborted ≡ true)
    → Ends t out
    → Ends s out
Ends-trans {s} {t} {out} kept conn forward inside aborted e = record {
  fed = e.fed;
  kept = e.kept ∙ kept;
  same_conn = e.same_conn ∙ conn;
  forward = omega (arith, e.forward, forward);
  inside = λ h.
      subst (λ (hs : List Handler). out.1.request.index ≤ length hs) kept
        (e.inside
          (subst (λ (hs : List Handler). t.request.index ≤ length hs) (sym kept) (inside h)));
  stays_aborted = λ h. e.stays_aborted (aborted h);
}

Ends-here : (s : Run) (e : Ended) → e ≢ starved → Ends s (e, s)
Ends-here s e fed = record {
  fed = fed;
  kept = refl;
  same_conn = refl;
  forward = omega arith;
  inside = λ h. h;
  stays_aborted = λ h. h;
}

advance-Ends :
    {s : Run} {out : Ended × Run}
    → s.request.index < length s.request.handlers
    → Ends (advance s) out
    → Ends s out
advance-Ends h e = Ends-trans refl refl (omega arith) (λ _. omega arith) (λ p. p) e

and_then-Ends :
    {s : Run} (out : Ended × Run) (k : Run → Ended × Run)
    → Ends s out
    → (out.0 ≡ returned → Ends out.1 (k out.1))
    → Ends s (and_then out k)
and_then-Ends (returned, t) k e f =
    Ends-trans e.kept e.same_conn e.forward e.inside e.stays_aborted (f refl)
and_then-Ends (panicked, t) k e f = e
and_then-Ends (starved, t) k e f = e

-- The room that is left where a call returned.
room_after :
    (s : Run) (fuel : ℕ) {out : Ended × Run}
    → s.request.index < length s.request.handlers
    → room s ≤ suc fuel
    → Ends (advance s) out
    → room out.1 ≤ fuel
room_after s fuel {out} h le e = rw e.kept (omega (arith, e.forward))

run-Ends : (fuel : ℕ) (h : Handler) (s : Run) → room s ≤ fuel → Ends s (run fuel h s)
unfolding run
run-Ends fuel done s le = Ends-here s returned (λ e. cc)
run-Ends fuel panic s le = Ends-here s panicked (λ e. cc)
run-Ends fuel (abort h) s le =
    Ends-trans refl refl (omega arith) (λ p. p) (λ _. refl) (run-Ends fuel h (set_aborted s) le)
run-Ends fuel (act n h) s le =
    Ends-trans refl refl (omega arith) (λ p. p) (λ p. p) (run-Ends fuel h (emit n s) le)
run-Ends fuel (set k v h) s le =
    Ends-trans refl refl (omega arith) (λ p. p) (λ p. p) (run-Ends fuel h (set_ctx k v s) le)
run-Ends fuel (get k h) s le = run-Ends fuel (h (lookup k s.request.ctx)) s le
run-Ends fuel (set_message m h) s le =
    Ends-trans refl refl (omega arith) (λ p. p) (λ p. p) (run-Ends fuel h (set_msg m s) le)
run-Ends fuel (get_message h) s le = run-Ends fuel (h s.request.msg) s le
run-Ends zero (next h) s le = elim (Option-cases (current s.request)) [
  | inl e ↦ rw (e, run) (run-Ends zero h s le)
  | inr (g, e) ↦ absurd (omega (arith, current_in s.request e, le))
]
run-Ends (suc fuel) (next h) s le = elim (Option-cases (current s.request)) [
  | inl e ↦ rw (e, run) (run-Ends (suc fuel) h s le)
  | inr (g, e) ↦
      let inside = current_in s.request e in
      let call = run-Ends fuel g (advance s) (omega (arith, inside, le)) in
      rw (e, run)
        (and_then-Ends (run fuel g (advance s)) (λ s'. run (suc fuel) h s')
          (advance-Ends inside call)
          (λ _.
            run-Ends (suc fuel) h (run fuel g (advance s)).1
              (omega (arith, room_after s fuel inside le call))))
]

-- A chain always ends: started anywhere within its handlers, with as much fuel as it has handlers,
-- it returns or panics. It leaves the handlers and the connection of the request alone, its index
-- grows and stays within the chain, so that no handler is called twice, and an abort stays.
pub router_slices_next-Ends :
    (s : Run)
    → s.request.index ≤ length s.request.handlers
    → let (ended, t) = router_slices_next (length s.request.handlers) s in
      (ended ≢ starved)
      × (t.request.handlers ≡ s.request.handlers)
      × (t.request.conn_id ≡ s.request.conn_id)
      × (s.request.index ≤ t.request.index)
      × (t.request.index ≤ length s.request.handlers)
      × (s.request.aborted ≡ true → t.request.aborted ≡ true)
unfolding router_slices_next
router_slices_next-Ends s h =
    let e = run-Ends (length s.request.handlers) (next done) s (omega arith) in
    (e.fed, e.kept, e.same_conn, e.forward, e.inside h, e.stays_aborted)
