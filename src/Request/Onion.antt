-- ===== src/Request/Onion.antt =====
-- The order in which a chain of knet/request.go runs: middleware wraps what stands behind it.
use kinz.Base.{
  ℕ, zero, suc, ◌+◌, ◌≡◌, refl, sym, ap, ap₂, ◌∙◌, true, false, List, [], ◌∷◌, ◌++◌, append_assoc,
  append-nil, map, none, some, get_elem?, drop, length, arith,
}
use Prim.Native.Nat.add
use kinz.Request.{
  set_aborted, Handler, done, panic, bind_router_slices, next, abort, act, Request, Run, Ended,
  returned, panicked, starved, current, advance, run, emit, and_then, router_slices_next,
}

-- A middleware that acts, calls the rest of the chain, and acts again.
pub record Layer : Type 0 where
  pub before : List ℕ
  pub after : List ℕ

abbrev pub acts : List ℕ → Handler → Handler
acts [] h = h
acts (n ∷ ns) h = act n (acts ns h)

abbrev pub layer : Layer → Handler
layer l = acts l.before (next (acts l.after done))

abbrev pub emits : List ℕ → Run → Run
emits ns s = record s { trace = s.trace ++ ns }

abbrev pub befores : List Layer → List ℕ
befores [] = []
befores (l ∷ ls) = l.before ++ befores ls

-- What the layers do on the way back: the innermost first.
abbrev pub afters : List Layer → List ℕ
afters [] = []
afters (l ∷ ls) = afters ls ++ l.after

pub run-acts :
    (fuel : ℕ) (ns : List ℕ) (h : Handler) (s : Run)
    → run fuel (acts ns h) s ≡ run fuel h (emits ns s)
unfolding run
run-acts fuel [] h s =
    ap (λ (t : List ℕ). run fuel h (record s { trace = t })) (sym (append-nil s.trace))
run-acts fuel (n ∷ ns) h s =
    run-acts fuel ns h (emit n s)
    ∙ ap (λ (t : List ℕ). run fuel h (record s { trace = t })) (append_assoc s.trace (n ∷ []) ns)

abbrev remaining : Run → List Handler
remaining s = drop s.request.index s.request.handlers

get_elem?-drop :
    (hs : List Handler) (i : ℕ) {g : Handler} {r : List Handler}
    → drop i hs ≡ g ∷ r
    → (get_elem? hs i ≡ some g) × (drop (suc i) hs ≡ r)
get_elem?-drop [] zero e = cc
get_elem?-drop [] (suc i) e = cc
get_elem?-drop (x ∷ hs) zero e = (cc, cc)
get_elem?-drop (x ∷ hs) (suc i) e = get_elem?-drop hs i e

current_lem :
    (s : Run) {g : Handler} {r : List Handler}
    → s.request.aborted ≡ false
    → remaining s ≡ g ∷ r
    → (current s.request ≡ some g) × (remaining (advance s) ≡ r)
unfolding current
current_lem s live e =
    let (a, b) = get_elem?-drop s.request.handlers s.request.index e in
    let one : s.request.index + 1 ≡ suc s.request.index = omega arith in (rw live a, rw one b)

-- The run behind `ls`, on its way into the next handler.
abbrev pub entered : List Layer → Run → Run
entered [] s = advance s
entered (l ∷ ls) s = entered ls (emits l.before (advance s))

abbrev deep : List Layer → ℕ → ℕ
deep [] f = suc f
deep (l ∷ ls) f = suc (deep ls f)

and_then_assoc :
    (out : Ended × Run) (j k : Run → Ended × Run)
    → and_then (and_then out j) k ≡ and_then out (λ s. and_then (j s) k)
and_then_assoc (returned, s) j k = refl
and_then_assoc (panicked, s) j k = refl
and_then_assoc (starved, s) j k = refl

and_then-ext :
    (out : Ended × Run) {j k : Run → Ended × Run}
    → ((t : Run) → j t ≡ k t)
    → and_then out j ≡ and_then out k
and_then-ext (returned, s) h = h s
and_then-ext (panicked, s) h = refl
and_then-ext (starved, s) h = refl

and_then_id : (out : Ended × Run) → and_then out (λ t. (returned, t)) ≡ out
and_then_id (returned, s) = refl
and_then_id (panicked, s) = refl
and_then_id (starved, s) = refl

run_next :
    (f : ℕ) (g k : Handler) (s : Run)
    → current s.request ≡ some g
    → run (suc f) (next k) s ≡ and_then (run f g (advance s)) (λ t. run (suc f) k t)
unfolding run
run_next f g k s e = rw (e, run)

pub run_done : (f : ℕ) (s : Run) → run f done s ≡ (returned, s)
unfolding run
run_done f s = refl

-- One layer around what stands behind it.
run_layer :
    (f : ℕ) (l : Layer) (s : Run)
    → run f (layer l) s ≡ run f (next (acts l.after done)) (emits l.before s)
run_layer f l s = run-acts f l.before (next (acts l.after done)) s

-- What a layer does on the way back, behind those inside it.
way_back :
    (f : ℕ) (l : Layer) (ns : List ℕ) (t : Run)
    → run f (acts l.after done) (emits ns t) ≡ (returned, emits (ns ++ l.after) t)
way_back f l ns t =
    run-acts f l.after done (emits ns t)
    ∙ run_done f (emits l.after (emits ns t))
    ∙ ap {B = Ended × Run} (λ tr. (returned, record t { trace = tr }))
        (append_assoc t.trace ns l.after)

-- Every layer is entered once, then the handler behind them, and then the way back.
onion :
    (ls : List Layer) (g k : Handler) (rest : List Handler) (f : ℕ) (s : Run)
    → s.request.aborted ≡ false
    → remaining s ≡ map layer ls ++ (g ∷ rest)
    → run (deep ls f) (next k) s
      ≡ and_then
          (and_then (run f g (entered ls s)) (λ t. (returned, emits (afters ls) t)))
          (λ t. run (deep ls f) k t)
onion [] g k rest f s live e =
    run_next f g k s (current_lem s live e).0
    ∙ sym (
        and_then_assoc (run f g (advance s)) _ _
        ∙ and_then-ext (run f g (advance s)) (λ t.
          ap (λ (tr : List ℕ). run (suc f) k (record t { trace = tr })) (append-nil t.trace)))
onion (l ∷ ls) g k rest f s live e =
    let (now, behind) = current_lem s live e in
    let inner : Run = emits l.before (advance s) in
    run_next (deep ls f) (layer l) k s now
    ∙ ap (λ (out : Ended × Run). and_then out (λ t. run (suc (deep ls f)) k t))
        (run_layer (deep ls f) l (advance s)
          ∙ onion ls g (acts l.after done) rest f inner live behind
          ∙ and_then_assoc (run f g (entered ls inner)) _ _
          ∙ and_then-ext (run f g (entered ls inner)) (λ t. way_back (deep ls f) l (afters ls) t))

deep_eq : (ls : List Layer) (f : ℕ) → deep ls f ≡ length ls + suc f
deep_eq [] f = omega arith
deep_eq (l ∷ ls) f = omega (arith, deep_eq ls f)

length-layers :
    (ls : List Layer) (g : Handler) (rest : List Handler)
    → length (map layer ls ++ (g ∷ rest)) ≡ deep ls (length rest)
length-layers [] g rest = refl
length-layers (l ∷ ls) g rest = ap suc (length-layers ls g rest)

at_place : Run → ℕ → List ℕ → Run
at_place s i tr = record { request = record s.request { index = i }; trace = tr }

entered_lem :
    (ls : List Layer) (s : Run)
    → entered ls s ≡ at_place s (s.request.index + suc (length ls)) (s.trace ++ befores ls)
unfolding at_place
entered_lem [] s = ap₂ (λ (i : ℕ) (tr : List ℕ). at_place s i tr) refl (sym (append-nil s.trace))
entered_lem (l ∷ ls) s =
    let i : s.request.index + 1 + suc (length ls) ≡ s.request.index + suc (suc (length ls)) =
      omega arith in
    entered_lem ls (emits l.before (advance s))
    ∙ ap₂ (λ (i : ℕ) (tr : List ℕ). at_place s i tr) i (append_assoc s.trace l.before (befores ls))

-- A request whose chain has been bound, and nothing has run yet.
abbrev pub bound : Request → List Handler → Run
bound r hs = record { request = bind_router_slices r hs; trace = [] }

-- The run on its way into the handler behind the layers.
abbrev pub innermost : Request → List Handler → List Layer → Run
innermost r hs ls = record {
  request = record (bind_router_slices r hs) { index = suc (length ls) };
  trace = befores ls;
}

-- A chain runs from the outside in and back: the middleware act in the order of the chain, then
-- the handler behind them, with whatever it calls, and, if that returns, the middleware act again
-- in the reverse order. If it panics, they do not.
pub onion_order :
    (r : Request) (ls : List Layer) (g : Handler) (rest : List Handler)
    → let hs = map layer ls ++ (g ∷ rest) in
      router_slices_next (length hs) (bound r hs)
      ≡ and_then (run (length rest) g (innermost r hs ls)) (λ t. (returned, emits (afters ls) t))
unfolding router_slices_next bind_router_slices
onion_order r ls g rest =
    ap (λ (n : ℕ). run n (next done) start) (length-layers ls g rest)
    ∙ onion ls g done rest (length rest) start refl refl
    ∙ and_then-ext _ (λ t. run_done (deep ls (length rest)) t)
    ∙ and_then_id _
    ∙ ap (λ (s : Run). and_then (run (length rest) g s) (λ t. (returned, emits (afters ls) t)))
        (entered_lem ls start
          ∙ unfold at_place in
            ap (λ (i : ℕ). at_place start i (befores ls)) (add.zero (suc (length ls))))
  where
    start : Run
    start = bound r (map layer ls ++ (g ∷ rest))

run_next_none :
    (f : ℕ) (k : Handler) (s : Run) → current s.request ≡ none → run f (next k) s ≡ run f k s
unfolding run
run_next_none zero k s e = rw (e, run)
run_next_none (suc f) k s e = rw (e, run)

current_aborted : (r : Request) → r.aborted ≡ true → current r ≡ none
unfolding current
current_aborted r e = rw e

run_abort : (f : ℕ) (h : Handler) (s : Run) → run f (abort h) s ≡ run f h (set_aborted s)
unfolding run
run_abort f h s = refl

-- A handler that aborts, acts some more, and asks for the next handler all the same.
abbrev pub aborting : List ℕ → List ℕ → Handler
aborting own more = acts own (abort (acts more (next done)))

run_aborting :
    (f : ℕ) (own more : List ℕ) (s : Run)
    → run f (aborting own more) s ≡ (returned, emits more (set_aborted (emits own s)))
run_aborting f own more s =
    run-acts f own _ s
    ∙ run_abort f _ (emits own s)
    ∙ run-acts f more (next done) (set_aborted (emits own s))
    ∙ run_next_none f done _ (current_aborted _ refl)
    ∙ run_done f _

-- Abort: no handler behind the one that aborts ever runs, whatever they are and though it asks for
-- them. It finishes itself, and so do the middleware around it.
pub onion_abort :
    (r : Request) (ls : List Layer) (own more : List ℕ) (rest : List Handler)
    → let hs = map layer ls ++ (aborting own more ∷ rest) in
      router_slices_next (length hs) (bound r hs) ≡ (
        returned,
        record {
          request = record (bind_router_slices r hs) { index = suc (length ls); aborted = true };
          trace = ((befores ls ++ own) ++ more) ++ afters ls;
        },
      )
onion_abort r ls own more rest =
    onion_order r ls (aborting own more) rest
    ∙ ap (λ (out : Ended × Run). and_then out (λ t. (returned, emits (afters ls) t)))
        (run_aborting (length rest) own more _)

run_panic : (f : ℕ) (s : Run) → run f panic s ≡ (panicked, s)
unfolding run
run_panic f s = refl

-- Panic: it leaves the chain at once, so that neither the handlers behind nor the middleware on
-- their way back run.
pub onion_panic :
    (r : Request) (ls : List Layer) (own : List ℕ) (rest : List Handler)
    → let hs = map layer ls ++ (acts own panic ∷ rest) in
      router_slices_next (length hs) (bound r hs)
      ≡ (panicked, record (innermost r hs ls) { trace = befores ls ++ own })
onion_panic r ls own rest =
    onion_order r ls (acts own panic) rest
    ∙ ap (λ (out : Ended × Run). and_then out (λ t. (returned, emits (afters ls) t)))
        (run-acts (length rest) own panic _ ∙ run_panic (length rest) _)
