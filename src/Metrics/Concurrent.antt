-- ===== src/Metrics/Concurrent.antt =====
-- The double-checked lookup of kmetrics/registry.go under any interleaving of its callers.
use kinz.Base.{◌≡◌, refl, ◌∙◌, List, [], ◌∷◌, ◌++◌, Option, none, some, arith}
use kinz.Metrics.{
  Prometheus, Registry, new_registry, fast_path, slow_path, get_or_create, Call, get_counter,
  get_gauge, get_histogram, call_kind, call_name, call_make, call, counter, gauge, histogram,
}

-- The registry, the calls that missed and wait for the lock, and the calls that have returned, with
-- what they returned, in order.
pub record Callers (Reg Collector Float : Type 0) : Type 0 where
  pub registry : Registry Reg Collector
  pub waiting : List (Call Float)
  pub returned : List (Call Float × Option Collector)

module _ {Reg Collector Float : Type 0} (prom : Prometheus Reg Collector Float) where
  abbrev pub callers : Callers Reg Collector Float
  callers = record { registry = new_registry prom; waiting = []; returned = [] }

  abbrev pub whole : Call Float → Registry Reg Collector → Registry Reg Collector × Option Collector
  whole c = get_or_create prom (call_kind c) (call_make prom c) (call_name c)

  pub call-whole : (c : Call Float) (r : Registry Reg Collector) → call prom c r ≡ whole c r
  unfolding call counter gauge histogram
  call-whole (get_counter name help) r = refl
  call-whole (get_gauge name help) r = refl
  call-whole (get_histogram name help buckets) r = refl

  abbrev pub locked :
      Call Float → Registry Reg Collector → Registry Reg Collector × Option Collector
  locked c = slow_path prom (call_kind c) (call_make prom c) (call_name c)

  -- One caller's step: the lookup under the read lock, which may find the handle, or the critical
  -- section of one that waits.
  pub data Step (s : Callers Reg Collector Float) : Callers Reg Collector Float → Type 0 where
    hit :
        (c : Call Float) (h : Collector)
        → fast_path (call_kind c) (call_name c) s.registry ≡ some h
        → Step s (record s { returned = s.returned ++ (c, some h) ∷ [] })
    miss :
        (c : Call Float)
        → fast_path (call_kind c) (call_name c) s.registry ≡ none
        → Step s (record s { waiting = c ∷ s.waiting })
    lock :
        (before after : List (Call Float)) (c : Call Float)
        → s.waiting ≡ before ++ c ∷ after
        → Step s (record s {
          registry = (locked c s.registry).0;
          waiting = before ++ after;
          returned = s.returned ++ (c, (locked c s.registry).1) ∷ [];
        })

  pub data Reach : Callers Reg Collector Float → Type 0 where
    here : Reach callers
    further : {s t : Callers Reg Collector Float} → Reach s → Step s t → Reach t

  -- Calls one after the other, each undisturbed, with their results.
  abbrev pub replay :
      List (Call Float × Option Collector)
      → Registry Reg Collector
      → Registry Reg Collector × List (Call Float × Option Collector)
  replay [] r = (r, [])
  replay ((c, _) ∷ cs) r =
      let rest = replay cs (call prom c r).0 in (rest.0, (c, (call prom c r).1) ∷ rest.1)

  replay-append :
      (cs : List (Call Float × Option Collector)) (c : Call Float) (o : Option Collector)
      (r : Registry Reg Collector)
      → let before = replay cs r in
        replay (cs ++ (c, o) ∷ []) r
        ≡ ((call prom c before.0).0, before.1 ++ (c, (call prom c before.0).1) ∷ [])
  replay-append [] c o r = refl
  replay-append ((d, p) ∷ cs) c o r = rw (replay-append cs c o (call prom d r).0) refl

  pub whole-found :
      (c : Call Float) (h : Collector) (r : Registry Reg Collector)
      → fast_path (call_kind c) (call_name c) r ≡ some h
      → whole c r ≡ (r, some h)
  unfolding get_or_create
  whole-found c h r e = ground (arith, e)

  pub whole-locked : (c : Call Float) (r : Registry Reg Collector) → whole c r ≡ locked c r
  unfolding get_or_create slow_path
  whole-locked c r = ground arith

  extend :
      (s : Callers Reg Collector Float) (c : Call Float)
      (o : Registry Reg Collector × Option Collector)
      → replay s.returned (new_registry prom) ≡ (s.registry, s.returned)
      → call prom c s.registry ≡ o
      → replay (s.returned ++ (c, o.1) ∷ []) (new_registry prom)
        ≡ (o.0, s.returned ++ (c, o.1) ∷ [])
  extend s c o h e = rw (replay-append s.returned c o.1 (new_registry prom), h, e) refl

  -- In every state that callers of one registry can reach, running the calls that have returned one
  -- after the other, in the order of their return and each undisturbed, on a new registry gives the
  -- registry as it is and to every call the result that it got.
  pub Reach-replay :
      (s : Callers Reg Collector Float)
      → Reach s
      → replay s.returned (new_registry prom) ≡ (s.registry, s.returned)
  Reach-replay s here = refl
  Reach-replay t (further {s = s} r (hit c h e)) =
      extend s c (s.registry, some h) (Reach-replay s r) (call-whole c _ ∙ whole-found c h _ e)
  Reach-replay t (further r (miss c e)) = Reach-replay _ r
  Reach-replay t (further {s = s} r (lock before after c e)) =
      extend s c (locked c s.registry) (Reach-replay s r) (call-whole c _ ∙ whole-locked c _)
