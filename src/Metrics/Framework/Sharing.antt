-- ===== src/Metrics/Framework/Sharing.antt =====
-- The handles of knet/metrics.go are the same for all who ask: each connection counts into the same
-- counters.
use kinz.Base.{
  ◌≡◌, refl, sym, ap, subst, ◌∙◌, Bool, true, false, List, [], ◌∷◌, ◌++◌, Option, none, some,
}
use kinz.Metrics.{Prometheus, Registry, Call, call, call_all}
use kinz.Metrics.Handles.{call-stable}
use kinz.Metrics.Framework.{
  Metered, pure, continue, ◌>>=◌, unless_nil, new_conn_metrics, new_handler_metrics,
  new_heartbeat_metrics, ConnMetrics, HandlerMetrics, HeartbeatMetrics, conn_metrics,
  handler_metrics, heartbeat_metrics,
}

module _ {Reg Collector Float : Type 0} (prom : Prometheus Reg Collector Float) where
  call_all-append :
      (cs ds : List (Call Float)) (r : Registry Reg Collector)
      → call_all prom (cs ++ ds) r ≡ call_all prom ds (call_all prom cs r)
  call_all-append [] ds r = refl
  call_all-append (c ∷ cs) ds r = call_all-append cs ds (call prom c r).0

  -- It makes some calls; and what it once returned it returns after any further calls, without
  -- changing anything.
  pub record IsStable {A : Type 0} (m : Metered Reg Collector A) : Type 0 where
    pub calls :
        (r : Registry Reg Collector) → (cs : List (Call Float)) × ((m r).0 ≡ call_all prom cs r)
    pub again :
        (r : Registry Reg Collector) (a : A) (cs : List (Call Float))
        → (m r).1 ≡ some a
        → m (call_all prom cs (m r).0) ≡ (call_all prom cs (m r).0, some a)

  pure-IsStable : {A : Type 0} (a : A) → IsStable (pure a)
  unfolding pure
  pure-IsStable a = record {
    calls = λ r. ([], refl);
    again = λ r b cs e. ap (λ (o : Option _). (call_all prom cs r, o)) e;
  }

  call-IsStable : (c : Call Float) → IsStable (call prom c)
  call-IsStable c = record {
    calls = λ r. (c ∷ [], refl);
    again = λ r h cs e. call-stable prom c c cs r h refl refl e;
  }

  bind-IsStable :
      {A B : Type 0} (m : Metered Reg Collector A) (f : A → Metered Reg Collector B)
      → IsStable m
      → ((a : A) → IsStable (f a))
      → IsStable (m >>= f)
  unfolding ◌>>=◌
  bind-IsStable {A = A} {B = B} m f sm sf = record { calls = calls; again = again }
    where
      split :
          (o : Registry Reg Collector × Option A) (b : B)
          → (continue f o).1 ≡ some b
          → (a : A) × (o ≡ (o.0, some a)) × ((f a o.0).1 ≡ some b)
      split (r, some a) b e = (a, refl, e)
      split (r, none) b e = cc

      more :
          (r : Registry Reg Collector) (o : Registry Reg Collector × Option A)
          → (cs : List (Call Float)) × (o.0 ≡ call_all prom cs r)
          → (cs : List (Call Float)) × ((continue f o).0 ≡ call_all prom cs r)
      more r (r', none) ran = ran
      more r (r', some a) (ks, e) =
          let (ls, g) = (sf a).calls r' in
          (ks ++ ls, g ∙ ap (call_all prom ls) e ∙ sym (call_all-append ks ls r))

      calls :
          (r : Registry Reg Collector)
          → (cs : List (Call Float)) × ((continue f (m r)).0 ≡ call_all prom cs r)
      calls r = more r (m r) (sm.calls r)

      again :
          (r : Registry Reg Collector) (b : B) (cs : List (Call Float))
          → (continue f (m r)).1 ≡ some b
          → let r' = call_all prom cs (continue f (m r)).0 in continue f (m r') ≡ (r', some b)
      again r b cs e =
          let (a, q, g) = split (m r) b e in
          let (ls, k) = (sf a).calls (m r).0 in
          let end : Registry Reg Collector = call_all prom cs (f a (m r).0).0 in
          let same : call_all prom (ls ++ cs) (m r).0 ≡ end =
            call_all-append ls cs (m r).0 ∙ ap (call_all prom cs) (sym k) in
          let first : m end ≡ (end, some a) =
            subst (λ (x : Registry Reg Collector). m x ≡ (x, some a)) same
              (sm.again r a (ls ++ cs) (ap (λ (o : Registry Reg Collector × Option A). o.1) q)) in
          subst (λ (x : Registry Reg Collector). continue f (m x) ≡ (x, some b))
            (ap (λ (o : Registry Reg Collector × Option A). call_all prom cs (continue f o).0)
              (sym q))
            (ap (continue f) first ∙ (sf a).again (m r).0 b cs g)

  unless_nil-IsStable :
      {A : Type 0} (m : Metered Reg Collector A) (present : Bool)
      → IsStable m
      → IsStable (unless_nil m present)
  unfolding unless_nil
  unless_nil-IsStable m true s = bind-IsStable m _ s (λ a. pure-IsStable (some a))
  unless_nil-IsStable m false s = pure-IsStable none

  conn_metrics-IsStable : IsStable (conn_metrics prom)
  conn_metrics-IsStable = bind-IsStable _ _ (call-IsStable _) (λ active.
      bind-IsStable _ _ (call-IsStable _) (λ closed.
        bind-IsStable _ _ (call-IsStable _) (λ received.
          bind-IsStable _ _ (call-IsStable _) (λ sent.
            bind-IsStable _ _ (call-IsStable _)
              (λ msgs_recv. bind-IsStable _ _ (call-IsStable _) (λ msgs_out. pure-IsStable _))))))

  handler_metrics-IsStable : IsStable (handler_metrics prom)
  handler_metrics-IsStable = bind-IsStable _ _ (call-IsStable _) (λ recovered.
      bind-IsStable _ _ (call-IsStable _)
        (λ duration. bind-IsStable _ _ (call-IsStable _) (λ full. pure-IsStable _)))

  heartbeat_metrics-IsStable : IsStable (heartbeat_metrics prom)
  heartbeat_metrics-IsStable = bind-IsStable _ _ (call-IsStable _) (λ missed. pure-IsStable _)

  -- What newConnMetrics returns for a registry, or for none, it returns again after any further
  -- calls on the registry, and leaves it then as it is: all connections share their metrics.
  pub new_conn_metrics-shared :
      (present : Bool) (r : Registry Reg Collector) (cs : List (Call Float))
      (m : Option (ConnMetrics Collector))
      → (new_conn_metrics prom present r).1 ≡ some m
      → let r' = call_all prom cs (new_conn_metrics prom present r).0 in
        new_conn_metrics prom present r' ≡ (r', some m)
  unfolding new_conn_metrics
  new_conn_metrics-shared present r cs m e =
      (unless_nil-IsStable _ present conn_metrics-IsStable).again r m cs e

  -- So do newHandlerMetrics and newHeartbeatMetrics.
  pub new_handler_metrics-shared :
      (present : Bool) (r : Registry Reg Collector) (cs : List (Call Float))
      (m : Option (HandlerMetrics Collector))
      → (new_handler_metrics prom present r).1 ≡ some m
      → let r' = call_all prom cs (new_handler_metrics prom present r).0 in
        new_handler_metrics prom present r' ≡ (r', some m)
  unfolding new_handler_metrics
  new_handler_metrics-shared present r cs m e =
      (unless_nil-IsStable _ present handler_metrics-IsStable).again r m cs e

  pub new_heartbeat_metrics-shared :
      (present : Bool) (r : Registry Reg Collector) (cs : List (Call Float))
      (m : Option (HeartbeatMetrics Collector))
      → (new_heartbeat_metrics prom present r).1 ≡ some m
      → let r' = call_all prom cs (new_heartbeat_metrics prom present r).0 in
        new_heartbeat_metrics prom present r' ≡ (r', some m)
  unfolding new_heartbeat_metrics
  new_heartbeat_metrics-shared present r cs m e =
      (unless_nil-IsStable _ present heartbeat_metrics-IsStable).again r m cs e
