-- ===== src/Metrics/Framework/Available.antt =====
-- Asking for the metrics of knet/metrics.go does not panic while the application leaves their names
-- alone.
use kinz.Base.{
  ◌≡◌, ◌≢◌, refl, sym, subst, ◌∙◌, Bool, Bool-cases, inl, inr, true, false, ◌||◌, List, [], ◌∷◌,
  Option, none, some, String, All, if◌then◌else◌,
}
use text.Mathlib.Text.{◌==◌}
use text.Mathlib.TextEquality.{eq_iff}
use kinz.Metrics.{
  Prometheus, Registry, new_registry, Kind, counter_kind, gauge_kind, histogram_kind, Call, call,
  call_kind, call_name, call_all,
}
use kinz.Metrics.Clashes.{Registers}
use kinz.Metrics.Consistent.{
  or_false, Agrees, IsBacked, new_registry-IsBacked, call-returns, call-IsBacked, call_all-IsBacked,
}
use kinz.Metrics.Framework.{
  Metered, pure, continue, ◌>>=◌, unless_nil, new_conn_metrics, new_handler_metrics,
  new_heartbeat_metrics, conn_metrics, handler_metrics, heartbeat_metrics, server_metrics,
  conn_total, conn_rejected, conn_active, conn_closed, msgs_received, msgs_sent, bytes_in,
  bytes_out, panics, queue_full, heartbeat_missed, handle_duration,
}

abbrev pub counter_names : List String
counter_names =
    conn_total ∷ conn_rejected ∷ conn_closed ∷ msgs_received ∷ msgs_sent ∷ bytes_in ∷ bytes_out
    ∷ panics ∷ queue_full ∷ heartbeat_missed ∷ []

abbrev pub names : List String
names = conn_active ∷ handle_duration ∷ counter_names

abbrev pub one_of : List String → String → Bool
one_of [] name = false
one_of (n ∷ ns) name = (n == name) || one_of ns name

All-one_of :
    (P : String → Type 0) (ns : List String) (n : String) → one_of ns n ≡ true → All P ns → P n
All-one_of P [] n e h = cc
All-one_of P (m ∷ ms) n e h = elim (Bool-cases (m == n)) [
  | inl same ↦ subst P ((eq_iff m n).0 same) h.0
  | inr other ↦ All-one_of P ms n (sym (or_false _ _ other) ∙ e) h.1
]

-- The kinds of the framework's names; the application decides on all others.
abbrev pub kinds : (String → Kind) → String → Kind
kinds application name =
    if conn_active == name
    then gauge_kind
    else if handle_duration == name
    then histogram_kind
    else if one_of counter_names name
    then counter_kind
    else application name

module _ {Reg Collector Float : Type 0} (prom : Prometheus Reg Collector Float)
    (law : Registers prom) (application : String → Kind)
    (valid : All (λ (n : String). law.valid n ≡ true) names) where
  abbrev Fine : Registry Reg Collector → Type 0
  Fine = IsBacked prom law (kinds application)

  -- From a registry whose names are used for their kinds it returns, and leaves such a registry.
  pub record Returns {A : Type 0} (m : Metered Reg Collector A) : Type 0 where
    pub value : (r : Registry Reg Collector) → Fine r → (a : A) × ((m r).1 ≡ some a)
    pub fine : (r : Registry Reg Collector) → Fine r → Fine (m r).0

  pure-Returns : {A : Type 0} (a : A) → Returns (pure a)
  unfolding pure
  pure-Returns a = record { value = λ r b. (a, refl); fine = λ r b. b }

  call-Returns : (c : Call Float) → Agrees prom law (kinds application) c → Returns (call prom c)
  call-Returns c agrees = record {
    value = call-returns prom law (kinds application) c agrees;
    fine = call-IsBacked prom law (kinds application) c agrees;
  }

  bind-Returns :
      {A B : Type 0} (m : Metered Reg Collector A) (f : A → Metered Reg Collector B)
      → Returns m
      → ((a : A) → Returns (f a))
      → Returns (m >>= f)
  unfolding ◌>>=◌
  bind-Returns {A = A} {B = B} m f rm rf = record {
    value = λ r b. value (m r) (rm.fine r b) (rm.value r b);
    fine = λ r b. fine (m r) (rm.fine r b) (rm.value r b);
  }
    where
      value :
          (o : Registry Reg Collector × Option A)
          → Fine o.0
          → (a : A) × (o.1 ≡ some a)
          → (b : B) × ((continue f o).1 ≡ some b)
      value (r, some a) b e = (rf a).value r b
      value (r, none) b (a, e) = cc

      fine :
          (o : Registry Reg Collector × Option A)
          → Fine o.0
          → (a : A) × (o.1 ≡ some a)
          → Fine (continue f o).0
      fine (r, some a) b e = (rf a).fine r b
      fine (r, none) b e = b

  unless_nil-Returns :
      {A : Type 0} (m : Metered Reg Collector A) (present : Bool)
      → Returns m
      → Returns (unless_nil m present)
  unfolding unless_nil
  unless_nil-Returns m true s = bind-Returns m _ s (λ a. pure-Returns (some a))
  unless_nil-Returns m false s = pure-Returns none

  a_call :
      (c : Call Float)
      → call_kind c ≡ kinds application (call_name c)
      → one_of names (call_name c) ≡ true
      → Returns (call prom c)
  a_call c k n =
      call-Returns c
        (k, All-one_of (λ (i : String). law.valid i ≡ true) names (call_name c) n valid)

  conn_metrics-Returns : Returns (conn_metrics prom)
  conn_metrics-Returns = bind-Returns _ _ (a_call _ refl refl) (λ active.
      bind-Returns _ _ (a_call _ refl refl) (λ closed.
        bind-Returns _ _ (a_call _ refl refl) (λ received.
          bind-Returns _ _ (a_call _ refl refl) (λ sent.
            bind-Returns _ _ (a_call _ refl refl)
              (λ msgs_recv. bind-Returns _ _ (a_call _ refl refl) (λ msgs_out. pure-Returns _))))))

  server_metrics-Returns : Returns (server_metrics prom)
  unfolding server_metrics
  server_metrics-Returns = bind-Returns _ _ (a_call _ refl refl) (λ total.
      bind-Returns _ _ (a_call _ refl refl) (λ active.
        bind-Returns _ _ (a_call _ refl refl)
          (λ closed. bind-Returns _ _ (a_call _ refl refl) (λ rejected. pure-Returns _))))

  handler_metrics-Returns : Returns (handler_metrics prom)
  handler_metrics-Returns = bind-Returns _ _ (a_call _ refl refl) (λ recovered.
      bind-Returns _ _ (a_call _ refl refl)
        (λ duration. bind-Returns _ _ (a_call _ refl refl) (λ full. pure-Returns _)))

  heartbeat_metrics-Returns : Returns (heartbeat_metrics prom)
  heartbeat_metrics-Returns = bind-Returns _ _ (a_call _ refl refl) (λ missed. pure-Returns _)

  not_none : {A : Type 0} (o : Option A) → (a : A) × (o ≡ some a) → o ≢ none
  not_none o (a, e) f = cc

  -- After any calls on a new registry that use each name for one kind, and the framework's names,
  -- which are valid, for theirs, none of newConnMetrics, newHandlerMetrics, newHeartbeatMetrics and
  -- what NewServer asks for panics.
  pub metrics_available :
      (cs : List (Call Float)) (present : Bool)
      → All (Agrees prom law (kinds application)) cs
      → let r = call_all prom cs (new_registry prom) in
        ((new_conn_metrics prom present r).1 ≢ none)
        × ((new_handler_metrics prom present r).1 ≢ none)
        × ((new_heartbeat_metrics prom present r).1 ≢ none)
        × ((server_metrics prom r).1 ≢ none)
  unfolding new_conn_metrics new_handler_metrics new_heartbeat_metrics
  metrics_available cs present agree =
      let fine =
        call_all-IsBacked prom law (kinds application) cs agree (new_registry prom)
          (new_registry-IsBacked prom law (kinds application)) in
      (
        not_none _ ((unless_nil-Returns _ present conn_metrics-Returns).value _ fine),
        not_none _ ((unless_nil-Returns _ present handler_metrics-Returns).value _ fine),
        not_none _ ((unless_nil-Returns _ present heartbeat_metrics-Returns).value _ fine),
        not_none _ (server_metrics-Returns.value _ fine),
      )
