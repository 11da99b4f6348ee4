-- ===== src/Server/Endpoint.antt =====
-- The listener of the metrics endpoint of knet/server.go: `AttachMetrics`, and what `Shutdown` does to
-- it.
-- A listener is known by a number; `open_listeners` are those that are not closed. Whether listening succeeds
-- is an argument. What is served over a listener is not modelled.
use kinz.Base.{
  ◌<◌, ==_iff, ap, subst, Bool-cases, inl, inr, ℕ, ◌+◌, ◌≡◌, refl, sym, ◌∙◌, Bool, true, false,
  List, [], ◌∷◌, Option, none, some, ◌==◌, if◌then◌else◌, arith,
}

pub record Endpoint : Type 0 where
  pub closed : Bool
  pub metrics_listener : Option ℕ
  pub open_listeners : List ℕ
  pub made : ℕ

pub data AttachError : Type 0 where
  listen_failed already_attached : AttachError

unfoldable pub new_endpoint : Endpoint
new_endpoint = record { closed = false; metrics_listener = none; open_listeners = []; made = 0 }

abbrev pub close_listener : ℕ → List ℕ → List ℕ
close_listener ln [] = []
close_listener ln (l ∷ ls) = let rest = close_listener ln ls in if l == ln then rest else l ∷ rest

abbrev pub close_if : Option ℕ → List ℕ → List ℕ
close_if none open_listeners = open_listeners
close_if (some ln) open_listeners = close_listener ln open_listeners

-- `AttachMetrics` once it listens: a listener is there already, or the new one is taken.
abbrev pub take_listener : Endpoint → Option ℕ → Endpoint × Option AttachError
take_listener s none = (
  record s {
    metrics_listener = some s.made;
    open_listeners = s.made ∷ s.open_listeners;
    made = s.made + 1;
  },
  none,
)
take_listener s (some ln) = (
  record s {
    open_listeners = close_listener s.made (s.made ∷ s.open_listeners);
    made = s.made + 1;
  },
  some already_attached,
)

unfoldable pub attach_metrics : Endpoint → Bool → Endpoint × Option AttachError
attach_metrics s false = (s, some listen_failed)
attach_metrics s true = take_listener s s.metrics_listener

-- The part of `Shutdown`.
unfoldable pub shutdown_endpoint : Endpoint → Endpoint
shutdown_endpoint s = if s.closed then s else record s {
  closed = true;
  metrics_listener = none;
  open_listeners = close_if s.metrics_listener s.open_listeners;
}

pub data EndpointEvent : Type 0 where
  attaches : Bool → EndpointEvent
  shuts_down : EndpointEvent

abbrev pub happens : EndpointEvent → Endpoint → Endpoint
happens (attaches listens) s = (attach_metrics s listens).0
happens shuts_down s = shutdown_endpoint s

abbrev pub happen_all : List EndpointEvent → Endpoint → Endpoint
happen_all [] s = s
happen_all (e ∷ es) s = happen_all es (happens e s)

abbrev pub listed : Option ℕ → List ℕ
listed none = []
listed (some ln) = ln ∷ []

abbrev Older : ℕ → Option ℕ → Type 0
Older made none = Unit
Older made (some ln) = ln < made

-- The listener that is kept is open, older than the next, and no other is open.
record Kept (s : Endpoint) : Type 0 where
  only : s.open_listeners ≡ listed s.metrics_listener
  older : Older s.made s.metrics_listener

new_endpoint-Kept : Kept new_endpoint
unfolding new_endpoint
new_endpoint-Kept = record { only = refl; older = tt }

close_new : (n ln : ℕ) → ln < n → close_listener n (n ∷ ln ∷ []) ≡ ln ∷ []
close_new n ln h = ground (arith, h, ==_iff n n, ==_iff ln n)

close_self : (n : ℕ) → close_listener n (n ∷ []) ≡ []
close_self n = ground (arith, ==_iff n n)

take_listener-Kept :
    (s : Endpoint) (o : Option ℕ)
    → s.open_listeners ≡ listed o
    → s.metrics_listener ≡ o
    → Older s.made o
    → Kept (take_listener s o).0
take_listener-Kept s none e m old = record { only = ap (◌∷◌ s.made) e; older = omega arith }
take_listener-Kept s (some ln) e m old = record {
  only =
      ap (λ (open_listeners : List ℕ). close_listener s.made (s.made ∷ open_listeners)) e
      ∙ close_new s.made ln old
      ∙ sym (ap listed m);
  older = subst (Older (s.made + 1)) (sym m) (omega (arith, old));
}

shutdown_same : (s : Endpoint) → s.closed ≡ true → shutdown_endpoint s ≡ s
unfolding shutdown_endpoint
shutdown_same s c = ground (arith, c)

shutdown_endpoint-Kept : (s : Endpoint) → Kept s → Kept (shutdown_endpoint s)
unfolding shutdown_endpoint
shutdown_endpoint-Kept s v = elim (Bool-cases s.closed) [
  | inl c ↦ subst Kept (sym (shutdown_same s c)) v
  | inr c ↦ rw c (record { only = all_closed s.metrics_listener v.only; older = tt })
]
  where
    all_closed : (o : Option ℕ) → s.open_listeners ≡ listed o → close_if o s.open_listeners ≡ []
    all_closed none e = e
    all_closed (some ln) e = ap (close_listener ln) e ∙ close_self ln

happens-Kept : (e : EndpointEvent) (s : Endpoint) → Kept s → Kept (happens e s)
unfolding attach_metrics
happens-Kept (attaches false) s v = v
happens-Kept (attaches true) s v = take_listener-Kept s s.metrics_listener v.only refl v.older
happens-Kept shuts_down s v = shutdown_endpoint-Kept s v

happen_all-Kept : (es : List EndpointEvent) (s : Endpoint) → Kept s → Kept (happen_all es s)
happen_all-Kept [] s v = v
happen_all-Kept (e ∷ es) s v = happen_all-Kept es (happens e s) (happens-Kept e s v)

-- After any calls of AttachMetrics and Shutdown on a new server, the listener that it keeps for the
-- metrics is open, and no other that AttachMetrics opened is.
pub endpoint_lem :
    (es : List EndpointEvent)
    → (happen_all es new_endpoint).open_listeners
      ≡ listed (happen_all es new_endpoint).metrics_listener
endpoint_lem es = (happen_all-Kept es new_endpoint new_endpoint-Kept).only

taken_stays :
    (s : Endpoint) (e : EndpointEvent) (ln : ℕ)
    → s.closed ≡ true
    → s.metrics_listener ≡ some ln
    → ((happens e s).closed ≡ true) × ((happens e s).metrics_listener ≡ some ln)
unfolding attach_metrics
taken_stays s (attaches false) ln c m = (c, m)
taken_stays s (attaches true) ln c m = rw m (c, refl)
taken_stays s shuts_down ln c m =
    let same = shutdown_same s c in
    (ap (λ (t : Endpoint). t.closed) same ∙ c, ap (λ (t : Endpoint). t.metrics_listener) same ∙ m)

all_stays :
    (es : List EndpointEvent) (s : Endpoint) (ln : ℕ)
    → s.closed ≡ true
    → s.metrics_listener ≡ some ln
    → (happen_all es s).metrics_listener ≡ some ln
all_stays [] s ln c m = m
all_stays (e ∷ es) s ln c m =
    let (c', m') = taken_stays s e ln c m in all_stays es (happens e s) ln c' m'

attached_listener :
    (s : Endpoint)
    → s.metrics_listener ≡ none
    → (happens (attaches true) s).metrics_listener ≡ some s.made
unfolding attach_metrics
attached_listener s m = rw m refl

attached_closed :
    (s : Endpoint)
    → s.closed ≡ true
    → s.metrics_listener ≡ none
    → (happens (attaches true) s).closed ≡ true
unfolding attach_metrics
attached_closed s c m = rw m c

-- A metrics endpoint that is attached after Shutdown stays open, whatever is called later.
pub attached_late :
    (before after : List EndpointEvent)
    → (happen_all before new_endpoint).closed ≡ true
    → (happen_all before new_endpoint).metrics_listener ≡ none
    → (happen_all (attaches true ∷ after) (happen_all before new_endpoint)).open_listeners
      ≡ (happen_all before new_endpoint).made ∷ []
unfolding attach_metrics
attached_late before after c m =
    let s = happen_all before new_endpoint in
    let v = happen_all-Kept before new_endpoint new_endpoint-Kept in
    (happen_all-Kept after _ (happens-Kept (attaches true) s v)).only
    ∙ ap listed (all_stays after _ s.made (attached_closed s c m) (attached_listener s m))
