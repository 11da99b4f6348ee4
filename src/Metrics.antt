-- ===== src/Metrics.antt =====
-- kmetrics/registry.go: named counters, gauges and histograms over a registry of prometheus.
-- The library prometheus is a parameter: the type of its registries, that of its collectors, that
-- of its floating-point numbers, and the calls of it that the code makes. Each Go method takes its
-- locks in two steps: the lookup under the read lock, and the critical section under the lock. A
-- handle is known by the collector in it; a collector is made from the number of those made before
-- it, so that two `NewCounter` calls of one name give two collectors. `none` is the panic of
-- `MustRegister`; the deferred unlock runs, and the maps are as before.
-- The children: Concurrent has the double-checked lookup under any interleaving, Handles what a
-- name stands for after any calls, Clashes when a call panics, Framework the handles of
-- knet/metrics.go, Consistent that calls which agree do not panic, Snapshot the copy of all values.
pub mod Framework
pub mod Concurrent
pub mod Handles
pub mod Clashes
pub mod Consistent
pub mod Snapshot
mod Tests
use kinz.Base.{ℕ, zero, suc, ◌+◌, List, [], ◌∷◌, Option, none, some, String}
use kinz.Base.Names.{lookup, insert}

-- The calls of client_golang.
pub record Prometheus (Reg Collector Float : Type 0) : Type 0 where
  pub new_registry : Reg
  pub new_counter : ℕ → String → String → Collector
  pub new_gauge : ℕ → String → String → Collector
  pub new_histogram : ℕ → String → String → List Float → Collector
  pub def_buckets : List Float
  -- `none`: MustRegister panics.
  pub must_register : Reg → Collector → Option Reg

pub record Registry (Reg Collector : Type 0) : Type 0 where
  pub prom_reg : Reg
  pub counters : List (String × Collector)
  pub gauges : List (String × Collector)
  pub histograms : List (String × Collector)
  pub made : ℕ

pub data Kind : Type 0 where
  counter_kind gauge_kind histogram_kind : Kind

module _ {Reg Collector Float : Type 0} where
  abbrev pub new_registry : Prometheus Reg Collector Float → Registry Reg Collector
  new_registry prom = record {
    prom_reg = prom.new_registry;
    counters = [];
    gauges = [];
    histograms = [];
    made = 0;
  }

module _ {Reg Collector : Type 0} where
  -- `r.counters`, `r.gauges`, `r.histograms`.
  abbrev pub handles : Kind → Registry Reg Collector → List (String × Collector)
  handles counter_kind r = r.counters
  handles gauge_kind r = r.gauges
  handles histogram_kind r = r.histograms

  abbrev pub set_handles :
      Kind → List (String × Collector) → Registry Reg Collector → Registry Reg Collector
  set_handles counter_kind m r = record r { counters = m }
  set_handles gauge_kind m r = record r { gauges = m }
  set_handles histogram_kind m r = record r { histograms = m }

  -- The lookup under the read lock.
  abbrev pub fast_path : Kind → String → Registry Reg Collector → Option Collector
  fast_path kind name r = lookup name (handles kind r)

module _ {Reg Collector Float : Type 0} where
  -- `r.promReg.MustRegister(c.inner); r.counters[name] = c; return c`.
  unfoldable pub register :
      Prometheus Reg Collector Float
      → Kind
      → String
      → Collector
      → Registry Reg Collector
      → Registry Reg Collector × Option Collector
  register prom kind name c r = elim (prom.must_register r.prom_reg c) [
    | none ↦ (record r { made = r.made + 1 }, none)
    | some reg ↦ (
      set_handles kind (insert name c (handles kind r))
          (record r { prom_reg = reg; made = r.made + 1 }),
      some c,
    )
  ]

  -- The critical section under the lock: the second lookup, and the making of the collector.
  unfoldable pub slow_path :
      Prometheus Reg Collector Float
      → Kind
      → (ℕ → Collector)
      → String
      → Registry Reg Collector
      → Registry Reg Collector × Option Collector
  unfolding register
  slow_path prom kind make name r = elim (lookup name (handles kind r)) [
    | some c ↦ (r, some c)
    | none ↦ register prom kind name (make r.made) r
  ]

  -- A whole method, undisturbed.
  unfoldable pub get_or_create :
      Prometheus Reg Collector Float
      → Kind
      → (ℕ → Collector)
      → String
      → Registry Reg Collector
      → Registry Reg Collector × Option Collector
  unfolding slow_path
  get_or_create prom kind make name r = elim (fast_path kind name r) [
    | some c ↦ (r, some c)
    | none ↦ slow_path prom kind make name r
  ]

-- Empty buckets fall back to the default.
abbrev pub or_default {ℓ} : {A : Type ℓ} → List A → List A → List A
or_default buckets [] = buckets
or_default buckets (b ∷ bs) = b ∷ bs

module _ {Reg Collector Float : Type 0} (prom : Prometheus Reg Collector Float) where
  unfoldable pub counter :
      String → String → Registry Reg Collector → Registry Reg Collector × Option Collector
  unfolding get_or_create
  counter name help = get_or_create prom counter_kind (λ n. prom.new_counter n name help) name

  unfoldable pub gauge :
      String → String → Registry Reg Collector → Registry Reg Collector × Option Collector
  unfolding get_or_create
  gauge name help = get_or_create prom gauge_kind (λ n. prom.new_gauge n name help) name

  unfoldable pub histogram :
      String
      → String
      → List Float
      → Registry Reg Collector
      → Registry Reg Collector × Option Collector
  unfolding get_or_create
  histogram name help buckets =
      get_or_create prom histogram_kind
        (λ n. prom.new_histogram n name help (or_default prom.def_buckets buckets)) name

-- A call of one of the three methods.
pub data Call (Float : Type 0) : Type 0 where
  get_counter get_gauge : String → String → Call Float
  get_histogram : String → String → List Float → Call Float

module _ {Float : Type 0} where
  abbrev pub call_kind : Call Float → Kind
  call_kind (get_counter name help) = counter_kind
  call_kind (get_gauge name help) = gauge_kind
  call_kind (get_histogram name help buckets) = histogram_kind

  abbrev pub call_name : Call Float → String
  call_name (get_counter name help) = name
  call_name (get_gauge name help) = name
  call_name (get_histogram name help buckets) = name

module _ {Reg Collector Float : Type 0} (prom : Prometheus Reg Collector Float) where
  -- The constructor that a call applies.
  abbrev pub call_make : Call Float → ℕ → Collector
  call_make (get_counter name help) n = prom.new_counter n name help
  call_make (get_gauge name help) n = prom.new_gauge n name help
  call_make (get_histogram name help buckets) n =
      prom.new_histogram n name help (or_default prom.def_buckets buckets)

  unfoldable pub call :
      Call Float → Registry Reg Collector → Registry Reg Collector × Option Collector
  unfolding counter gauge histogram
  call (get_counter name help) r = counter prom name help r
  call (get_gauge name help) r = gauge prom name help r
  call (get_histogram name help buckets) r = histogram prom name help buckets r

  -- Calls one after the other; one that panics is recovered by its caller.
  abbrev pub call_all : List (Call Float) → Registry Reg Collector → Registry Reg Collector
  call_all [] r = r
  call_all (c ∷ cs) r = call_all cs (call c r).0
