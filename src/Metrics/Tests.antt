-- ===== src/Metrics/Tests.antt =====
-- Tests of the metrics, over a small registry: the list of the names that it has. A collector is
-- the number of its making, its kind and its name.
use Prim.Native.Nat.{ℕ}
use kinz.Base.{
  ◌+◌, ◌≡◌, ◌≢◌, refl, sym, ap, ◌∙◌, Bool, Bool-cases, true, false, ◌||◌, List, [], ◌∷◌, Option,
  none, some, inl, inr, String, some-inj, if◌then◌else◌, pos,
}
use text.Mathlib.Text.{◌==◌}
use kinz.Base.Names.{lookup}
use kinz.Metrics.{
  Prometheus, Registry, new_registry, Kind, counter_kind, gauge_kind, histogram_kind, Call,
  get_counter, get_gauge, get_histogram, call, call_all, call_make, call_name, counter, gauge,
  get_or_create, slow_path, register,
}
use kinz.Metrics.Concurrent.{
  Callers, callers, hit, miss, lock, Reach, here, further, replay, Reach-replay,
}
use kinz.Metrics.Clashes.{Registers, clash_panics}
use kinz.Metrics.Snapshot.{
  DtoHistogram, Family, counter_type, gauge_type, histogram_type, Snapshot, bucket_loop,
  histogram_snapshot, add_family, family_loop, snapshot,
}
use kinz.Metrics.Snapshot.Values.{
  last_value, counter_value, gauge_value, histogram_value, snapshot_lem,
}
use kinz.Metrics.Framework.{
  server_metrics, new_conn_metrics, new_handler_metrics, new_heartbeat_metrics, ConnMetrics,
  unless_nil, ◌>>=◌,
}
use kinz.Metrics.Framework.Sharing.{new_conn_metrics-shared}
use kinz.Metrics.Framework.Available.{metrics_available}

abbrev Item : Type 0
Item = ℕ × Kind × String

abbrev has_name : List String → String → Bool
has_name [] name = false
has_name (n ∷ ns) name = (n == name) || has_name ns name

abbrev admit : List String → Item → Option (List String)
admit names (n, kind, name) = if has_name names name then none else some (name ∷ names)

abbrev small : Prometheus (List String) Item ℕ
small = record {
  new_registry = [];
  new_counter = λ n name help. (n, counter_kind, name);
  new_gauge = λ n name help. (n, gauge_kind, name);
  new_histogram = λ n name help buckets. (n, histogram_kind, name);
  def_buckets = 5 ∷ 10 ∷ [];
  must_register = admit;
}

small_named : (c : Call ℕ) (n : ℕ) → (call_make small c n).2 ≡ call_name c
small_named (get_counter name help) n = refl
small_named (get_gauge name help) n = refl
small_named (get_histogram name help buckets) n = refl

small_registered :
    (names after : List String) (c : Item) (j : String)
    → admit names c ≡ some after
    → has_name after j ≡ ((c.2 == j) || has_name names j)
small_registered names after (n, kind, name) j e = elim (Bool-cases (has_name names name)) [
  | inl known ↦ absurd (none_some (sym (admit_known known) ∙ e))
  | inr other ↦
      ap (λ (ns : List String). has_name ns j) (sym (some-inj (sym (admit_other other) ∙ e)))
]
  where
    none_some : none ≡ some after → ⊥
    none_some e = cc

    admit_known : has_name names name ≡ true → admit names (n, kind, name) ≡ none
    admit_known e = rw e refl

    admit_other : has_name names name ≡ false → admit names (n, kind, name) ≡ some (name ∷ names)
    admit_other e = rw e refl

abbrev small_law : Registers small
small_law = record {
  has = has_name;
  name_of = λ c. c.2;
  valid = λ name. true;
  after = λ names c. c.2 ∷ names;
  new = λ j. refl;
  named = small_named;
  taken = λ names c e. rw e refl;
  takes = λ names c e v. rw e refl;
  registered = small_registered;
}

-- Two callers look for the same counter at once, both miss, and take the lock one after the other;
-- a third finds it.
abbrev conns : Call ℕ
conns = get_counter "conns" "Connections"

abbrev both_missed : Callers (List String) Item ℕ
both_missed = record (callers small) { waiting = conns ∷ conns ∷ [] }

both_missed_lem : Reach small both_missed
both_missed_lem = further (further here (miss conns refl)) (miss conns refl)

abbrev handed_out : Callers (List String) Item ℕ
handed_out = record {
  registry = record {
    prom_reg = "conns" ∷ [];
    counters = ("conns", (0, counter_kind, "conns")) ∷ [];
    gauges = [];
    histograms = [];
    made = 1;
  };
  waiting = [];
  returned =
      (conns, some (0, counter_kind, "conns"))
      ∷ (conns, some (0, counter_kind, "conns"))
      ∷ (conns, some (0, counter_kind, "conns"))
      ∷ [];
}

handed_out_lem : Reach small handed_out
unfolding slow_path register
handed_out_lem =
    further
      (further (further both_missed_lem (lock (conns ∷ []) [] conns refl)) (lock [] [] conns refl))
      (hit conns (0, counter_kind, "conns") refl)

Reach-replay_example :
    replay small handed_out.returned (new_registry small)
    ≡ (handed_out.registry, handed_out.returned)
Reach-replay_example = Reach-replay small handed_out handed_out_lem

abbrev after_conns : Registry (List String) Item
after_conns = call_all small (conns ∷ []) (new_registry small)

-- A gauge named like a counter.
clash_panics_example :
    let r = (call small conns (new_registry small)).0 in
    let r' = call_all small (get_gauge "rooms" "Rooms" ∷ []) r in
    call small (get_gauge "conns" "Connections") r' ≡ (record r' { made = r'.made + 1 }, none)
unfolding call counter get_or_create slow_path register
clash_panics_example =
    clash_panics small small_law [] (get_gauge "rooms" "Rooms" ∷ []) conns
      (get_gauge "conns" "Connections") (0, counter_kind, "conns") refl refl (λ e. cc)

metrics_available_example :
    let r = call_all small (conns ∷ get_gauge "rooms" "Rooms" ∷ []) (new_registry small) in
    ((new_conn_metrics small true r).1 ≢ none)
    × ((new_handler_metrics small true r).1 ≢ none)
    × ((new_heartbeat_metrics small true r).1 ≢ none)
    × ((server_metrics small r).1 ≢ none)
metrics_available_example =
    metrics_available small small_law (λ name. if name == "rooms" then gauge_kind else counter_kind)
      (
        refl,
        (refl, (refl, (refl, (refl, (refl, (refl, (refl, (refl, (refl, (refl, (refl, tt))))))))))),
      )
      (conns ∷ get_gauge "rooms" "Rooms" ∷ []) true ((refl, refl), ((refl, refl), tt))

abbrev conn_handles : ConnMetrics Item
conn_handles = record {
  active = (0, gauge_kind, "kinz_conns_active");
  closed = (1, counter_kind, "kinz_conns_closed_total");
  bytes_in = (2, counter_kind, "kinz_bytes_in_total");
  bytes_out = (3, counter_kind, "kinz_bytes_out_total");
  msgs_recv = (4, counter_kind, "kinz_msgs_received_total");
  msgs_sent = (5, counter_kind, "kinz_msgs_sent_total");
}

first_conn : (new_conn_metrics small true (new_registry small)).1 ≡ some (some conn_handles)
unfolding new_conn_metrics unless_nil ◌>>=◌ call counter gauge get_or_create slow_path register
first_conn = refl

new_conn_metrics-shared_example :
    let r = call_all small (conns ∷ []) (new_conn_metrics small true (new_registry small)).0 in
    new_conn_metrics small true r ≡ (r, some (some conn_handles))
new_conn_metrics-shared_example =
    new_conn_metrics-shared small true (new_registry small) (conns ∷ []) (some conn_handles)
      first_conn

abbrev no_histogram : DtoHistogram ℕ
no_histogram = record { sample_count = 0; sample_sum = 0; bucket = [] }

abbrev gathered : List (Family ℕ)
gathered =
    record {
      name = "conns";
      kind = counter_type;
      metric = record { counter_value = 7; gauge_value = 0; histogram = no_histogram } ∷ [];
    }
    ∷ record { name = "empty"; kind = counter_type; metric = [] }
    ∷ record {
      name = "latency";
      kind = histogram_type;
      metric =
          record {
            counter_value = 0;
            gauge_value = 0;
            histogram = record {
              sample_count = 3;
              sample_sum = 12;
              bucket = (5, 2) ∷ (10, 3) ∷ [];
            };
          }
          ∷ [];
    }
    ∷ []

abbrev copy : Snapshot ℕ
copy = record {
  counters = ("conns", 7) ∷ [];
  gauges = [];
  histograms =
      ("latency", record { buckets = 5 ∷ 10 ∷ []; counts = 2 ∷ 3 ∷ []; count = 3; sum = 12 }) ∷ [];
}

snapshot-gathered : snapshot (λ v. v) (λ v. pos v) (some gathered) ≡ copy
unfolding snapshot family_loop add_family histogram_snapshot bucket_loop
snapshot-gathered = refl

snapshot_lem_example :
    let snap = snapshot (λ v. v) (λ v. pos v) (some gathered) in
    (lookup "latency" snap.counters
      ≡ last_value counter_type (counter_value (λ v. v) (λ v. pos v)) "latency" gathered)
    × (lookup "latency" snap.gauges
        ≡ last_value gauge_type (gauge_value (λ v. v) (λ v. pos v)) "latency" gathered)
    × (lookup "latency" snap.histograms
        ≡ last_value histogram_type (histogram_value (λ v. v) (λ v. pos v)) "latency" gathered)
snapshot_lem_example = snapshot_lem (λ v. v) (λ v. pos v) (some gathered) "latency"
