-- ===== src/Metrics/Snapshot/Values.antt =====
-- What the copy of kmetrics/registry.go has under each name.
use kinz.Base.{
  ℕ, ℤ, ◌≡◌, refl, ap, ◌∙◌, List, [], ◌∷◌, ◌++◌, map, append-nil, append_assoc, Option, none, some,
  String, arith, if◌then◌else◌, Bool, true, false,
}
use text.Mathlib.Text.{◌==◌}
use kinz.Base.Names.{lookup, insert, lookup-insert}
use kinz.Metrics.Snapshot.{
  DtoHistogram, Metric, FamilyType, counter_type, gauge_type, histogram_type, other_type, Family,
  HistogramSnapshot, Snapshot, bucket_loop, histogram_snapshot, no_values, add_family, family_loop,
  snapshot,
}

abbrev pub same_type : FamilyType → FamilyType → Bool
same_type counter_type counter_type = true
same_type gauge_type gauge_type = true
same_type histogram_type histogram_type = true
same_type _ _ = false

abbrev pub or_else {ℓ} : {V : Type ℓ} → Option V → Option V → Option V
or_else (some v) o = some v
or_else none o = o

or_else_assoc {ℓ} :
    {V : Type ℓ} (a b c : Option V) → or_else a (or_else b c) ≡ or_else (or_else a b) c
or_else_assoc none b c = refl
or_else_assoc (some v) b c = refl

-- What a family says of a name, if it has a type and a metric.
abbrev pub says {ℓ} :
    {Float : Type 0} {V : Type ℓ}
    → FamilyType
    → (Metric Float → V)
    → String
    → String
    → FamilyType
    → List (Metric Float)
    → Option V
says wanted value j name kind [] = none
says wanted value j name kind (m ∷ ms) =
    if same_type wanted kind then (if name == j then some (value m) else none) else none

-- What the last family says that says something.
abbrev pub last_value {ℓ} :
    {Float : Type 0} {V : Type ℓ}
    → FamilyType
    → (Metric Float → V)
    → String
    → List (Family Float)
    → Option V
last_value wanted value j [] = none
last_value wanted value j (f ∷ fs) =
    or_else (last_value wanted value j fs) (says wanted value j f.name f.kind f.metric)

module _ {Float : Type 0} where
  -- A histogram, field by field.
  abbrev pub copied : DtoHistogram Float → HistogramSnapshot Float
  copied h = record {
    buckets = map (λ b. b.0) h.bucket;
    counts = map (λ b. b.1) h.bucket;
    count = h.sample_count;
    sum = h.sample_sum;
  }

  bucket_loop-append :
      (bs : List (Float × ℕ)) (hs : HistogramSnapshot Float)
      → bucket_loop bs hs ≡ record hs {
        buckets = hs.buckets ++ map (λ b. b.0) bs;
        counts = hs.counts ++ map (λ b. b.1) bs;
      }
  unfolding bucket_loop
  bucket_loop-append [] hs = rw (append-nil hs.buckets, append-nil hs.counts) refl
  bucket_loop-append ((bound, n) ∷ bs) hs =
      bucket_loop-append bs _
      ∙ rw
          (
            append_assoc hs.buckets (bound ∷ []) (map (λ b. b.0) bs),
            append_assoc hs.counts (n ∷ []) (map (λ b. b.1) bs),
          )
          refl

  pub histogram_snapshot-copied : (h : DtoHistogram Float) → histogram_snapshot h ≡ copied h
  unfolding histogram_snapshot
  histogram_snapshot-copied h = bucket_loop-append h.bucket _

or_else-none {ℓ} : {V : Type ℓ} (o : Option V) → or_else o none ≡ o
or_else-none none = refl
or_else-none (some v) = refl

or_else-insert {ℓ} :
    {V : Type ℓ} (name j : String) (v : V) (m : List (String × V))
    → lookup j (insert name v m) ≡ or_else (if name == j then some v else none) (lookup j m)
or_else-insert name j v m = ground (arith, lookup-insert name j v m)

module _ {Float : Type 0} (to_uint64 : Float → ℕ) (to_int64 : Float → ℤ) where
  -- A reading of the snapshot to which each family adds what it says is that of the last family
  -- that says something.
  loop-reading {ℓ} :
      {V : Type ℓ} (wanted : FamilyType) (value : Metric Float → V) (j : String)
      (read : Snapshot Float → Option V)
      → ((name : String) (kind : FamilyType) (ms : List (Metric Float)) (snap : Snapshot Float)
          → read (add_family to_uint64 to_int64 name kind ms snap)
            ≡ or_else (says wanted value j name kind ms) (read snap))
      → (fs : List (Family Float)) (snap : Snapshot Float)
      → read (family_loop to_uint64 to_int64 fs snap)
        ≡ or_else (last_value wanted value j fs) (read snap)
  unfolding family_loop
  loop-reading wanted value j read step [] snap = refl
  loop-reading wanted value j read step (f ∷ fs) snap =
      let later = last_value wanted value j fs in
      let own = says wanted value j f.name f.kind f.metric in
      loop-reading wanted value j read step fs
        (add_family to_uint64 to_int64 f.name f.kind f.metric snap)
      ∙ ap (or_else later) (step f.name f.kind f.metric snap)
      ∙ or_else_assoc later own (read snap)

  abbrev pub counter_value : Metric Float → ℕ
  counter_value m = to_uint64 m.counter_value

  abbrev pub gauge_value : Metric Float → ℤ
  gauge_value m = to_int64 m.gauge_value

  abbrev pub histogram_value : Metric Float → HistogramSnapshot Float
  histogram_value m = copied m.histogram

  counters-add :
      (j name : String) (kind : FamilyType) (ms : List (Metric Float)) (snap : Snapshot Float)
      → lookup j (add_family to_uint64 to_int64 name kind ms snap).counters
        ≡ or_else (says counter_type counter_value j name kind ms) (lookup j snap.counters)
  unfolding add_family
  counters-add j name kind [] snap = refl
  counters-add j name counter_type (m ∷ ms) snap = or_else-insert name j _ snap.counters
  counters-add j name gauge_type (m ∷ ms) snap = refl
  counters-add j name histogram_type (m ∷ ms) snap = refl
  counters-add j name other_type (m ∷ ms) snap = refl

  gauges-add :
      (j name : String) (kind : FamilyType) (ms : List (Metric Float)) (snap : Snapshot Float)
      → lookup j (add_family to_uint64 to_int64 name kind ms snap).gauges
        ≡ or_else (says gauge_type gauge_value j name kind ms) (lookup j snap.gauges)
  unfolding add_family
  gauges-add j name kind [] snap = refl
  gauges-add j name counter_type (m ∷ ms) snap = refl
  gauges-add j name gauge_type (m ∷ ms) snap = or_else-insert name j _ snap.gauges
  gauges-add j name histogram_type (m ∷ ms) snap = refl
  gauges-add j name other_type (m ∷ ms) snap = refl

  histograms-add :
      (j name : String) (kind : FamilyType) (ms : List (Metric Float)) (snap : Snapshot Float)
      → lookup j (add_family to_uint64 to_int64 name kind ms snap).histograms
        ≡ or_else (says histogram_type histogram_value j name kind ms) (lookup j snap.histograms)
  unfolding add_family
  histograms-add j name kind [] snap = refl
  histograms-add j name counter_type (m ∷ ms) snap = refl
  histograms-add j name gauge_type (m ∷ ms) snap = refl
  histograms-add j name histogram_type (m ∷ ms) snap =
      or_else-insert name j _ snap.histograms
      ∙ ap
          (λ (h : HistogramSnapshot Float).
            or_else (if name == j then some h else none) (lookup j snap.histograms))
          (histogram_snapshot-copied m.histogram)
  histograms-add j name other_type (m ∷ ms) snap = refl

  -- Snapshot has nothing if gathering fails. Otherwise it has under each name, as a counter, a gauge
  -- or a histogram, what the first metric of the last family of that name and type with a metric
  -- says: the converted value, or the histogram with its bounds, its cumulative counts, its count
  -- and its sum; and under no other name anything.
  pub snapshot_lem :
      (gathered : Option (List (Family Float))) (j : String)
      → let snap = snapshot to_uint64 to_int64 gathered in
        let families : List (Family Float) = elim gathered [ none ↦ [] | some fs ↦ fs ] in
        (lookup j snap.counters ≡ last_value counter_type counter_value j families)
        × (lookup j snap.gauges ≡ last_value gauge_type gauge_value j families)
        × (lookup j snap.histograms ≡ last_value histogram_type histogram_value j families)
  unfolding snapshot
  snapshot_lem none j = (refl, refl, refl)
  snapshot_lem (some fs) j = (
    loop-reading counter_type counter_value j (λ s. lookup j s.counters) (counters-add j) fs
          no_values
        ∙ or_else-none _,
    loop-reading gauge_type gauge_value j (λ s. lookup j s.gauges) (gauges-add j) fs no_values
        ∙ or_else-none _,
    loop-reading histogram_type histogram_value j (λ s. lookup j s.histograms) (histograms-add j) fs
          no_values
        ∙ or_else-none _,
  )
