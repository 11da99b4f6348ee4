-- ===== src/Metrics/Snapshot.antt =====
-- The copy of all values of kmetrics/registry.go (`Snapshot`, `histogramSnapshot`).
-- What Gather returns is a parameter: `none` is its error. `Family`, `Metric` and `DtoHistogram` are
-- the messages of client_model as far as their getters are called; `to_uint64` and `to_int64` are
-- Go's conversions of a floating-point number. The child Values says what the copy has.
pub mod Values
use kinz.Base.{
  ℕ, ℤ, ◌≡◌, refl, sym, ap, ◌∙◌, List, [], ◌∷◌, ◌++◌, map, append-nil, append_assoc, Option,
  Option-cases, none, some, inl, inr, String, arith, if◌then◌else◌, Bool, Bool-cases, true, false,
}
use text.Mathlib.Text.{◌==◌}
use text.Mathlib.TextEquality.{eq_iff}
use kinz.Base.Names.{lookup, insert, lookup-insert}

pub record DtoHistogram (Float : Type 0) : Type 0 where
  pub sample_count : ℕ
  pub sample_sum : Float
  pub bucket : List (Float × ℕ)

pub record Metric (Float : Type 0) : Type 0 where
  pub counter_value : Float
  pub gauge_value : Float
  pub histogram : DtoHistogram Float

pub data FamilyType : Type 0 where
  counter_type gauge_type histogram_type other_type : FamilyType

pub record Family (Float : Type 0) : Type 0 where
  pub name : String
  pub kind : FamilyType
  pub metric : List (Metric Float)

pub record HistogramSnapshot (Float : Type 0) : Type 0 where
  pub buckets : List Float
  pub counts : List ℕ
  pub count : ℕ
  pub sum : Float

pub record Snapshot (Float : Type 0) : Type 0 where
  pub counters : List (String × ℕ)
  pub gauges : List (String × ℤ)
  pub histograms : List (String × HistogramSnapshot Float)

module _ {Float : Type 0} where
  -- The loop of `histogramSnapshot`.
  unfoldable pub bucket_loop : List (Float × ℕ) → HistogramSnapshot Float → HistogramSnapshot Float
  bucket_loop [] hs = hs
  bucket_loop ((bound, cumulative) ∷ bs) hs =
      bucket_loop bs
        (record hs { buckets = hs.buckets ++ bound ∷ []; counts = hs.counts ++ cumulative ∷ [] })

  unfoldable pub histogram_snapshot : DtoHistogram Float → HistogramSnapshot Float
  unfolding bucket_loop
  histogram_snapshot h =
      bucket_loop h.bucket
        (record { buckets = []; counts = []; count = h.sample_count; sum = h.sample_sum })

  abbrev pub no_values : Snapshot Float
  no_values = record { counters = []; gauges = []; histograms = [] }

module _ {Float : Type 0} (to_uint64 : Float → ℕ) (to_int64 : Float → ℤ) where
  -- The body of the loop of `Snapshot`, for a family with this name, type and metrics.
  unfoldable pub add_family :
      String → FamilyType → List (Metric Float) → Snapshot Float → Snapshot Float
  unfolding histogram_snapshot
  add_family name kind [] snap = snap
  add_family name counter_type (m ∷ ms) snap = record snap {
    counters = insert name (to_uint64 m.counter_value) snap.counters;
  }
  add_family name gauge_type (m ∷ ms) snap = record snap {
    gauges = insert name (to_int64 m.gauge_value) snap.gauges;
  }
  add_family name histogram_type (m ∷ ms) snap = record snap {
    histograms = insert name (histogram_snapshot m.histogram) snap.histograms;
  }
  add_family name other_type (m ∷ ms) snap = snap

  unfoldable pub family_loop : List (Family Float) → Snapshot Float → Snapshot Float
  unfolding add_family
  family_loop [] snap = snap
  family_loop (f ∷ fs) snap = family_loop fs (add_family f.name f.kind f.metric snap)

  unfoldable pub snapshot : Option (List (Family Float)) → Snapshot Float
  unfolding family_loop
  snapshot none = no_values
  snapshot (some families) = family_loop families no_values
