-- ===== src/Metrics/Handles.antt =====
-- The handles of kmetrics/registry.go: what a kind and a name stand for after any calls.
use kinz.Base.{
  ◌+◌, ◌≡◌, refl, sym, ap, ap₂, ◌∙◌, Bool, Bool-cases, true, false, List, [], ◌∷◌, Option,
  Option-cases, none, some, inl, inr, String, arith, ◌&&◌, if◌then◌else◌,
}
use text.Mathlib.Text.{◌==◌}
use text.Mathlib.TextEquality.{eq_iff}
use kinz.Base.Names.{lookup-insert, insert}
use kinz.Metrics.{
  Prometheus, Registry, Kind, counter_kind, gauge_kind, histogram_kind, handles, set_handles,
  fast_path, register, slow_path, get_or_create, Call, call_kind, call_name, call_make, call,
  call_all,
}
use kinz.Metrics.Concurrent.{whole, call-whole, whole-found}

abbrev pub same_kind : Kind → Kind → Bool
same_kind counter_kind counter_kind = true
same_kind gauge_kind gauge_kind = true
same_kind histogram_kind histogram_kind = true
same_kind _ _ = false

pub same_kind_self : (k : Kind) → same_kind k k ≡ true
same_kind_self counter_kind = refl
same_kind_self gauge_kind = refl
same_kind_self histogram_kind = refl

pub same_kind-eq : (k l : Kind) → same_kind k l ≡ true → k ≡ l
same_kind-eq k l h = ground arith

pub both_true : (a b : Bool) → (a && b) ≡ true → (a ≡ true) × (b ≡ true)
both_true a b h = ground arith

mine : (k : Kind) (n : String) → (same_kind k k && (n == n)) ≡ true
mine k n = rw (same_kind_self k) ((eq_iff n n).1 refl)

pub clash {ℓ} : {A : Type ℓ} {o : Option A} {a : A} → o ≡ none → o ≡ some a → ⊥
clash e f = cc

module _ {Reg Collector : Type 0} where
  pub found-made :
      (l : Kind) (j : String) (r : Registry Reg Collector)
      → fast_path l j (record r { made = r.made + 1 }) ≡ fast_path l j r
  found-made counter_kind j r = refl
  found-made gauge_kind j r = refl
  found-made histogram_kind j r = refl

  pub same_found :
      (k l : Kind) (i j : String) (r : Registry Reg Collector)
      → (same_kind k l && (i == j)) ≡ true
      → fast_path k i r ≡ fast_path l j r
  same_found k l i j r h =
      let b = both_true (same_kind k l) (i == j) h in
      ap₂ (λ (m : Kind) (n : String). fast_path m n r) (same_kind-eq k l b.0) ((eq_iff i j).0 b.1)

module _ {Reg Collector Float : Type 0} (prom : Prometheus Reg Collector Float) where
  pub register-done :
      (k : Kind) (name : String) (c : Collector) (reg : Reg) (r : Registry Reg Collector)
      → prom.must_register r.prom_reg c ≡ some reg
      → register prom k name c r ≡ (
        set_handles k
            (insert name c (handles k r))
            (record r { prom_reg = reg; made = r.made + 1 }),
        some c,
      )
  unfolding register
  register-done k name c reg r e = rw (e, register) refl

  pub register-panic :
      (k : Kind) (name : String) (c : Collector) (r : Registry Reg Collector)
      → prom.must_register r.prom_reg c ≡ none
      → register prom k name c r ≡ (record r { made = r.made + 1 }, none)
  unfolding register
  register-panic k name c r e = rw (e, register) refl

  found-insert :
      (k l : Kind) (name j : String) (c : Collector) (reg : Reg) (r : Registry Reg Collector)
      → let r' = record r { prom_reg = reg; made = r.made + 1 } in
        fast_path l j (set_handles k (insert name c (handles k r)) r')
        ≡ (if same_kind k l && (name == j) then some c else fast_path l j r)
  found-insert counter_kind counter_kind name j c reg r = lookup-insert name j c r.counters
  found-insert gauge_kind gauge_kind name j c reg r = lookup-insert name j c r.gauges
  found-insert histogram_kind histogram_kind name j c reg r = lookup-insert name j c r.histograms
  found-insert counter_kind gauge_kind name j c reg r = refl
  found-insert counter_kind histogram_kind name j c reg r = refl
  found-insert gauge_kind counter_kind name j c reg r = refl
  found-insert gauge_kind histogram_kind name j c reg r = refl
  found-insert histogram_kind counter_kind name j c reg r = refl
  found-insert histogram_kind gauge_kind name j c reg r = refl

  -- What a call finds under every kind and name, when it registers a collector.
  pub found-register :
      (k l : Kind) (name j : String) (c : Collector) (reg : Reg) (r : Registry Reg Collector)
      → prom.must_register r.prom_reg c ≡ some reg
      → fast_path l j (register prom k name c r).0
        ≡ (if same_kind k l && (name == j) then some c else fast_path l j r)
  found-register k l name j c reg r e =
      ap (λ (o : Registry Reg Collector × Option Collector). fast_path l j o.0)
        (register-done k name c reg r e)
      ∙ found-insert k l name j c reg r

  pub found-panic :
      (k l : Kind) (name j : String) (c : Collector) (r : Registry Reg Collector)
      → prom.must_register r.prom_reg c ≡ none
      → fast_path l j (register prom k name c r).0 ≡ fast_path l j r
  found-panic k l name j c r e =
      ap (λ (o : Registry Reg Collector × Option Collector). fast_path l j o.0)
        (register-panic k name c r e)
      ∙ found-made l j r

  -- A call that found its handle, or registers one, or panics.
  pub data Outcome (c : Call Float) (r : Registry Reg Collector) : Type 0 where
    found :
        (h : Collector)
        → fast_path (call_kind c) (call_name c) r ≡ some h
        → call prom c r ≡ (r, some h)
        → Outcome c r
    fresh :
        (reg : Reg)
        → fast_path (call_kind c) (call_name c) r ≡ none
        → prom.must_register r.prom_reg (call_make prom c r.made) ≡ some reg
        → call prom c r ≡ register prom (call_kind c) (call_name c) (call_make prom c r.made) r
        → Outcome c r
    panic :
        fast_path (call_kind c) (call_name c) r ≡ none
        → prom.must_register r.prom_reg (call_make prom c r.made) ≡ none
        → call prom c r ≡ register prom (call_kind c) (call_name c) (call_make prom c r.made) r
        → Outcome c r

  whole-missed :
      (c : Call Float) (r : Registry Reg Collector)
      → fast_path (call_kind c) (call_name c) r ≡ none
      → whole prom c r ≡ register prom (call_kind c) (call_name c) (call_make prom c r.made) r
  unfolding get_or_create slow_path
  whole-missed c r e = ground (arith, e)

  pub outcome : (c : Call Float) (r : Registry Reg Collector) → Outcome c r
  outcome c r = elim (Option-cases (fast_path (call_kind c) (call_name c) r)) [
    | inr (h, e) ↦ found h e (call-whole prom c r ∙ whole-found prom c h r e)
    | inl e ↦ elim (Option-cases (prom.must_register r.prom_reg (call_make prom c r.made))) [
      | inl f ↦ panic e f (call-whole prom c r ∙ whole-missed c r e)
      | inr (reg, f) ↦ fresh reg e f (call-whole prom c r ∙ whole-missed c r e)
    ]
  ]

  -- A handle stays, whatever is called.
  pub found-call :
      (c : Call Float) (r : Registry Reg Collector) (k : Kind) (j : String) (h : Collector)
      → fast_path k j r ≡ some h
      → fast_path k j (call prom c r).0 ≡ some h
  found-call c r k j h e = elim (outcome c r) [
    | found g f q ↦ ap (λ (o : Registry Reg Collector × Option Collector). fast_path k j o.0) q ∙ e
    | fresh reg f m q ↦
        ap (λ (o : Registry Reg Collector × Option Collector). fast_path k j o.0) q
        ∙ found-register (call_kind c) k (call_name c) j (call_make prom c r.made) reg r m
        ∙ not_mine f
    | panic f m q ↦
        ap (λ (o : Registry Reg Collector × Option Collector). fast_path k j o.0) q
        ∙ found-panic (call_kind c) k (call_name c) j (call_make prom c r.made) r m
        ∙ e
  ]
    where
      not_mine :
          fast_path (call_kind c) (call_name c) r ≡ none
          → (if same_kind (call_kind c) k && (call_name c == j)
              then some (call_make prom c r.made)
              else fast_path k j r)
            ≡ some h
      not_mine f = elim (Bool-cases (same_kind (call_kind c) k && (call_name c == j))) [
        | inr other ↦ rw other e
        | inl same ↦ absurd (clash (sym (same_found (call_kind c) k (call_name c) j r same) ∙ f) e)
      ]

  pub found-call_all :
      (cs : List (Call Float)) (r : Registry Reg Collector) (k : Kind) (j : String) (h : Collector)
      → fast_path k j r ≡ some h
      → fast_path k j (call_all prom cs r) ≡ some h
  found-call_all [] r k j h e = e
  found-call_all (c ∷ cs) r k j h e =
      found-call_all cs (call prom c r).0 k j h (found-call c r k j h e)

  -- What a call returned stands under its kind and name.
  pub call-found :
      (c : Call Float) (r : Registry Reg Collector) (h : Collector)
      → (call prom c r).1 ≡ some h
      → fast_path (call_kind c) (call_name c) (call prom c r).0 ≡ some h
  call-found c r h e = elim (outcome c r) [
    | found g f q ↦ ap (λ (o : Returned). own o.0) q ∙ f ∙ sym (ap (λ (o : Returned). o.1) q) ∙ e
    | fresh reg f m q ↦
        ap (λ (o : Returned). own o.0) q
        ∙ found-register (call_kind c) (call_kind c) (call_name c) (call_name c) made reg r m
        ∙ rw (mine (call_kind c) (call_name c)) refl
        ∙ sym (ap (λ (o : Returned). o.1) (q ∙ register-done _ _ made reg r m))
        ∙ e
    | panic f m q ↦ absurd (clash (ap (λ (o : Returned). o.1) (q ∙ register-panic _ _ made r m)) e)
  ]
    where
      Returned : Type 0
      Returned = Registry Reg Collector × Option Collector

      own : Registry Reg Collector → Option Collector
      own = fast_path (call_kind c) (call_name c)

      made : Collector
      made = call_make prom c r.made

  -- A call that returned a handle returns the same one ever after, and changes nothing then: to
  -- every later call of the same kind and name, with any help text and buckets, whatever was called
  -- in between.
  pub call-stable :
      (c d : Call Float) (cs : List (Call Float)) (r : Registry Reg Collector) (h : Collector)
      → call_kind d ≡ call_kind c
      → call_name d ≡ call_name c
      → (call prom c r).1 ≡ some h
      → let r' = call_all prom cs (call prom c r).0 in call prom d r' ≡ (r', some h)
  call-stable c d cs r h k n e =
      let r' = call_all prom cs (call prom c r).0 in
      let there : fast_path (call_kind c) (call_name c) r' ≡ some h =
        found-call_all cs _ _ _ h (call-found c r h e) in
      call-whole prom d r'
      ∙ whole-found prom d h r' (ap₂ (λ (m : Kind) (i : String). fast_path m i r') k n ∙ there)
