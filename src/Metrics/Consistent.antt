-- ===== src/Metrics/Consistent.antt =====
-- When the calls of kmetrics/registry.go return: while every name is used for one kind.
use kinz.Base.{
  ◌≡◌, sym, ap, ap₂, ◌∙◌, Bool, Bool-cases, true, false, ◌||◌, List, [], ◌∷◌, Option, none, some,
  inl, inr, String, All, arith,
}
use text.Mathlib.Text.{◌==◌}
use text.Mathlib.TextEquality.{eq_iff}
use kinz.Metrics.{
  Prometheus, Registry, new_registry, Kind, fast_path, Call, call_kind, call_name, call_make, call,
  call_all,
}
use kinz.Metrics.Handles.{
  outcome, found, fresh, panic, found-call, call-found, register-done, clash,
}
use kinz.Metrics.Clashes.{
  Registers, Returned, IsValid, new_registry-IsValid, call-IsValid, register-has,
}

pub or_false : (a b : Bool) → a ≡ false → (a || b) ≡ b
or_false a b e = ground (arith, e)

module _ {Reg Collector Float : Type 0} (prom : Prometheus Reg Collector Float)
    (law : Registers prom) (kinds : String → Kind) where
  -- A call that uses a valid name for the kind of that name.
  abbrev pub Agrees : Call Float → Type 0
  Agrees c = (call_kind c ≡ kinds (call_name c)) × (law.valid (call_name c) ≡ true)

  -- Each name that is registered is found under its kind.
  pub record IsBacked (r : Registry Reg Collector) : Type 0 where
    pub is_valid : IsValid prom law r
    pub backed :
        (j : String)
        → law.has r.prom_reg j ≡ true
        → (h : Collector) × (fast_path (kinds j) j r ≡ some h)

  pub new_registry-IsBacked : IsBacked (new_registry prom)
  new_registry-IsBacked = record {
    is_valid = new_registry-IsValid prom law;
    backed = λ j e. absurd (true_false (sym e ∙ law.new j));
  }
    where
      true_false : true ≡ false → ⊥
      true_false e = cc

  module _ (c : Call Float) (agrees : Agrees c) (r : Registry Reg Collector) (b : IsBacked r) where
    abbrev own : Option Collector
    own = fast_path (call_kind c) (call_name c) r

    -- A name that is not found is not registered, so that registering it succeeds.
    not_known : own ≡ none → law.has r.prom_reg (call_name c) ≡ false
    not_known e = elim (Bool-cases (law.has r.prom_reg (call_name c))) [
      | inr other ↦ other
      | inl known ↦
          let (h, f) = b.backed (call_name c) known in
          absurd (clash (ap (λ (k : Kind). fast_path k (call_name c) r) (sym agrees.0) ∙ e) f)
    ]

    no_panic : own ≡ none → prom.must_register r.prom_reg (call_make prom c r.made) ≡ none → ⊥
    no_panic e m =
        let name = law.named c r.made in
        clash m (
          law.takes r.prom_reg (call_make prom c r.made)
            (ap (law.has r.prom_reg) name ∙ not_known e) (ap law.valid name ∙ agrees.1))

    pub call-returns : (h : Collector) × ((call prom c r).1 ≡ some h)
    call-returns = elim (outcome prom c r) [
      | found h f q ↦ (h, ap (λ (o : Returned Reg Collector). o.1) q)
      | fresh reg f m q ↦ (
        call_make prom c r.made,
        ap (λ (o : Returned Reg Collector). o.1) (q ∙ register-done prom _ _ _ reg r m),
      )
      | panic f m q ↦ absurd (no_panic f m)
    ]

    old :
        (j : String)
        → law.has r.prom_reg j ≡ true
        → (h : Collector) × (fast_path (kinds j) j (call prom c r).0 ≡ some h)
    old j e = let (h, f) = b.backed j e in (h, found-call prom c r (kinds j) j h f)

    mine :
        (j : String)
        → call_name c ≡ j
        → (h : Collector) × (fast_path (kinds j) j (call prom c r).0 ≡ some h)
    mine j e =
        let (h, f) = call-returns in
        let r' = (call prom c r).0 in
        (
          h,
          ap₂ (λ (k : Kind) (i : String). fast_path k i r') (sym (agrees.0 ∙ ap kinds e)) (sym e)
              ∙ call-found prom c r h f,
        )

    stays :
        (j : String)
        → law.has (call prom c r).0.prom_reg j ≡ true
        → (h : Collector) × (fast_path (kinds j) j (call prom c r).0 ≡ some h)
    stays j e = elim (outcome prom c r) [
      | found h f q ↦
          old j (sym (ap (λ (o : Returned Reg Collector). law.has o.0.prom_reg j) q) ∙ e)
      | fresh reg f m q ↦ elim (Bool-cases (call_name c == j)) [
        | inl same ↦ mine j ((eq_iff (call_name c) j).0 same)
        | inr other ↦ old j (
            sym (or_false _ _ other)
            ∙ sym (register-has prom law c reg r b.is_valid m j)
            ∙ sym (ap (λ (o : Returned Reg Collector). law.has o.0.prom_reg j) q)
            ∙ e)
      ]
      | panic f m q ↦ absurd (no_panic f m)
    ]

  pub call-IsBacked :
      (c : Call Float)
      → Agrees c
      → (r : Registry Reg Collector) → IsBacked r
      → IsBacked (call prom c r).0
  call-IsBacked c agrees r b = record {
    is_valid = call-IsValid prom law c r b.is_valid;
    backed = stays c agrees r b;
  }

  pub call_all-IsBacked :
      (cs : List (Call Float))
      → All Agrees cs
      → (r : Registry Reg Collector) → IsBacked r
      → IsBacked (call_all prom cs r)
  call_all-IsBacked [] a r b = b
  call_all-IsBacked (c ∷ cs) a r b =
      call_all-IsBacked cs a.1 (call prom c r).0 (call-IsBacked c a.0 r b)
