-- ===== src/Metrics/Clashes.antt =====
-- When a call of kmetrics/registry.go panics: a name that is used for two kinds.
use kinz.Base.{
  ℕ, ◌+◌, ◌≡◌, ◌≢◌, refl, sym, ap, subst, ◌∙◌, Bool, Bool-cases, true, false, ◌&&◌, ◌||◌, List, [],
  ◌∷◌, Option, none, some, inl, inr, String, ◌⊎◌, if_false, arith,
}
use text.Mathlib.Text.{◌==◌}
use text.Mathlib.TextEquality.{eq_iff}
use kinz.Metrics.{
  Prometheus, Registry, new_registry, Kind, counter_kind, gauge_kind, histogram_kind, set_handles,
  fast_path, register, Call, call_kind, call_name, call_make, call, call_all,
}
use kinz.Metrics.Handles.{
  outcome, found, fresh, panic, found-register, found-made, register-done, register-panic,
  found-call_all, call-found, same_kind, same_kind-eq, both_true, clash,
}

-- What prometheus documents of registration: a registry has each name once, and takes a collector
-- whose name it does not have and that is valid; a new registry has no names.
pub record Registers {Reg Collector Float : Type 0} (prom : Prometheus Reg Collector Float)
    : Type 0 where
  pub has : Reg → String → Bool
  pub name_of : Collector → String
  pub valid : String → Bool
  pub after : Reg → Collector → Reg
  pub new : (j : String) → has prom.new_registry j ≡ false
  pub named : (c : Call Float) (n : ℕ) → name_of (call_make prom c n) ≡ call_name c
  pub taken :
      (reg : Reg) (c : Collector) → has reg (name_of c) ≡ true → prom.must_register reg c ≡ none
  pub takes :
      (reg : Reg) (c : Collector)
      → has reg (name_of c) ≡ false
      → valid (name_of c) ≡ true
      → prom.must_register reg c ≡ some (after reg c)
  pub registered :
      (reg reg' : Reg) (c : Collector) (j : String)
      → prom.must_register reg c ≡ some reg'
      → has reg' j ≡ ((name_of c == j) || has reg j)

prom_reg-set :
    {Reg Collector : Type 0} (k : Kind) (m : List (String × Collector)) (r : Registry Reg Collector)
    → (set_handles k m r).prom_reg ≡ r.prom_reg
prom_reg-set counter_kind m r = refl
prom_reg-set gauge_kind m r = refl
prom_reg-set histogram_kind m r = refl

or_true : (a : Bool) → (a || true) ≡ true
or_true true = refl
or_true false = refl

abbrev pub Returned : Type 0 → Type 0 → Type 0
Returned Reg Collector = Registry Reg Collector × Option Collector

module _ {Reg Collector Float : Type 0} (prom : Prometheus Reg Collector Float)
    (law : Registers prom) where
  -- A name that is found is registered, under one kind.
  pub record IsValid (r : Registry Reg Collector) : Type 0 where
    pub known :
        (k : Kind) (j : String) (h : Collector)
        → fast_path k j r ≡ some h
        → law.has r.prom_reg j ≡ true
    pub one_kind :
        (k l : Kind) (j : String) (h g : Collector)
        → fast_path k j r ≡ some h
        → fast_path l j r ≡ some g
        → k ≡ l

  pub new_registry-IsValid : IsValid (new_registry prom)
  new_registry-IsValid = record {
    known = λ k j h e. absurd (clash (nothing k j) e);
    one_kind = λ k l j h g e f. absurd (clash (nothing k j) e);
  }
    where
      nothing : (k : Kind) (j : String) → fast_path k j (new_registry prom) ≡ none
      nothing k j = ground arith

  module _ (c : Call Float) (reg : Reg) (r : Registry Reg Collector) (v : IsValid r)
      (m : prom.must_register r.prom_reg (call_make prom c r.made) ≡ some reg) where
    abbrev made : Collector
    made = call_make prom c r.made

    abbrev after_it : Registry Reg Collector
    after_it = (register prom (call_kind c) (call_name c) made r).0

    -- What is found afterwards was made now, or was there.
    found-cases :
        (k : Kind) (j : String) (h : Collector)
        → fast_path k j after_it ≡ some h
        → ((call_kind c ≡ k) × (call_name c ≡ j)) ⊎ (fast_path k j r ≡ some h)
    found-cases k j h e =
        let q = sym (found-register prom (call_kind c) k (call_name c) j made reg r m) ∙ e in
        elim (Bool-cases (same_kind (call_kind c) k && (call_name c == j))) [
          | inl same ↦
              let b = both_true _ _ same in
              inl (same_kind-eq (call_kind c) k b.0, (eq_iff (call_name c) j).0 b.1)
          | inr other ↦ inr (sym (if_false _ _ _ other) ∙ q)
        ]

    not_before : law.has r.prom_reg (call_name c) ≡ true → ⊥
    not_before e =
        clash (law.taken r.prom_reg made (ap (law.has r.prom_reg) (law.named c r.made) ∙ e)) m

    pub register-has :
        (j : String) → law.has after_it.prom_reg j ≡ ((call_name c == j) || law.has r.prom_reg j)
    register-has j =
        ap (λ (g : Reg). law.has g j)
          (ap (λ (o : Returned Reg Collector). o.0.prom_reg) (register-done prom _ _ made reg r m)
            ∙ prom_reg-set (call_kind c) _ _)
        ∙ law.registered r.prom_reg reg made j m
        ∙ ap (λ (n : String). (n == j) || law.has r.prom_reg j) (law.named c r.made)

    register-IsValid : IsValid after_it
    register-IsValid = record {
      known = λ k j h e. register-has j ∙ elim (found-cases k j h e) [
        | inl same ↦ rw ((eq_iff (call_name c) j).1 same.1) refl
        | inr old ↦ rw (v.known k j h old) (or_true (call_name c == j))
      ];
      one_kind = λ k l j h g e f. elim (found-cases k j h e) [
        | inl same ↦ elim (found-cases l j g f) [
          | inl same' ↦ sym same.0 ∙ same'.0
          | inr old ↦ absurd (not_before (ap (law.has r.prom_reg) same.1 ∙ v.known l j g old))
        ]
        | inr old ↦ elim (found-cases l j g f) [
          | inl same ↦ absurd (not_before (ap (law.has r.prom_reg) same.1 ∙ v.known k j h old))
          | inr old' ↦ v.one_kind k l j h g old old'
        ]
      ];
    }

  made-IsValid : (r : Registry Reg Collector) → IsValid r → IsValid (record r { made = r.made + 1 })
  made-IsValid r v = record {
    known = λ k j h e. v.known k j h (sym (same k j) ∙ e);
    one_kind = λ k l j h g e f. v.one_kind k l j h g (sym (same k j) ∙ e) (sym (same l j) ∙ f);
  }
    where
      same :
          (k : Kind) (j : String) → fast_path k j (record r { made = r.made + 1 }) ≡ fast_path k j r
      same k j = found-made k j r

  pub call-IsValid :
      (c : Call Float) (r : Registry Reg Collector) → IsValid r → IsValid (call prom c r).0
  call-IsValid c r v = elim (outcome prom c r) [
    | found h f q ↦ subst (λ (o : Returned Reg Collector). IsValid o.0) (sym q) v
    | fresh reg f m q ↦
        subst (λ (o : Returned Reg Collector). IsValid o.0) (sym q) (register-IsValid c reg r v m)
    | panic f m q ↦
        subst (λ (o : Returned Reg Collector). IsValid o.0)
          (sym (q ∙ register-panic prom _ _ _ r m)) (made-IsValid r v)
  ]

  pub call_all-IsValid :
      (cs : List (Call Float)) (r : Registry Reg Collector)
      → IsValid r
      → IsValid (call_all prom cs r)
  call_all-IsValid [] r v = v
  call_all-IsValid (c ∷ cs) r v = call_all-IsValid cs (call prom c r).0 (call-IsValid c r v)

  -- What a call finds whose name is registered under another kind.
  other_kind :
      (c : Call Float) (k : Kind) (h : Collector) (r : Registry Reg Collector)
      → IsValid r
      → fast_path k (call_name c) r ≡ some h
      → call_kind c ≢ k
      → call prom c r ≡ (record r { made = r.made + 1 }, none)
  other_kind c k h r v e ne = elim (outcome prom c r) [
    | found g f q ↦ absurd (ne (v.one_kind (call_kind c) k (call_name c) g h f e))
    | fresh reg f m q ↦ absurd (not_before c reg r v m (v.known k (call_name c) h e))
    | panic f m q ↦ q ∙ register-panic prom _ _ _ r m
  ]

  -- A registry on which `cs`, then `c`, then `ds` were called.
  abbrev later : List (Call Float) → Call Float → List (Call Float) → Registry Reg Collector
  later cs c ds = call_all prom ds (call prom c (call_all prom cs (new_registry prom))).0

  -- After any calls on a new registry: once a call has returned a handle for a name, every later
  -- call that wants the same name as another kind panics, whatever is called in between, and
  -- leaves all handles and what is registered as they are.
  pub clash_panics :
      (cs ds : List (Call Float)) (c d : Call Float) (h : Collector)
      → (call prom c (call_all prom cs (new_registry prom))).1 ≡ some h
      → call_name d ≡ call_name c
      → call_kind d ≢ call_kind c
      → call prom d (later cs c ds)
        ≡ (record (later cs c ds) { made = (later cs c ds).made + 1 }, none)
  clash_panics cs ds c d h e n ne =
      let r = call_all prom cs (new_registry prom) in
      let r' = later cs c ds in
      let v =
        call_all-IsValid (ds) (call prom c r).0
          (call-IsValid c r (call_all-IsValid cs (new_registry prom) new_registry-IsValid)) in
      other_kind d (call_kind c) h r' v
        (ap (λ (i : String). fast_path (call_kind c) i r') n
          ∙ found-call_all prom ds _ _ _ h (call-found prom c r h e))
        ne
