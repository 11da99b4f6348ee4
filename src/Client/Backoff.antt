-- ===== src/Client/Backoff.antt =====
-- The backoff of knet/client.go: `backoffValue`, `delay`, `WithReconnect`.
-- Durations are nanoseconds, which the code keeps positive. Floating-point numbers are a parameter,
-- `Floats`, and `FloatLaws` is what the code relies on: what IEEE 754 says of numbers that are not
-- NaN, and of durations up to 2 ^ 53 nanoseconds (104 days), which a float64 holds exactly. The child
-- Bounds has the bounds of the backoff.
pub mod Bounds
use kinz.Base.{
  ℕ, zero, suc, ◌≤◌, ◌<◌, ◌≡◌, refl, sym, ap, ◌∙◌, Bool, Bool-cases, true, false, List, [], ◌∷◌,
  inl, inr, ℤ, pos, negsuc, ltb, min, if◌then◌else◌, arith,
}

pub record Floats (F : Type 0) : Type 0 where
  pub lt : F → F → Bool
  pub mul : F → F → F
  pub add : F → F → F
  pub one : F
  pub two : F
  pub half : F
  pub of_duration : ℕ → F
  pub to_duration : F → ℕ

-- The largest number below which a float64 holds every natural number.
abbrev pub exact_limit : ℕ
exact_limit = 9007199254740992

-- `multiplier` is above 1, and no product of the backoff is below what is multiplied.
pub record FloatLaws {F : Type 0} (fl : Floats F) : Type 0 where
  pub two_above : fl.lt fl.one fl.two ≡ true
  pub not_below_refl : (x : F) → fl.lt x x ≡ false
  pub not_below_trans : (x y z : F) → fl.lt y x ≡ false → fl.lt z y ≡ false → fl.lt z x ≡ false
  pub below_not_above : (x y : F) → fl.lt x y ≡ true → fl.lt y x ≡ false
  pub mul_grows :
      (d : ℕ) (x m : F)
      → 0 < d
      → fl.lt x (fl.of_duration d) ≡ false
      → fl.lt fl.one m ≡ true
      → fl.lt (fl.mul x m) x ≡ false
  pub to_of : (d : ℕ) → d ≤ exact_limit → fl.to_duration (fl.of_duration d) ≡ d
  pub to_monotone :
      (d : ℕ) (x y : F)
      → d ≤ exact_limit
      → fl.lt (fl.of_duration d) y ≡ false
      → fl.lt y x ≡ false
      → fl.to_duration x ≤ fl.to_duration y

pub record ReconnectPolicy (F : Type 0) : Type 0 where
  pub initial : ℕ
  pub max : ℕ
  pub multiplier : F

module _ {F : Type 0} (fl : Floats F) where
  unfoldable pub default_reconnect : ReconnectPolicy F
  default_reconnect = record { initial = 500000000; max = 5000000000; multiplier = fl.two }

  -- The loop of `backoffValue` with `n` rounds left.
  unfoldable pub backoff_loop : ReconnectPolicy F → ℕ → F → F
  backoff_loop p zero d = d
  backoff_loop p (suc n) d =
      let rest = backoff_loop p n (fl.mul d p.multiplier) in
      if fl.lt d (fl.of_duration p.max) then rest else d

  unfoldable pub backoff_value : ReconnectPolicy F → ℕ → ℕ
  unfolding backoff_loop
  backoff_value p attempt =
      let d = backoff_loop p attempt (fl.of_duration p.initial) in
      fl.to_duration (if fl.lt (fl.of_duration p.max) d then fl.of_duration p.max else d)

  -- `delay`, with what `rand.Float64()` returned.
  unfoldable pub delay : ReconnectPolicy F → ℕ → F → ℕ
  unfolding backoff_value
  delay p attempt random =
      fl.to_duration
        (fl.mul (fl.of_duration (backoff_value p attempt)) (fl.add fl.half (fl.mul random fl.half)))

  abbrev pub positive_or : ℕ → ℤ → ℕ
  positive_or old (pos zero) = old
  positive_or old (pos (suc n)) = suc n
  positive_or old (negsuc n) = old

  -- `WithReconnect`.
  unfoldable pub with_reconnect : ℤ → ℤ → F → ReconnectPolicy F → ReconnectPolicy F
  with_reconnect initial max multiplier p = record {
    initial = positive_or p.initial initial;
    max = positive_or p.max max;
    multiplier = if fl.lt fl.one multiplier then multiplier else p.multiplier;
  }

  -- The policy of a client made with some `WithReconnect` options.
  abbrev pub with_all : List (ℤ × ℤ × F) → ReconnectPolicy F → ReconnectPolicy F
  with_all [] p = p
  with_all ((initial, max, multiplier) ∷ opts) p =
      with_all opts (with_reconnect initial max multiplier p)

module _ {F : Type 0} (fl : Floats F) (law : FloatLaws fl) where
  pub record IsSound (p : ReconnectPolicy F) : Type 0 where
    pub initial_positive : 0 < p.initial
    pub max_positive : 0 < p.max
    pub multiplier_above : fl.lt fl.one p.multiplier ≡ true

  positive_or-positive : (old : ℕ) (n : ℤ) → 0 < old → 0 < positive_or fl old n
  positive_or-positive old (pos zero) h = h
  positive_or-positive old (pos (suc n)) h = omega arith
  positive_or-positive old (negsuc n) h = h

  with_reconnect-IsSound :
      (initial max : ℤ) (m : F) (p : ReconnectPolicy F)
      → IsSound p
      → IsSound (with_reconnect fl initial max m p)
  unfolding with_reconnect
  with_reconnect-IsSound initial max m p v = record {
    initial_positive = positive_or-positive p.initial initial v.initial_positive;
    max_positive = positive_or-positive p.max max v.max_positive;
    multiplier_above = elim (Bool-cases (fl.lt fl.one m)) [
      | inl above ↦ rw above above
      | inr other ↦ rw other v.multiplier_above
    ];
  }

  with_all-IsSound :
      (opts : List (ℤ × ℤ × F)) (p : ReconnectPolicy F) → IsSound p → IsSound (with_all fl opts p)
  with_all-IsSound [] p v = v
  with_all-IsSound ((initial, max, m) ∷ opts) p v =
      with_all-IsSound opts _ (with_reconnect-IsSound initial max m p v)

  default_reconnect-IsSound : IsSound (default_reconnect fl)
  unfolding default_reconnect
  default_reconnect-IsSound = record {
    initial_positive = omega arith;
    max_positive = omega arith;
    multiplier_above = law.two_above;
  }

  pub with_default-IsSound :
      (opts : List (ℤ × ℤ × F)) → IsSound (with_all fl opts (default_reconnect fl))
  with_default-IsSound opts = with_all-IsSound opts _ default_reconnect-IsSound
