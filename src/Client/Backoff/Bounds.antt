-- ===== src/Client/Backoff/Bounds.antt =====
-- The backoff of knet/client.go stays between its bounds and does not fall.
use kinz.Base.{
  ℕ, zero, suc, ◌≤◌, ◌≡◌, Bool-cases, false, List, inl, inr, ℤ, min, if◌then◌else◌, arith,
}
use kinz.Client.Backoff.{
  Floats, FloatLaws, exact_limit, ReconnectPolicy, default_reconnect, backoff_loop, backoff_value,
  with_all, IsSound, with_default-IsSound,
}

module _ {F : Type 0} (fl : Floats F) (law : FloatLaws fl) (p : ReconnectPolicy F)
    (v : IsSound fl law p) (initial_exact : p.initial ≤ exact_limit)
    (max_exact : p.max ≤ exact_limit) where
  abbrev Below : F → F → Type 0
  Below x y = fl.lt y x ≡ false

  abbrev start : F
  start = fl.of_duration p.initial

  abbrev limit : F
  limit = fl.of_duration p.max

  abbrev capped : F → F
  capped x = if fl.lt limit x then limit else x

  trans : (x y z : F) → Below x y → Below y z → Below x z
  trans x y z h k = law.not_below_trans x y z h k

  mul_up : (x : F) → Below start x → Below x (fl.mul x p.multiplier)
  mul_up x h = law.mul_grows p.initial x p.multiplier v.initial_positive h v.multiplier_above

  loop_up : (n : ℕ) (x : F) → Below start x → Below x (backoff_loop fl p n x)
  unfolding backoff_loop
  loop_up zero x h = law.not_below_refl x
  loop_up (suc n) x h = elim (Bool-cases (fl.lt x limit)) [
    | inl less ↦
        let y = fl.mul x p.multiplier in
        rw less (trans x y _ (mul_up x h) (loop_up n y (trans start x y h (mul_up x h))))
    | inr done ↦ rw done (law.not_below_refl x)
  ]

  loop_grows :
      (n : ℕ) (x : F) → Below start x → Below (backoff_loop fl p n x) (backoff_loop fl p (suc n) x)
  unfolding backoff_loop
  loop_grows zero x h = loop_up 1 x h
  loop_grows (suc n) x h = elim (Bool-cases (fl.lt x limit)) [
    | inl less ↦ rw less (loop_grows n (fl.mul x p.multiplier) (trans start x _ h (mul_up x h)))
    | inr done ↦ rw done (law.not_below_refl x)
  ]

  capped-Below : (x : F) → Below (capped x) limit
  capped-Below x = elim (Bool-cases (fl.lt limit x)) [
    | inl over ↦ rw over (law.not_below_refl limit)
    | inr under ↦ rw under under
  ]

  capped_grows : (x y : F) → Below x y → Below (capped x) (capped y)
  capped_grows x y h = elim (Bool-cases (fl.lt limit y)) [
    | inl over ↦ rw over (capped-Below x)
    | inr under ↦ rw (under, trans x y limit h under) h
  ]

  capped_up : (x : F) → Below start x → min p.initial p.max ≤ fl.to_duration (capped x)
  capped_up x h = elim (Bool-cases (fl.lt limit x)) [
    | inl over ↦ rw over (omega (arith, law.to_of p.max max_exact))
    | inr under ↦ rw under (
        omega (
          arith,
          law.to_of p.initial initial_exact,
          law.to_monotone p.max start x max_exact under h,
        ))
  ]

  value_up : (n : ℕ) → min p.initial p.max ≤ backoff_value fl p n
  unfolding backoff_value
  value_up n = capped_up (backoff_loop fl p n start) (loop_up n start (law.not_below_refl start))

  value_down : (n : ℕ) → backoff_value fl p n ≤ p.max
  unfolding backoff_value
  value_down n = omega (
    arith,
    law.to_of p.max max_exact,
    law.to_monotone p.max _ limit max_exact (law.not_below_refl limit)
        (capped-Below (backoff_loop fl p n start)),
  )

  value_grows : (n : ℕ) → backoff_value fl p n ≤ backoff_value fl p (suc n)
  unfolding backoff_value
  value_grows n =
      law.to_monotone p.max _ _ max_exact (capped-Below (backoff_loop fl p (suc n) start))
        (capped_grows _ _ (loop_grows n start (law.not_below_refl start)))

module _ {F : Type 0} (fl : Floats F) (law : FloatLaws fl) where
  abbrev policy : List (ℤ × ℤ × F) → ReconnectPolicy F
  policy opts = with_all fl opts (default_reconnect fl)

  -- Whatever WithReconnect options a client is made with, if its initial and maximal delay are at
  -- most 2 ^ 53 nanoseconds, the backoff before every attempt is at least the smaller of the initial and the maximal delay of its policy, at most the maximal one,
  -- and not shorter than before the previous attempt.
  pub backoff_bounds :
      (opts : List (ℤ × ℤ × F)) (n : ℕ)
      → (policy opts).initial ≤ exact_limit
      → (policy opts).max ≤ exact_limit
      → (min (policy opts).initial (policy opts).max ≤ backoff_value fl (policy opts) n)
        × (backoff_value fl (policy opts) n ≤ (policy opts).max)
        × (backoff_value fl (policy opts) n ≤ backoff_value fl (policy opts) (suc n))
  backoff_bounds opts n i m =
      let p = policy opts in
      let v = with_default-IsSound fl law opts in
      (value_up fl law p v i m n, value_down fl law p v i m n, value_grows fl law p v i m n)
