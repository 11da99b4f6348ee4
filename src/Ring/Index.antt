-- ===== src/Ring/Index.antt =====
-- The index arithmetic of klog/ringbuffer.go, modulo the capacity.
use kinz.Base.{ℕ, ◌+◌, ◌%◌, ◌≤◌, ◌<◌, ◌≡◌, ◌≢◌, ap, arith}
use native.Mathlib.Nat.{mod-add-mod}

module _ (cap s i j : ℕ) where
  -- Two offsets less than a round apart have different places.
  pub place_ne : s < cap → i < j → j < i + cap → j ≤ cap → (s + j) % cap ≢ (s + i) % cap
  place_ne h lt near le e = grind arith

  pub place_lt : s < cap → (s + i) % cap < cap
  place_lt h = omega arith

  -- Starting one place further on is the offset one higher.
  pub place_next : s < cap → i ≤ cap → ((s + 1) % cap + i) % cap ≡ (s + (i + 1)) % cap
  place_next h le = rw mod-add-mod (ap (λ (k : ℕ). k % cap) (omega arith))

  -- A whole round comes back.
  pub place_round : s < cap → i ≡ cap → (s + i) % cap ≡ s
  place_round h e = grind arith

pub place_ne_self : (cap s k : ℕ) → s < cap → 0 < k → k < cap → (s + k) % cap ≢ s
place_ne_self cap s k h lo hi e = grind arith
