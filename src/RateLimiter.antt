-- ===== src/RateLimiter.antt =====
-- pkg/ratelimiter/ratelimiter.go. An instant is a number of nanoseconds since the zero time of Go, a
-- duration a number of nanoseconds. Every method holds the lock from its first line to its last, so
-- a method is one step.
pub mod Spacing
pub mod Requeues
use k8s_athenz_syncer.Common.{
  ℕ, ◌+◌, ◌-◌, List, [], ◌∷◌, Option, none, some, Eq, ltb, if◌then◌else◌,
}
use k8s_athenz_syncer.GoMap.{GoMap, lookup, insert, erase}

pub record RateLimiter {ℓ} (K : Type ℓ) : Type ℓ where
  pub failures : GoMap K ℕ
  pub current_delay : ℕ
  pub delay_interval : ℕ

-- The second argument is the clock at the time of the call.
unfoldable pub new_rate_limiter {ℓ} : {K : Type ℓ} → ℕ → ℕ → RateLimiter K
new_rate_limiter delay_interval now = record {
  failures = [];
  current_delay = now - delay_interval;
  delay_interval = delay_interval;
}

module _ {ℓ} {K : Type ℓ} ⦃e : Eq K⦄ where
  -- A missing key reads as 0.
  unfoldable pub num_requeues : RateLimiter K → K → ℕ
  num_requeues r item = elim (lookup r.failures item) [ some n ↦ n | none ↦ 0 ]

  unfoldable pub when : RateLimiter K → K → ℕ → RateLimiter K × ℕ
  when r item now =
      let failures = insert r.failures item (num_requeues r item + 1) in
      let new_delay = r.current_delay + r.delay_interval in
      if ltb new_delay now
      then (record r { failures = failures; current_delay = now }, 0)
      else (record r { failures = failures; current_delay = new_delay }, new_delay - now)

  unfoldable pub forget : RateLimiter K → K → RateLimiter K
  forget r item = record r { failures = erase r.failures item }
