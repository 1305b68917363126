-- ===== src/RateLimiter/Spacing.antt =====
-- When the items that pass the limiter are released.
use k8s_athenz_syncer.Common.{ℕ, ◌+◌, ◌-◌, ◌≤◌, ◌≡◌, refl, List, [], ◌∷◌, map, arith, Eq}
use Prim.Native.Nat.{max}
use k8s_athenz_syncer.RateLimiter.{RateLimiter, new_rate_limiter, when}

-- Each instant comes at least `d` after the one before it, the first after `from`.
abbrev pub IsSpaced : ℕ → ℕ → List ℕ → Type 0
IsSpaced d from [] = Unit
IsSpaced d from (t ∷ ts) = (from + d ≤ t) × IsSpaced d t ts

-- The reference: an item that arrives at an instant is released at once, or one interval after the
-- item before it.
abbrev pub schedule : ℕ → ℕ → List ℕ → List ℕ
schedule d from [] = []
schedule d from (now ∷ arrivals) = max now (from + d) ∷ schedule d (max now (from + d)) arrivals

schedule-IsSpaced : (d from : ℕ) (arrivals : List ℕ) → IsSpaced d from (schedule d from arrivals)
schedule-IsSpaced d from [] = tt
schedule-IsSpaced d from (now ∷ arrivals) =
    (omega arith, schedule-IsSpaced d (max now (from + d)) arrivals)

module _ {ℓ} {K : Type ℓ} ⦃e : Eq K⦄ where
  -- The instants at which a sequence of calls, each an item and the clock, releases its items.
  abbrev pub releases : RateLimiter K → List (K × ℕ) → List ℕ
  releases r [] = []
  releases r ((item, now) ∷ calls) =
      (now + (when r item now).1) ∷ releases (when r item now).0 calls

  when_release :
      (r : RateLimiter K) (item : K) (now : ℕ)
      → now + (when r item now).1 ≡ max now (r.current_delay + r.delay_interval)
  unfolding when
  when_release r item now = ground arith

  when_current :
      (r : RateLimiter K) (item : K) (now : ℕ)
      → (when r item now).0.current_delay ≡ max now (r.current_delay + r.delay_interval)
  unfolding when
  when_current r item now = ground arith

  when_interval :
      (r : RateLimiter K) (item : K) (now : ℕ)
      → (when r item now).0.delay_interval ≡ r.delay_interval
  unfolding when
  when_interval r item now = ground arith

  releases_scheduled :
      (r : RateLimiter K) (calls : List (K × ℕ))
      → releases r calls ≡ schedule r.delay_interval r.current_delay (map (λ c. c.1) calls)
  releases_scheduled r [] = refl
  releases_scheduled r ((item, now) ∷ calls) =
      rw (when_release, releases_scheduled (when r item now).0 calls, when_current, when_interval)

  -- Whatever the clock does, each item is released as early as the spacing allows: at once, or one
  -- interval after the item before it. So any two releases in a row are an interval apart.
  pub releases-schedule :
      (r : RateLimiter K) (calls : List (K × ℕ))
      → (releases r calls ≡ schedule r.delay_interval r.current_delay (map (λ c. c.1) calls))
        × IsSpaced r.delay_interval r.current_delay (releases r calls)
  releases-schedule r calls =
      let scheduled = releases_scheduled r calls in
      (scheduled, rw scheduled (schedule-IsSpaced r.delay_interval r.current_delay _))

  -- The first item of a new limiter does not wait, whatever the interval: the one behind it waits
  -- for what is left of the interval.
  new_rate_limiter_delays :
      (delay_interval created first second : ℕ) (a b : K)
      → delay_interval ≤ created
      → created ≤ first
      → let (r, none_left) = when (new_rate_limiter delay_interval created) a first in
        (none_left ≡ 0) × ((when r b second).1 ≡ first + delay_interval - second)
  unfolding new_rate_limiter when
  new_rate_limiter_delays delay_interval created first second a b h k = ground arith
