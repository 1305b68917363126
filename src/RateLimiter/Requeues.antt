-- ===== src/RateLimiter/Requeues.antt =====
-- How the limiter counts.
use k8s_athenz_syncer.Common.{ℕ, ◌+◌, ◌≡◌, refl, List, [], ◌∷◌, arith, Eq, if◌then◌else◌, ◌==◌}
use k8s_athenz_syncer.GoMap.{lookup, lookup-insert, lookup-erase}
use k8s_athenz_syncer.RateLimiter.{RateLimiter, new_rate_limiter, when, forget, num_requeues}

module _ {ℓ} {K : Type ℓ} ⦃e : Eq K⦄ where
  pub num_requeues-when :
      (r : RateLimiter K) (item : K) (now : ℕ) (j : K)
      → num_requeues (when r item now).0 j
        ≡ (if j == item then num_requeues r item + 1 else num_requeues r j)
  unfolding num_requeues when
  num_requeues-when r item now j =
      ground (arith, lookup-insert r.failures item (num_requeues r item + 1) j)

  pub num_requeues-forget :
      (r : RateLimiter K) (item j : K)
      → num_requeues (forget r item) j ≡ (if j == item then 0 else num_requeues r j)
  unfolding num_requeues forget
  num_requeues-forget r item j = ground (arith, lookup-erase r.failures item j)

-- The calls that count.
pub data Call {ℓ} (K : Type ℓ) : Type ℓ where
  waits : K → ℕ → Call K
  forgets : K → Call K

module _ {ℓ} {K : Type ℓ} ⦃e : Eq K⦄ where
  abbrev pub run : RateLimiter K → List (Call K) → RateLimiter K
  run r [] = r
  run r (waits item now ∷ calls) = run (when r item now).0 calls
  run r (forgets item ∷ calls) = run (forget r item) calls

  -- How often an item waited since it was last forgotten, on top of a count.
  abbrev pub waits_since_forget : K → ℕ → List (Call K) → ℕ
  waits_since_forget item n [] = n
  waits_since_forget item n (waits j now ∷ calls) =
      waits_since_forget item (if item == j then n + 1 else n) calls
  waits_since_forget item n (forgets j ∷ calls) =
      waits_since_forget item (if item == j then 0 else n) calls

  run_counts :
      (r : RateLimiter K) (calls : List (Call K)) (item : K)
      → num_requeues (run r calls) item ≡ waits_since_forget item (num_requeues r item) calls
  run_counts r [] item = refl
  run_counts r (waits j now ∷ calls) item =
      ground (arith, run_counts (when r j now).0 calls item, num_requeues-when r j now item)
  run_counts r (forgets j ∷ calls) item =
      ground (arith, run_counts (forget r j) calls item, num_requeues-forget r j item)

  num_requeues-new_rate_limiter :
      (delay now : ℕ) (item : K) → num_requeues (new_rate_limiter delay now) item ≡ 0
  unfolding num_requeues new_rate_limiter lookup
  num_requeues-new_rate_limiter delay now item = refl

  -- The limiter counts, for each item by itself, the calls of `when` since it was last forgotten.
  pub num_requeues-run :
      (delay now : ℕ) (calls : List (Call K)) (item : K)
      → num_requeues (run (new_rate_limiter delay now) calls) item ≡ waits_since_forget item 0 calls
  num_requeues-run delay now calls item = rw (run_counts, num_requeues-new_rate_limiter)
