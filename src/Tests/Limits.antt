-- ===== src/Tests/Limits.antt =====
-- The rate limiter, with items that are numbers.
use k8s_athenz_syncer.Common.{ℕ, ◌≡◌, [], ◌∷◌, nat_eq}
use k8s_athenz_syncer.RateLimiter.{RateLimiter}
use k8s_athenz_syncer.RateLimiter.Spacing.{IsSpaced, releases, schedule, releases-schedule}

abbrev limiter : RateLimiter ℕ
limiter = record { failures = []; current_delay = 90; delay_interval = 10 }

releases-schedule_example :
    (releases limiter ((1, 100) ∷ (2, 103) ∷ (1, 150) ∷ []) ≡ schedule 10 90 (100 ∷ 103 ∷ 150 ∷ []))
    × IsSpaced 10 90 (releases limiter ((1, 100) ∷ (2, 103) ∷ (1, 150) ∷ []))
releases-schedule_example = releases-schedule limiter ((1, 100) ∷ (2, 103) ∷ (1, 150) ∷ [])
