-- ===== src/Client/Requests/Timeout.antt =====
-- The timeout of the list requests.
use k8s_athenz_syncer.Common.{◌↔◌, ℕ, ◌*◌, ◌<◌, ◌≡◌, some, arith}
use k8s_athenz_syncer.Client.Requests.{timeout_of}

-- The timeout is the number of seconds in nanoseconds, and no negative duration, exactly when the
-- number is at most 9223372036; the seconds are a positive int64.
timeout_of_exact :
    (seconds : ℕ)
    → seconds < 9223372036854775808
    → ((timeout_of (some seconds) ≡ seconds * 1000000000)
        × (timeout_of (some seconds) < 9223372036854775808))
      ↔ (seconds < 9223372037)
unfolding timeout_of
timeout_of_exact seconds small = (λ (e, h). omega arith, λ h. (omega arith, omega arith))
