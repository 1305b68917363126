-- ===== src/Identity/Tolerates.antt =====
-- The refresh of tokens where some calls fail to mint one.
use k8s_athenz_syncer.Common.{
  ℕ, ◌+◌, ◌*◌, ◌/◌, ◌≤◌, ◌≡◌, refl, ◌⊎◌, inl, inr, Bool, true, false, List, [], ◌∷◌, ◌++◌, arith,
  Bytes, ltb, Bool-cases,
}
use k8s_athenz_syncer.Cluster.{GoError, ok, err}
use k8s_athenz_syncer.Identity.{
  second, refresh_interval_factor, Config, Tick, TokenProvider, mint, install, update_token,
  grace_period, after_update, token, refresh_loop,
}
use k8s_athenz_syncer.Identity.Fresh.{token-succeeds}

-- The longest time between two ticks.
abbrev pub interval : Config → ℕ
interval config = config.token_expiry / refresh_interval_factor

-- The grace period spans two intervals.
grace_longer :
    (config : Config)
    → 16 * second ≤ config.token_expiry
    → interval config + interval config ≤ grace_period config
unfolding grace_period
grace_longer config h = omega arith

-- How long the token lives at least.
abbrev lives_for : Config → Bool → ℕ
lives_for config true = interval config + interval config
lives_for config false = interval config

lives_for-interval :
    (config : Config) (may_fail : Bool) → interval config ≤ lives_for config may_fail
lives_for-interval config true = omega arith
lives_for-interval config false = omega arith

module _ {SigningKey Builder : Type 0} where
  -- Ticks that follow a call at `last`: time does not run back within a tick, no tick is later than
  -- an interval after the one before, and of two ticks in a row one mints a token. The flag says
  -- whether the first of the ticks may fail.
  abbrev pub Tolerable : Config → Bool → ℕ → List (Tick SigningKey Builder) → Type 0
  Tolerable config may_fail last [] = Unit
  Tolerable config may_fail last (tick ∷ ticks) =
      (tick.now ≤ last + interval config)
      × (tick.now ≤ tick.later)
      × (((tok : Bytes) × (mint tick.minting config ≡ ok tok)
            × Tolerable config true tick.now ticks)
          ⊎ ((e : GoError) × (mint tick.minting config ≡ err e)
              × (may_fail ≡ true)
              × Tolerable config false tick.now ticks))

  token-fails :
      (tick : Tick SigningKey Builder) (tp : TokenProvider) (e : GoError)
      → mint tick.minting tp.config ≡ err e
      → (token tick tp).1 ≡ tp
  unfolding token update_token install after_update
  token-fails tick tp e failed =
      elim (Bool-cases (ltb tp.expire (tick.now + grace_period tp.config))) [
        | inl due ↦ rw (due, failed) refl
        | inr fresh ↦ rw fresh refl
      ]

  lives_on :
      (tp : TokenProvider) (may_fail : Bool) (last : ℕ) (before : List (Tick SigningKey Builder))
      (tick : Tick SigningKey Builder)
      → 16 * second ≤ tp.config.token_expiry
      → last + lives_for tp.config may_fail ≤ tp.expire
      → Tolerable tp.config may_fail last (before ++ (tick ∷ []))
      → tick.now ≤ (refresh_loop tp before).expire
  unfolding refresh_loop
  lives_on tp may_fail last [] tick long alive (soon, after, ends) =
      omega (arith, soon, alive, lives_for-interval tp.config may_fail)
  lives_on tp may_fail last (first ∷ before) tick long alive
        (soon, after, inl (tok, minted, rest)) =
      let (lives, same) = token-succeeds first tp tok minted after in
      let next : TokenProvider = (token first tp).1 in
      lives_on next true first.now before tick (rw same long)
        (rw same (omega (arith, lives, grace_longer tp.config long))) (rw same rest)
  lives_on tp true last (first ∷ before) tick long alive (soon, after, inr (e, failed, may, rest)) =
      rw (refresh_loop, token-fails first tp e failed)
        (lives_on tp false first.now before tick long (omega (arith, soon, alive)) rest)
  lives_on tp false last (first ∷ before) tick long alive
        (soon, after, inr (e, failed, may, rest)) =
      absurd (ground (arith, may))

  -- For an expiration time of at least sixteen seconds, of which a tenth is the longest time between
  -- ticks, and while of two ticks in a row one can mint a token: if the token outlives the first two
  -- intervals, then no tick of the refresh loop finds an expired token. So a failure that the loop
  -- only logs is made good by the next tick before the token expires.
  pub refresh_loop-Tolerates :
      (tp : TokenProvider) (last : ℕ) (before : List (Tick SigningKey Builder))
      (tick : Tick SigningKey Builder)
      → 16 * second ≤ tp.config.token_expiry
      → last + interval tp.config + interval tp.config ≤ tp.expire
      → Tolerable tp.config true last (before ++ (tick ∷ []))
      → tick.now ≤ (refresh_loop tp before).expire
  refresh_loop-Tolerates tp last before tick long alive ticks =
      lives_on tp true last before tick long (omega (arith, alive)) ticks
