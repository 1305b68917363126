-- ===== src/Identity/Fresh.antt =====
-- For how long the tokens that the provider hands out are valid.
use k8s_athenz_syncer.Common.{
  ℕ, ◌+◌, ◌*◌, ◌/◌, ◌≤◌, ◌≡◌, refl, ◌⊎◌, inl, inr, List, [], ◌∷◌, ◌++◌, arith, Bytes, ltb,
  Bool-cases,
}
use k8s_athenz_syncer.Cluster.{GoError, Result, ok, err}
use k8s_athenz_syncer.Identity.{
  second, refresh_interval_factor, Config, Tick, TokenProvider, mint, install, update_token,
  grace_period, after_update, token, refresh_loop,
}

-- From a call of Token on: no error, and the provider's token stays valid for the grace period; or
-- the error of the minting, and nothing has changed.
abbrev Fresh : TokenProvider → ℕ → Result Bytes × TokenProvider → Type 0
Fresh tp now (r, after) =
    ((e : GoError) × (r ≡ err e) × (after ≡ tp))
    ⊎ ((r ≡ ok after.current)
        × (now + grace_period tp.config ≤ after.expire)
        × (after.config ≡ tp.config))

grace_short : (config : Config) → grace_period config ≤ config.token_expiry
unfolding grace_period
grace_short config = omega arith

grace_long :
    (config : Config)
    → 4 * second ≤ config.token_expiry
    → config.token_expiry / refresh_interval_factor ≤ grace_period config
unfolding grace_period
grace_long config h = omega arith

install-Fresh :
    (tp : TokenProvider) (now later : ℕ) (r : Result Bytes)
    → now ≤ later
    → Fresh tp now (after_update (install tp later r))
unfolding install after_update
install-Fresh tp now later (err e) h = inl (e, refl, refl)
install-Fresh tp now later (ok tok) h = inr (refl, ground (arith, grace_short tp.config), refl)

module _ {SigningKey Builder : Type 0} where
  -- A call of Token either fails with the provider unchanged, or returns the provider's token, which
  -- is valid for at least the grace period after the call.
  token-Fresh :
      (tick : Tick SigningKey Builder) (tp : TokenProvider)
      → tick.now ≤ tick.later
      → Fresh tp tick.now (token tick tp)
  unfolding token update_token
  token-Fresh tick tp h = elim (Bool-cases (ltb tp.expire (tick.now + grace_period tp.config))) [
    | inl due ↦ rw due (install-Fresh tp tick.now tick.later _ h)
    | inr fresh ↦ rw fresh (inr (refl, ground (arith, fresh), refl))
  ]

  -- Ticks that follow a call at `last`: time does not run back within a tick, no tick is later than
  -- an interval after the one before, and a token can be minted at each.
  abbrev InTime : Config → ℕ → List (Tick SigningKey Builder) → Type 0
  InTime config last [] = Unit
  InTime config last (tick ∷ ticks) =
      (tick.now ≤ last + config.token_expiry / refresh_interval_factor)
      × (tick.now ≤ tick.later)
      × ((tok : Bytes) × (mint tick.minting config ≡ ok tok))
      × InTime config tick.now ticks

  pub token-succeeds :
      (tick : Tick SigningKey Builder) (tp : TokenProvider) (tok : Bytes)
      → mint tick.minting tp.config ≡ ok tok
      → tick.now ≤ tick.later
      → (tick.now + grace_period tp.config ≤ (token tick tp).1.expire)
        × ((token tick tp).1.config ≡ tp.config)
  unfolding token update_token install after_update
  token-succeeds tick tp tok minted h =
      elim (Bool-cases (ltb tp.expire (tick.now + grace_period tp.config))) [
        | inl due ↦ rw (due, minted) (ground (arith, grace_short tp.config), refl)
        | inr fresh ↦ rw fresh (ground (arith, fresh), refl)
      ]

  -- For an expiration time of at least four seconds, of which a tenth is the longest time between
  -- ticks, and while tokens can be minted: if the token outlives the first tick, then no tick of the
  -- refresh loop finds an expired token.
  refresh_loop-InTime :
      (tp : TokenProvider) (last : ℕ) (before : List (Tick SigningKey Builder))
      (tick : Tick SigningKey Builder)
      → 4 * second ≤ tp.config.token_expiry
      → last + tp.config.token_expiry / refresh_interval_factor ≤ tp.expire
      → InTime tp.config last (before ++ (tick ∷ []))
      → tick.now ≤ (refresh_loop tp before).expire
  unfolding refresh_loop
  refresh_loop-InTime tp last [] tick long alive in_time = omega arith
  refresh_loop-InTime tp last (first ∷ before) tick long alive
        (soon, after, (tok, minted), in_time) =
      let (lives, same) = token-succeeds first tp tok minted after in
      let next : TokenProvider = (token first tp).1 in
      refresh_loop-InTime next first.now before tick (rw same long)
        (rw same (ground (arith, lives, grace_long tp.config long))) (rw same in_time)
