-- ===== src/Identity.antt =====
-- pkg/identity/identity.go. Durations and instants are nanoseconds, and an instant counts from the
-- zero time of Go. The private key source and the token builder of Athenz are parameters of each
-- call. Token holds the lock from its first line to its last, so a call is one step.
pub mod Fresh
pub mod Tolerates
use k8s_athenz_syncer.Common.{
  ℕ, ◌+◌, ◌*◌, ◌/◌, ◌≡◌, Bool, true, false, Option, none, some, List, [], ◌∷◌, ◌++◌, Bytes, nat_eq,
  codes, ltb, ◌==◌, if◌then◌else◌,
}
use k8s_athenz_syncer.Cluster.{GoError, wrapped, Result, ok, err}

abbrev pub second : ℕ
second = 1000000000

abbrev pub hour : ℕ
hour = 3600 * second

abbrev pub refresh_interval_factor : ℕ
refresh_interval_factor = 10

pub record Config : Type 0 where
  pub header : Bytes
  pub domain : Bytes
  pub service : Bytes
  pub token_expiry : ℕ

-- What a call of UpdateToken meets: the answer of the private key provider, PEMBytes and the version
-- of a key, zmssvctoken.NewTokenBuilder, and the value of the built token for an expiration.
pub record Minting (SigningKey Builder : Type 0) : Type 0 where
  pub private_key_provider : Result SigningKey
  pub pem_bytes : SigningKey → Result Bytes
  pub version : SigningKey → Bytes
  pub new_token_builder : Bytes → Bytes → Bytes → Bytes → Result Builder
  pub token_value : Builder → ℕ → Result Bytes

-- A call of Token: the clock at its test, the clock when an update sets the expiration, and what the
-- update meets.
pub record Tick (SigningKey Builder : Type 0) : Type 0 where
  pub now : ℕ
  pub later : ℕ
  pub minting : Minting SigningKey Builder

-- The provider, and the credentials that the ZMS client has been given, the latest last.
pub record TokenProvider : Type 0 where
  pub config : Config
  pub current : Bytes
  pub expire : ℕ
  pub credentials : List (Bytes × Bytes)

abbrev pub and_then {ℓ κ} : {A : Type ℓ} {B : Type κ} → Result A → (A → Result B) → Result B
and_then (ok a) f = f a
and_then (err e) f = err e

-- A quarter of the expiration time, cut to whole seconds.
unfoldable pub grace_period : Config → ℕ
grace_period config = config.token_expiry / (4 * second) * second

install : TokenProvider → ℕ → Result Bytes → Option GoError × TokenProvider
install tp clock (err e) = (some e, tp)
install tp clock (ok tok) = (
  none,
  record tp {
    current = tok;
    expire = clock + tp.config.token_expiry;
    credentials = tp.credentials ++ ((tp.config.header, tok) ∷ []);
  },
)

after_update : Option GoError × TokenProvider → Result Bytes × TokenProvider
after_update (some e, tp) = (err e, tp)
after_update (none, tp) = (ok tp.current, tp)

minted : Result Bytes × TokenProvider → Option TokenProvider × Option GoError
minted (err e, tp) = (none, some (wrapped (codes "mint token") e))
minted (ok tok, tp) = (some tp, none)

module _ {SigningKey Builder : Type 0} where
  -- The token that UpdateToken mints.
  unfoldable pub mint : Minting SigningKey Builder → Config → Result Bytes
  mint minting config = and_then minting.private_key_provider λ key.
      and_then (minting.pem_bytes key) λ pem.
        and_then (minting.new_token_builder config.domain config.service pem (minting.version key))
          λ b. minting.token_value b config.token_expiry

  -- The clock is read when the expiration is set.
  unfoldable pub update_token :
      Minting SigningKey Builder → ℕ → TokenProvider → Option GoError × TokenProvider
  unfolding install
  update_token minting clock tp = install tp clock (mint minting tp.config)

  unfoldable pub token : Tick SigningKey Builder → TokenProvider → Result Bytes × TokenProvider
  unfolding after_update
  token tick tp =
      if ltb tp.expire (tick.now + grace_period tp.config)
      then after_update (update_token tick.minting tick.later tp)
      else (ok tp.current, tp)

  unfoldable pub new_token_provider :
      Tick SigningKey Builder → Config → Option TokenProvider × Option GoError
  unfolding minted
  new_token_provider tick given =
      let config = record given {
        token_expiry = if given.token_expiry == 0 then hour else given.token_expiry;
      } in
      minted (token tick (record { config = config; current = []; expire = 0; credentials = [] }))

  -- The ticks of refreshLoop up to a stop. An error is only logged.
  unfoldable pub refresh_loop : TokenProvider → List (Tick SigningKey Builder) → TokenProvider
  refresh_loop tp [] = tp
  refresh_loop tp (tick ∷ ticks) = refresh_loop (token tick tp).1 ticks
