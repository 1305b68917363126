-- ===== src/Client/Sets.antt =====
-- pkg/client/clientset/versioned/clientset.go and typed/athenz/v1/athenz_client.go: the clients made
-- from a configuration. rest.RESTClientFor and the discovery client are parameters.
use k8s_athenz_syncer.Common.{
  ℕ, ◌≡◌, refl, ◌⊎◌, inl, inr, Bool, true, not, ◌&&◌, Option, none, some, [], Bytes, codes,
  ℕ_discrete, bytes_eq, nat_eq, ◌==◌, if◌then◌else◌, ltb, is_some, Option-cases, arith,
}
use k8s_athenz_syncer.Go.{Go, ret, panic}
use k8s_athenz_syncer.Go
use k8s_athenz_syncer.Cluster.{GoError, message, Result, ok, err}

pub data Limiter : Type 0 where
  token_bucket : ℕ → ℕ → Limiter
  other : Bytes → Limiter

-- schema.GroupVersion
pub record GroupVersion : Type 0 where
  pub group : Bytes
  pub version : Bytes

-- rest.Config, by the fields that the code reads or sets. `qps` counts the smallest positive float32,
-- and a negative `qps` or `burst` is the same as 0 to the code.
pub record RestConfig : Type 0 where
  pub group_version : Option GroupVersion
  pub api_path : Bytes
  pub has_serializer : Bool
  pub user_agent : Bytes
  pub qps : ℕ
  pub burst : ℕ
  pub rate_limiter : Option Limiter
  pub rest : Bytes

-- v1.SchemeGroupVersion of pkg/apis/athenz/v1/register.go
abbrev pub scheme_group_version : GroupVersion
scheme_group_version = record { group = codes "athenz.io"; version = codes "v1" }

-- setConfigDefaults, which returns no error, for the user agent of client-go.
unfoldable pub set_config_defaults : Bytes → RestConfig → RestConfig
set_config_defaults default_agent config = record config {
  group_version = some scheme_group_version;
  api_path = codes "/apis";
  has_serializer = true;
  user_agent = if config.user_agent == [] then default_agent else config.user_agent;
}

-- The clients by the configuration that they are made with.
pub record Clientset : Type 0 where
  pub athenz_v1 : RestConfig
  pub discovery : RestConfig

abbrev pub bind {ℓ κ} : {A : Type ℓ} {B : Type κ} → Result A → (A → Result B) → Result B
bind (ok a) f = f a
bind (err e) f = err e

abbrev pub checked : Option GoError → RestConfig → Result RestConfig
checked none config = ok config
checked (some e) config = err e

abbrev pub burst_required : GoError
burst_required = message (
    codes
      "burst is required to be greater than 0 when RateLimiter is not set and QPS is set to greater than 0")

module _ (default_agent : Bytes) (rest_client_for discovery_for : RestConfig → Option GoError) where
  -- NewForConfig of the group's client.
  unfoldable pub new_athenz_v1 : RestConfig → Result RestConfig
  new_athenz_v1 c =
      let config = set_config_defaults default_agent c in checked (rest_client_for config) config

  abbrev pub or_die : Result RestConfig → Go RestConfig
  or_die (ok client) = ret client
  or_die (err e) = panic

  unfoldable pub new_athenz_v1_or_die : RestConfig → Go RestConfig
  new_athenz_v1_or_die c = or_die (new_athenz_v1 c)

  -- The shallow copy with its rate limiter.
  unfoldable pub with_limiter : RestConfig → Result RestConfig
  with_limiter c =
      if not (is_some c.rate_limiter) && ltb 0 c.qps
      then (if c.burst == 0
          then err burst_required
          else ok (record c { rate_limiter = some (token_bucket c.qps c.burst) }))
      else ok c

  unfoldable pub new_for_config : RestConfig → Result Clientset
  new_for_config c = bind (with_limiter c) λ copied. bind (new_athenz_v1 copied) λ client.
      bind (checked (discovery_for copied) copied)
        λ discovery. ok (record { athenz_v1 = client; discovery = discovery })

  unfoldable pub new_for_config_or_die : RestConfig → Go Clientset
  new_for_config_or_die c = Go.◌>>=◌ (new_athenz_v1_or_die c) λ client.
      Go.◌>>=◌ (or_die (checked (discovery_for c) c))
        λ discovery. ret (record { athenz_v1 = client; discovery = discovery })

  abbrev pub die : Result Clientset → Go Clientset
  die (ok set) = ret set
  die (err e) = panic

  with_limiter_keeps :
      (c : RestConfig) → (is_some c.rate_limiter ≡ true) ⊎ (c.qps ≡ 0) → with_limiter c ≡ ok c
  unfolding with_limiter
  with_limiter_keeps c (inl given) = rw given refl
  with_limiter_keeps c (inr zero) = ground (arith, zero)

  -- For a configuration that has a rate limiter, or asks for none by a QPS that is not positive,
  -- NewForConfigOrDie gives the clients of NewForConfig and panics where that has an error.
  pub new_for_config_or_die-new_for_config :
      (c : RestConfig)
      → (is_some c.rate_limiter ≡ true) ⊎ (c.qps ≡ 0)
      → new_for_config_or_die c ≡ die (new_for_config c)
  unfolding new_for_config_or_die new_for_config new_athenz_v1_or_die new_athenz_v1
  new_for_config_or_die-new_for_config c h =
      rw (with_limiter_keeps c h)
        (elim (Option-cases (rest_client_for (set_config_defaults default_agent c))) [
          | inl made ↦ elim (Option-cases (discovery_for c)) [
            | inl found ↦ rw (made, found) refl
            | inr (e, lost) ↦ rw (made, lost) refl
          ]
          | inr (e, refused) ↦ rw refused refl
        ])

  -- Without a rate limiter and with a positive QPS, NewForConfig refuses a burst that is not positive,
  -- while NewForConfigOrDie goes on without a limiter.
  pub new_for_config_unlimited :
      (c : RestConfig)
      → c.rate_limiter ≡ none
      → ltb 0 c.qps ≡ true
      → c.burst ≡ 0
      → rest_client_for (set_config_defaults default_agent c) ≡ none
      → discovery_for c ≡ none
      → (new_for_config c ≡ err burst_required)
        × (new_for_config_or_die c
            ≡ ret (record { athenz_v1 = set_config_defaults default_agent c; discovery = c }))
  unfolding new_for_config_or_die new_for_config with_limiter new_athenz_v1_or_die new_athenz_v1
      ℕ_discrete
  new_for_config_unlimited c none_given positive zero made discovered =
      (rw (none_given, positive, zero) refl, rw (made, discovered) refl)
