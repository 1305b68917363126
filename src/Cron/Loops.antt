-- ===== src/Cron/Loops.antt =====
-- The loops of UpdateCron and FullResync, over what their selects receive, and the retries of a
-- round, of which the backoff allows a number that is a parameter.
pub mod Feed
pub mod Laws
use k8s_athenz_syncer.Common.{ℕ, ◌*◌, ◌/◌, Option, none, some, List, [], ◌∷◌}
use k8s_athenz_syncer.Go.{Go, ret, panic}
use k8s_athenz_syncer.Util.{Util}
use k8s_athenz_syncer.WorkQueue.{WorkQueue}
use k8s_athenz_syncer.Cluster.{GoError, Caches, Server, ZmsRequest, ZmsAnswer}
use k8s_athenz_syncer.World.{World, M, continue, ◌>>=◌, ◌>>◌, done}
use k8s_athenz_syncer.Cron.{ContactTimeConfigMap, request_call, full_resync}

-- The fields that getExponentialBackoff sets, in nanoseconds.
pub record ExponentialBackOff : Type 0 where
  pub initial_interval : ℕ
  pub multiplier : ℕ
  pub max_elapsed_time : ℕ

abbrev pub get_exponential_backoff : ℕ → ExponentialBackOff
get_exponential_backoff check_interval = record {
  initial_interval = 2 * 1000000000;
  multiplier = 2;
  max_elapsed_time = check_interval / 2;
}

-- What an attempt of a round meets.
pub record Attempt : Type 0 where
  pub caches : Caches
  pub zms : ZmsRequest → ZmsAnswer

-- What a select receives: the stop channel, or the end of the interval.
pub data Wake {ℓ} (A : Type ℓ) : Type ℓ where
  stopped : Wake A
  due : A → Wake A

module _ {q : WorkQueue} (u : Util) (server : Server) (cm : ContactTimeConfigMap) where
  -- A failure is tried again if the backoff allows another attempt.
  after_attempt : List Attempt → M q (Option GoError) → Option GoError → M q (Option GoError)
  after_attempt rest again none = done none
  after_attempt [] again (some e) = done (some e)
  after_attempt (next ∷ rest) again (some e) = again

  -- backoff.RetryNotify of requestCall: up to a success, or to the last attempt that the backoff
  -- allows. The list holds the attempts that it would allow.
  unfoldable pub retry_notify : List Attempt → M q (Option GoError)
  unfolding after_attempt
  retry_notify [] = done none
  retry_notify (attempt ∷ rest) =
      let again = retry_notify rest in
      do
        result ← request_call u attempt.caches server attempt.zms cm
        after_attempt rest again result

  -- A round makes at least one attempt. The result of the retries is not looked at.
  unfoldable pub update_cron : List (Wake (Attempt × List Attempt)) → M q (Unit {0})
  update_cron [] = done tt
  update_cron (stopped ∷ rest) = done tt
  update_cron (due (attempt, retries) ∷ rest) =
      let next = update_cron rest in do result ← retry_notify (attempt ∷ retries); next

module _ {q : WorkQueue} (u : Util) where
  unfoldable pub full_resync_cron : List (Wake Caches) → M q (Unit {0})
  full_resync_cron [] = done tt
  full_resync_cron (stopped ∷ rest) = done tt
  full_resync_cron (due caches ∷ rest) =
      let next = full_resync_cron rest in do full_resync u caches; next
