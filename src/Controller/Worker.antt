-- ===== src/Controller/Worker.antt =====
-- The event handlers, the worker loop and the start of the controller.
pub mod Retry
pub mod Settles
pub mod Sweep
pub mod Persist
pub mod Effects
use k8s_athenz_syncer.Common.{
  ℕ, Bool, true, false, not, Option, none, some, List, [], ◌∷◌, ◌++◌, Bytes, if◌then◌else◌, ltb,
}
use k8s_athenz_syncer.Go.{Go, ret, panic}
use k8s_athenz_syncer.Util.{Util, namespace_to_domain, is_namespace_excluded}
use k8s_athenz_syncer.WorkQueue.{WorkQueue, Key, name, other}
use k8s_athenz_syncer.Cluster.{
  GoError, Result, ok, err, AthenzDomainSpec, Caches, Server, ZmsRequest, ZmsAnswer,
}
use k8s_athenz_syncer.World.{World, M, continue, ◌>>=◌, ◌>>◌, done, lift, enqueue}
use k8s_athenz_syncer.CrUtil.{get_latest_timestamp}
use k8s_athenz_syncer.Cron.{set_etag, add_admin_system_domains}
use k8s_athenz_syncer.Controller.{worker_queue_retry, sync}

module _ {q : WorkQueue} where
  -- The argument is what the key function says of the event's object; the result is only logged.
  unfoldable pub ns_informer_handler : Util → Result Bytes → M q Bytes
  ns_informer_handler u (err e) = done []
  ns_informer_handler u (ok key) =
      if is_namespace_excluded u key
      then done key
      else (do enqueue (namespace_to_domain u key); done key)

  unfoldable pub cr_informer_handler : Result Bytes → M q Bytes
  cr_informer_handler (err e) = done []
  cr_informer_handler (ok key) = do enqueue key; done key

  unfoldable pub requeue : Bytes → Option GoError → World q → World q
  requeue domain none w = w
  requeue domain (some e) w =
      if ltb (q.num_requeues w.queue domain) worker_queue_retry
      then record w { queue = q.add_rate_limited w.queue domain }
      else record w { queue = q.forget w.queue domain }

  -- The deferred Done runs after a panic too.
  finish : {A : Type 0} → Key → Go A × World q → Go A × World q
  finish key (r, w) = (r, record w { queue = q.finish w.queue key })

  after_sync : Bytes → Go (Option GoError) × World q → Go Bool × World q
  unfolding requeue
  after_sync domain (ret e, w) = (ret true, requeue domain e w)
  after_sync domain (panic, w) = (panic, w)

-- What a round of the worker meets: the caches at that time, what ZMS answers, and what Get returns,
-- none for a queue that shuts down.
pub record Round : Type 0 where
  pub caches : Caches
  pub zms : ZmsRequest → ZmsAnswer
  pub key : Option Key

module _ {q : WorkQueue} (copy : AthenzDomainSpec → Option AthenzDomainSpec) (u : Util)
    (server : Server) where
  process_key : Caches → (ZmsRequest → ZmsAnswer) → Key → M q Bool
  unfolding finish after_sync
  process_key caches zms (name domain) w =
      finish (name domain) (after_sync domain (sync copy u caches server zms domain w))
  process_key caches zms other w = finish other (ret true, w)

  unfoldable pub process_next_item : Round → M q Bool
  unfolding process_key
  process_next_item round = elim round.key [
    | none ↦ done false
    | some key ↦ process_key round.caches round.zms key
  ]

  -- The rounds up to a shutdown or a panic.
  unfoldable pub run_worker : List Round → M q (Unit {0})
  run_worker [] = done tt
  run_worker (round ∷ rounds) =
      let next = run_worker rounds in
      do more ← process_next_item round; if more then next else done tt

module _ {q : WorkQueue} (u : Util) (format : ℕ → Bytes) where
  -- Run up to the worker loop. The flag says whether the caches synchronized.
  unfoldable pub start : Bool → Caches → M q (Unit {0})
  start false caches = done tt
  start true caches = do
    timestamp ← lift (get_latest_timestamp format caches)
    set_etag timestamp
    add_admin_system_domains u caches
