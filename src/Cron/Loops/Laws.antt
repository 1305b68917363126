-- ===== src/Cron/Loops/Laws.antt =====
-- What the loops of the cron jobs leave behind.
use k8s_athenz_syncer.Common.{◌≡◌, refl, none, List, [], ◌∷◌, ◌++◌, Bytes}
use k8s_athenz_syncer.Go.{ret}
use k8s_athenz_syncer.Util.{Util}
use k8s_athenz_syncer.WorkQueue.{WorkQueue}
use k8s_athenz_syncer.Cluster.{GoError, Caches, Server, failed}
use k8s_athenz_syncer.World.{World, after_adding, after_adding-append}
use k8s_athenz_syncer.Cron.{ContactTimeConfigMap, request_call}
use k8s_athenz_syncer.Cron.Request.{request_of, request_call_failed}
use k8s_athenz_syncer.Cron.Resync.{resync_items, full_resync_lem}
use k8s_athenz_syncer.Cron.Loops.{Attempt, Wake, stopped, due, retry_notify, full_resync_cron}

-- What the rounds up to a stop enqueue.
abbrev pub all_items : Util → List (Wake Caches) → List Bytes
all_items u [] = []
all_items u (stopped ∷ rest) = []
all_items u (due caches ∷ rest) = resync_items u caches ++ all_items u rest

-- Attempts in which ZMS fails.
abbrev pub AllFail : {q : WorkQueue} → World q → List Attempt → Type 0
AllFail w [] = Unit
AllFail w (attempt ∷ rest) =
    ((e : GoError) × (attempt.zms (request_of w) ≡ failed e)) × AllFail w rest

module _ {q : WorkQueue} (u : Util) where
  -- The loop of the full resync ends at a stop. Up to it, every round puts its items into the queue,
  -- in the order of the rounds, and nothing else happens.
  pub full_resync_cron_lem :
      (wakes : List (Wake Caches)) (w : World q)
      → full_resync_cron u wakes w ≡ (ret tt, after_adding w (all_items u wakes))
  unfolding full_resync_cron
  full_resync_cron_lem [] w = refl
  full_resync_cron_lem (stopped ∷ rest) w = refl
  full_resync_cron_lem (due caches ∷ rest) w =
      rw (full_resync_lem u caches w, full_resync_cron_lem rest, after_adding-append)

module _ {q : WorkQueue} (u : Util) (server : Server) (cm : ContactTimeConfigMap) where
  -- A round of the update cron in which ZMS fails for a while and then an attempt succeeds is that
  -- attempt alone: the failures before it leave no trace, and the attempts after it are not made.
  retry_notify-AllFail :
      (failing : List Attempt) (good : Attempt) (rest : List Attempt) (w w' : World q)
      → AllFail w failing
      → request_call u good.caches server good.zms cm w ≡ (ret none, w')
      → retry_notify u server cm (failing ++ (good ∷ rest)) w ≡ (ret none, w')
  unfolding retry_notify
  retry_notify-AllFail [] good rest w w' fail success = rw success refl
  retry_notify-AllFail (attempt ∷ []) good rest w w' ((e, fails), later) success =
      rw (request_call_failed u attempt.caches server attempt.zms cm e w fails)
        (retry_notify-AllFail [] good rest w w' later success)
  retry_notify-AllFail (attempt ∷ next ∷ failing) good rest w w' ((e, fails), later) success =
      rw (request_call_failed u attempt.caches server attempt.zms cm e w fails)
        (retry_notify-AllFail (next ∷ failing) good rest w w' later success)
