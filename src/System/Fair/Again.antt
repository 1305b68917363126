-- ===== src/System/Fair/Again.antt =====
-- That the worker comes back to a domain for which ZMS could not be reached.
use k8s_athenz_syncer.Common.{◌<◌, ◌≡◌, true, some, Bytes}
use k8s_athenz_syncer.World.{World}
use k8s_athenz_syncer.Cluster.{Caches, ZmsRequest, ZmsAnswer}
use k8s_athenz_syncer.WorkQueue.{WorkQueue, name}
use k8s_athenz_syncer.WorkQueue.Order.{Handout, IsFair, IsReentrant}
use k8s_athenz_syncer.Cron.{validate_domain}
use k8s_athenz_syncer.Controller.Sync.{request_for}
use k8s_athenz_syncer.Controller.Worker.Retry.{IsUnreachable}
use k8s_athenz_syncer.System.{Setting}

module _ {q : WorkQueue} (s : Setting) (h : Handout q) (fair : IsFair h) (reentrant : IsReentrant h)
    (domain : Bytes) where
  -- A turn for the domain, which is valid, while ZMS cannot be reached and retries are left.
  abbrev pub FailsIn : Caches → (ZmsRequest → ZmsAnswer) → World q → Type 0
  FailsIn caches zms w =
      ((h.get w.queue).0 ≡ some (name domain))
      × (validate_domain s.util caches domain ≡ true)
      × IsUnreachable (zms (request_for domain))
      × (q.num_requeues (h.get w.queue).1 domain < 3)
