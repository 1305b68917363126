-- ===== src/System.antt =====
-- The running controller: the informers' events, the worker loop and the two cron jobs, which share
-- the work queue, interleaved in any order. Each step meets caches and answers of its own. A panic
-- ends the process: only operations that return make steps.
pub mod History
pub mod Run
pub mod Paths
pub mod Fair
pub mod Elsewhere
pub mod Provenance
pub mod Own
pub mod Arrival
pub mod Outage
pub mod Returns
pub mod EndToEnd
pub mod Lifecycle
use k8s_athenz_syncer.Common.{ℕ, ◌≡◌, Bool, Option, [], Bytes}
use k8s_athenz_syncer.Go.{ret}
use k8s_athenz_syncer.Util.{Util}
use k8s_athenz_syncer.WorkQueue.{WorkQueue}
use k8s_athenz_syncer.Cluster.{
  GoError, Result, AthenzDomainSpec, Caches, Server, ZmsRequest, ZmsAnswer,
}
use k8s_athenz_syncer.World.{World}
use k8s_athenz_syncer.Named.{AllNamed, WritesNamed, WritesNamed-config}
use k8s_athenz_syncer.Cron.{ContactTimeConfigMap, request_call, full_resync}
use k8s_athenz_syncer.Cron.Resync.{full_resync_lem}
use k8s_athenz_syncer.Cron.Effects.{request_call-Keeps}
use k8s_athenz_syncer.Stable.{AllCalls, AllCalls-IsStable}
use k8s_athenz_syncer.Controller.Effects.{sync-Keeps, Touches-WritesNamed}
use k8s_athenz_syncer.Controller.Worker.{
  Round, ns_informer_handler, cr_informer_handler, process_next_item, start,
}
use k8s_athenz_syncer.Controller.Worker.Effects.{
  process_next_item-Keeps, start-Keeps, ns_informer_handler-Keeps, cr_informer_handler-Keeps,
}

-- What stays fixed while the controller runs.
pub record Setting : Type 0 where
  pub copy : AthenzDomainSpec → Option AthenzDomainSpec
  pub util : Util
  pub server : Server
  pub contact_cm : ContactTimeConfigMap
  pub format : ℕ → Bytes

pub data Step {q : WorkQueue} (s : Setting) : World q → World q → Type 0 where
  -- What the queue does of itself: a delay ends, or Get takes an item.
  shift : (queue : q.State) (w : World q) → Step s w (record w { queue = queue })
  ns_event : (key : Result Bytes) (w : World q) → Step s w (ns_informer_handler s.util key w).1
  cr_event : (key : Result Bytes) (w : World q) → Step s w (cr_informer_handler key w).1
  work :
      (round : Round) (more : Bool) (w : World q)
      → (process_next_item s.copy s.util s.server round w).0 ≡ ret more
      → Step s w (process_next_item s.copy s.util s.server round w).1
  update :
      (caches : Caches) (zms : ZmsRequest → ZmsAnswer) (result : Option GoError) (w : World q)
      → (request_call s.util caches s.server zms s.contact_cm w).0 ≡ ret result
      → Step s w (request_call s.util caches s.server zms s.contact_cm w).1
  resync : (caches : Caches) (w : World q) → Step s w (full_resync s.util caches w).1

-- The worlds that the controller reaches from a start with an empty record of calls.
pub data Reach {q : WorkQueue} (s : Setting) : World q → Type 0 where
  started :
      (queue : q.State) (synced : Bool) (caches : Caches)
      → Reach s
          (start s.util s.format synced caches (record { queue = queue; calls = []; etag = [] })).1
  next : {v w : World q} → Reach s v → Step s v w → Reach s w

module _ {q : WorkQueue} (s : Setting) where
  Step-AllNamed : {v w : World q} → Step s v w → AllNamed v.calls → AllNamed w.calls
  Step-AllNamed (shift queue w) h = h
  Step-AllNamed (ns_event key w) h =
      ns_informer_handler-Keeps WritesNamed (AllCalls WritesNamed) (AllCalls-IsStable WritesNamed)
        s.util key w h
  Step-AllNamed (cr_event key w) h =
      cr_informer_handler-Keeps WritesNamed (AllCalls WritesNamed) (AllCalls-IsStable WritesNamed)
        key w h
  Step-AllNamed (work round more w e) h =
      process_next_item-Keeps WritesNamed (AllCalls WritesNamed) (AllCalls-IsStable WritesNamed)
        s.copy s.util s.server round
        (λ domain e.
          sync-Keeps WritesNamed (AllCalls WritesNamed) (AllCalls-IsStable WritesNamed) s.copy
            s.util round.caches s.server round.zms domain
            (Touches-WritesNamed s.util round.caches round.zms domain))
        w h
  Step-AllNamed (update caches zms result w e) h =
      request_call-Keeps WritesNamed (AllCalls WritesNamed) (AllCalls-IsStable WritesNamed)
        (WritesNamed-config) s.util caches s.server zms s.contact_cm w h
  Step-AllNamed (resync caches w) h = rw (full_resync_lem s.util caches w) h

  -- However events, worker rounds and cron rounds interleave, and whatever the caches, the API server
  -- and ZMS answer, the controller has created and updated resources only under the name of the
  -- domain that they hold.
  Reach-AllNamed : {w : World q} → Reach s w → AllNamed w.calls
  Reach-AllNamed (started queue synced caches) =
      start-Keeps WritesNamed (AllCalls WritesNamed) (AllCalls-IsStable WritesNamed) s.util s.format
        synced caches _ tt
  Reach-AllNamed (next r step) = Step-AllNamed step (Reach-AllNamed r)
