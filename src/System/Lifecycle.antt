-- ===== src/System/Lifecycle.antt =====
-- The end of main in main.go, from the start of the controller on, beside Controller.Run and
-- runWorker in pkg/controller/controller.go: the signals, the stop channel, and the shutdown of the
-- queue. The process ends when main does. wait.Until of Kubernetes looks at the channel before each
-- call of runWorker, and calls it again a second after it returns.
pub mod Unending
use k8s_athenz_syncer.Common.{◌≡◌, Bool, true, false, none, [], if◌then◌else◌}
use k8s_athenz_syncer.Go.{ret}
use k8s_athenz_syncer.WorkQueue.{WorkQueue}
use k8s_athenz_syncer.Cluster.{Caches}
use k8s_athenz_syncer.World.{World}
use k8s_athenz_syncer.Controller.Worker.{Round, process_next_item, start}
use k8s_athenz_syncer.System.{Setting, Step, shift, ns_event, cr_event, work, update, resync}

-- Where main is: before a signal, at the deferred close, after it, and at its end.
pub data MainPhase : Type 0 where
  awaiting returning closed ended : MainPhase

-- Where Controller.Run is: before the caches are in sync, at the test of wait.Until, in runWorker, at
-- the deferred shutdown of the queue, and at its end.
pub data RunPhase : Type 0 where
  syncing looking working deferred finished : RunPhase

pub record Process (q : WorkQueue) : Type 0 where
  pub main : MainPhase
  pub run : RunPhase
  pub stop_closed : Bool
  pub shut_down : Bool
  pub world : World q

-- The goroutines beside the worker: the handlers, the cron jobs and the queue.
abbrev pub IsBeside : {q : WorkQueue} {s : Setting} {v w : World q} → Step s v w → Type 0
IsBeside (work round more w e) = ⊥
IsBeside _ = Unit

abbrev pub is_over : MainPhase → Bool
is_over ended = true
is_over _ = false

-- After a call of processNextItem: the loop of runWorker goes on, or returns to wait.Until.
abbrev pub next_phase : Bool → RunPhase
next_phase more = if more then working else looking

pub data Move {q : WorkQueue} (s : Setting) : Process q → Process q → Type 0 where
  -- SIGTERM or SIGINT
  signalled : (p : Process q) → p.main ≡ awaiting → Move s p (record p { main = returning })
  close_stop :
      (p : Process q)
      → p.main ≡ returning
      → Move s p (record p { main = closed; stop_closed = true })
  exit : (p : Process q) → p.main ≡ closed → Move s p (record p { main = ended })
  -- WaitForCacheSync returns true, and Run goes on up to wait.Until.
  synced :
      (caches : Caches) (p : Process q)
      → is_over p.main ≡ false
      → p.run ≡ syncing
      → (start s.util s.format true caches p.world).0 ≡ ret tt
      → Move s p (record p { run = looking; world = (start s.util s.format true caches p.world).1 })
  -- WaitForCacheSync returns false, which it does once the channel is closed.
  sync_stopped :
      (p : Process q)
      → is_over p.main ≡ false
      → p.run ≡ syncing
      → p.stop_closed ≡ true
      → Move s p (record p { run = deferred })
  look_stopped :
      (p : Process q)
      → is_over p.main ≡ false
      → p.run ≡ looking
      → p.stop_closed ≡ true
      → Move s p (record p { run = deferred })
  look_on :
      (p : Process q)
      → is_over p.main ≡ false
      → p.run ≡ looking
      → p.stop_closed ≡ false
      → Move s p (record p { run = working })
  -- A call of processNextItem. Get says that the queue quits only if it is shut down.
  turn :
      (round : Round) (more : Bool) (p : Process q)
      → is_over p.main ≡ false
      → p.run ≡ working
      → (round.key ≡ none → p.shut_down ≡ true)
      → (process_next_item s.copy s.util s.server round p.world).0 ≡ ret more
      → Move s p (record p {
        run = next_phase more;
        world = (process_next_item s.copy s.util s.server round p.world).1;
      })
  -- The deferred ShutDown.
  shut :
      (p : Process q)
      → is_over p.main ≡ false
      → p.run ≡ deferred
      → Move s p (record p { run = finished; shut_down = true })
  beside :
      (p : Process q) (w : World q) (step : Step s p.world w)
      → is_over p.main ≡ false
      → IsBeside step
      → Move s p (record p { world = w })

pub data Moves {q : WorkQueue} (s : Setting) (p : Process q) : Process q → Type 0 where
  here : Moves s p p
  then_by : {r t : Process q} → Moves s p r → Move s r t → Moves s p t

-- The process as main starts Controller.Run.
abbrev pub launched : {q : WorkQueue} → q.State → Process q
launched queue = record {
  main = awaiting;
  run = syncing;
  stop_closed = false;
  shut_down = false;
  world = record { queue = queue; calls = []; etag = [] };
}
