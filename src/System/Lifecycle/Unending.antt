-- ===== src/System/Lifecycle/Unending.antt =====
-- What becomes of the worker when the process is told to stop.
use k8s_athenz_syncer.Common.{◌≡◌, refl, ap, arith, Bool, true, false, none, Option-cases, inl, inr}
use k8s_athenz_syncer.Go.{ret}
use k8s_athenz_syncer.WorkQueue.{WorkQueue}
use k8s_athenz_syncer.World.{World}
use k8s_athenz_syncer.Controller.Worker.{Round, process_next_item}
use k8s_athenz_syncer.Controller.Worker.Effects.{process_next_item_more}
use k8s_athenz_syncer.System.{Setting}
use k8s_athenz_syncer.System.Lifecycle.{
  Process, RunPhase, syncing, looking, working, deferred, finished, Move, signalled, close_stop,
  exit, synced, sync_stopped, look_stopped, look_on, turn, shut, beside, Moves, here, then_by,
  launched, next_phase,
}

-- The queue is open until Run has ended, which it does only once the channel is closed.
abbrev pub Orderly : RunPhase → Bool → Bool → Type 0
Orderly deferred stop_closed shut_down = (stop_closed ≡ true) × (shut_down ≡ false)
Orderly finished stop_closed shut_down = (stop_closed ≡ true) × (shut_down ≡ true)
Orderly _ stop_closed shut_down = shut_down ≡ false

abbrev pub IsOrderly : {q : WorkQueue} → Process q → Type 0
IsOrderly p = Orderly p.run p.stop_closed p.shut_down

closing :
    (run : RunPhase) (stop_closed shut_down : Bool)
    → Orderly run stop_closed shut_down
    → Orderly run true shut_down
closing syncing stop_closed shut_down h = h
closing looking stop_closed shut_down h = h
closing working stop_closed shut_down h = h
closing deferred stop_closed shut_down h = (refl, h.1)
closing finished stop_closed shut_down h = (refl, h.1)

module _ {q : WorkQueue} (s : Setting) where
  open_loop :
      (round : Round) (more : Bool) (w : World q) (shut_down : Bool)
      → (process_next_item s.copy s.util s.server round w).0 ≡ ret more
      → (round.key ≡ none → shut_down ≡ true)
      → shut_down ≡ false
      → more ≡ true
  open_loop round more w shut_down ran quits h = elim (Option-cases round.key) [
    | inl none_left ↦ absurd (ground (arith, quits none_left, h))
    | inr (key, e) ↦ process_next_item_more s.copy s.util s.server round key more w e ran
  ]

  Move-IsOrderly : {p r : Process q} → Move s p r → IsOrderly p → IsOrderly r
  Move-IsOrderly (signalled p phase) h = h
  Move-IsOrderly (close_stop p phase) h = closing p.run p.stop_closed p.shut_down h
  Move-IsOrderly (exit p phase) h = h
  Move-IsOrderly (synced caches p alive phase ran) h = rw phase at h
  Move-IsOrderly (sync_stopped p alive phase stop) h = (stop, rw phase at h)
  Move-IsOrderly (look_stopped p alive phase stop) h = (stop, rw phase at h)
  Move-IsOrderly (look_on p alive phase stop) h = rw phase at h
  Move-IsOrderly (turn round more p alive phase quits ran) h =
      rw (open_loop round more p.world p.shut_down ran quits (rw phase at h)) (rw phase at h)
  Move-IsOrderly (shut p alive phase) h = ((rw phase at h).0, refl)
  Move-IsOrderly (beside p w step alive is_beside) h = h

  Moves-IsOrderly : {p r : Process q} → Moves s p r → IsOrderly p → IsOrderly r
  Moves-IsOrderly here h = h
  Moves-IsOrderly (then_by before step) h = Move-IsOrderly step (Moves-IsOrderly before h)

  Move-works : {p r : Process q} → Move s p r → IsOrderly p → p.run ≡ working → r.run ≡ working
  Move-works (signalled p phase) h works = works
  Move-works (close_stop p phase) h works = works
  Move-works (exit p phase) h works = works
  Move-works (synced caches p alive phase ran) h works = absurd (ground (arith, phase, works))
  Move-works (sync_stopped p alive phase stop) h works = absurd (ground (arith, phase, works))
  Move-works (look_stopped p alive phase stop) h works = absurd (ground (arith, phase, works))
  Move-works (look_on p alive phase stop) h works = refl
  Move-works (turn round more p alive phase quits ran) h works =
      ap next_phase (open_loop round more p.world p.shut_down ran quits (rw phase at h))
  Move-works (shut p alive phase) h works = absurd (ground (arith, phase, works))
  Move-works (beside p w step alive is_beside) h works = works

  Moves-works : {p r : Process q} → Moves s p r → IsOrderly p → p.run ≡ working → r.run ≡ working
  Moves-works here h works = works
  Moves-works (then_by before step) h works =
      Move-works step (Moves-IsOrderly before h) (Moves-works before h works)

  -- Once runWorker has been called, Controller.Run does not come to its end and the queue is never
  -- shut down, whatever signals arrive, although the stop channel is closed, and when the process
  -- ends it ends in the middle of runWorker: the loop leaves only when the queue is shut down, and the
  -- queue is shut down only after the loop. Operations that return make the steps: a panic ends the
  -- process as well.
  pub working_never_ends :
      (queue : q.State) (p r : Process q)
      → Moves s (launched queue) p
      → p.run ≡ working
      → Moves s p r
      → (r.run ≡ working) × (r.shut_down ≡ false)
  working_never_ends queue p r before works later =
      let orderly = Moves-IsOrderly before refl in
      let still = Moves-works later orderly works in
      (still, rw still at (Moves-IsOrderly later orderly))
