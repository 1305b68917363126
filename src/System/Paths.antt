-- ===== src/System/Paths.antt =====
-- Runs of the controller as paths of single steps, and what runs keep.
use k8s_athenz_syncer.Common.{some, ◌≡◌, sym, ap, ◌∙◌, List, [], ◌∷◌, Bytes}
use k8s_athenz_syncer.Go.{ret}
use k8s_athenz_syncer.World.{World}
use k8s_athenz_syncer.WorkQueue.{WorkQueue, name}
use k8s_athenz_syncer.Cluster.{Call}
use k8s_athenz_syncer.Named.{IsConfigMapCall}
use k8s_athenz_syncer.Stable.{IsStable, Keeps, after_adding-Keeps}
use k8s_athenz_syncer.Cron.Resync.{full_resync_lem, resync_items}
use k8s_athenz_syncer.Cron.Effects.{request_call-Keeps}
use k8s_athenz_syncer.Controller.{sync}
use k8s_athenz_syncer.Controller.Worker.Effects.{
  process_next_item-Keeps, ns_informer_handler-Keeps, cr_informer_handler-Keeps,
}
use k8s_athenz_syncer.WorkQueue.Order.{Handout}
use k8s_athenz_syncer.Cron.{request_call}
use k8s_athenz_syncer.System.{Setting, Reach, next, shift, ns_event, cr_event, work, update, resync}
use k8s_athenz_syncer.System.Run.{
  Event, ns_changed, cr_changed, turn, update_due, resync_due, act, run, take_turn, taken,
  after_get, done_ret, world_of, run_goes_on,
}

module _ {q : WorkQueue} (s : Setting) (h : Handout q) where
  act-Reach :
      (event : Event) (w : World q)
      → Reach s w
      → (act s h event w).0 ≡ ret tt
      → Reach s (act s h event w).1
  unfolding act take_turn
  act-Reach (ns_changed key) w r e = rw world_of (next r (ns_event key w))
  act-Reach (cr_changed key) w r e = rw world_of (next r (cr_event key w))
  act-Reach (turn caches zms) w r e =
      let (more, ran) = done_ret (take_turn s h caches zms) w e in
      rw world_of (
        next (next r (shift (h.get w.queue).1 w))
          (work (taken s h caches zms w) more (after_get s h w) ran))
  act-Reach (update_due caches zms) w r e =
      let (result, ran) = done_ret (request_call s.util caches s.server zms s.contact_cm) w e in
      rw world_of (next r (update caches zms result w ran))
  act-Reach (resync_due caches) w r e = next r (resync caches w)

  -- A run from a reached world that returns, with a worker that takes its keys from the queue, ends in
  -- a reached world.
  pub run-Reach :
      (events : List Event) (w : World q)
      → Reach s w
      → (run s h events w).0 ≡ ret tt
      → Reach s (run s h events w).1
  run-Reach [] w r e = unfold run in r
  run-Reach (event ∷ events) w r e =
      let (ran, rest) = run_goes_on s h event events w e in
      rw rest (
        run-Reach events (act s h event w).1 (act-Reach event w r ran)
          (ap (λ r. r.0) (sym rest) ∙ e))

-- A property holds where an event starts, after the Get of a turn.
abbrev pub Starts :
    {q : WorkQueue} → Setting → Handout q → (World q → Type 0) → Event → World q → Type 0
Starts s h I (turn caches zms) w = I (after_get s h w)
Starts s h I _ w = I w

-- A run of `sync` in the event keeps the property.
abbrev pub Syncs :
    {q : WorkQueue} → Setting → Handout q → (World q → Type 0) → Event → World q → Type 0
Syncs s h I (turn caches zms) w =
    (domain : Bytes)
    → (h.get w.queue).0 ≡ some (name domain)
    → Keeps I (sync s.copy s.util caches s.server zms domain)
Syncs s h I _ w = Unit

module _ {q : WorkQueue} (P : Call → Type 0) (I : World q → Type 0) (stable : IsStable P I)
    (s : Setting) (h : Handout q) (config : (c : Call) → IsConfigMapCall c → P c) where
  pub act-Keeps :
      (event : Event) (w : World q)
      → Syncs s h I event w
      → Starts s h I event w
      → I (act s h event w).1
  unfolding act take_turn
  act-Keeps (ns_changed key) w syncs i =
      rw world_of (ns_informer_handler-Keeps P I stable s.util key w i)
  act-Keeps (cr_changed key) w syncs i = rw world_of (cr_informer_handler-Keeps P I stable key w i)
  act-Keeps (turn caches zms) w syncs i = rw world_of (
      process_next_item-Keeps P I stable s.copy s.util s.server (taken s h caches zms w) syncs
        (after_get s h w) i)
  act-Keeps (update_due caches zms) w syncs i =
      rw world_of (request_call-Keeps P I stable config s.util caches s.server zms s.contact_cm w i)
  act-Keeps (resync_due caches) w syncs i =
      rw (full_resync_lem s.util caches w)
        (after_adding-Keeps P I stable (resync_items s.util caches) w i)
