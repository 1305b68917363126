-- ===== src/System/Returns.antt =====
-- Runs of the controller that do not panic.
use k8s_athenz_syncer.Common.{
  ◌≡◌, Bool, Bool-cases, true, false, refl, ap, inl, inr, Option, none, some, List, [], ◌∷◌, Bytes,
}
use k8s_athenz_syncer.Go.{ret, items}
use k8s_athenz_syncer.World.{World}
use k8s_athenz_syncer.Cluster.{
  AthenzDomain, GoError, Result, ok, err, Caches, ZmsRequest, ZmsAnswer, answered, failed,
}
use k8s_athenz_syncer.ApiServer.{ApiServer, IsLawful}
use k8s_athenz_syncer.CrUtil.Update.{Copies}
use k8s_athenz_syncer.Cron.{request_call}
use k8s_athenz_syncer.Cron.Request.{
  HaveNames, request_of, request_call_answered, request_call_failed, request_call_nothing,
}
use k8s_athenz_syncer.Cron.Resync.{full_resync_lem}
use k8s_athenz_syncer.Util.{is_namespace_excluded}
use k8s_athenz_syncer.WorkQueue.{WorkQueue, Key, name, other}
use k8s_athenz_syncer.WorkQueue.Order.{Handout}
use k8s_athenz_syncer.Controller.Sync.{as_object}
use k8s_athenz_syncer.Controller.Wanted.{Wants, IsWhole}
use k8s_athenz_syncer.Controller.Worker.{ns_informer_handler, cr_informer_handler}
use k8s_athenz_syncer.Controller.Worker.Effects.{process_next_item_shut, process_next_item_other}
use k8s_athenz_syncer.Controller.Worker.Settles.{process_next_item-Settles}
use k8s_athenz_syncer.System.{Setting}
use k8s_athenz_syncer.System.Run.{
  Event, ns_changed, cr_changed, turn, update_due, resync_due, act, run, take_turn, taken,
  after_get, goes_on_run, then_done,
}
use k8s_athenz_syncer.System.Elsewhere.{over, stored}

-- An answer with no nil entry, or no answer.
abbrev pub HasNoNil : ZmsAnswer → Type 0
HasNoNil (answered (some found) etag) = (names : List Bytes) × HaveNames (items found.domains) names
HasNoNil _ = Unit

module _ {q : WorkQueue} (s : Setting) (caches : Caches) (zms : ZmsRequest → ZmsAnswer) where
  request_call_returns :
      (answer : ZmsAnswer) (w : World q)
      → zms (request_of w) ≡ answer
      → HasNoNil answer
      → (result : Option GoError) × ((request_call s.util caches s.server zms s.contact_cm w).0
          ≡ ret result)
  request_call_returns (failed e) w asked h =
      (_, ap (λ r. r.0) (request_call_failed s.util caches s.server zms s.contact_cm e w asked))
  request_call_returns (answered none etag) w asked h = (
    none,
    ap (λ r. r.0) (request_call_nothing s.util caches s.server zms s.contact_cm etag w asked),
  )
  request_call_returns (answered (some found) etag) w asked (names, named) = (
    none,
    ap (λ r. r.0)
        (request_call_answered s.util caches s.server zms s.contact_cm found etag names w asked
          named),
  )

module _ {q : WorkQueue} (s : Setting) (copies : Copies s.copy) (h : Handout q) (api : ApiServer)
    (lawful : IsLawful api) (first : api.State) (wants : Bytes → Option AthenzDomain) where
  -- The cache holds what the store holds for the key, which has its domain and policies set, and the
  -- key should have what `wants` says.
  abbrev pub KeyInStep : Option Key → Caches → (ZmsRequest → ZmsAnswer) → World q → Type 0
  KeyInStep (some (name d)) caches zms w =
      IsWhole (stored api first d w)
      × (caches.cr_by_key d ≡ as_object (stored api first d w))
      × Wants s.util caches zms d (wants d)
  KeyInStep _ caches zms w = Unit

  -- What an event meets: a turn a key in step, and an attempt of the update cron no nil entry.
  abbrev pub Meets : Event → World q → Type 0
  Meets (turn caches zms) w = KeyInStep (h.get w.queue).0 caches zms w
  Meets (update_due caches zms) w = HasNoNil (zms (request_of w))
  Meets _ w = Unit

  abbrev pub AllMeet : List Event → World q → Type 0
  AllMeet [] w = Unit
  AllMeet (event ∷ events) w = Meets event w × AllMeet events (act (over api first s) h event w).1

  turn_returns :
      (caches : Caches) (zms : ZmsRequest → ZmsAnswer) (w : World q) (key : Option Key)
      → (h.get w.queue).0 ≡ key
      → KeyInStep key caches zms w
      → (more : Bool) × ((take_turn (over api first s) h caches zms w).0 ≡ ret more)
  unfolding take_turn
  turn_returns caches zms w none got meets = (
    false,
    process_next_item_shut s.copy s.util (over api first s).server
        (taken (over api first s) h caches zms w) (after_get (over api first s) h w) got,
  )
  turn_returns caches zms w (some other) got meets = (
    true,
    process_next_item_other s.copy s.util (over api first s).server
        (taken (over api first s) h caches zms w) (after_get (over api first s) h w) got,
  )
  turn_returns caches zms w (some (name d)) got (whole, seen, wanted) = (
    true,
    (process_next_item-Settles s.copy copies s.util api lawful first s.server
        (taken (over api first s) h caches zms w) d (stored api first d w) (wants d)
        (after_get (over api first s) h w) got whole seen refl wanted).0,
  )

  ns_informer_handler_returns :
      (key : Result Bytes) (w : World q)
      → (logged : Bytes) × ((ns_informer_handler s.util key w).0 ≡ ret logged)
  unfolding ns_informer_handler
  ns_informer_handler_returns (err e) w = ([], refl)
  ns_informer_handler_returns (ok key) w = elim (Bool-cases (is_namespace_excluded s.util key)) [
    | inl e ↦ (key, rw e refl)
    | inr e ↦ (key, rw e refl)
  ]

  cr_informer_handler_returns :
      (key : Result Bytes) (w : World q)
      → (logged : Bytes) × ((cr_informer_handler key w).0 ≡ ret logged)
  unfolding cr_informer_handler
  cr_informer_handler_returns (err e) w = ([], refl)
  cr_informer_handler_returns (ok key) w = (key, refl)

  act_returns :
      (event : Event) (w : World q) → Meets event w → (act (over api first s) h event w).0 ≡ ret tt
  unfolding act
  act_returns (ns_changed key) w meets = then_done _ (ns_informer_handler_returns key w).1
  act_returns (cr_changed key) w meets = then_done _ (cr_informer_handler_returns key w).1
  act_returns (turn caches zms) w meets = then_done _ (turn_returns caches zms w _ refl meets).1
  act_returns (update_due caches zms) w meets =
      then_done _ (request_call_returns (over api first s) caches zms _ w refl meets).1
  act_returns (resync_due caches) w meets = ap (λ r. r.0) (full_resync_lem s.util caches w)

  pub run_returns :
      (events : List Event) (w : World q)
      → AllMeet events w
      → (run (over api first s) h events w).0 ≡ ret tt
  run_returns [] w meet = unfold run in refl
  run_returns (event ∷ events) w (meets, more) =
      goes_on_run (over api first s) h event events w (act_returns event w meets)
        (run_returns events _ more)
