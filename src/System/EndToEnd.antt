-- ===== src/System/EndToEnd.antt =====
-- From an event of a namespace to the resource of its domain in the API server's store.
pub mod Changed
use mathlib.Core.Path.{subst}
use k8s_athenz_syncer.Common.{
  arith, ◌≡◌, ◌<◌, ℕ, false, refl, inl, inr, Option, some, List, [], ◌∷◌, Bytes, In,
}
use k8s_athenz_syncer.Go.{ret}
use k8s_athenz_syncer.World.{World}
use k8s_athenz_syncer.Cluster.{Caches, AthenzDomain, ok}
use k8s_athenz_syncer.ApiServer.{ApiServer, IsLawful}
use k8s_athenz_syncer.CrUtil.Update.{Copies}
use k8s_athenz_syncer.Util.{is_namespace_excluded, namespace_to_domain}
use k8s_athenz_syncer.WorkQueue.{add_all, WorkQueue, name}
use k8s_athenz_syncer.WorkQueue.Order.{add_all-Waits, Handout, IsFair, Waits}
use k8s_athenz_syncer.Controller.Worker.{ns_informer_handler}
use k8s_athenz_syncer.System.{Setting}
use k8s_athenz_syncer.System.Run.{
  Event, ns_changed, cr_changed, turn, update_due, resync_due, act, run, turns, handed_out,
}
use k8s_athenz_syncer.System.Elsewhere.{over}
use k8s_athenz_syncer.System.Own.{key_cases, to_own, apart_own}
use k8s_athenz_syncer.System.Arrival.{InStep, AllInStep, Arrives, run-Arrives}
use k8s_athenz_syncer.System.Returns.{KeyInStep, Meets, AllMeet, run_returns}
use k8s_athenz_syncer.System.Fair.{run_serves, In-append}
use k8s_athenz_syncer.Cron.Resync.{resync_items, full_resync_lem}

module _ {q : WorkQueue} (s : Setting) (copies : Copies s.copy) (h : Handout q) (api : ApiServer)
    (lawful : IsLawful api) (first : api.State) (wants : Bytes → Option AthenzDomain) where
  Meets-InStep :
      (domain : Bytes) (event : Event) (w : World q)
      → Meets s copies h api lawful first wants event w
      → InStep s copies h api lawful first domain (wants domain) event w
  Meets-InStep domain (turn caches zms) w meets = elim (key_cases domain (h.get w.queue).0) [
    | inl own ↦
        to_own domain _ _
          (subst (λ key. KeyInStep s copies h api lawful first wants key caches zms w) own meets)
    | inr apart ↦ apart_own domain _ _ apart
  ]
  Meets-InStep domain (ns_changed key) w meets = tt
  Meets-InStep domain (cr_changed key) w meets = tt
  Meets-InStep domain (update_due caches zms) w meets = tt
  Meets-InStep domain (resync_due caches) w meets = tt

  AllMeet-AllInStep :
      (domain : Bytes) (events : List Event) (w : World q)
      → AllMeet s copies h api lawful first wants events w
      → AllInStep s copies h api lawful first domain (wants domain) events w
  AllMeet-AllInStep domain [] w meet = tt
  AllMeet-AllInStep domain (event ∷ events) w (meets, more) =
      (Meets-InStep domain event w meets, AllMeet-AllInStep domain events _ more)

  -- A run that has a domain waiting after its first event, with enough turns for it.
  waiting-Arrives :
      (fair : IsFair h) (domain : Bytes) (n : ℕ) (event : Event) (events : List Event) (w : World q)
      → Waits h (act (over api first s) h event w).1.queue domain n
      → n < turns events
      → AllMeet s copies h api lawful first wants (event ∷ events) w
      → let (r, after) = run (over api first s) h (event ∷ events) w in
        (r ≡ ret tt)
        × In (name domain) (handed_out (over api first s) h (event ∷ events) w)
        × Arrives s copies h api lawful first domain (wants domain) (event ∷ events) w after
  waiting-Arrives fair domain n event events w waits many meet =
      let returns = run_returns s copies h api lawful first wants (event ∷ events) w meet in
      (
        returns,
        In-append (name domain) _ _ (
            run_serves (over api first s) h fair domain n events
              (act (over api first s) h event w).1 waits many
              (run_returns s copies h api lawful first wants events _ meet.1)),
        run-Arrives s copies h api lawful first domain (wants domain) (event ∷ events) w returns
            (AllMeet-AllInStep domain (event ∷ events) w meet),
      )

  namespace_queue :
      (key : Bytes) (w : World q)
      → is_namespace_excluded s.util key ≡ false
      → (act (over api first s) h (ns_changed (ok key)) w).1.queue
        ≡ add_all q w.queue (namespace_to_domain s.util key ∷ [])
  unfolding act ns_informer_handler
  namespace_queue key w included = rw included refl

  resync_queue :
      (caches : Caches) (w : World q)
      → (act (over api first s) h (resync_due caches) w).1.queue
        ≡ add_all q w.queue (resync_items s.util caches)
  unfolding act
  resync_queue caches w = rw (full_resync_lem s.util caches w) refl

  -- The place after adding is the one at which the domain waits.
  placed_after_adding :
      (fair : IsFair h) (t : q.State) (items : List Bytes) (domain : Bytes) (n : ℕ)
      → In domain items
      → h.is_busy t domain ≡ false
      → h.place (add_all q t items) domain ≡ some n
      → Waits h (add_all q t items) domain n
  placed_after_adding fair t items domain n i idle placed =
      let (m, (free, waits)) = add_all-Waits h fair items t domain i idle in
      (free, (n, placed, omega arith))

  -- An event of a namespace that is not excluded, and then any events, cron rounds and retries in any
  -- order, with more turns of the worker than keys wait before the domain of the namespace: the run
  -- does not panic, the worker is handed the domain, and in the end the store has what the domain
  -- should have, unless the server refused the write that was due in all turns for it, which leaves
  -- the resource as it was.
  -- Due is the create of the new resource if none is stored, else its update under the stored
  -- version, or the delete if the domain should have none.
  -- At the event the worker is not busy with the domain. In each turn the cache holds what the
  -- store holds for the key, with its domain and policies set, and ZMS has the key with the same
  -- content each time, or the key is gone from ZMS or invalid; the answers to the update cron have no
  -- nil entry. The queue hands out its items in the order in which they were added, the server's laws
  -- are those of conditional writes, and the copy of a specification is equal to it.
  pub namespace_event-Arrives :
      (fair : IsFair h) (key : Bytes) (n : ℕ) (events : List Event) (w : World q)
      → let domain = namespace_to_domain s.util key in
        is_namespace_excluded s.util key ≡ false
        → h.is_busy w.queue domain ≡ false
        → h.place (add_all q w.queue (domain ∷ [])) domain ≡ some n
        → n < turns events
        → AllMeet s copies h api lawful first wants (ns_changed (ok key) ∷ events) w
        → let (r, after) = run (over api first s) h (ns_changed (ok key) ∷ events) w in
          (r ≡ ret tt)
          × In (name domain) (handed_out (over api first s) h (ns_changed (ok key) ∷ events) w)
          × Arrives s copies h api lawful first domain
              (wants domain)
              (ns_changed (ok key) ∷ events)
              w
              after
  namespace_event-Arrives fair key n events w included idle placed many meet =
      let domain = namespace_to_domain s.util key in
      waiting-Arrives fair domain n (ns_changed (ok key)) events w
        (rw (namespace_queue key w included)
          (placed_after_adding fair w.queue (domain ∷ []) domain n (inl refl) idle placed))
        many meet

  -- A round of the resync cron makes good what events have missed: after it, and any events, cron
  -- rounds and retries in any order, with more turns of the worker than keys wait before a domain
  -- that the round added, the store has what the domain should have, unless the server refused the
  -- write that was due in all turns for it. The round adds the domains of the namespaces in the
  -- cache that are not excluded, the admin and system domains, and the trust domains with a resource.
  -- The run does not panic and the worker is handed the domain.
  -- Due is the create of the new resource if none is stored, else its update under the stored
  -- version, or the delete if the domain should have none.
  -- At the event the worker is not busy with the domain. In each turn the cache holds what the
  -- store holds for the key, with its domain and policies set, and ZMS has the key with the same
  -- content each time, or the key is gone from ZMS or invalid; the answers to the update cron have no
  -- nil entry. The queue hands out its items in the order in which they were added, the server's laws
  -- are those of conditional writes, and the copy of a specification is equal to it.
  pub resync-Arrives :
      (fair : IsFair h) (caches : Caches) (domain : Bytes) (n : ℕ) (events : List Event)
      (w : World q)
      → In domain (resync_items s.util caches)
      → h.is_busy w.queue domain ≡ false
      → h.place (add_all q w.queue (resync_items s.util caches)) domain ≡ some n
      → n < turns events
      → AllMeet s copies h api lawful first wants (resync_due caches ∷ events) w
      → let (r, after) = run (over api first s) h (resync_due caches ∷ events) w in
        (r ≡ ret tt)
        × In (name domain) (handed_out (over api first s) h (resync_due caches ∷ events) w)
        × Arrives s copies h api lawful first domain
            (wants domain)
            (resync_due caches ∷ events)
            w
            after
  resync-Arrives fair caches domain n events w added idle placed many meet =
      waiting-Arrives fair domain n (resync_due caches) events w
        (rw (resync_queue caches w) (
          placed_after_adding fair w.queue (resync_items s.util caches) domain n added idle placed))
        many meet
