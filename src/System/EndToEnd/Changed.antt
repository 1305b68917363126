-- ===== src/System/EndToEnd/Changed.antt =====
-- From an answer of ZMS to the update cron, to the resource of a changed domain in the store.
use k8s_athenz_syncer.Common.{
  arith, ◌≡◌, ◌<◌, ℕ, false, Option, some, List, ◌∷◌, Bytes, bytes_eq, In,
}
use k8s_athenz_syncer.Go.{ret, items}
use k8s_athenz_syncer.World.{World, after_adding}
use k8s_athenz_syncer.Cluster.{
  Caches, Server, AthenzDomain, SignedDomains, ZmsRequest, ZmsAnswer, answered,
}
use k8s_athenz_syncer.ApiServer.{ApiServer, IsLawful}
use k8s_athenz_syncer.CrUtil.Update.{Copies}
use k8s_athenz_syncer.WorkQueue.{add_all, WorkQueue, name}
use k8s_athenz_syncer.WorkQueue.Order.{Handout, IsFair}
use k8s_athenz_syncer.Cron.{ContactTimeConfigMap}
use k8s_athenz_syncer.Cron.Request.{
  HaveNames, valid_names, after_etag, request_of, request_call_answered,
}
use k8s_athenz_syncer.System.{Setting}
use k8s_athenz_syncer.System.Run.{Event, update_due, act, run, turns, handed_out}
use k8s_athenz_syncer.System.Elsewhere.{over}
use k8s_athenz_syncer.System.Arrival.{Arrives}
use k8s_athenz_syncer.System.Returns.{AllMeet}
use k8s_athenz_syncer.System.EndToEnd.{waiting-Arrives, placed_after_adding}

module _ {q : WorkQueue} where
  queue_after_etag :
      (server : Server) (cm : ContactTimeConfigMap) (w : World q) (etag : Bytes)
      → (after_etag server cm w etag).queue ≡ w.queue
  queue_after_etag server cm w etag = ground arith

module _ {q : WorkQueue} (s : Setting) (copies : Copies s.copy) (h : Handout q) (api : ApiServer)
    (lawful : IsLawful api) (first : api.State) (wants : Bytes → Option AthenzDomain) where
  change_queue :
      (caches : Caches) (zms : ZmsRequest → ZmsAnswer) (found : SignedDomains) (etag : Bytes)
      (names : List Bytes) (w : World q)
      → zms (request_of w) ≡ answered (some found) etag
      → HaveNames (items found.domains) names
      → (act (over api first s) h (update_due caches zms) w).1.queue
        ≡ add_all q w.queue (valid_names s.util caches names)
  unfolding act
  change_queue caches zms found etag names w answers named =
      rw
        (request_call_answered s.util caches (over api first s).server zms s.contact_cm found etag
          names w answers named)
        (queue_after_etag (over api first s).server s.contact_cm
          (after_adding w (valid_names s.util caches names)) etag)

  -- A change in ZMS is followed up: after an attempt of the update cron whose answer has a domain
  -- that is valid, and any events, cron rounds and retries in any order, with more turns of the worker
  -- than keys wait before the domain, the store has what the domain should have, unless the server
  -- refused the write that was due in all turns for it. The run does not panic and the worker is
  -- handed the domain.
  -- Due is the create of the new resource if none is stored, else its update under the stored
  -- version, or the delete if the domain should have none.
  -- At the event the worker is not busy with the domain. In each turn the cache holds what the
  -- store holds for the key, with its domain and policies set, and ZMS has the key with the same
  -- content each time, or the key is gone from ZMS or invalid; the answers to the update cron have no
  -- nil entry. The queue hands out its items in the order in which they were added, the server's laws
  -- are those of conditional writes, and the copy of a specification is equal to it.
  pub change-Arrives :
      (fair : IsFair h) (caches : Caches) (zms : ZmsRequest → ZmsAnswer) (found : SignedDomains)
      (etag : Bytes) (names : List Bytes) (domain : Bytes) (n : ℕ) (events : List Event)
      (w : World q)
      → zms (request_of w) ≡ answered (some found) etag
      → HaveNames (items found.domains) names
      → In domain (valid_names s.util caches names)
      → h.is_busy w.queue domain ≡ false
      → h.place (add_all q w.queue (valid_names s.util caches names)) domain ≡ some n
      → n < turns events
      → AllMeet s copies h api lawful first wants (update_due caches zms ∷ events) w
      → let (r, after) = run (over api first s) h (update_due caches zms ∷ events) w in
        (r ≡ ret tt)
        × In (name domain) (handed_out (over api first s) h (update_due caches zms ∷ events) w)
        × Arrives s copies h api lawful first domain
            (wants domain)
            (update_due caches zms ∷ events)
            w
            after
  change-Arrives fair caches zms found etag names domain n events w answers named changed idle
        placed many meet =
      waiting-Arrives s copies h api lawful first wants fair domain n (update_due caches zms) events
        w
        (rw (change_queue caches zms found etag names w answers named) (
          placed_after_adding s copies h api lawful first wants fair w.queue
            (valid_names s.util caches names) domain n changed idle placed))
        many meet
