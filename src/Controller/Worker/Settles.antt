-- ===== src/Controller/Worker/Settles.antt =====
-- What a round of the worker does to the API server's store.
use k8s_athenz_syncer.Common.{◌≡◌, refl, ◌⊎◌, inl, inr, true, Option, none, some, Bytes}
use k8s_athenz_syncer.Go.{Go, ret, panic}
use k8s_athenz_syncer.Util.{Util}
use k8s_athenz_syncer.WorkQueue.{WorkQueue, name}
use k8s_athenz_syncer.Cluster.{GoError, AthenzDomain, AthenzDomainSpec, Server}
use k8s_athenz_syncer.World.{World}
use k8s_athenz_syncer.ApiServer.{ApiServer, IsLawful}
use k8s_athenz_syncer.ApiServer.Replay.{replay, server_over}
use k8s_athenz_syncer.CrUtil.Update.{Copies}
use k8s_athenz_syncer.Controller.{sync}
use k8s_athenz_syncer.Controller.Sync.{as_object}
use k8s_athenz_syncer.Controller.Wanted.{Wants, Agrees, IsWhole, Refuses, Outcome}
use k8s_athenz_syncer.Controller.Converge.{sync-Outcome}
use k8s_athenz_syncer.Controller.Worker.{Round, process_next_item, process_key, after_sync, finish}
use k8s_athenz_syncer.Controller.Worker.Retry.{calls-requeue}

module _ {q : WorkQueue} (api : ApiServer) (first : api.State) where
  -- The store is as it should be, or the server has refused the write that was due and the
  -- resource stays.
  abbrev pub Settles : Bytes → Option AthenzDomain → World q → World q → Type 0
  Settles domain wanted before after =
      Agrees (api.get (replay api first after.calls) domain) wanted
      ⊎ ((api.get (replay api first after.calls) domain
            ≡ api.get (replay api first before.calls) domain)
          × Refuses api (replay api first before.calls) domain wanted)

module _ {q : WorkQueue} (copy : AthenzDomainSpec → Option AthenzDomainSpec) (copies : Copies copy)
    (u : Util) (api : ApiServer) (lawful : IsLawful api) (first : api.State) (base : Server) where
  after_sync-Settles :
      (domain : Bytes) (wanted : Option AthenzDomain) (w : World q)
      (r : Go (Option GoError) × World q)
      → Outcome api (replay api first w.calls) domain wanted r.0 (replay api first r.1.calls)
      → let (more, after) = finish (name domain) (after_sync domain r) in
        (more ≡ ret true) × Settles api first domain wanted w after
  unfolding finish after_sync
  after_sync-Settles domain wanted w (ret none, v) h =
      (refl, inl (rw (calls-requeue domain none v) h))
  after_sync-Settles domain wanted w (ret (some e), v) h =
      (refl, inr (rw (calls-requeue domain (some e) v) h))
  after_sync-Settles domain wanted w (panic, v) h = absurd h

  -- A round of the worker for a domain whose cached resource is the stored one lets the worker go on,
  -- and afterwards the store has what the domain should have, unless the server refused the
  -- write that was due, which leaves it as it was.
  pub process_next_item-Settles :
      (round : Round) (domain : Bytes) (cached wanted : Option AthenzDomain) (w : World q)
      → round.key ≡ some (name domain)
      → IsWhole cached
      → round.caches.cr_by_key domain ≡ as_object cached
      → api.get (replay api first w.calls) domain ≡ cached
      → Wants u round.caches round.zms domain wanted
      → let (more, after) = process_next_item copy u (server_over api first base) round w in
        (more ≡ ret true) × Settles api first domain wanted w after
  unfolding process_next_item process_key
  process_next_item-Settles round domain cached wanted w key whole seen stored wants = rw key (
      after_sync-Settles domain wanted w
        (sync copy u round.caches (server_over api first base) round.zms domain w)
        (sync-Outcome copy copies u round.caches round.zms api lawful first base domain cached
          wanted w whole seen stored wants))
