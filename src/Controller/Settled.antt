-- ===== src/Controller/Settled.antt =====
-- What a run of `sync` leaves alone: the resources of other names, and a store that is as it should be.
use mathlib.Core.Path.{subst}
use k8s_athenz_syncer.Common.{◌≡◌, refl, ◌≢◌, inl, inr, Option, none, some, List, Bytes, Bool-cases}
use k8s_athenz_syncer.Go.{Go, ret}
use k8s_athenz_syncer.Util.{Util}
use k8s_athenz_syncer.WorkQueue.{WorkQueue}
use k8s_athenz_syncer.Cluster.{
  GoError, AthenzDomain, AthenzDomainSpec, Object, athenz_domain, Caches, Server, Call, ZmsRequest,
  ZmsAnswer, delete_cr, create_cr, update_cr,
}
use k8s_athenz_syncer.World.{World}
use k8s_athenz_syncer.ApiServer.{ApiServer, IsLawful}
use k8s_athenz_syncer.ApiServer.Replay.{replay, replay-append, server_over}
use k8s_athenz_syncer.CrUtil.{new_object}
use k8s_athenz_syncer.CrUtil.Create.{Removes, create_update_athenz_domain_idem}
use k8s_athenz_syncer.CrUtil.Update.{Copies, IsComplete, SameButSignatures, with_version_of, sign}
use k8s_athenz_syncer.Cron.{validate_domain}
use k8s_athenz_syncer.Controller.{sync}
use k8s_athenz_syncer.Controller.Sync.{
  request_for, as_object, sync-Removes, sync_found, IsMissing-cases,
}
use k8s_athenz_syncer.Controller.Keeping.{Ignores, sync-Spares}
use k8s_athenz_syncer.Controller.Wanted.{Wants, gone, held, Agrees}

-- The stored resource of a name after a record of calls.
abbrev view_of : (api : ApiServer) → api.State → Bytes → List Call → Option AthenzDomain
view_of api first name calls = api.get (replay api first calls) name

module _ (api : ApiServer) (lawful : IsLawful api) (first : api.State) where
  view_of-Ignores : (domain name : Bytes) → name ≢ domain → Ignores (view_of api first name) domain
  view_of-Ignores domain name other calls signed = (
    rw (view_of, replay-append api first calls (create_cr (new_object domain signed)))
        (lawful.get-create (replay api first calls) (new_object domain signed) name other),
    λ old.
        rw
          (
            view_of,
            replay-append api first calls
                (update_cr (with_version_of old (new_object domain signed))),
          )
          (lawful.get-update (replay api first calls)
            (with_version_of old (new_object domain signed)) name other),
  )

module _ {q : WorkQueue} (copy : AthenzDomainSpec → Option AthenzDomainSpec) (u : Util)
    (caches : Caches) (zms : ZmsRequest → ZmsAnswer) (api : ApiServer) (lawful : IsLawful api)
    (first : api.State) (base : Server) where
  removal-others :
      (domain name : Bytes) (w : World q) (cached : Option Object)
      (r : Go (Option GoError) × World q)
      → name ≢ domain
      → Removes caches (server_over api first base) domain w cached r
      → view_of api first name r.1.calls ≡ view_of api first name w.calls
  removal-others domain name w none r other same = rw same refl
  removal-others domain name w (some (athenz_domain old)) r other same =
      rw (same, view_of, replay-append api first w.calls (delete_cr domain))
        (lawful.get-delete (replay api first w.calls) domain name other)
  removal-others domain name w (some _) r other (e, same) = rw same refl

  -- Whatever the caches hold and ZMS answers, a run of `sync` for one domain leaves the stored
  -- resources of all other names as they were.
  pub sync-others :
      (domain name : Bytes) (w : World q)
      → name ≢ domain
      → let after = (sync copy u caches (server_over api first base) zms domain w).1 in
        api.get (replay api first after.calls) name ≡ api.get (replay api first w.calls) name
  sync-others domain name w other = elim (IsMissing-cases (zms (request_for domain))) [
    | inl missing ↦
        removal-others domain name w (caches.cr_by_key domain) _ other
          (sync-Removes copy u caches (server_over api first base) zms domain w (inr missing))
    | inr has ↦ elim (Bool-cases (validate_domain u caches domain)) [
      | inl valid ↦
          sync-Spares copy u caches (server_over api first base) (view_of api first name) domain
            (view_of-Ignores api lawful first domain name other) zms w valid has
      | inr invalid ↦
          removal-others domain name w (caches.cr_by_key domain) _ other
            (sync-Removes copy u caches (server_over api first base) zms domain w (inl invalid))
    ]
  ]

-- A spec that differs from a complete one in the signatures only is complete.
SameButSignatures-IsComplete :
    (a b : AthenzDomainSpec) → SameButSignatures a b → IsComplete b → IsComplete a
unfolding sign
SameButSignatures-IsComplete a b (s, p, e) (domain, policies, ed, ep) =
    rw (e, ed, ep) (_, _, refl, refl)

module _ {q : WorkQueue} (copy : AthenzDomainSpec → Option AthenzDomainSpec) (copies : Copies copy)
    (u : Util) (caches : Caches) (zms : ZmsRequest → ZmsAnswer) (server : Server) where
  settled_gone :
      (r : Go (Option GoError) × World q) (domain : Bytes) (w : World q)
      → Removes caches server domain w none r
      → (r.0 ≡ ret none) × (r.1.calls ≡ w.calls)
  settled_gone r domain w same = rw same (refl, refl)

  -- Once the cache holds what the domain should have, up to the signatures, or nothing where it
  -- should have nothing, a run of `sync` returns no error and makes no call of the API server.
  pub sync-settled :
      (domain : Bytes) (cached wanted : Option AthenzDomain) (w : World q)
      → caches.cr_by_key domain ≡ as_object cached
      → Wants u caches zms domain wanted
      → Agrees cached wanted
      → let (r, after) = sync copy u caches server zms domain w in
        (r ≡ ret none) × (after.calls ≡ w.calls)
  sync-settled domain none none w seen (gone why) agrees =
      settled_gone (sync copy u caches server zms domain w) domain w (
        subst (λ c. Removes caches server domain w c (sync copy u caches server zms domain w)) seen
          (sync-Removes copy u caches server zms domain w why))
  sync-settled domain (some old) none w seen (gone why) agrees = absurd agrees
  sync-settled domain none wanted w seen
        (held etag found signed d policies valid e one filtered same set) agrees =
      absurd agrees
  sync-settled domain (some old) wanted w seen
        (held etag found signed d policies valid e one filtered same set) (alike, status) =
      let cn : IsComplete (new_object domain (record signed { domain = some d })).spec =
        (d, policies, refl, set) in
      rw
        (
          sync_found copy u caches server zms domain etag found signed d w valid e one filtered
              same,
          create_update_athenz_domain_idem copy caches server domain
              (record signed { domain = some d }) old w copies seen
              (SameButSignatures-IsComplete old.spec _ alike cn) cn alike status,
        )
        (refl, refl)
