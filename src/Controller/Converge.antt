-- ===== src/Controller/Converge.antt =====
-- Where a run of `sync` takes the API server's store: to what ZMS and the validation of the domain
-- ask for.
use k8s_athenz_syncer.Common.{
  sym, ap, ◌∙◌, Bool-cases, ◌≡◌, refl, ◌⊎◌, inl, inr, false, Option, none, some, [], ◌∷◌, ◌++◌,
  Bytes,
}
use k8s_athenz_syncer.Go.{Go, ret}
use k8s_athenz_syncer.Zms.{DomainData, SignedDomain}
use k8s_athenz_syncer.Util.{Util}
use k8s_athenz_syncer.WorkQueue.{WorkQueue}
use k8s_athenz_syncer.Cluster.{
  GoError, Result, ok, err, AthenzDomain, AthenzDomainSpec, Caches, Server, ZmsRequest, ZmsAnswer,
  create_cr, update_cr, delete_cr,
}
use k8s_athenz_syncer.World.{World}
use k8s_athenz_syncer.ApiServer.{ApiServer, IsLawful, Stores}
use k8s_athenz_syncer.ApiServer.Replay.{replay, replay-append, server_over}
use k8s_athenz_syncer.CrUtil.{as_pointer, new_object, create_update_athenz_domain, update_found}
use k8s_athenz_syncer.CrUtil.Create.{
  Removes, create_update_athenz_domain-created, create_update_athenz_domain-refused,
  create_update_athenz_domain-cached,
}
use k8s_athenz_syncer.CrUtil.Update.{
  Copies, IsComplete, with_version_of, is_up_to_date, is_up_to_date_iff, update_found_lem,
}
use k8s_athenz_syncer.Cron.{validate_domain}
use k8s_athenz_syncer.Controller.{sync}
use k8s_athenz_syncer.Controller.Sync.{
  IsMissing, request_for, as_object, after_create, sync-Removes, sync_found,
}
use k8s_athenz_syncer.Controller.Wanted.{
  Wants, gone, held, Agrees, IsWhole, Refuses, Outcome, delete-Outcome, Agrees-stored,
}

module _ {q : WorkQueue} (copy : AthenzDomainSpec → Option AthenzDomainSpec) (copies : Copies copy)
    (u : Util) (caches : Caches) (zms : ZmsRequest → ZmsAnswer) (api : ApiServer)
    (lawful : IsLawful api) (first : api.State) (base : Server) where
  -- What a run from the world `w` leaves behind.
  Reaches : Bytes → Option AthenzDomain → World q → Go (Option GoError) × World q → Type 0
  Reaches domain wanted w r =
      Outcome api (replay api first w.calls) domain wanted r.0 (replay api first r.1.calls)

  Reaches-ok :
      (domain : Bytes) (d : DomainData) (wanted : Option AthenzDomain) (w v : World q)
      (cr : Option AthenzDomain) (written : Go (Result (Option AthenzDomain)) × World q)
      → written ≡ (ret (ok cr), v)
      → Agrees (api.get (replay api first v.calls) domain) wanted
      → Reaches domain wanted w
          (after_create copy u caches (server_over api first base) domain d written)
  unfolding Reaches
  Reaches-ok domain d wanted w v cr written e agrees = rw e agrees

  Reaches-err :
      (domain : Bytes) (d : DomainData) (wanted : Option AthenzDomain) (w v : World q) (x : GoError)
      (written : Go (Result (Option AthenzDomain)) × World q)
      → written ≡ (ret (err x), v)
      → api.get (replay api first v.calls) domain ≡ api.get (replay api first w.calls) domain
      → Refuses api (replay api first w.calls) domain wanted
      → Reaches domain wanted w
          (after_create copy u caches (server_over api first base) domain d written)
  unfolding Reaches
  Reaches-err domain d wanted w v x written e kept refuses = rw e (kept, refuses)

  after_create_cr :
      (w : World q) (object : AthenzDomain) {answer : Result AthenzDomain × api.State}
      → api.create (replay api first w.calls) object ≡ answer
      → replay api first (w.calls ++ (create_cr object ∷ [])) ≡ answer.1
  after_create_cr w object e = replay-append api first w.calls _ ∙ ap (λ a. a.1) e

  after_update_cr :
      (w : World q) (object : AthenzDomain) {answer : Result AthenzDomain × api.State}
      → api.update (replay api first w.calls) object ≡ answer
      → replay api first (w.calls ++ (update_cr object ∷ [])) ≡ answer.1
  after_update_cr w object e = replay-append api first w.calls _ ∙ ap (λ a. a.1) e

  create-Reaches :
      (domain : Bytes) (signed : SignedDomain) (d : DomainData) (w : World q)
      (answer : Result AthenzDomain × api.State)
      → caches.cr_by_key domain ≡ none
      → api.get (replay api first w.calls) domain ≡ none
      → IsComplete (new_object domain signed).spec
      → api.create (replay api first w.calls) (new_object domain signed) ≡ answer
      → Stores api (replay api first w.calls) (new_object domain signed) answer
      → Reaches domain (some (new_object domain signed)) w (
          after_create copy u caches (server_over api first base) domain d (
            create_update_athenz_domain copy caches
              (server_over api first base)
              domain
              (some signed)
              w))
  create-Reaches domain signed d w (ok new, t) absent stored complete e (got, spec, status) =
      Reaches-ok domain d (some (new_object domain signed)) w
        (record w { calls = w.calls ++ (create_cr (new_object domain signed) ∷ []) }) (some new) _
        (create_update_athenz_domain-created copy caches (server_over api first base) domain signed
          new w absent (rw e refl))
        (rw (after_create_cr w (new_object domain signed) e) (
          Agrees-stored api (replay api first w.calls) domain _ new (new_object domain signed) got
            complete spec status))
  create-Reaches domain signed d w (err x, t) absent stored complete e kept =
      let (y, made) =
        create_update_athenz_domain-refused copy caches (server_over api first base) domain signed x
          w absent (rw e refl) in
      Reaches-err domain d (some (new_object domain signed)) w
        (record w { calls = w.calls ++ (create_cr (new_object domain signed) ∷ []) }) y _ made
        (ap (λ s. api.get s domain) (after_create_cr w (new_object domain signed) e) ∙ kept)
        (rw stored (x, rw e refl))

  replace-Reaches :
      (domain : Bytes) (signed : SignedDomain) (d : DomainData) (old : AthenzDomain) (w : World q)
      (answer : Result AthenzDomain × api.State)
      → let next = with_version_of old (new_object domain signed) in
        api.get (replay api first w.calls) domain ≡ some old
        → IsComplete (new_object domain signed).spec
        → api.update (replay api first w.calls) next ≡ answer
        → Stores api (replay api first w.calls) next answer
        → (written : Go (Result (Option AthenzDomain)) × World q)
        → written ≡ (
          ret (as_pointer (api.update (replay api first w.calls) next).0),
          record w { calls = w.calls ++ (update_cr next ∷ []) },
        )
        → Reaches domain
            (some (new_object domain signed))
            w
            (after_create copy u caches (server_over api first base) domain d written)
  replace-Reaches domain signed d old w (ok new, t) stored cn e (got, spec, status) written made =
      Reaches-ok domain d (some (new_object domain signed)) w
        (record w {
          calls = w.calls ++ (update_cr (with_version_of old (new_object domain signed)) ∷ []);
        })
        (some new) written (rw (made, e) refl)
        (rw (after_update_cr w (with_version_of old (new_object domain signed)) e) (
          Agrees-stored api (replay api first w.calls) domain _ new (new_object domain signed) got
            cn spec status))
  replace-Reaches domain signed d old w (err x, t) stored cn e kept written made =
      Reaches-err domain d (some (new_object domain signed)) w
        (record w {
          calls = w.calls ++ (update_cr (with_version_of old (new_object domain signed)) ∷ []);
        })
        x written (rw (made, e) refl)
        (ap (λ s. api.get s domain)
            (after_update_cr w (with_version_of old (new_object domain signed)) e)
          ∙ kept)
        (rw stored (x, rw e refl))

  update-Reaches :
      (domain : Bytes) (signed : SignedDomain) (d : DomainData) (old : AthenzDomain) (w : World q)
      (answer : Result AthenzDomain × api.State)
      → IsComplete old.spec
      → IsComplete (new_object domain signed).spec
      → api.get (replay api first w.calls) domain ≡ some old
      → api.update (replay api first w.calls) (with_version_of old (new_object domain signed))
        ≡ answer
      → Stores api
          (replay api first w.calls)
          (with_version_of old (new_object domain signed))
          answer
      → Reaches domain (some (new_object domain signed)) w (
          after_create copy u caches (server_over api first base) domain d (
            update_found copy
              (server_over api first base)
              (some old)
              (some (new_object domain signed))
              w))
  update-Reaches domain signed d old w answer co cn present e h =
      elim (Bool-cases (is_up_to_date old (new_object domain signed))) [
        | inl same ↦
            Reaches-ok domain d (some (new_object domain signed)) w w none _
              (rw
                (
                  update_found_lem copy (server_over api first base) copies old
                      (new_object domain signed) w co cn,
                  same,
                )
                refl)
              (rw present ((is_up_to_date_iff old (new_object domain signed) co).0 same))
        | inr differs ↦ replace-Reaches domain signed d old w answer present cn e h _ (
            rw
              (
                update_found_lem copy (server_over api first base) copies old
                    (new_object domain signed) w co cn,
                differs,
              )
              refl)
      ]

  gone-Reaches :
      (domain : Bytes) (cached : Option AthenzDomain) (w : World q)
      (r : Go (Option GoError) × World q)
      → api.get (replay api first w.calls) domain ≡ cached
      → Removes caches (server_over api first base) domain w (as_object cached) r
      → Reaches domain none w r
  unfolding Reaches
  gone-Reaches domain none w r stored same = rw (same, stored) tt
  gone-Reaches domain (some old) w r stored same = rw same (
      rw (replay-append api first w.calls (delete_cr domain)) (
        delete-Outcome api (replay api first w.calls) domain old
          (api.delete (replay api first w.calls) domain) stored refl
          (lawful.delete-Deletes (replay api first w.calls) domain old stored)))

  sync-Reaches-gone :
      (domain : Bytes) (cached : Option AthenzDomain) (w : World q)
      → (validate_domain u caches domain ≡ false) ⊎ IsMissing (zms (request_for domain))
      → caches.cr_by_key domain ≡ as_object cached
      → api.get (replay api first w.calls) domain ≡ cached
      → Reaches domain none w (sync copy u caches (server_over api first base) zms domain w)
  sync-Reaches-gone domain cached w why seen stored =
      gone-Reaches domain cached w (sync copy u caches (server_over api first base) zms domain w)
        stored
        (rw (sym seen) (sync-Removes copy u caches (server_over api first base) zms domain w why))

  held-Reaches :
      (domain : Bytes) (signed : SignedDomain) (d : DomainData) (cached : Option AthenzDomain)
      (w : World q)
      → IsWhole cached
      → caches.cr_by_key domain ≡ as_object cached
      → api.get (replay api first w.calls) domain ≡ cached
      → IsComplete (new_object domain signed).spec
      → Reaches domain (some (new_object domain signed)) w (
          after_create copy u caches (server_over api first base) domain d (
            create_update_athenz_domain copy caches
              (server_over api first base)
              domain
              (some signed)
              w))
  held-Reaches domain signed d none w complete seen stored cn =
      create-Reaches domain signed d w _ seen stored cn refl
        (lawful.create-Stores (replay api first w.calls) (new_object domain signed) stored)
  held-Reaches domain signed d (some old) w complete seen stored cn =
      rw
        (create_update_athenz_domain-cached copy caches (server_over api first base) domain signed
          old w seen)
        (update-Reaches domain signed d old w _ complete cn stored refl (
          lawful.update-Stores (replay api first w.calls)
            (with_version_of old (new_object domain signed)) old stored refl))

  -- For a domain whose cached resource is the stored one, and of which ZMS answers exactly one entry
  -- with this name and its policies set, or which is gone from ZMS or not valid: a run of `sync` does
  -- not panic. It ends with no error and the store has the resource that the domain should have, or
  -- no resource if it should have none; or it ends with an error, the server has refused the one write
  -- that was due, and the resource is as it was. Due is the create of the new resource if none is
  -- stored, else its update under the stored version, or the delete if the domain should have none.
  -- The server's laws are those of conditional writes, and a stored resource has its domain and
  -- policies set.
  pub sync-Outcome :
      (domain : Bytes) (cached wanted : Option AthenzDomain) (w : World q)
      → IsWhole cached
      → caches.cr_by_key domain ≡ as_object cached
      → api.get (replay api first w.calls) domain ≡ cached
      → Wants u caches zms domain wanted
      → let (r, after) = sync copy u caches (server_over api first base) zms domain w in
        Outcome api (replay api first w.calls) domain wanted r (replay api first after.calls)
  unfolding Reaches
  sync-Outcome domain cached none w complete seen stored (gone why) =
      sync-Reaches-gone domain cached w why seen stored
  sync-Outcome domain cached wanted w complete seen stored
        (held etag found signed d policies valid e one filtered same set) =
      rw
        (sync_found copy u caches (server_over api first base) zms domain etag found signed d w
          valid e one filtered same)
        (held-Reaches domain (record signed { domain = some d }) d cached w complete seen stored
          (d, policies, refl, set))
