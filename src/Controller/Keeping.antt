-- ===== src/Controller/Keeping.antt =====
-- When a run of `sync` deletes nothing.
use k8s_athenz_syncer.Common.{
  ◌≡◌, refl, ◌∙◌, inl, inr, true, Option, none, some, List, [], ◌∷◌, ◌++◌, arith, Bytes, bytes_eq,
  nat_eq, ◌==◌, Option-cases, Bool-cases, is_empty,
}
use k8s_athenz_syncer.Go.{Go, ret, panic, items, Go-cases}
use k8s_athenz_syncer.Zms.{DomainData, SignedDomain}
use k8s_athenz_syncer.Util.{Util}
use k8s_athenz_syncer.WorkQueue.{WorkQueue}
use k8s_athenz_syncer.Cluster.{
  GoError, resource_error, Result, ok, err, AthenzDomain, AthenzDomainSpec, Caches, Server,
  ZmsRequest, ZmsAnswer, answered, failed, Call, create_cr, update_cr, delete_cr,
}
use k8s_athenz_syncer.World.{World, M, continue}
use k8s_athenz_syncer.CrUtil.{new_object, create_update_athenz_domain, get_cr_by_name, Found}
use k8s_athenz_syncer.CrUtil.Update.{with_version_of}
use k8s_athenz_syncer.CrUtil.Create.{create_update_athenz_domain-Writes}
use k8s_athenz_syncer.Cron.{validate_domain}
use k8s_athenz_syncer.Controller.{
  sync, sync_fetched, sync_failed, keep_resource, sync_domains, after_write, add_trusts, fetch,
  filter_domains, zms_get_signed_domains,
}
use k8s_athenz_syncer.Controller.Sync.{add_trusts_lem, IsMissing, request_for}

-- The domains whose resources the calls delete.
abbrev pub deletes : List Call → List Bytes
deletes [] = []
deletes (delete_cr domain ∷ calls) = domain ∷ deletes calls
deletes (_ ∷ calls) = deletes calls

deletes-create :
    (calls : List Call) (a : AthenzDomain) → deletes (calls ++ (create_cr a ∷ [])) ≡ deletes calls
deletes-create [] a = refl
deletes-create (c ∷ calls) a = ground (arith, deletes-create calls a)

deletes-update :
    (calls : List Call) (a : AthenzDomain) → deletes (calls ++ (update_cr a ∷ [])) ≡ deletes calls
deletes-update [] a = refl
deletes-update (c ∷ calls) a = ground (arith, deletes-update calls a)

-- What is read off the calls, and operations that leave it as it is.
module _ {V : Type 0} (view : List Call → V) where
  abbrev Spares : {q : WorkQueue} {A : Type 0} → M q A → Type 0
  Spares {q} m = (w : World q) → view (m w).1.calls ≡ view w.calls

  continue-Spares :
      {q : WorkQueue} {A B : Type 0} (f : A → M q B) (r : Go A × World q) (seen : V)
      → ((a : A) → Spares (f a))
      → view r.1.calls ≡ seen
      → view (continue f r).1.calls ≡ seen
  continue-Spares f (ret a, w) seen h k = h a w ∙ k
  continue-Spares f (panic, w) seen h k = k

  -- The writes of a domain's resource do not show in the view.
  abbrev pub Ignores : Bytes → Type 0
  Ignores domain =
      (calls : List Call) (signed : SignedDomain)
      → (view (calls ++ (create_cr (new_object domain signed) ∷ [])) ≡ view calls)
        × ((old : AthenzDomain)
            → view (calls ++ (update_cr (with_version_of old (new_object domain signed)) ∷ []))
              ≡ view calls)

module _ {q : WorkQueue} (copy : AthenzDomainSpec → Option AthenzDomainSpec) (u : Util)
    (caches : Caches) (server : Server) {V : Type 0} (view : List Call → V) (domain : Bytes)
    (ignores : Ignores view domain) where
  create_update-Spares :
      (signed : SignedDomain)
      → Spares view {q = q} (create_update_athenz_domain copy caches server domain (some signed))
  create_update-Spares signed w =
      elim (create_update_athenz_domain-Writes copy caches server domain signed w) [
        | inl kept ↦ rw kept refl
        | inr (inl (absent, made)) ↦ rw made (ignores w.calls signed).0
        | inr (inr (old, cached, made)) ↦ rw made ((ignores w.calls signed).1 old)
      ]

  after_write-Spares :
      (d : DomainData) (next : M q (Option GoError)) (r : Result (Option AthenzDomain))
      → Spares view next
      → Spares view (after_write copy u caches server domain d next r)
  unfolding after_write
  after_write-Spares d next (err e) k w = refl
  after_write-Spares d next (ok cr) k w =
      continue-Spares view (λ _. next) (add_trusts copy u caches server domain (items d.roles) w)
        (view w.calls) (λ _. k)
        (rw (add_trusts_lem copy u caches server domain (items d.roles) w) refl)

  sync_domains-Spares :
      (fetched : List (Option SignedDomain))
      → Spares view {q = q} (sync_domains copy u caches server domain fetched)
  unfolding sync_domains
  sync_domains-Spares [] w = refl
  sync_domains-Spares (none ∷ rest) w = refl
  sync_domains-Spares (some signed ∷ rest) w = elim (Option-cases signed.domain) [
    | inl e ↦ rw e refl
    | inr (d, e) ↦ elim (Bool-cases (d.name == domain)) [
      | inl same ↦
          rw (e, same)
            (continue-Spares view
              (λ r.
                after_write copy u caches server domain d
                  (sync_domains copy u caches server domain rest) r)
              (create_update_athenz_domain copy caches server domain
                (some (record signed { domain = some d })) w)
              (view w.calls)
              (λ r.
                after_write-Spares d (sync_domains copy u caches server domain rest) r
                  (sync_domains-Spares rest))
              (create_update-Spares (record signed { domain = some d }) w))
      | inr other_name ↦ rw (e, other_name) (sync_domains-Spares rest w)
    ]
  ]

  keep_resource-Spares :
      (found : Found) → Spares view {q = q} (keep_resource copy u caches server found)
  unfolding keep_resource
  keep_resource-Spares found w = elim (Option-cases found.error) [
    | inl e ↦ elim (Bool-cases found.exist) [
      | inl there ↦ rw (e, keep_resource, there) refl
      | inr absent ↦ rw (e, keep_resource, absent) refl
    ]
    | inr (x, e) ↦ rw (e, keep_resource) refl
  ]

  fetched-Spares :
      (answer : ZmsAnswer) (w : World q)
      → ¬ IsMissing answer
      → view (continue (sync_fetched copy u caches server domain) (fetch u answer, w)).1.calls
        ≡ view w.calls
  unfolding fetch sync_fetched sync_failed
  fetched-Spares (failed (resource_error code text)) w has = elim (Bool-cases (code == 404)) [
    | inl e ↦ absurd (has (ground (arith, e)))
    | inr e ↦ rw e (keep_resource-Spares (get_cr_by_name caches domain) w)
  ]
  fetched-Spares (answered none etag) w has = refl
  fetched-Spares (answered (some found) etag) w has =
      elim (Bool-cases (is_empty (items found.domains))) [
        | inl empty ↦ absurd (has (found, refl, ground (arith, empty)))
        | inr more ↦ elim (Go-cases (filter_domains u (items found.domains))) [
          | inl e ↦ rw (more, e) refl
          | inr (filtered, e) ↦ rw (more, e) (sync_domains-Spares filtered w)
        ]
      ]
  fetched-Spares (failed _) w has = refl

  -- A run that ZMS does not report as missing shows in no view that ignores the writes of the
  -- domain's resource.
  pub sync-Spares :
      (zms : ZmsRequest → ZmsAnswer) (w : World q)
      → validate_domain u caches domain ≡ true
      → ¬ IsMissing (zms (request_for domain))
      → view (sync copy u caches server zms domain w).1.calls ≡ view w.calls
  unfolding sync zms_get_signed_domains
  sync-Spares zms w valid has = rw valid (fetched-Spares (zms (request_for domain)) w has)

module _ {q : WorkQueue} (copy : AthenzDomainSpec → Option AthenzDomainSpec) (u : Util)
    (caches : Caches) (server : Server) where
  -- A run for a valid domain that ZMS does not report as missing deletes no resource, whatever else
  -- ZMS and the API server answer, and whether or not it panics.
  pub sync-deletes :
      (zms : ZmsRequest → ZmsAnswer) (domain : Bytes) (w : World q)
      → validate_domain u caches domain ≡ true
      → ¬ IsMissing (zms (request_for domain))
      → deletes (sync copy u caches server zms domain w).1.calls ≡ deletes w.calls
  sync-deletes zms domain w valid has =
      sync-Spares copy u caches server deletes domain
        (λ calls signed. (deletes-create calls _, λ old. deletes-update calls _)) zms w valid has
