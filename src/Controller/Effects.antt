-- ===== src/Controller/Effects.antt =====
-- A run of `sync` for a domain keeps every property of the world that queueing and the calls for the
-- domain keep.
use mathlib.Core.Path.{subst}
use mathlib.Core.List.{filter_map}
use k8s_athenz_syncer.Common.{
  ◌≡◌, refl, inl, inr, true, Option, none, some, List, [], ◌∷◌, arith, Bytes, bytes_eq, nat_eq,
  ◌==◌, Option-cases, Bool-cases, ap, false, ◌⊎◌, In, is_empty,
}
use k8s_athenz_syncer.Go.{Go, ret, items, Go-cases}
use k8s_athenz_syncer.Zms.{Role, DomainData, SignedDomain}
use k8s_athenz_syncer.Util.{Util}
use k8s_athenz_syncer.WorkQueue.{WorkQueue}
use k8s_athenz_syncer.Cluster.{
  update_config_map, create_config_map, get_config_map, delete_cr, update_cr, create_cr, Call,
  GoError, resource_error, Result, ok, err, AthenzDomain, AthenzDomainSpec, Object, athenz_domain,
  tombstone, other, Caches, Server, ZmsRequest, ZmsAnswer, SignedDomains, answered, failed,
}
use k8s_athenz_syncer.World.{World, M, continue}
use k8s_athenz_syncer.Named.{IsNamed, WritesNamed}
use k8s_athenz_syncer.Stable.{IsStable, Keeps, continue-Keeps, after_adding-Keeps}
use k8s_athenz_syncer.CrUtil.{
  create_update_athenz_domain, remove_athenz_domain, get_cr_by_name, Found,
}
use k8s_athenz_syncer.CrUtil.Create.{
  create_update_athenz_domain-Writes, Removes, remove_athenz_domain-Removes,
}
use k8s_athenz_syncer.Cron.{validate_domain}
use k8s_athenz_syncer.Controller.{
  sync, fetch, filter_domains, zms_get_signed_domains, sync_fetched, sync_failed, keep_resource,
  sync_domains, after_write, add_trusts,
}
use k8s_athenz_syncer.Controller.Sync.{add_trusts_lem, trust_of, IsMissing, request_for}

eq_of_test : (a b : Bytes) → (a == b) ≡ true → a ≡ b
eq_of_test a b e = ground arith

-- ZMS answers the request for the domain with a list that, once filtered, has the entry.
abbrev pub Sent : Util → (ZmsRequest → ZmsAnswer) → Bytes → SignedDomain → Type 0
Sent u zms domain signed =
    (found : SignedDomains) × (etag : Bytes) × (filtered : List (Option SignedDomain)) × (zms
        (request_for domain)
      ≡ answered (some found) etag)
    × (filter_domains u (items found.domains) ≡ ret filtered)
    × In (some signed) filtered

-- The domain is not valid, or ZMS does not have it.
abbrev pub Unwanted : Util → Caches → (ZmsRequest → ZmsAnswer) → Bytes → Type 0
Unwanted u caches zms domain =
    (validate_domain u caches domain ≡ false) ⊎ IsMissing (zms (request_for domain))

-- The calls that a run for the domain makes: it writes resources with the domain under its name, as
-- ZMS has sent it, and deletes the one of this name where it is not wanted.
module _ (u : Util) (caches : Caches) (zms : ZmsRequest → ZmsAnswer) (domain : Bytes) where
  abbrev pub Touches : Call → Type 0
  Touches (create_cr a) =
      IsNamed a × (a.object_meta.name ≡ domain) × Sent u zms domain a.spec.signed_domain
  Touches (update_cr a) =
      IsNamed a × (a.object_meta.name ≡ domain) × Sent u zms domain a.spec.signed_domain
  Touches (delete_cr removed) = (removed ≡ domain) × Unwanted u caches zms domain
  Touches _ = ⊥

  pub Touches-WritesNamed : (c : Call) → Touches c → WritesNamed c
  Touches-WritesNamed (create_cr a) h = h.0
  Touches-WritesNamed (update_cr a) h = h.0
  Touches-WritesNamed (delete_cr removed) h = tt
  Touches-WritesNamed (get_config_map ns n) h = tt
  Touches-WritesNamed (create_config_map ns config_map) h = tt
  Touches-WritesNamed (update_config_map ns config_map) h = tt

module _ {q : WorkQueue} (P : Call → Type 0) (I : World q → Type 0) (stable : IsStable P I)
    (copy : AthenzDomainSpec → Option AthenzDomainSpec) (u : Util) (caches : Caches)
    (server : Server) (zms : ZmsRequest → ZmsAnswer) (domain : Bytes)
    (touches : (c : Call) → Touches u caches zms domain c → P c) where
  create_update-Keeps :
      (signed : SignedDomain) (d : DomainData)
      → signed.domain ≡ some d
      → d.name ≡ domain
      → Sent u zms domain signed
      → Keeps I (create_update_athenz_domain copy caches server domain (some signed))
  create_update-Keeps signed d e same sent w h =
      elim (create_update_athenz_domain-Writes copy caches server domain signed w) [
        | inl kept ↦ rw kept h
        | inr (inl (absent, made)) ↦
            rw made (stable.called w _ (touches _ ((d, e, same), refl, sent)) h)
        | inr (inr (old, cached, made)) ↦
            rw made (stable.called w _ (touches _ ((d, e, same), refl, sent)) h)
      ]

  remove-Keeps-from :
      Unwanted u caches zms domain
      → (cached : Option Object) (w : World q) (r : Go (Option GoError) × World q)
      → Removes caches server domain w cached r
      → I w
      → I r.1
  remove-Keeps-from why none w r e h = rw e h
  remove-Keeps-from why (some (athenz_domain old)) w r e h =
      rw e (stable.called w _ (touches (delete_cr domain) (refl, why)) h)
  remove-Keeps-from why (some (tombstone o)) w r (x, e) h = rw e h
  remove-Keeps-from why (some other) w r (x, e) h = rw e h

  remove-Keeps : Unwanted u caches zms domain → Keeps I (remove_athenz_domain caches server domain)
  remove-Keeps why w h =
      remove-Keeps-from why (caches.cr_by_key domain) w _
        (remove_athenz_domain-Removes caches server domain w) h

  add_trusts-Keeps :
      (roles : List (Option Role)) → Keeps I (add_trusts copy u caches server domain roles)
  add_trusts-Keeps roles w h =
      rw (add_trusts_lem copy u caches server domain roles w)
        (after_adding-Keeps P I stable (filter_map (trust_of u caches domain) roles) w h)

  after_write-Keeps :
      (d : DomainData) (next : M q (Option GoError)) (r : Result (Option AthenzDomain))
      → Keeps I next
      → Keeps I (after_write copy u caches server domain d next r)
  unfolding after_write
  after_write-Keeps d next (err e) k w h = h
  after_write-Keeps d next (ok cr) k w h =
      continue-Keeps I _ _ (λ _. k) (add_trusts-Keeps (items d.roles) w h)

  sync_domains-Keeps :
      (fetched : List (Option SignedDomain))
      → ((signed : SignedDomain) → In (some signed) fetched → Sent u zms domain signed)
      → Keeps I (sync_domains copy u caches server domain fetched)
  unfolding sync_domains
  sync_domains-Keeps [] sent w h = h
  sync_domains-Keeps (none ∷ rest) sent w h = h
  sync_domains-Keeps (some signed ∷ rest) sent w h = elim (Option-cases signed.domain) [
    | inl e ↦ rw e h
    | inr (d, e) ↦ elim (Bool-cases (d.name == domain)) [
      | inl same ↦
          rw (e, same)
            (continue-Keeps I _ _
              (λ r.
                after_write-Keeps d _ r (sync_domains-Keeps rest (λ other i. sent other (inr i))))
              (create_update-Keeps (record signed { domain = some d }) d refl
                (eq_of_test d.name domain same)
                (subst (Sent u zms domain) (ap (λ o. record signed { domain = o }) e)
                  (sent signed (inl refl)))
                w h))
      | inr other_name ↦
          rw (e, other_name) (sync_domains-Keeps rest (λ other i. sent other (inr i)) w h)
    ]
  ]

  keep_resource-Keeps : (found : Found) → Keeps I (keep_resource copy u caches server found)
  unfolding keep_resource
  keep_resource-Keeps found w h = elim (Option-cases found.error) [
    | inl e ↦ elim (Bool-cases found.exist) [
      | inl there ↦ rw (e, keep_resource, there) h
      | inr absent ↦ rw (e, keep_resource, absent) h
    ]
    | inr (x, e) ↦ rw (e, keep_resource) h
  ]

  fetched-Keeps :
      (answer : ZmsAnswer) (w : World q)
      → zms (request_for domain) ≡ answer
      → I w
      → I (continue (sync_fetched copy u caches server domain) (fetch u answer, w)).1
  unfolding fetch sync_fetched sync_failed
  fetched-Keeps (failed (resource_error code text)) w asked h = elim (Bool-cases (code == 404)) [
    | inl e ↦ rw e (remove-Keeps (inr (rw asked (ground (arith, e)))) w h)
    | inr e ↦ rw e (keep_resource-Keeps (get_cr_by_name caches domain) w h)
  ]
  fetched-Keeps (answered none etag) w asked h = h
  fetched-Keeps (answered (some found) etag) w asked h =
      elim (Bool-cases (is_empty (items found.domains))) [
        | inl empty ↦
            rw empty (remove-Keeps (inr (rw asked (found, refl, ground (arith, empty)))) w h)
        | inr more ↦ elim (Go-cases (filter_domains u (items found.domains))) [
          | inl e ↦ rw (more, e) h
          | inr (filtered, e) ↦
              rw (more, e)
                (sync_domains-Keeps filtered (λ signed i. (found, etag, filtered, asked, e, i)) w h)
        ]
      ]
  fetched-Keeps (failed _) w asked h = h

  pub sync-Keeps : Keeps I (sync copy u caches server zms domain)
  unfolding sync zms_get_signed_domains
  sync-Keeps w h = elim (Bool-cases (validate_domain u caches domain)) [
    | inl valid ↦ rw valid (fetched-Keeps (zms (request_for domain)) w refl h)
    | inr invalid ↦ rw invalid (remove-Keeps (inl invalid) w h)
  ]
