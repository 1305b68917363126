-- ===== src/Controller.antt =====
-- pkg/controller/controller.go
pub mod Worker
pub mod Sync
pub mod Effects
pub mod Keeping
pub mod Wanted
pub mod Converge
pub mod Settled
pub mod Wiring
use k8s_athenz_syncer.Common.{
  ℕ, Bool, true, false, not, ◌&&◌, ◌||◌, Option, none, some, List, [], ◌∷◌, ◌++◌, Bytes, codes,
  bytes_eq, nat_eq, ◌==◌, if◌then◌else◌, is_some, is_empty, ltb,
}
use k8s_athenz_syncer.Go.{Go, ret, panic, items, deref}
use k8s_athenz_syncer.Go
use k8s_athenz_syncer.Zms.{Role, DomainData, SignedDomain}
use k8s_athenz_syncer.Util.{
  Util, domain_to_namespace, namespace_to_domain, is_admin_domain, is_namespace_excluded,
  filter_msd_rules,
}
use k8s_athenz_syncer.WorkQueue.{WorkQueue, Key, name, other}
use k8s_athenz_syncer.Cluster.{
  GoError, resource_error, message, wrapped, Result, ok, err, AthenzDomain, AthenzDomainSpec,
  Caches, Server, ZmsRequest, SignedDomains, ZmsAnswer, answered, failed,
}
use k8s_athenz_syncer.World.{World, M, continue, ◌>>=◌, ◌>>◌, done, lift, enqueue}
use k8s_athenz_syncer.CrUtil.{
  Found, get_cr_by_name, create_update_athenz_domain, remove_athenz_domain, update_error_status,
  get_latest_timestamp,
}
use k8s_athenz_syncer.Cron.{validate_domain, set_etag, add_admin_system_domains}

abbrev pub worker_queue_retry : ℕ
worker_queue_retry = 3

-- What zmsGetSignedDomains returns.
pub record Fetched : Type 0 where
  pub result : Option SignedDomains
  pub exist : Bool
  pub error : Option GoError

pub filter_domains : Util → List (Option SignedDomain) → Go (List (Option SignedDomain))
filter_domains u [] = ret []
filter_domains u (none ∷ rest) = panic
filter_domains u (some signed ∷ rest) = Go.◌>>=◌ (filter_msd_rules u signed.domain) λ domain.
    Go.◌>>=◌ (filter_domains u rest)
      λ filtered. ret (some (record signed { domain = domain }) ∷ filtered)

fetch : Util → ZmsAnswer → Go Fetched
unfolding filter_domains
fetch u (failed e) = ret (record { result = none; exist = false; error = some e })
fetch u (answered found etag) = Go.◌>>=◌ (deref found) λ signed_domain.
    if is_empty (items signed_domain.domains)
    then ret (record { result = none; exist = false; error = none })
    else Go.◌>>=◌ (filter_domains u (items signed_domain.domains)) λ filtered.
      ret
        (record { result = some (record { domains = some filtered }); exist = true; error = none })

unfoldable pub zms_get_signed_domains : Util → (ZmsRequest → ZmsAnswer) → Bytes → Go Fetched
unfolding fetch
zms_get_signed_domains u zms domain =
    fetch u (zms (record { domain = domain; meta_only = []; matching_tag = [] }))

-- The conditions under which the trust domain of a role of the domain enters the queue.
unfoldable pub wants_trust : Util → Caches → Bytes → Role → Bool
wants_trust u caches domain role =
    not (role.trust == [])
    && not (role.trust == domain)
    && not (is_some (caches.cr_by_key role.trust))
    && (is_some (caches.ns_by_key (domain_to_namespace u domain)) || is_admin_domain u domain)

module _ {q : WorkQueue} (copy : AthenzDomainSpec → Option AthenzDomainSpec) (u : Util)
    (caches : Caches) (server : Server) where
  unfoldable pub add_trusts : Bytes → List (Option Role) → M q (Unit {0})
  add_trusts domain [] = done tt
  add_trusts domain (none ∷ rest) = add_trusts domain rest
  add_trusts domain (some role ∷ rest) = do
    if wants_trust u caches domain role then enqueue role.trust else done tt
    add_trusts domain rest

  -- After CreateUpdateAthenzDomain: an error ends the loop.
  after_write :
      Bytes
      → DomainData
      → M q (Option GoError)
      → Result (Option AthenzDomain)
      → M q (Option GoError)
  after_write domain domain_data next (err e) =
      done (some (wrapped (codes "Error occurred when creating AthenzDomain custom resources") e))
  after_write domain domain_data next (ok cr) = do add_trusts domain (items domain_data.roles); next

  -- The loop over the fetched domains.
  unfoldable pub sync_domains : Bytes → List (Option SignedDomain) → M q (Option GoError)
  unfolding after_write
  sync_domains domain [] = done none
  sync_domains domain (fetched ∷ rest) =
      let next = sync_domains domain rest in
      do
        signed ← lift (deref fetched)
        domain_data ← lift (deref signed.domain)
        if domain_data.name == domain
            then (do
              written ← create_update_athenz_domain copy caches server domain (some signed)
              after_write domain domain_data next written)
            else next

  -- ZMS failed with something else than 404. The `err` of GetCRByName hides the one of ZMS: it is nil
  -- where it is asked for its text, and nil where it is returned.
  keep_resource : Found → M q (Option GoError)
  keep_resource found = elim found.error [
    | some e ↦ done (some e)
    | none ↦ if found.exist then lift panic else done none
  ]

  sync_failed : Bytes → GoError → M q (Option GoError)
  unfolding keep_resource
  sync_failed domain (resource_error code text) =
      if code == 404
      then remove_athenz_domain caches server domain
      else keep_resource (get_cr_by_name caches domain)
  sync_failed domain _ = done (some (message (codes "Error occurred when converting error types")))

  sync_fetched : Bytes → Fetched → M q (Option GoError)
  unfolding sync_failed
  sync_fetched domain fetched = elim fetched.error [
    | some e ↦ sync_failed domain e
    | none ↦
        if not fetched.exist
        then remove_athenz_domain caches server domain
        else (do result ← lift (deref fetched.result); sync_domains domain (items result.domains))
  ]

  unfoldable pub sync : (ZmsRequest → ZmsAnswer) → Bytes → M q (Option GoError)
  unfolding sync_fetched
  sync zms domain =
      if not (validate_domain u caches domain)
      then remove_athenz_domain caches server domain
      else (do fetched ← lift (zms_get_signed_domains u zms domain); sync_fetched domain fetched)
