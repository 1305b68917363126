-- ===== src/Cron/Resync.antt =====
-- What a round of FullResync puts into the queue.
use mathlib.Core.Bool.{Bool-discrete}
use mathlib.Core.List.{filter, filter_map}
use k8s_athenz_syncer.Common.{
  ◌≡◌, refl, true, false, Option, none, some, List, [], ◌∷◌, ◌++◌, arith, Bytes, bytes_eq, ◌==◌,
  if◌then◌else◌, is_some,
}
use k8s_athenz_syncer.Go.{ret}
use k8s_athenz_syncer.Util.{
  Util, namespace_to_domain, is_namespace_excluded, get_admin_domain, get_system_ns_domains,
}
use k8s_athenz_syncer.WorkQueue.{WorkQueue}
use k8s_athenz_syncer.Cluster.{NsObject, namespace, other, Caches}
use k8s_athenz_syncer.World.{World, after_adding, after_adding-append}
use k8s_athenz_syncer.Cron.{
  add_system_domains, add_admin_system_domains, resync_namespaces, resync_trust_domains,
  full_resync,
}

-- The domain of a namespace that is not excluded.
abbrev pub domain_of : Util → NsObject → Option Bytes
domain_of u other = none
domain_of u (namespace name) =
    if is_namespace_excluded u name then none else some (namespace_to_domain u name)

abbrev pub nonempty : List Bytes → List Bytes
nonempty = filter (λ d. Bool-discrete (d == []) false)

abbrev pub cached : Caches → List Bytes → List Bytes
cached caches = filter (λ d. Bool-discrete (is_some (caches.cr_by_key d)) true)

-- What a round enqueues, in this order: the domains of the namespaces, the admin domain and the
-- system domains, and the trust domains that have a resource.
abbrev pub resync_items : Util → Caches → List Bytes
resync_items u caches =
    filter_map (domain_of u) caches.ns_list
    ++ (nonempty (get_admin_domain u ∷ get_system_ns_domains u)
        ++ cached caches caches.cr_trust_values)

module _ {q : WorkQueue} (u : Util) (caches : Caches) where
  resync_namespaces_lem :
      (nss : List NsObject) (w : World q)
      → resync_namespaces u caches nss w ≡ (ret tt, after_adding w (filter_map (domain_of u) nss))
  unfolding resync_namespaces filter_map
  resync_namespaces_lem [] w = refl
  resync_namespaces_lem (other ∷ nss) w = resync_namespaces_lem nss w
  resync_namespaces_lem (namespace name ∷ nss) w = ground (
    arith,
    resync_namespaces_lem nss w,
    resync_namespaces_lem nss (after_adding w (namespace_to_domain u name ∷ [])),
  )

  add_system_domains_lem :
      (domains : List Bytes) (w : World q)
      → add_system_domains u caches domains w ≡ (ret tt, after_adding w (nonempty domains))
  unfolding add_system_domains
  add_system_domains_lem [] w = refl
  add_system_domains_lem (d ∷ domains) w = ground (
    arith,
    add_system_domains_lem domains w,
    add_system_domains_lem domains (after_adding w (d ∷ [])),
  )

  resync_trust_domains_lem :
      (domains : List Bytes) (w : World q)
      → resync_trust_domains u caches domains w ≡ (ret tt, after_adding w (cached caches domains))
  unfolding resync_trust_domains
  resync_trust_domains_lem [] w = refl
  resync_trust_domains_lem (d ∷ domains) w = ground (
    arith,
    resync_trust_domains_lem domains w,
    resync_trust_domains_lem domains (after_adding w (d ∷ [])),
  )

  -- The admin domain, if there is one, and the system domains enter the queue, and nothing else
  -- happens.
  pub add_admin_system_domains_lem :
      (w : World q)
      → add_admin_system_domains u caches w
        ≡ (ret tt, after_adding w (nonempty (get_admin_domain u ∷ get_system_ns_domains u)))
  unfolding add_admin_system_domains
  add_admin_system_domains_lem w = ground (
    arith,
    add_system_domains_lem (get_system_ns_domains u) w,
    add_system_domains_lem (get_system_ns_domains u) (after_adding w (get_admin_domain u ∷ [])),
  )

  -- A round of the resync returns, makes no call and puts into the queue exactly the domains of the
  -- namespaces that are not excluded, the admin and system domains, and the trust domains that have a
  -- resource, in this order.
  pub full_resync_lem :
      (w : World q) → full_resync u caches w ≡ (ret tt, after_adding w (resync_items u caches))
  unfolding full_resync
  full_resync_lem w = rw (
    resync_namespaces_lem caches.ns_list w,
    add_admin_system_domains_lem,
    resync_trust_domains_lem,
    after_adding-append,
    after_adding-append,
  )
