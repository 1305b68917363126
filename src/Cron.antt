-- ===== src/Cron.antt =====
-- pkg/cron/cron.go. A round of a cron job is one operation; the loops around the rounds stand in
-- Cron.Loops.
pub mod Validate
pub mod Request
pub mod Resync
pub mod Effects
pub mod Loops
use k8s_athenz_syncer.Common.{
  Bool, true, false, not, ◌&&◌, ◌||◌, Option, none, some, List, [], ◌∷◌, ◌++◌, Bytes, codes,
  bytes_eq, ◌==◌, if◌then◌else◌, is_some,
}
use k8s_athenz_syncer.Go.{Go, ret, panic, items, deref}
use k8s_athenz_syncer.Zms.{DomainData, SignedDomain}
use k8s_athenz_syncer.Util.{
  Util, domain_to_namespace, namespace_to_domain, is_admin_domain, is_namespace_excluded,
  get_admin_domain, get_system_ns_domains,
}
use k8s_athenz_syncer.WorkQueue.{WorkQueue}
use k8s_athenz_syncer.Cluster.{
  GoError, not_found, wrapped, Result, ok, err, NsObject, namespace, other, Caches, Server,
  ConfigMap, get_config_map, create_config_map, update_config_map, ZmsRequest, SignedDomains,
  ZmsAnswer, answered, failed,
}
use k8s_athenz_syncer.World.{World, M, continue, ◌>>=◌, ◌>>◌, done, lift, send, enqueue}
use k8s_athenz_syncer.CrUtil.{is_trust_domain}

-- AthenzContactTimeConfigMap
pub record ContactTimeConfigMap : Type 0 where
  pub cm_namespace : Bytes
  pub cm_name : Bytes
  pub cm_key : Bytes

unfoldable pub validate_domain : Util → Caches → Bytes → Bool
validate_domain u caches domain =
    let exists = is_some (caches.ns_by_key (domain_to_namespace u domain)) in
    if exists || is_admin_domain u domain || is_trust_domain caches domain then true else false

-- apiError.IsNotFound
abbrev pub is_not_found : GoError → Bool
is_not_found not_found = true
is_not_found _ = false

unfoldable pub set_etag : {q : WorkQueue} → Bytes → M q (Unit {0})
set_etag timestamp w = (ret tt, record w { etag = timestamp })

module _ {q : WorkQueue} (server : Server) (cm : ContactTimeConfigMap) where
  -- After the answer of Get. The errors of Create and Update are only logged.
  put_contact_time : ConfigMap → Result (Option ConfigMap) → M q (Unit {0})
  put_contact_time config_map (err e) =
      if is_not_found e
      then (do
        answer ←
            send (create_config_map cm.cm_namespace config_map)
              (λ calls. server.on_create_config_map calls cm.cm_namespace config_map)
        done tt)
      else done tt
  put_contact_time config_map (ok none) = done tt
  put_contact_time config_map (ok (some found)) = do
    answer ←
        send (update_config_map cm.cm_namespace config_map)
          (λ calls. server.on_update_config_map calls cm.cm_namespace config_map)
    done tt

  unfoldable pub update_athenz_contact_time : Bytes → M q (Unit {0})
  unfolding put_contact_time
  update_athenz_contact_time etag = do
    answer ←
        send (get_config_map cm.cm_namespace cm.cm_name)
          (λ calls. server.on_get_config_map calls cm.cm_namespace cm.cm_name)
    put_contact_time (record { name = cm.cm_name; key = cm.cm_key; value = etag }) answer

module _ {q : WorkQueue} (u : Util) (caches : Caches) where
  -- The loop over the answer of ZMS.
  enqueue_valid : List (Option SignedDomain) → M q (Unit {0})
  enqueue_valid [] = done tt
  enqueue_valid (domain ∷ rest) = do
    signed ← lift (deref domain)
    domain_data ← lift (deref signed.domain)
    if validate_domain u caches domain_data.name then enqueue domain_data.name else done tt
    enqueue_valid rest

  unfoldable pub add_system_domains : List Bytes → M q (Unit {0})
  add_system_domains [] = done tt
  add_system_domains (domain ∷ rest) = do
    if not (domain == []) then enqueue domain else done tt
    add_system_domains rest

  unfoldable pub add_admin_system_domains : M q (Unit {0})
  unfolding add_system_domains
  add_admin_system_domains = do
    if not (get_admin_domain u == []) then enqueue (get_admin_domain u) else done tt
    add_system_domains (get_system_ns_domains u)

  resync_namespaces : List NsObject → M q (Unit {0})
  resync_namespaces [] = done tt
  resync_namespaces (other ∷ rest) = resync_namespaces rest
  resync_namespaces (namespace name ∷ rest) = do
    if is_namespace_excluded u name then done tt else enqueue (namespace_to_domain u name)
    resync_namespaces rest

  resync_trust_domains : List Bytes → M q (Unit {0})
  resync_trust_domains [] = done tt
  resync_trust_domains (domain ∷ rest) = do
    if is_some (caches.cr_by_key domain) then enqueue domain else done tt
    resync_trust_domains rest

  -- A round of FullResync.
  unfoldable pub full_resync : M q (Unit {0})
  unfolding resync_namespaces resync_trust_domains
  full_resync = do
    resync_namespaces caches.ns_list
    add_admin_system_domains
    resync_trust_domains caches.cr_trust_values

module _ {q : WorkQueue} (u : Util) (caches : Caches) (server : Server)
    (zms : ZmsRequest → ZmsAnswer) (cm : ContactTimeConfigMap) where
  -- A non-empty etag is kept and written to the config map.
  keep_etag : Bytes → M q (Option GoError)
  keep_etag etag = do
    if not (etag == [])
        then (do set_etag etag; update_athenz_contact_time server cm etag)
        else done tt
    done none

  handle_answer : ZmsAnswer → M q (Option GoError)
  unfolding enqueue_valid keep_etag
  handle_answer (failed e) =
      done (some (wrapped (codes "Error getting latest updated domains from ZMS API") e))
  handle_answer (answered none etag) = keep_etag etag
  handle_answer (answered (some found) etag) = do
    enqueue_valid u caches (items found.domains)
    keep_etag etag

  -- A call of ZMS for the domains that changed since the etag.
  unfoldable pub request_call : M q (Option GoError)
  unfolding handle_answer
  request_call w =
      handle_answer (zms (record { domain = []; meta_only = codes "true"; matching_tag = w.etag }))
        w
