-- ===== src/Tests/Runs.antt =====
-- The controller at concrete inputs.
use k8s_athenz_syncer.GoMap.{lookup}
use k8s_athenz_syncer.GoStrings.{has_prefix, replace}
use k8s_athenz_syncer.Util.{
  domain_to_namespace, drop_msd_rules, filter_roles, filter_policies, is_msd_role, is_msd_policy,
}
use k8s_athenz_syncer.Common.{
  All, Any, ◌≡◌, refl, inr, true, some, [], ◌∷◌, codes, arith, ℕ_discrete, bytes_discrete, bytes_eq,
}
use k8s_athenz_syncer.Go.{ret, panic}
use k8s_athenz_syncer.Util.{domain_to_namespace, filter_msd_rules}
use k8s_athenz_syncer.WorkQueue.{name, limited_queue, limited_queue-IsLawful}
use k8s_athenz_syncer.Cluster.{
  resource_error, message, answered, failed, SignedDomains, ZmsRequest, ZmsAnswer,
}
use k8s_athenz_syncer.World.{World, after_adding}
use k8s_athenz_syncer.CrUtil.{create_update_athenz_domain}
use k8s_athenz_syncer.CrUtil.Create.{Removes}
use k8s_athenz_syncer.Cron.{validate_domain}
use k8s_athenz_syncer.Controller.{sync}
use k8s_athenz_syncer.Controller.Keeping.{deletes}
use k8s_athenz_syncer.Controller.Sync.{sync-Removes, sync_zms_error}
use k8s_athenz_syncer.Controller.Worker.{Round, process_next_item, run_worker, start}
use k8s_athenz_syncer.Controller.Worker.Retry.{run_worker_unreachable, process_next_item_exhausted}
use k8s_athenz_syncer.Controller.{zms_get_signed_domains, sync_domains, add_trusts, wants_trust}
use k8s_athenz_syncer.CrUtil.{get_cr_by_name}
use k8s_athenz_syncer.RateLimiter.{num_requeues}
use k8s_athenz_syncer.Util.{
  drop_msd_rules, filter_roles, filter_policies, is_msd_role, is_msd_policy,
}
use k8s_athenz_syncer.System.{Setting, started, next, work}
use k8s_athenz_syncer.System.History.{Justifies, Reach-deletes}
use k8s_athenz_syncer.CrUtil.{remove_athenz_domain}
use k8s_athenz_syncer.Tests.Samples.{
  home, copy, server, world, stored, signed_domain, domain_data, empty_caches, full_caches,
  contact_cm, limited,
}

abbrev pub found : SignedDomains
found = record { domains = some (some (signed_domain domain_data (codes "z")) ∷ []) }

abbrev pub answering : ZmsRequest → ZmsAnswer
answering request = answered (some found) (codes "e")

abbrev pub busy : ZmsRequest → ZmsAnswer
busy request = failed (resource_error 429 (codes "slow down"))

abbrev pub unreachable : ZmsRequest → ZmsAnswer
unreachable request = failed (message (codes "no route"))

-- The namespace a-b is in the cache.
pub a_b-valid : validate_domain home empty_caches (codes "a.b") ≡ true
unfolding validate_domain domain_to_namespace has_prefix replace bytes_discrete ℕ_discrete
a_b-valid = refl

sync-Removes_example :
    Removes full_caches server (codes "a.b") world (full_caches.cr_by_key (codes "a.b")) (
      sync copy home full_caches server
        (λ request. failed (resource_error 404 []))
        (codes "a.b")
        world)
sync-Removes_example =
    sync-Removes copy home full_caches server (λ request. failed (resource_error 404 []))
      (codes "a.b") world (inr refl)

sync_zms_error_example : sync copy home full_caches server busy (codes "a.b") world ≡ (panic, world)
unfolding bytes_discrete ℕ_discrete validate_domain domain_to_namespace has_prefix replace
sync_zms_error_example =
    sync_zms_error copy home full_caches server busy (codes "a.b") 429 (codes "slow down")
      (some stored) world refl refl (omega arith) refl

abbrev round : Round
round = record { caches = empty_caches; zms = unreachable; key = some (name (codes "a.b")) }

run_worker_unreachable_example :
    let (r, after) = run_worker copy home server (round ∷ round ∷ []) world in
    (r ≡ ret tt) × (after.calls ≡ []) × (limited_queue.num_requeues after.queue (codes "a.b") ≡ 2)
unfolding num_requeues lookup
run_worker_unreachable_example =
    run_worker_unreachable copy home server (codes "a.b") (round ∷ round ∷ []) world
      limited_queue-IsLawful (refl, a_b-valid, tt, (refl, a_b-valid, tt, tt)) (omega arith)

process_next_item_exhausted_example :
    let before = after_adding world (codes "a.b" ∷ codes "a.b" ∷ codes "a.b" ∷ []) in
    (process_next_item copy home server round before).1 ≡ record before {
      queue =
          limited_queue.finish
            (limited_queue.forget before.queue (codes "a.b"))
            (name (codes "a.b"));
    }
process_next_item_exhausted_example =
    process_next_item_exhausted copy home server round (codes "a.b") world limited_queue-IsLawful
      (refl, a_b-valid, tt, tt)

abbrev pub setting : Setting
setting = record {
  copy = copy;
  util = home;
  server = server;
  contact_cm = contact_cm;
  format = λ t. codes "now";
}

abbrev first : World limited_queue
first =
    (start home setting.format true empty_caches
      (record { queue = limited; calls = []; etag = [] })).1

abbrev creating : Round
creating = record round { zms = answering }

abbrev second : World limited_queue
second = (process_next_item copy home server creating first).1

goes_on : (process_next_item copy home server creating first).0 ≡ ret true
unfolding process_next_item sync validate_domain zms_get_signed_domains domain_to_namespace
    has_prefix replace bytes_discrete ℕ_discrete filter_msd_rules drop_msd_rules filter_roles
    filter_policies is_msd_role is_msd_policy sync_domains create_update_athenz_domain
    get_cr_by_name add_trusts wants_trust
goes_on = refl

-- ZMS answers 404 while the cache holds the resource.
abbrev removing : Round
removing = record {
  caches = full_caches;
  zms = λ request. failed (resource_error 404 []);
  key = some (name (codes "a.b"));
}

abbrev third : World limited_queue
third = (process_next_item copy home server removing first).1

removal_goes_on : (process_next_item copy home server removing first).0 ≡ ret true
unfolding process_next_item sync validate_domain zms_get_signed_domains domain_to_namespace
    has_prefix replace bytes_discrete ℕ_discrete remove_athenz_domain get_cr_by_name
removal_goes_on = refl

Reach-deletes_example :
    All (λ domain. Any (Justifies setting domain) (removing ∷ [])) (deletes third.calls)
Reach-deletes_example =
    Reach-deletes setting
      (next (started limited true empty_caches) (work removing true first removal_goes_on))
