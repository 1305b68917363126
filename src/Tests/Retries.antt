-- ===== src/Tests/Retries.antt =====
-- A run of the controller against a server that refuses a write, and its retry.
use k8s_athenz_syncer.Common.{
  List, ℕ, Bytes, ◌≡◌, ◌⊎◌, refl, Option, none, some, [], ◌∷◌, codes, ℕ_discrete, bytes_discrete,
  bytes_eq,
}
use k8s_athenz_syncer.GoMap.{lookup}
use k8s_athenz_syncer.Go.{Go, ret}
use k8s_athenz_syncer.GoStrings.{has_prefix, replace}
use k8s_athenz_syncer.World.{World}
use k8s_athenz_syncer.WorkQueue.{limited_queue}
use k8s_athenz_syncer.Cluster.{AthenzDomain}
use k8s_athenz_syncer.ApiServer.Replay.{replay, server_over}
use k8s_athenz_syncer.ApiServer.Memory.{Memory, memory, memory-IsLawful}
use k8s_athenz_syncer.ApiServer.Busy.{busy, busy-IsLawful}
use k8s_athenz_syncer.Util.{
  is_msd_policy, is_msd_role, filter_policies, filter_roles, drop_msd_rules, filter_msd_rules,
  domain_to_namespace,
}
use k8s_athenz_syncer.CrUtil.{create_update_athenz_domain, get_cr_by_name}
use k8s_athenz_syncer.Cron.{validate_domain}
use k8s_athenz_syncer.Controller.{sync_domains, zms_get_signed_domains, sync}
use k8s_athenz_syncer.RateLimiter.{num_requeues}
use k8s_athenz_syncer.Controller.Worker.{process_next_item, run_worker, requeue}
use k8s_athenz_syncer.Controller.Wanted.{Agrees}
use k8s_athenz_syncer.Controller.Worker.Sweep.{Job, rounds_of}
use k8s_athenz_syncer.Controller.Worker.Persist.{Refused, run_worker-persists}
use k8s_athenz_syncer.Tests.Samples.{home, copy, server, world}
use k8s_athenz_syncer.Tests.Store.{write_job, wanted, wants}

-- An empty store, whose server refuses one write.
abbrev first : ℕ × Memory
first = (1, record { resources = []; version = 1 })

abbrev targets : Bytes → Option AthenzDomain
targets domain = some wanted

abbrev jobs : List Job
jobs = write_job ∷ write_job ∷ []

abbrev after_first : World limited_queue
after_first =
    (process_next_item copy home (server_over (busy memory) first server) write_job.round world).1

still_absent : (busy memory).get (replay (busy memory) first after_first.calls) (codes "a.b") ≡ none
unfolding process_next_item sync validate_domain zms_get_signed_domains domain_to_namespace
    has_prefix replace bytes_discrete ℕ_discrete filter_msd_rules drop_msd_rules filter_roles
    filter_policies is_msd_role is_msd_policy sync_domains create_update_athenz_domain
    get_cr_by_name lookup num_requeues requeue
still_absent = refl

abbrev persisted : Go (Unit {0}) × World limited_queue
persisted = run_worker copy home (server_over (busy memory) first server) (rounds_of jobs) world

run_worker-persists_example :
    (persisted.0 ≡ ret tt)
    × (Agrees
          ((busy memory).get (replay (busy memory) first persisted.1.calls) (codes "a.b"))
          (some wanted)
        ⊎ (((busy memory).get (replay (busy memory) first persisted.1.calls) (codes "a.b")
              ≡ (busy memory).get (replay (busy memory) first world.calls) (codes "a.b"))
            × Refused copy home (busy memory) first server targets (codes "a.b") jobs world))
unfolding bytes_discrete ℕ_discrete lookup
run_worker-persists_example =
    run_worker-persists copy (λ spec. refl) home (busy memory)
      (busy-IsLawful memory memory-IsLawful) first server targets (codes "a.b") jobs world
      ((refl, tt, refl, refl, wants), refl, ((refl, tt, refl, still_absent, wants), refl, tt))
