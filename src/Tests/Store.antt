-- ===== src/Tests/Store.antt =====
-- Runs of the controller against a store of resources in memory.
use k8s_athenz_syncer.Common.{
  List, In, inl, inr, if◌then◌else◌, ◌==◌, ap, ℕ, Bytes, ◌≡◌, ◌≢◌, refl, none, some, [], ◌∷◌, codes,
  arith, ℕ_discrete, bytes_discrete, bytes_eq,
}
use k8s_athenz_syncer.GoMap.{lookup}
use k8s_athenz_syncer.Go.{Go, ret}
use k8s_athenz_syncer.Cluster.{AthenzDomain, Caches, athenz_domain, failed, resource_error}
use k8s_athenz_syncer.ApiServer.Replay.{replay, server_over}
use k8s_athenz_syncer.ApiServer.Memory.{Memory, memory, memory-IsLawful}
use k8s_athenz_syncer.CrUtil.{new_object}
use k8s_athenz_syncer.GoStrings.{has_prefix, replace}
use k8s_athenz_syncer.Util.{domain_to_namespace}
use k8s_athenz_syncer.CrUtil.Update.{sign}
use k8s_athenz_syncer.Cron.{validate_domain}
use k8s_athenz_syncer.World.{World}
use k8s_athenz_syncer.Controller.{sync}
use k8s_athenz_syncer.Controller.Wanted.{Wants, held, Outcome}
use k8s_athenz_syncer.Controller.Converge.{sync-Outcome}
use k8s_athenz_syncer.WorkQueue.{limited_queue, name}
use k8s_athenz_syncer.Controller.Worker.{run_worker}
use k8s_athenz_syncer.Controller.Worker.Sweep.{Job, rounds_of, domains_of}
use k8s_athenz_syncer.Controller.Settled.{sync-others, sync-settled}
use k8s_athenz_syncer.Tests.Samples.{
  home, copy, server, world, stored, signed_domain, kept_data, domain_data, empty_caches,
  full_caches,
}
use k8s_athenz_syncer.Tests.Rules.{filtered}
use k8s_athenz_syncer.Tests.Runs.{found, answering, a_b-valid}

-- A store with the resource of c.d.
abbrev first : Memory
first = record { resources = (codes "c.d", stored) ∷ []; version = 8 }

abbrev pub wanted : AthenzDomain
wanted = new_object (codes "a.b") (signed_domain kept_data (codes "z"))

pub wants : Wants home empty_caches answering (codes "a.b") (some wanted)
wants =
    held (codes "e") found (signed_domain domain_data (codes "z")) kept_data _ a_b-valid refl refl
      filtered refl refl

sync-Outcome_example :
    let (r, after) =
      sync copy home empty_caches (server_over memory first server) answering (codes "a.b") world in
    Outcome memory first (codes "a.b") (some wanted) r (replay memory first after.calls)
unfolding bytes_discrete ℕ_discrete lookup
sync-Outcome_example =
    sync-Outcome copy (λ spec. refl) home empty_caches answering memory memory-IsLawful first server
      (codes "a.b") none (some wanted) world tt refl refl wants

abbrev first_code : Bytes → ℕ
first_code [] = 0
first_code (c ∷ rest) = c

codes_apart : ¬ Path ℕ 99 97
codes_apart e = omega (arith, e)

codes_ne : codes "c.d" ≢ codes "a.b"
codes_ne e = codes_apart (ap first_code e)

sync-others_example :
    let after =
      (sync copy home empty_caches
        (server_over memory first server)
        answering
        (codes "a.b")
        world).1 in
    memory.get (replay memory first after.calls) (codes "c.d")
    ≡ memory.get (replay memory first world.calls) (codes "c.d")
sync-others_example =
    sync-others copy home empty_caches answering memory memory-IsLawful first server (codes "a.b")
      (codes "c.d") world (λ e. codes_ne e)

Wants-stored : Wants home full_caches answering (codes "a.b") (some wanted)
unfolding validate_domain domain_to_namespace has_prefix replace bytes_discrete ℕ_discrete
Wants-stored =
    held (codes "e") found (signed_domain domain_data (codes "z")) kept_data _ refl refl refl
      filtered refl refl

sync-settled_example :
    let (r, after) = sync copy home full_caches server answering (codes "a.b") world in
    (r ≡ ret none) × (after.calls ≡ [])
unfolding bytes_discrete ℕ_discrete sign
sync-settled_example =
    sync-settled copy (λ spec. refl) home full_caches answering server (codes "a.b") (some stored)
      (some wanted) world refl Wants-stored ((codes "s", codes "p", refl), refl)

-- A valid domain that ZMS has, and one that is gone from ZMS and has a resource in the store.
abbrev pub write_job : Job
write_job = record {
  round = record { caches = empty_caches; zms = answering; key = some (name (codes "a.b")) };
  domain = codes "a.b";
  cached = none;
  wanted = some wanted;
}

abbrev removing_caches : Caches
removing_caches = record empty_caches {
  cr_by_key = λ key. if key == codes "c.d" then some (athenz_domain stored) else none;
}

abbrev remove_job : Job
remove_job = record {
  round = record {
    caches = removing_caches;
    zms = λ request. failed (resource_error 404 []);
    key = some (name (codes "c.d"));
  };
  domain = codes "c.d";
  cached = some stored;
  wanted = none;
}

abbrev jobs : List Job
jobs = write_job ∷ remove_job ∷ []

abbrev swept : Go (Unit {0}) × World limited_queue
swept = run_worker copy home (server_over memory first server) (rounds_of jobs) world

codes_elsewhere : (other : Bytes) → first_code other ≡ 101 → ¬ In other (domains_of jobs)
codes_elsewhere other e (inl same) = absurd (ground (arith, e, ap first_code same))
codes_elsewhere other e (inr (inl same)) = absurd (ground (arith, e, ap first_code same))
codes_elsewhere other e (inr (inr n)) = absurd n
