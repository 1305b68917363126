-- ===== src/Tests/Deliveries.antt =====
-- Runs of the whole controller from an event of a namespace on.
use k8s_athenz_syncer.Common.{
  inr, Any, ◌⊎◌, none, false, inl, arith, ◌≡◌, refl, List, [], ◌∷◌, Bytes, codes, bytes_discrete,
  ℕ_discrete, Option, some, In, arith,
}
use k8s_athenz_syncer.Go.{Go, panic, ret}
use mathlib.Core.List.{filter_map}
use k8s_athenz_syncer.World.{World}
use k8s_athenz_syncer.System.{Reach, started}
use k8s_athenz_syncer.Util.{get_system_ns_domains, is_admin_domain}
use k8s_athenz_syncer.Cron.{add_admin_system_domains}
use k8s_athenz_syncer.CrUtil.{is_trust_domain}
use k8s_athenz_syncer.Cron.{full_resync, validate_domain}
use k8s_athenz_syncer.CrUtil.{is_trust_domain}
use k8s_athenz_syncer.Cluster.{AthenzDomain, ok}
use k8s_athenz_syncer.ApiServer.Memory.{Memory, memory, memory-IsLawful, memory-IsStrict}
use k8s_athenz_syncer.Util.{
  domain_to_namespace, is_namespace_excluded, namespace_to_domain, is_system_namespace,
}
use k8s_athenz_syncer.GoStrings.{has_prefix, replace}
use k8s_athenz_syncer.GoMap.{lookup}
use k8s_athenz_syncer.Controller.Worker.{start, ns_informer_handler}
use k8s_athenz_syncer.WorkQueue.{name}
use k8s_athenz_syncer.Controller.Wanted.{Agrees}
use k8s_athenz_syncer.Controller.Wanted.Granted.{memory-Grants}
use k8s_athenz_syncer.WorkQueue.Fifo.{fifo_queue, fifo_order, fifo_order-IsFair}
use k8s_athenz_syncer.System.Run.{
  resync_due, act, Event, ns_changed, turn, run, handed_out, cr_changed,
}
use k8s_athenz_syncer.System.Elsewhere.{over, stored}
use k8s_athenz_syncer.System.Provenance.{IsFrom, Reach-Comes}
use k8s_athenz_syncer.System.History.{Justifies, rounds_of}
use k8s_athenz_syncer.System.Returns.{run_returns}
use k8s_athenz_syncer.System.Arrival.{Arrives}
use k8s_athenz_syncer.System.Paths.{run-Reach}
use k8s_athenz_syncer.System.EndToEnd.{namespace_event-Arrives, resync-Arrives}
use k8s_athenz_syncer.System.EndToEnd.Changed.{change-Arrives}
use k8s_athenz_syncer.Cron.Request.{HaveNames, nil, cons}
use k8s_athenz_syncer.Go.{items}
use k8s_athenz_syncer.Cron.{request_call, set_etag, update_athenz_contact_time}
use k8s_athenz_syncer.System.Run.{update_due}
use k8s_athenz_syncer.Tests.Samples.{domain_data, signed_domain, limited, empty_caches}
use k8s_athenz_syncer.Tests.Runs.{found, busy, setting, answering, unreachable}
use k8s_athenz_syncer.Tests.Samples
use k8s_athenz_syncer.Tests.Samples.{full_caches}
use k8s_athenz_syncer.System.Outage.{IsOutage, run_outage}
use k8s_athenz_syncer.Tests.Store.{wanted, wants}

abbrev empty_store : Memory
empty_store = record { resources = []; version = 1 }

abbrev pub quiet : World fifo_queue
quiet = record {
  queue = record { limited = limited; waiting = []; processing = []; again = [] };
  calls = [];
  etag = [];
}

abbrev targets : Bytes → Option AthenzDomain
targets domain = some wanted

abbrev key_changed : List Event
key_changed = ns_changed (ok (codes "a-b")) ∷ turn empty_caches answering ∷ []

abbrev delivered : Go (Unit {0}) × World fifo_queue
delivered = run (over memory empty_store setting) fifo_order key_changed quiet

namespace_event-Arrives_example :
    (delivered.0 ≡ ret tt)
    × In
        (name (codes "a.b"))
        (handed_out (over memory empty_store setting) fifo_order key_changed quiet)
    × Arrives setting
        (λ spec. refl)
        fifo_order
        memory
        memory-IsLawful
        empty_store
        (codes "a.b")
        (some wanted)
        key_changed
        quiet
        delivered.1
unfolding is_namespace_excluded namespace_to_domain is_system_namespace has_prefix replace
    bytes_discrete ℕ_discrete act ns_informer_handler lookup
namespace_event-Arrives_example =
    namespace_event-Arrives setting (λ spec. refl) fifo_order memory memory-IsLawful empty_store
      targets fifo_order-IsFair (codes "a-b") 0 (turn empty_caches answering ∷ []) quiet refl refl
      refl (omega arith) (tt, ((tt, refl, wants), tt))

-- The store in memory refuses no write that is due, so that it has the resource.
arrived :
    Arrives setting
      (λ spec. refl)
      fifo_order
      memory
      memory-IsLawful
      empty_store
      (codes "a.b")
      (some wanted)
      key_changed
      quiet
      delivered.1
    → Agrees (stored memory empty_store (codes "a.b") delivered.1) (some wanted)
unfolding is_namespace_excluded namespace_to_domain is_system_namespace has_prefix replace
    bytes_discrete ℕ_discrete act ns_informer_handler lookup
arrived (inl agrees) = agrees
arrived (inr (kept, (there, (refused, ended)))) =
    absurd (memory-Grants empty_store (codes "a.b") (some wanted) refl refused)

delivered-Agrees : Agrees (stored memory empty_store (codes "a.b") delivered.1) (some wanted)
delivered-Agrees = arrived (namespace_event-Arrives_example.2)

-- The cache of namespaces holds one of which no event was seen.
abbrev resynced : List Event
resynced = resync_due empty_caches ∷ turn empty_caches answering ∷ []

abbrev healed : Go (Unit {0}) × World fifo_queue
healed = run (over memory empty_store setting) fifo_order resynced quiet

resync-Arrives_example :
    (healed.0 ≡ ret tt)
    × In
        (name (codes "a.b"))
        (handed_out (over memory empty_store setting) fifo_order resynced quiet)
    × Arrives setting
        (λ spec. refl)
        fifo_order
        memory
        memory-IsLawful
        empty_store
        (codes "a.b")
        (some wanted)
        resynced
        quiet
        healed.1
unfolding is_namespace_excluded namespace_to_domain is_system_namespace has_prefix replace
    bytes_discrete ℕ_discrete act full_resync lookup filter_map get_system_ns_domains
    add_admin_system_domains
resync-Arrives_example =
    resync-Arrives setting (λ spec. refl) fifo_order memory memory-IsLawful empty_store targets
      fifo_order-IsFair empty_caches (codes "a.b") 0 (turn empty_caches answering ∷ []) quiet
      (inl refl) refl refl (omega arith) (tt, ((tt, refl, wants), tt))

-- ZMS answers the update cron with the domain a.b.
abbrev following : List Event
following = update_due empty_caches answering ∷ turn empty_caches answering ∷ []

abbrev followed : Go (Unit {0}) × World fifo_queue
followed = run (over memory empty_store setting) fifo_order following quiet

answer_names : HaveNames (items found.domains) (codes "a.b" ∷ [])
answer_names = cons (signed_domain domain_data (codes "z")) domain_data refl nil

change-Arrives_example :
    (followed.0 ≡ ret tt)
    × In
        (name (codes "a.b"))
        (handed_out (over memory empty_store setting) fifo_order following quiet)
    × Arrives setting
        (λ spec. refl)
        fifo_order
        memory
        memory-IsLawful
        empty_store
        (codes "a.b")
        (some wanted)
        following
        quiet
        followed.1
unfolding validate_domain domain_to_namespace has_prefix replace is_admin_domain bytes_discrete
    ℕ_discrete act request_call lookup set_etag update_athenz_contact_time
change-Arrives_example =
    change-Arrives setting (λ spec. refl) fifo_order memory memory-IsLawful empty_store targets
      fifo_order-IsFair empty_caches answering found (codes "e") (codes "a.b" ∷ []) (codes "a.b") 0
      (turn empty_caches answering ∷ []) quiet refl answer_names (inl refl) refl refl (omega arith)
      (((codes "a.b" ∷ []), answer_names), ((tt, refl, wants), tt))

-- Two items wait, of which ZMS cannot be reached for the first, and an event adds a third.
abbrev waiting : World fifo_queue
waiting = record quiet { queue = record (quiet.queue) { waiting = codes "a.b" ∷ codes "x" ∷ [] } }

abbrev later_turns : List Event
later_turns =
    cr_changed (ok (codes "z")) ∷ turn empty_caches unreachable ∷ turn empty_caches unreachable ∷ []

abbrev one_event : List Event
one_event = cr_changed (ok (codes "z")) ∷ []

started_quiet : Reach setting quiet
unfolding start
started_quiet = started quiet.queue false empty_caches

delivered_returns : delivered.0 ≡ ret tt
unfolding is_namespace_excluded namespace_to_domain is_system_namespace has_prefix replace
    bytes_discrete ℕ_discrete act ns_informer_handler lookup
delivered_returns =
    run_returns setting (λ spec. refl) fifo_order memory memory-IsLawful empty_store targets
      key_changed quiet (tt, ((tt, refl, wants), tt))

started_over : Reach (over memory empty_store setting) quiet
unfolding start
started_over = started quiet.queue false empty_caches

delivered_path : Reach (over memory empty_store setting) delivered.1
delivered_path =
    run-Reach (over memory empty_store setting) fifo_order key_changed quiet started_over
      delivered_returns

Reach-Comes_example :
    (stored memory empty_store (codes "a.b") delivered.1 ≡ none)
    ⊎ ((a : AthenzDomain) × (stored memory empty_store (codes "a.b") delivered.1 ≡ some a)
        × Any
            (IsFrom setting (codes "a.b") a)
            (rounds_of (over memory empty_store setting) delivered_path))
    ⊎ ((stored memory empty_store (codes "a.b") delivered.1 ≡ none)
        × Any
            (Justifies setting (codes "a.b"))
            (rounds_of (over memory empty_store setting) delivered_path))
unfolding lookup
Reach-Comes_example =
    Reach-Comes setting memory memory-IsLawful memory-IsStrict empty_store delivered_path
      (codes "a.b")

-- Two items wait: the second has a resource.
abbrev queued : World fifo_queue
queued = record quiet { queue = record (quiet.queue) { waiting = codes "x" ∷ codes "a.b" ∷ [] } }

busy_turn : IsOutage setting (codes "a.b") (turn full_caches busy)
unfolding bytes_discrete ℕ_discrete validate_domain domain_to_namespace has_prefix replace
busy_turn = (refl, (Samples.stored, refl), (429, codes "slow down", refl, omega arith))

run_outage_example :
    (run setting fifo_order
      (turn full_caches busy ∷ cr_changed (ok (codes "z")) ∷ turn full_caches busy ∷ [])
      queued).0
    ≡ panic
unfolding bytes_discrete ℕ_discrete validate_domain domain_to_namespace has_prefix replace
run_outage_example =
    run_outage setting fifo_order (codes "a.b") fifo_order-IsFair 1
      (turn full_caches busy ∷ cr_changed (ok (codes "z")) ∷ turn full_caches busy ∷ []) queued
      (refl, (1, refl, omega arith)) (omega arith) (busy_turn, (tt, (busy_turn, tt)))
