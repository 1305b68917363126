-- ===== src/Tests/Jobs.antt =====
-- The cron jobs and the domains that they accept.
use mathlib.Core.List.{cons-ne-nil}
use k8s_athenz_syncer.Common.{
  ℕ, zero, suc, ◌≤◌, inl, inr, arith, List, Bytes, In, Any, ◌≡◌, refl, ◌≢◌, ◌↔◌, ◌⊎◌, true, none,
  some, is_some, [], ◌∷◌, codes, ℕ_discrete, bytes_discrete, bytes_eq, ◌==◌, if◌then◌else◌,
}
use k8s_athenz_syncer.GoStrings.{has_prefix, replace}
use k8s_athenz_syncer.Util.{namespace_to_domain, domain_to_namespace, is_system_namespace}
use k8s_athenz_syncer.Cluster.{not_found, namespace, Caches, answered, failed, SignedDomains}
use k8s_athenz_syncer.CrUtil.{is_trust_domain}
use k8s_athenz_syncer.CrUtil.Index.{Delegates, roles_in}
use k8s_athenz_syncer.Cron.{validate_domain}
use k8s_athenz_syncer.Cron.Validate.{validate_domain_iff, validate_domain_unconverted}
use k8s_athenz_syncer.Cron.Loops.{Attempt, Wake, stopped, due, update_cron}
use k8s_athenz_syncer.Cron.Loops.Feed.{
  Feed, IsFeed, fails, sends, unchanged, Follows, stops, polls, all_valid, PassedOver,
}
use k8s_athenz_syncer.Cron.Loops.Feed.Complete.{TakesIn, update_cron_complete}
use k8s_athenz_syncer.Cron.Request.{nil, cons}
use k8s_athenz_syncer.Go.{ret}
use k8s_athenz_syncer.WorkQueue.{limited_queue}
use k8s_athenz_syncer.World.{World}
use k8s_athenz_syncer.Tests.Samples.{
  server, world, contact_cm, home, signed_domain, kept_data, empty_caches, full_caches,
}
use k8s_athenz_syncer.Tests.Resources.{full_caches-IsIndexed, full_caches-AllReturn}

validate_domain_iff_example : (validate_domain home full_caches (codes "c.d") ≡ true) ↔ (
    (is_some (full_caches.ns_by_key (domain_to_namespace home (codes "c.d"))) ≡ true)
    ⊎ (codes "c.d" ≡ codes "home")
    ⊎ ((codes "c.d" ≢ []) × Any (λ o. Delegates (roles_in o) (codes "c.d")) full_caches.cr_list))
validate_domain_iff_example =
    validate_domain_iff home full_caches (codes "c.d") full_caches-IsIndexed full_caches-AllReturn

-- The namespace homer-test is in the cache; its domain is homer.test.
abbrev homer_caches : Caches
homer_caches = record full_caches {
  ns_by_key =
      λ key. if key == codes "homer-test" then some (namespace (codes "homer-test")) else none;
}

validate_domain_unconverted_example :
    validate_domain home homer_caches (namespace_to_domain home (codes "homer-test"))
    ≡ is_trust_domain homer_caches (namespace_to_domain home (codes "homer-test"))
unfolding namespace_to_domain is_system_namespace has_prefix replace bytes_discrete ℕ_discrete
validate_domain_unconverted_example =
    validate_domain_unconverted home homer_caches (codes "homer-test") (codes "r.test")
      (cons-ne-nil _ _) refl (cons-ne-nil _ _) refl refl

abbrev changed : SignedDomains
changed = record { domains = some (some (signed_domain kept_data []) ∷ []) }

abbrev unanswered : Attempt
unanswered = record { caches = empty_caches; zms = λ request. failed not_found }

-- ZMS in its state 1: the domain a.b changed since the state 0.
abbrev serving : Attempt
serving = record {
  caches = empty_caches;
  zms = λ request.
      if request.matching_tag == (0 ∷ [])
      then answered (some changed) (1 ∷ [])
      else answered none [];
}

abbrev changed_between : ℕ → ℕ → List Bytes
changed_between zero (suc n) = codes "a.b" ∷ []
changed_between _ _ = []

abbrev one_change : Feed
one_change = record { tag = λ k. k ∷ []; changed = changed_between }

unchanged_then : (k : ℕ) (domain : Bytes) → ¬ In domain (changed_between k k)
unchanged_then zero domain i = i
unchanged_then (suc k) domain i = i

split_change :
    (k m n : ℕ) (domain : Bytes)
    → k ≤ m
    → m ≤ n
    → In domain (changed_between k n)
    → In domain (changed_between k m) ⊎ In domain (changed_between m n)
split_change zero zero n domain le le' i = inr i
split_change zero (suc m) zero domain le le' i = inr i
split_change zero (suc m) (suc n) domain le le' i = inl i
split_change (suc k) m n domain le le' i = absurd i

one_change-IsFeed : IsFeed one_change
one_change-IsFeed = record {
  tag-some = λ k. cons-ne-nil k [];
  changed-none = unchanged_then;
  changed-split = split_change;
}

-- ZMS fails once, then has the change, and in the next round nothing new.
abbrev two_rounds : List (Wake (Attempt × List Attempt))
two_rounds = due (unanswered, serving ∷ serving ∷ []) ∷ due (serving, []) ∷ stopped ∷ []

abbrev at_first : World limited_queue
at_first = record world { etag = 0 ∷ [] }

two_rounds-Follows : Follows one_change 0 two_rounds 1 ((empty_caches, codes "a.b" ∷ []) ∷ [])
unfolding bytes_discrete ℕ_discrete
two_rounds-Follows =
    polls
      (fails unanswered not_found refl (
        sends serving (serving ∷ []) changed (omega arith) refl
          (cons (signed_domain kept_data []) kept_data refl nil)))
      (polls (unchanged serving [] refl) (stops 1 []))

update_cron_complete_example :
    let after = update_cron {q = limited_queue} home server contact_cm two_rounds at_first in
    (after.0 ≡ ret tt)
    × TakesIn home server contact_cm one_change 1
        ((empty_caches, codes "a.b" ∷ []) ∷ [])
        at_first
        after.1
    × (In (codes "a.b") (all_valid home ((empty_caches, codes "a.b" ∷ []) ∷ []))
        ⊎ Any (PassedOver home (codes "a.b")) ((empty_caches, codes "a.b" ∷ []) ∷ []))
update_cron_complete_example =
    update_cron_complete home server contact_cm one_change one_change-IsFeed 0 1 two_rounds
      ((empty_caches, codes "a.b" ∷ []) ∷ []) at_first (codes "a.b") refl two_rounds-Follows
      (inl refl)
