-- ===== src/Tests/Resources.antt =====
-- The resources: what CRUtil writes, removes and reads at concrete caches.
use mathlib.Core.List.{cons-ne-nil}
use k8s_athenz_syncer.Common.{
  ◌==◌, Bool-cases, ℕ, bytes_discrete, ℕ_discrete, bytes_eq, ◌≡◌, refl, ◌↔◌, ◌⊎◌, inl, inr, true,
  some, [], ◌∷◌, Bytes, codes, arith,
}
use k8s_athenz_syncer.Go.{ret}
use k8s_athenz_syncer.WorkQueue.{limited_queue}
use k8s_athenz_syncer.Cluster.{update_cr, err, already_exists, athenz_domain, Server}
use k8s_athenz_syncer.CrUtil.{
  update_found, create_update_athenz_domain, nothing_to_compare, trust_domain_index_func, epoch,
  get_latest_timestamp,
}
use k8s_athenz_syncer.CrUtil.Update.{SameButSignatures, update_found_calls, with_version_of}
use k8s_athenz_syncer.CrUtil.Create.{create_update_athenz_domain_exists}
use k8s_athenz_syncer.CrUtil.Index.{IsIndexed, AllReturn, HasValue}
use k8s_athenz_syncer.CrUtil.Timestamp.{nil, cons, get_latest_timestamp-IsLatest, IsLatest}
use k8s_athenz_syncer.Tests.Samples.{
  copy, server, world, stored, resource, signed_domain, kept_data, domain_data, empty_caches,
  full_caches,
}

update_found_calls_example :
    let new = resource (signed_domain domain_data (codes "t")) in
    let after = (update_found {q = limited_queue} copy server (some stored) (some new) world).1 in
    ((after ≡ world) ↔ (SameButSignatures stored.spec new.spec × (stored.status ≡ new.status)))
    × ((after ≡ world)
        ⊎ (after ≡ record world { calls = update_cr (with_version_of stored new) ∷ [] }))
update_found_calls_example =
    update_found_calls copy server (λ spec. refl) stored
      (resource (signed_domain domain_data (codes "t"))) world (_, _, refl, refl) (_, _, refl, refl)

abbrev refusing : Server
refusing = record server { on_create = λ calls new. err already_exists }

create_update_athenz_domain_exists_example :
    (create_update_athenz_domain copy empty_caches refusing
      (codes "a.b")
      (some (signed_domain kept_data []))
      world).0
    ≡ ret (err nothing_to_compare)
create_update_athenz_domain_exists_example =
    create_update_athenz_domain_exists copy empty_caches refusing (codes "a.b")
      (signed_domain kept_data []) world refl refl

stored_trusts : trust_domain_index_func (athenz_domain stored) ≡ ret (codes "c.d" ∷ [])
unfolding trust_domain_index_func bytes_discrete ℕ_discrete
stored_trusts = refl

pub full_caches-AllReturn : AllReturn full_caches.cr_list
full_caches-AllReturn = ((codes "c.d" ∷ [], stored_trusts), tt)

HasValue-stored : (d : Bytes) → HasValue d (athenz_domain stored) → (d == codes "c.d") ≡ true
HasValue-stored d (found, e, m) =
    let same : codes "c.d" ∷ [] ≡ found = ground (arith, e, stored_trusts) in
    ground (arith, same, m)

pub full_caches-IsIndexed : IsIndexed full_caches
full_caches-IsIndexed d = elim (Bool-cases (d == codes "c.d")) [
  | inl e ↦ (
    athenz_domain stored ∷ [],
    rw e refl,
    (λ n. inl (codes "c.d" ∷ [], stored_trusts, ground (arith, e)), λ h. cons-ne-nil _ _),
  )
  | inr e ↦ (
    [],
    rw e refl,
    (
      λ n. absurd (n refl),
      λ h. elim h [ inl v ↦ ground (arith, e, HasValue-stored d v) | inr n ↦ absurd n ],
    ),
  )
]

get_latest_timestamp-IsLatest_example :
    (t : ℕ) × IsLatest t (epoch ∷ 62135596801000000000 ∷ [])
    × (get_latest_timestamp (λ t. codes "1970-01-01T00:00:01Z") full_caches
        ≡ ret (codes "1970-01-01T00:00:01Z"))
unfolding bytes_discrete ℕ_discrete
get_latest_timestamp-IsLatest_example =
    get_latest_timestamp-IsLatest (λ t. codes "1970-01-01T00:00:01Z") full_caches
      (62135596801000000000 ∷ []) (cons-ne-nil _ _)
      (cons stored kept_data 62135596801000000000 refl refl nil)
