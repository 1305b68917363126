-- ===== src/Client/Lister.antt =====
-- pkg/client/listers/athenz/v1/athenzdomain.go. The indexer is what GetByKey answers and the objects
-- for which cache.ListAll calls its function.
use k8s_athenz_syncer.Common.{◌≡◌, refl, Option, none, some, List, [], ◌∷◌, Bytes}
use k8s_athenz_syncer.Go.{Go, ret, panic}
use k8s_athenz_syncer.Go
use k8s_athenz_syncer.Cluster.{
  GoError, not_found, Result, ok, err, AthenzDomain, Object, athenz_domain, tombstone, other,
  Caches,
}
use k8s_athenz_syncer.CrUtil.{Found, get_cr_by_name, cast_found}

-- A type assertion without its second result.
assert_domain : Object → Go AthenzDomain
assert_domain (athenz_domain object) = ret object
assert_domain _ = panic

assert_all : List Object → Go (List AthenzDomain)
unfolding assert_domain
assert_all [] = ret []
assert_all (object ∷ rest) =
    Go.◌>>=◌ (assert_domain object) λ first. Go.◌>>=◌ (assert_all rest) λ later. ret (first ∷ later)

-- List: the selected objects and the error of ListAll.
unfoldable pub list_lister : List Object → Option GoError → Go (List AthenzDomain × Option GoError)
unfolding assert_all
list_lister selected error = Go.◌>>=◌ (assert_all selected) λ found. ret (found, error)

cast_lister : Option Object → Go (Result AthenzDomain)
unfolding assert_domain
cast_lister none = ret (err not_found)
cast_lister (some object) = Go.◌>>=◌ (assert_domain object) λ a. ret (ok a)

-- Get.
unfoldable pub get_lister : (Bytes → Result (Option Object)) → Bytes → Go (Result AthenzDomain)
unfolding cast_lister
get_lister get_by_key name = elim (get_by_key name) [
  | ok found ↦ cast_lister found
  | err e ↦ ret (err e)
]

-- What GetCRByName finds, in the lister's terms: a resource, not found, or a panic where GetCRByName
-- has an error.
abbrev pub as_listed : Found → Go (Result AthenzDomain)
as_listed found = elim found.error [
  | some e ↦ panic
  | none ↦ elim found.object [ some a ↦ ret (ok a) | none ↦ ret (err not_found) ]
]

cast_lister-cast_found :
    (cached : Option Object) → cast_lister cached ≡ as_listed (cast_found cached)
unfolding cast_lister cast_found assert_domain
cast_lister-cast_found none = refl
cast_lister-cast_found (some (athenz_domain a)) = refl
cast_lister-cast_found (some (tombstone o)) = refl
cast_lister-cast_found (some other) = refl

-- Over the same cache the lister's Get and GetCRByName of CRUtil find the same: the resource, or
-- nothing; an object of another type is an error of GetCRByName and a panic of the lister.
pub get_lister-get_cr_by_name :
    (caches : Caches) (name : Bytes)
    → get_lister (λ key. ok (caches.cr_by_key key)) name ≡ as_listed (get_cr_by_name caches name)
unfolding get_lister get_cr_by_name
get_lister-get_cr_by_name caches name = cast_lister-cast_found (caches.cr_by_key name)
