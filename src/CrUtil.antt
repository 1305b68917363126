-- ===== src/CrUtil.antt =====
-- pkg/cr/cr.go. The clients of CRUtil are the parameters `caches` and `server`; `copy` is
-- deepcopy.Copy followed by the type assertion of AthenzDomainSpec.DeepCopy, and `format` is the
-- RFC 3339 layout of package time, in UTC.
pub mod Update
pub mod Create
pub mod Index
pub mod Timestamp
use k8s_athenz_syncer.Common.{
  ℕ, ◌*◌, ◌+◌, Bool, true, false, not, ◌&&◌, ◌||◌, Option, none, some, List, [], ◌∷◌, ◌++◌, Bytes,
  codes, bytes_eq, ◌==◌, ltb, if◌then◌else◌, is_some, is_empty,
}
use k8s_athenz_syncer.Go.{Go, ret, panic, items, deref}
use k8s_athenz_syncer.Go
use k8s_athenz_syncer.Zms.{Role, DomainData, SignedDomain, SignedPolicies}
use k8s_athenz_syncer.WorkQueue.{WorkQueue}
use k8s_athenz_syncer.Cluster.{
  GoError, already_exists, message, wrapped, Result, ok, err, ObjectMeta, AthenzDomain,
  AthenzDomainSpec, AthenzDomainStatus, athenz_domain_spec_eq, athenz_domain_status_eq, Object,
  athenz_domain, tombstone, other, Caches, Server, create_cr, update_cr, delete_cr,
}
use k8s_athenz_syncer.World.{World, M, continue, ◌>>=◌, ◌>>◌, done, lift, send}

-- What GetCRByName returns: the object (nil where it is not set), whether it exists, and an error.
pub record Found : Type 0 where
  pub object : Option AthenzDomain
  pub exist : Bool
  pub error : Option GoError

unfoldable pub cast_found : Option Object → Found
cast_found none = record { object = none; exist = false; error = none }
cast_found (some (athenz_domain object)) = record {
  object = some object;
  exist = true;
  error = none;
}
cast_found (some _) = record {
  object = none;
  exist = true;
  error = some (message (codes "Error occurred when casting AthenzDomain object"));
}

unfoldable pub get_cr_by_name : Caches → Bytes → Found
unfolding cast_found
get_cr_by_name caches domain = cast_found (caches.cr_by_key domain)

-- AthenzDomainSpec.DeepCopy of a pointer.
unfoldable pub deep_copy :
    (AthenzDomainSpec → Option AthenzDomainSpec) → Option AthenzDomainSpec → Option AthenzDomainSpec
deep_copy copy none = none
deep_copy copy (some spec) = copy spec

clear_domain : DomainData → Go DomainData
clear_domain domain =
    Go.◌>>=◌ (deref domain.policies)
      λ policies. ret (record domain { policies = some (record policies { signature = [] }) })

-- Setting both signatures of a copied spec to the empty string.
unfoldable pub clear_signatures : Option AthenzDomainSpec → Go AthenzDomainSpec
unfolding clear_domain
clear_signatures none = panic
clear_signatures (some spec) = Go.◌>>=◌ (deref spec.signed_domain.domain) λ domain.
    Go.◌>>=◌ (clear_domain domain) λ cleared. ret (record spec {
      signed_domain = record (spec.signed_domain) { domain = some cleared; signature = [] };
    })

abbrev pub as_pointer : Result AthenzDomain → Result (Option AthenzDomain)
as_pointer (ok a) = ok (some a)
as_pointer (err e) = err e

-- What Go's Create leaves to do: a return, or the update if the resource exists after all.
abbrev pub exists_already : GoError → Bool
exists_already already_exists = true
exists_already _ = false

abbrev pub nothing_to_compare : GoError
nothing_to_compare = message (codes "one of the domain objects to compare is empty")

module _ {q : WorkQueue} (copy : AthenzDomainSpec → Option AthenzDomainSpec) (server : Server) where
  unfoldable pub update_found :
      Option AthenzDomain → Option AthenzDomain → M q (Result (Option AthenzDomain))
  update_found none new_cr = done (err nothing_to_compare)
  update_found (some object) none = done (err nothing_to_compare)
  update_found (some object) (some new_cr) = do
    old_spec ← lift (clear_signatures (deep_copy copy (some object.spec)))
    new_spec ← lift (clear_signatures (deep_copy copy (some new_cr.spec)))
    let meta = record (new_cr.object_meta) {
      resource_version = object.object_meta.resource_version;
    }
    let next = record new_cr { object_meta = meta }
    if old_spec == new_spec && object.status == new_cr.status
        then done (ok none)
        else send (update_cr next) (λ calls. as_pointer (server.on_update calls next))

-- The resource that CreateUpdateAthenzDomain builds.
abbrev pub new_object : Bytes → SignedDomain → AthenzDomain
new_object domain data_of = record {
  object_meta = record { name = domain; resource_version = []; rest = [] };
  status = record { message = [] };
  spec = record { signed_domain = data_of };
}

module _ {q : WorkQueue} (copy : AthenzDomainSpec → Option AthenzDomainSpec) (caches : Caches)
    (server : Server) where
  -- After the answer of Create.
  created :
      Bytes
      → AthenzDomain
      → Option AthenzDomain
      → Result AthenzDomain
      → M q (Result (Option AthenzDomain))
  created domain new_cr object (ok cr) = done (ok (some cr))
  created domain new_cr object (err e) =
      if not (exists_already e)
      then done (err (wrapped (codes "Failed to create new AthenzDomain CR") e))
      else update_found copy server object (some new_cr)

  create_or_update : Bytes → SignedDomain → Found → M q (Result (Option AthenzDomain))
  unfolding created
  create_or_update domain domain_data found = elim found.error [
    | some e ↦ done (err (wrapped (codes "Did not find key in store") e))
    | none ↦
        let new_cr = new_object domain domain_data in
        if not found.exist
        then (do
          answer ← send (create_cr new_cr) (λ calls. server.on_create calls new_cr)
          created domain new_cr found.object answer)
        else update_found copy server found.object (some new_cr)
  ]

  unfoldable pub create_update_athenz_domain :
      Bytes → Option SignedDomain → M q (Result (Option AthenzDomain))
  unfolding create_or_update
  create_update_athenz_domain domain none =
      done (err (message (codes "Domain data from ZMS API call is nil")))
  create_update_athenz_domain domain (some domain_data) =
      create_or_update domain domain_data (get_cr_by_name caches domain)

module _ {q : WorkQueue} (caches : Caches) (server : Server) where
  remove_found : Bytes → Found → M q (Option GoError)
  remove_found domain found = elim found.error [
    | some e ↦ done (some e)
    | none ↦
        if found.exist && is_some found.object
        then send (delete_cr domain) (λ calls. server.on_delete calls domain)
        else done none
  ]

  unfoldable pub remove_athenz_domain : Bytes → M q (Option GoError)
  unfolding remove_found
  remove_athenz_domain domain = remove_found domain (get_cr_by_name caches domain)

  -- The answer is only logged.
  unfoldable pub update_error_status : AthenzDomain → M q (Unit {0})
  update_error_status object = do
    answer ← send (update_cr object) (λ calls. server.on_update calls object)
    done tt

-- The trust domains of the roles; a nil role is dereferenced.
trusts : List (Option Role) → Go (List Bytes)
trusts [] = ret []
trusts (none ∷ rest) = panic
trusts (some role ∷ rest) =
    Go.◌>>=◌ (trusts rest)
      λ found. ret (if not (role.trust == []) then role.trust ∷ found else found)

trusts_of : Option DomainData → Go (List Bytes)
unfolding trusts
trusts_of none = ret []
trusts_of (some domain) = trusts (items domain.roles)

trusts_of_tombstone : Object → Go (List Bytes)
unfolding trusts_of
trusts_of_tombstone (athenz_domain object) = trusts_of object.spec.signed_domain.domain
trusts_of_tombstone _ = ret []

unfoldable pub trust_domain_index_func : Object → Go (List Bytes)
unfolding trusts_of trusts_of_tombstone
trust_domain_index_func (athenz_domain object) = trusts_of object.spec.signed_domain.domain
trust_domain_index_func (tombstone object) = trusts_of_tombstone object
trust_domain_index_func other = ret []

unfoldable pub is_trust_domain : Caches → Bytes → Bool
is_trust_domain caches domain_name = elim (caches.cr_by_trust domain_name) [
  | none ↦ false
  | some delegated ↦ if is_empty delegated then false else true
]

-- time.Date(1970, time.January, 1, 0, 0, 0, 0, time.UTC)
abbrev pub epoch : ℕ
epoch = 62135596800 * 1000000000

-- The loop over the store. A value that is no AthenzDomain ends it with no result; a nil domain or a
-- nil time is dereferenced.
latest_from : ℕ → List Object → Go (Option ℕ)
latest_from latest [] = ret (some latest)
latest_from latest (athenz_domain cr ∷ rest) =
    Go.◌>>=◌ (deref cr.spec.signed_domain.domain) λ domain.
      Go.◌>>=◌ (deref domain.modified)
        λ timestamp. latest_from (if ltb latest timestamp then timestamp else latest) rest
latest_from latest (_ ∷ rest) = ret none

unfoldable pub get_latest_timestamp : (ℕ → Bytes) → Caches → Go Bytes
unfolding latest_from
get_latest_timestamp format caches =
    if is_empty caches.cr_list
    then ret []
    else Go.◌>>=◌ (latest_from epoch caches.cr_list) λ latest. ret (elim latest [
      | none ↦ []
      | some time ↦ if format time == codes "1970-01-01T00:00:00Z" then [] else format time
    ])
