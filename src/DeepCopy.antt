-- ===== src/DeepCopy.antt =====
-- pkg/apis/athenz/v1/zz_generated.deepcopy.go. The DeepCopyInto of the metadata of Kubernetes and the
-- package deepcopy are parameters; TypeMeta is left out, as in the types.
use k8s_athenz_syncer.Common.{◌≡◌, refl, Option, none, some, List, [], ◌∷◌, Bytes}
use k8s_athenz_syncer.Go.{Go, ret, panic, deref, Slice}
use k8s_athenz_syncer.Go
use k8s_athenz_syncer.Cluster.{
  ObjectMeta, AthenzDomain, AthenzDomainSpec, AthenzDomainStatus, AthenzDomainList,
}
use k8s_athenz_syncer.CrUtil.{deep_copy}
use k8s_athenz_syncer.CrUtil.Update.{Copies}

unfoldable pub status_deep_copy_into : AthenzDomainStatus → AthenzDomainStatus
status_deep_copy_into status = status

unfoldable pub status_deep_copy : Option AthenzDomainStatus → Option AthenzDomainStatus
unfolding status_deep_copy_into
status_deep_copy none = none
status_deep_copy (some status) = some (status_deep_copy_into status)

module _ (copy : AthenzDomainSpec → Option AthenzDomainSpec) (copy_meta : ObjectMeta → ObjectMeta)
    (copy_list_meta : Bytes → Bytes) where
  -- A copy that is nil is dereferenced.
  unfoldable pub spec_deep_copy_into : AthenzDomainSpec → Go AthenzDomainSpec
  spec_deep_copy_into spec = deref (deep_copy copy (some spec))

  unfoldable pub domain_deep_copy_into : AthenzDomain → Go AthenzDomain
  domain_deep_copy_into a =
      Go.◌>>=◌ (spec_deep_copy_into a.spec) λ spec.
        ret (record { object_meta = copy_meta a.object_meta; status = a.status; spec = spec })

  unfoldable pub domain_deep_copy : Option AthenzDomain → Go (Option AthenzDomain)
  domain_deep_copy none = ret none
  domain_deep_copy (some a) = Go.◌>>=◌ (domain_deep_copy_into a) λ out. ret (some out)

  unfoldable pub domain_deep_copy_object : Option AthenzDomain → Go (Option AthenzDomain)
  domain_deep_copy_object a =
      Go.◌>>=◌ (domain_deep_copy a) λ c. ret (elim c [ some out ↦ some out | none ↦ none ])

  copy_items : List AthenzDomain → Go (List AthenzDomain)
  copy_items [] = ret []
  copy_items (a ∷ rest) =
      Go.◌>>=◌ (domain_deep_copy_into a) λ out. Go.◌>>=◌ (copy_items rest) λ outs. ret (out ∷ outs)

  -- A nil slice stays nil.
  copy_slice : Slice AthenzDomain → Go (Slice AthenzDomain)
  unfolding copy_items
  copy_slice none = ret none
  copy_slice (some xs) = Go.◌>>=◌ (copy_items xs) λ outs. ret (some outs)

  unfoldable pub list_deep_copy_into : AthenzDomainList → Go AthenzDomainList
  unfolding copy_slice
  list_deep_copy_into l =
      Go.◌>>=◌ (copy_slice l.list_items)
        λ xs. ret (record { list_meta = copy_list_meta l.list_meta; list_items = xs })

  unfoldable pub list_deep_copy : Option AthenzDomainList → Go (Option AthenzDomainList)
  list_deep_copy none = ret none
  list_deep_copy (some l) = Go.◌>>=◌ (list_deep_copy_into l) λ out. ret (some out)

  unfoldable pub list_deep_copy_object : Option AthenzDomainList → Go (Option AthenzDomainList)
  list_deep_copy_object l =
      Go.◌>>=◌ (list_deep_copy l) λ c. ret (elim c [ some out ↦ some out | none ↦ none ])

  module _ (copies : Copies copy) (copies_meta : (m : ObjectMeta) → copy_meta m ≡ m) where
    domain_deep_copy_into_lem : (a : AthenzDomain) → domain_deep_copy_into a ≡ ret a
    unfolding domain_deep_copy_into spec_deep_copy_into deep_copy
    domain_deep_copy_into_lem a = rw (copies, copies_meta) refl

    copy_items_lem : (xs : List AthenzDomain) → copy_items xs ≡ ret xs
    unfolding copy_items
    copy_items_lem [] = refl
    copy_items_lem (a ∷ rest) = rw (domain_deep_copy_into_lem a, copy_items_lem rest) refl

    copy_slice_lem : (xs : Slice AthenzDomain) → copy_slice xs ≡ ret xs
    unfolding copy_slice
    copy_slice_lem none = refl
    copy_slice_lem (some xs) = rw (copy_items_lem xs) refl

    -- Where the parameters return equal copies, the copy of a list object, with all its resources and
    -- a nil slice kept nil, returns and equals the object; so does the copy as an interface value.
    pub list_deep_copy_object_lem :
        (l : Option AthenzDomainList)
        → ((m : Bytes) → copy_list_meta m ≡ m)
        → (list_deep_copy l ≡ ret l) × (list_deep_copy_object l ≡ ret l)
    unfolding list_deep_copy_object list_deep_copy list_deep_copy_into
    list_deep_copy_object_lem none metas = (refl, refl)
    list_deep_copy_object_lem (some l) metas = rw (copy_slice_lem, metas) (refl, refl)
