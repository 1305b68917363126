-- ===== src/CrUtil/Index.antt =====
-- The index of trust domains, and what IsTrustDomain reads off it.
use k8s_athenz_syncer.Common.{
  Any, ◌≡◌, refl, ◌≢◌, ◌↔◌, ◌⊎◌, inl, inr, true, Option, none, some, List, [], ◌∷◌, arith, Bytes,
  bytes_eq, contains,
}
use k8s_athenz_syncer.Go.{ret, items, >>=-eq-ret}
use k8s_athenz_syncer.Zms.{Role, DomainData}
use k8s_athenz_syncer.Cluster.{Object, athenz_domain, tombstone, other, Caches}
use k8s_athenz_syncer.CrUtil.{trusts, trusts_of, trust_domain_index_func, is_trust_domain}

-- A role of the list delegates to the domain.
abbrev pub Delegates : List (Option Role) → Bytes → Type 0
Delegates [] d = ⊥
Delegates (none ∷ rest) d = Delegates rest d
Delegates (some role ∷ rest) d = (role.trust ≡ d) ⊎ Delegates rest d

trusts-Delegates :
    (roles : List (Option Role)) (found : List Bytes) (d : Bytes)
    → trusts roles ≡ ret found
    → (contains found d ≡ true) ↔ ((d ≢ []) × Delegates roles d)
unfolding trusts
trusts-Delegates [] found d h = (λ m. ground arith, λ c. absurd c.1)
trusts-Delegates (none ∷ rest) found d h = (λ m. cc, λ c. cc)
trusts-Delegates (some role ∷ rest) found d h =
    let (tail, e, f) = >>=-eq-ret (trusts rest) _ h in
    let (there, back) = trusts-Delegates rest tail d e in
    (λ m. (ground (arith, there), ground (arith, there)), λ c. ground (arith, back))

-- The roles of the domain that an informer's object holds, if it holds one.
abbrev pub roles_of : Option DomainData → List (Option Role)
roles_of none = []
roles_of (some domain) = items domain.roles

abbrev pub roles_of_tombstone : Object → List (Option Role)
roles_of_tombstone (athenz_domain object) = roles_of object.spec.signed_domain.domain
roles_of_tombstone _ = []

abbrev pub roles_in : Object → List (Option Role)
roles_in (athenz_domain object) = roles_of object.spec.signed_domain.domain
roles_in (tombstone object) = roles_of_tombstone object
roles_in other = []

trusts_of-Delegates :
    (domain : Option DomainData) (found : List Bytes) (d : Bytes)
    → trusts_of domain ≡ ret found
    → (contains found d ≡ true) ↔ ((d ≢ []) × Delegates (roles_of domain) d)
unfolding trusts_of
trusts_of-Delegates none found d h = (λ m. ground arith, λ c. absurd c.1)
trusts_of-Delegates (some domain) found d h = trusts-Delegates (items domain.roles) found d h

-- The index values of an object, deleted ones included, are the trust domains of its roles: no other
-- name, and never the empty one.
pub trust_domain_index_func-Delegates :
    (object : Object) (found : List Bytes) (d : Bytes)
    → trust_domain_index_func object ≡ ret found
    → (contains found d ≡ true) ↔ ((d ≢ []) × Delegates (roles_in object) d)
unfolding trust_domain_index_func
trust_domain_index_func-Delegates (athenz_domain a) found d h =
    trusts_of-Delegates a.spec.signed_domain.domain found d h
trust_domain_index_func-Delegates (tombstone (athenz_domain a)) found d h =
    trusts_of-Delegates a.spec.signed_domain.domain found d h
trust_domain_index_func-Delegates (tombstone (tombstone o)) found d h =
    (λ m. ground arith, λ c. absurd c.1)
trust_domain_index_func-Delegates (tombstone other) found d h = (λ m. ground arith, λ c. absurd c.1)
trust_domain_index_func-Delegates other found d h = (λ m. ground arith, λ c. absurd c.1)

-- What an indexer documents: ByIndex gives the stored objects whose index values hold the value, and
-- every stored object has been indexed.
abbrev pub HasValue : Bytes → Object → Type 0
HasValue d object =
    (found : List Bytes) × (trust_domain_index_func object ≡ ret found) × (contains found d ≡ true)

abbrev pub IsIndexed : Caches → Type 0
IsIndexed caches =
    (d : Bytes)
    → (objects : List Object) × (caches.cr_by_trust d ≡ some objects)
      × ((objects ≢ []) ↔ Any (HasValue d) caches.cr_list)

HasValue-Delegates :
    (objects : List Object) (d : Bytes)
    → Any (HasValue d) objects
    → (d ≢ []) × Any (λ o. Delegates (roles_in o) d) objects
HasValue-Delegates (o ∷ objects) d (inl (found, e, m)) =
    let c = (trust_domain_index_func-Delegates o found d e).0 m in (c.0, inl c.1)
HasValue-Delegates (o ∷ objects) d (inr later) =
    let c = HasValue-Delegates objects d later in (c.0, inr c.1)
HasValue-Delegates [] d h = absurd h

-- Every object has been indexed: its index function returned.
abbrev pub AllReturn : List Object → Type 0
AllReturn [] = Unit
AllReturn (o ∷ objects) =
    ((found : List Bytes) × (trust_domain_index_func o ≡ ret found)) × AllReturn objects

Delegates-HasValue :
    (objects : List Object) (d : Bytes)
    → AllReturn objects
    → d ≢ []
    → Any (λ o. Delegates (roles_in o) d) objects
    → Any (HasValue d) objects
Delegates-HasValue [] d r n h = absurd h
Delegates-HasValue (o ∷ objects) d ((found, e), r) n (inl c) =
    inl (found, e, (trust_domain_index_func-Delegates o found d e).1 (n, c))
Delegates-HasValue (o ∷ objects) d (f, r) n (inr later) =
    inr (Delegates-HasValue objects d r n later)

is_trust_domain-ne-nil :
    (caches : Caches) (d : Bytes) (objects : List Object)
    → caches.cr_by_trust d ≡ some objects
    → (is_trust_domain caches d ≡ true) ↔ (objects ≢ [])
unfolding is_trust_domain
is_trust_domain-ne-nil caches d [] e = (λ h. ground arith, λ n. absurd (n refl))
is_trust_domain-ne-nil caches d (o ∷ objects) e = (λ h k. cc, λ n. ground arith)

-- Over an index that keeps its promise and whose objects were all indexed, a domain is a trust domain
-- exactly when its name is not empty and a role of a stored resource delegates to it.
pub is_trust_domain-Delegates :
    (caches : Caches) (d : Bytes)
    → IsIndexed caches
    → AllReturn caches.cr_list
    → (is_trust_domain caches d ≡ true)
      ↔ ((d ≢ []) × Any (λ o. Delegates (roles_in o) d) caches.cr_list)
is_trust_domain-Delegates caches d indexed returned =
    let (objects, e, held) = indexed d in
    let (there, back) = is_trust_domain-ne-nil caches d objects e in
    (
      λ h. HasValue-Delegates caches.cr_list d (held.0 (there h)),
      λ c. back (held.1 (Delegates-HasValue caches.cr_list d returned c.0 c.1)),
    )
