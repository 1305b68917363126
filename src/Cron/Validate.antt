-- ===== src/Cron/Validate.antt =====
-- Which domains ValidateDomain accepts.
use k8s_athenz_syncer.Common.{
  Any, ◌≡◌, ◌≢◌, ◌↔◌, ◌⊎◌, inl, inr, true, false, none, some, [], ◌∷◌, ◌++◌, arith, Bytes, bytes_eq,
  is_some,
}
use k8s_athenz_syncer.Util.{
  Util, domain_to_namespace, namespace_to_domain, is_admin_domain, is_system_namespace,
}
use k8s_athenz_syncer.Util.{dot}
use k8s_athenz_syncer.GoStrings.{has_prefix}
use k8s_athenz_syncer.Util.Domains.{domain_to_namespace_unconverted}
use k8s_athenz_syncer.Util.RoundTrip.{LacksDot, IsOffAdmin, domain_to_namespace-namespace_to_domain}
use k8s_athenz_syncer.Cluster.{Caches, NsObject}
use k8s_athenz_syncer.CrUtil.{is_trust_domain}
use k8s_athenz_syncer.CrUtil.Index.{
  Delegates, roles_in, IsIndexed, AllReturn, is_trust_domain-Delegates,
}
use k8s_athenz_syncer.Cron.{validate_domain}

validate_domain_cases :
    (u : Util) (caches : Caches) (d : Bytes)
    → (validate_domain u caches d ≡ true) ↔ (
        (is_some (caches.ns_by_key (domain_to_namespace u d)) ≡ true)
        ⊎ (d ≡ u.admin_domain)
        ⊎ (is_trust_domain caches d ≡ true))
unfolding validate_domain is_admin_domain
validate_domain_cases u caches d = (λ h. ground arith, λ h. ground arith)

-- Over an index that keeps its promise and whose objects were all indexed, a domain is valid exactly
-- when its namespace is in the cache, or it is the admin domain, or its name is not empty and a role
-- of a stored resource delegates to it.
pub validate_domain_iff :
    (u : Util) (caches : Caches) (d : Bytes)
    → IsIndexed caches
    → AllReturn caches.cr_list
    → (validate_domain u caches d ≡ true) ↔ (
        (is_some (caches.ns_by_key (domain_to_namespace u d)) ≡ true)
        ⊎ (d ≡ u.admin_domain)
        ⊎ ((d ≢ []) × Any (λ o. Delegates (roles_in o) d) caches.cr_list))
validate_domain_iff u caches d indexed returned =
    let (there, back) = validate_domain_cases u caches d in
    let (to, from) = is_trust_domain-Delegates caches d indexed returned in
    (
      λ h. elim (there h) [
        | inl a ↦ inl a
        | inr (inl b) ↦ inr (inl b)
        | inr (inr c) ↦ inr (inr (to c))
      ],
      λ h. elim h [
        | inl a ↦ back (inl a)
        | inr (inl b) ↦ back (inr (inl b))
        | inr (inr c) ↦ back (inr (inr (from c)))
      ],
    )

-- The domain that an event of a cached namespace stands for is valid: for a system namespace if there
-- is an admin domain, for any other if it holds no dot and its domain does not begin with the admin
-- domain.
pub validate_domain-namespace_to_domain :
    (u : Util) (caches : Caches) (ns : Bytes) (found : NsObject)
    → caches.ns_by_key ns ≡ some found
    → (is_system_namespace u ns ≡ true → u.admin_domain ≢ [])
    → (is_system_namespace u ns ≡ false → LacksDot ns × IsOffAdmin u (namespace_to_domain u ns))
    → validate_domain u caches (namespace_to_domain u ns) ≡ true
validate_domain-namespace_to_domain u caches ns found held system ordinary =
    (validate_domain_cases u caches (namespace_to_domain u ns)).1
      (inl (rw (domain_to_namespace-namespace_to_domain u ns system ordinary, held)))

append_ne : (p s : Bytes) → s ≢ [] → p ++ s ≢ p
append_ne [] s h e = h e
append_ne (c ∷ p) s h e = append_ne p s h (ground arith)

-- A namespace whose domain begins with the admin domain, but not with the admin domain and a dot, is
-- looked up under the name of the domain: if no namespace has that name, the domain is valid only as
-- a trust domain, whether or not the namespace is in the cache.
pub validate_domain_unconverted :
    (u : Util) (caches : Caches) (ns suffix : Bytes)
    → u.admin_domain ≢ []
    → has_prefix suffix dot ≡ false
    → suffix ≢ []
    → namespace_to_domain u ns ≡ u.admin_domain ++ suffix
    → caches.ns_by_key (namespace_to_domain u ns) ≡ none
    → validate_domain u caches (namespace_to_domain u ns)
      ≡ is_trust_domain caches (namespace_to_domain u ns)
unfolding validate_domain is_admin_domain
validate_domain_unconverted u caches ns suffix given no_dot more e absent =
    let converted = domain_to_namespace_unconverted u suffix given no_dot in
    let off : caches.ns_by_key (u.admin_domain ++ suffix) ≡ none = rw e at absent in
    rw (e, converted, off) (ground (arith, append_ne u.admin_domain suffix more))
