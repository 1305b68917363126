-- ===== src/Util/Domains.antt =====
-- The admin domain, the system domains and the excluded namespaces.
use k8s_athenz_syncer.Common.{
  ◌≡◌, refl, ◌≢◌, Bool, true, false, ◌||◌, List, [], ◌∷◌, ◌++◌, map, arith, Bytes, bytes_eq,
  contains, is_some,
}
use k8s_athenz_syncer.GoMap.{GoMap, lookup, insert, lookup-insert, lookup_nil}
use k8s_athenz_syncer.GoStrings.{has_prefix, trim_prefix}
use k8s_athenz_syncer.GoStrings.Replace.{has_prefix-append}
use k8s_athenz_syncer.Util.{
  Util, new_util, exclude_all, dot, domain_to_namespace, namespace_to_domain, is_system_in,
  is_system_namespace, is_system_domain_in, is_system_domain, is_namespace_excluded, system_domains,
  get_system_ns_domains,
}

has_prefix-dot : (p s : Bytes) → has_prefix s dot ≡ false → has_prefix (p ++ s) (p ++ dot) ≡ false
unfolding has_prefix
has_prefix-dot [] s h = h
has_prefix-dot (c ∷ p) s h = ground (arith, has_prefix-dot p s h)

-- A domain that begins with the admin domain, but not with the admin domain and a dot, is its own
-- namespace: its dots and dashes stay.
pub domain_to_namespace_unconverted :
    (u : Util) (suffix : Bytes)
    → u.admin_domain ≢ []
    → has_prefix suffix dot ≡ false
    → domain_to_namespace u (u.admin_domain ++ suffix) ≡ u.admin_domain ++ suffix
unfolding domain_to_namespace trim_prefix
domain_to_namespace_unconverted u suffix given no_dot =
    ground
      (arith, has_prefix-append u.admin_domain suffix, has_prefix-dot u.admin_domain suffix no_dot)

-- Every item of `nss` is found in `sys`.
abbrev AllIn : List Bytes → List Bytes → Type 0
AllIn sys [] = Unit
AllIn sys (ns ∷ nss) = (is_system_in sys ns ≡ true) × AllIn sys nss

AllIn-cons : (v : Bytes) (sys nss : List Bytes) → AllIn sys nss → AllIn (v ∷ sys) nss
unfolding is_system_in
AllIn-cons v sys [] h = tt
AllIn-cons v sys (ns ∷ nss) h = (ground arith, AllIn-cons v sys nss h.1)

AllIn-self : (sys : List Bytes) → AllIn sys sys
unfolding is_system_in
AllIn-self [] = tt
AllIn-self (v ∷ sys) = (ground arith, AllIn-cons v sys sys (AllIn-self sys))

module _ (u : Util) where
  abbrev pub qualify : Bytes → Bytes
  qualify ns = u.admin_domain ++ dot ++ ns

  system_domains-map :
      (nss : List Bytes) → AllIn u.system_namespaces nss → system_domains u nss ≡ map qualify nss
  unfolding system_domains namespace_to_domain is_system_namespace
  system_domains-map [] h = refl
  system_domains-map (ns ∷ rest) h = ground (arith, h.0, system_domains-map rest h.1)

  is_system_domain_in-contains :
      (nss : List Bytes) (domain : Bytes)
      → AllIn u.system_namespaces nss
      → is_system_domain_in u nss domain ≡ contains (map qualify nss) domain
  unfolding is_system_domain_in namespace_to_domain is_system_namespace
  is_system_domain_in-contains [] domain h = refl
  is_system_domain_in-contains (ns ∷ rest) domain h =
      ground (arith, h.0, is_system_domain_in-contains rest domain h.1)

  -- The system domains are the system namespaces behind the admin domain and a dot, in their order,
  -- and `is_system_domain` tests for one of them.
  pub system_domains_qualified :
      (domain : Bytes)
      → (get_system_ns_domains u ≡ map qualify u.system_namespaces)
        × (is_system_domain u domain ≡ contains (get_system_ns_domains u) domain)
  unfolding get_system_ns_domains is_system_domain
  system_domains_qualified domain =
      let all = AllIn-self u.system_namespaces in
      let listed = system_domains-map u.system_namespaces all in
      (listed, rw listed (is_system_domain_in-contains u.system_namespaces domain all))

lookup-exclude_all :
    (m : GoMap Bytes Bool) (nss : List Bytes) (ns : Bytes)
    → is_some (lookup (exclude_all m nss) ns) ≡ (contains nss ns || is_some (lookup m ns))
unfolding exclude_all
lookup-exclude_all m [] ns = refl
lookup-exclude_all m (x ∷ nss) ns =
    ground (arith, lookup-exclude_all (insert m x true) nss ns, lookup-insert m x true ns)

-- A namespace is excluded exactly when the command line lists it.
pub is_namespace_excluded-new_util :
    (admin : Bytes) (system excluded : List Bytes) (msd : Bool) (ns : Bytes)
    → is_namespace_excluded (new_util admin system excluded msd) ns ≡ contains excluded ns
unfolding is_namespace_excluded new_util
is_namespace_excluded-new_util admin system excluded msd ns =
    ground (arith, lookup-exclude_all [] excluded ns, lookup_nil {V = Bool} ns)

is_system_in-contains : (nss : List Bytes) (ns : Bytes) → is_system_in nss ns ≡ contains nss ns
unfolding is_system_in
is_system_in-contains [] ns = refl
is_system_in-contains (x ∷ nss) ns = ground (arith, is_system_in-contains nss ns)

-- A system namespace is one of the list.
pub is_system_namespace-contains :
    (u : Util) (ns : Bytes) → is_system_namespace u ns ≡ contains u.system_namespaces ns
unfolding is_system_namespace
is_system_namespace-contains u ns = is_system_in-contains u.system_namespaces ns
