-- ===== src/Util.antt =====
-- pkg/util/util.go
pub mod RoundTrip
pub mod Domains
pub mod MsdRules
use k8s_athenz_syncer.Common.{
  Bool, true, false, ◌&&◌, ◌||◌, not, Option, none, some, List, [], ◌∷◌, ◌++◌, Bytes, codes,
  bytes_eq, ◌==◌, if◌then◌else◌,
}
use k8s_athenz_syncer.GoMap.{GoMap, lookup, insert}
use k8s_athenz_syncer.GoStrings.{has_prefix, trim_prefix, replace}
use k8s_athenz_syncer.Go.{Go, ret, panic, ◌>>=◌, deref, items, appended}
use k8s_athenz_syncer.Zms.{Role, Policy, DomainPolicies, SignedPolicies, DomainData}

pub record Util : Type 0 where
  pub admin_domain : Bytes
  pub system_namespaces : List Bytes
  pub exclude_namespaces : GoMap Bytes Bool
  pub exclude_msd_rules : Bool

exclude_all : GoMap Bytes Bool → List Bytes → GoMap Bytes Bool
exclude_all m [] = m
exclude_all m (ns ∷ rest) = exclude_all (insert m ns true) rest

unfoldable pub new_util : Bytes → List Bytes → List Bytes → Bool → Util
unfolding exclude_all
new_util admin_domain system_namespaces exclude_namespaces exclude_msd_rules = record {
  admin_domain = admin_domain;
  system_namespaces = system_namespaces;
  exclude_namespaces = exclude_all [] exclude_namespaces;
  exclude_msd_rules = exclude_msd_rules;
}

abbrev pub dot : Bytes
dot = codes "."

abbrev pub dash : Bytes
dash = codes "-"

unfoldable pub domain_to_namespace : Util → Bytes → Bytes
domain_to_namespace u domain =
    if not (u.admin_domain == []) && has_prefix domain u.admin_domain
    then trim_prefix domain (u.admin_domain ++ dot)
    else replace (replace domain dash (codes "--")) dot dash

is_system_in : List Bytes → Bytes → Bool
is_system_in [] ns = false
is_system_in (v ∷ rest) ns = if ns == v then true else is_system_in rest ns

unfoldable pub is_system_namespace : Util → Bytes → Bool
unfolding is_system_in
is_system_namespace u ns = is_system_in u.system_namespaces ns

unfoldable pub namespace_to_domain : Util → Bytes → Bytes
namespace_to_domain u ns =
    if is_system_namespace u ns
    then u.admin_domain ++ dot ++ ns
    else replace (replace ns dash dot) (codes "..") dash

is_system_domain_in : Util → List Bytes → Bytes → Bool
is_system_domain_in u [] domain = false
is_system_domain_in u (ns ∷ rest) domain =
    let sys_domain = namespace_to_domain u ns in
    if domain == sys_domain then true else is_system_domain_in u rest domain

unfoldable pub is_system_domain : Util → Bytes → Bool
unfolding is_system_domain_in
is_system_domain u domain = is_system_domain_in u u.system_namespaces domain

unfoldable pub is_namespace_excluded : Util → Bytes → Bool
is_namespace_excluded u ns = elim (lookup u.exclude_namespaces ns) [ some _ ↦ true | none ↦ false ]

unfoldable pub is_admin_domain : Util → Bytes → Bool
is_admin_domain u domain = if domain == u.admin_domain then true else false

abbrev pub get_admin_domain : Util → Bytes
get_admin_domain u = u.admin_domain

system_domains : Util → List Bytes → List Bytes
system_domains u [] = []
system_domains u (ns ∷ rest) = namespace_to_domain u ns ∷ system_domains u rest

unfoldable pub get_system_ns_domains : Util → List Bytes
unfolding system_domains
get_system_ns_domains u = system_domains u u.system_namespaces

-- The environment is a parameter.
unfoldable pub home_dir : (Bytes → Bytes) → Bytes
home_dir getenv =
    if not (getenv (codes "HOME") == [])
    then getenv (codes "HOME")
    else getenv (codes "USERPROFILE")

unfoldable pub is_msd_role : Bytes → Bytes → Bool
is_msd_role domain_name role_name =
    has_prefix role_name (domain_name ++ codes ":role.acl.")
    || has_prefix role_name (domain_name ++ codes ":role.msd-read-role-")

unfoldable pub is_msd_policy : Bytes → Bytes → Bool
is_msd_policy domain_name policy_name =
    has_prefix policy_name (domain_name ++ codes ":policy.acl.")
    || has_prefix policy_name (domain_name ++ codes ":policy.msd-read-policy-")

-- The two loops: a nil entry is dereferenced for its name.
unfoldable pub filter_roles : Bytes → List (Option Role) → Go (List (Option Role))
filter_roles domain_name [] = ret []
filter_roles domain_name (none ∷ rest) = panic
filter_roles domain_name (some role ∷ rest) = do
  kept ← filter_roles domain_name rest
  ret (if is_msd_role domain_name role.name then kept else some role ∷ kept)

unfoldable pub filter_policies : Bytes → List (Option Policy) → Go (List (Option Policy))
filter_policies domain_name [] = ret []
filter_policies domain_name (none ∷ rest) = panic
filter_policies domain_name (some policy ∷ rest) = do
  kept ← filter_policies domain_name rest
  ret (if is_msd_policy domain_name policy.name then kept else some policy ∷ kept)

unfoldable pub drop_msd_rules : DomainData → Go DomainData
drop_msd_rules domain = do
  roles ← filter_roles domain.name (items domain.roles)
  signed ← deref domain.policies
  contents ← deref signed.contents
  policies ← filter_policies domain.name (items contents.policies)
  ret (record domain {
    roles = appended roles;
    policies =
        some (record signed { contents = some (record contents { policies = appended policies }) });
  })

-- The argument and the result are pointers, and nil is passed through when the filter is off.
unfoldable pub filter_msd_rules : Util → Option DomainData → Go (Option DomainData)
filter_msd_rules u domain =
    if not u.exclude_msd_rules
    then ret domain
    else do given ← deref domain; filtered ← drop_msd_rules given; ret (some filtered)
