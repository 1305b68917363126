-- ===== src/Tests/Names.antt =====
-- Namespaces and domains, with the values of pkg/util/util_test.go.
use mathlib.Core.List.{cons-ne-nil}
use k8s_athenz_syncer.Common.{
  ◌==◌, if◌then◌else◌, ◌≡◌, refl, ◌↔◌, true, false, [], ◌∷◌, arith, bytes_eq, codes, bytes_discrete,
  ℕ_discrete,
}
use k8s_athenz_syncer.GoStrings.{has_prefix, trim_prefix, replace}
use k8s_athenz_syncer.Util.{
  Util, new_util, domain_to_namespace, namespace_to_domain, is_system_namespace, home_dir,
}
use k8s_athenz_syncer.Util.RoundTrip.{
  IsClean, namespace_to_domain-domain_to_namespace, domain_to_namespace-namespace_to_domain,
}

abbrev util : Util
util = record {
  admin_domain = codes "admin.domain";
  system_namespaces = codes "kube-system" ∷ codes "kube-public" ∷ [];
  exclude_namespaces = (codes "acceptance-test", true) ∷ [];
  exclude_msd_rules = false;
}

double_dash : namespace_to_domain util (codes "hello--world-test") ≡ codes "hello-world.test"
unfolding namespace_to_domain is_system_namespace replace has_prefix new_util bytes_discrete
    ℕ_discrete
double_dash = refl

system_domain : domain_to_namespace util (codes "admin.domain.kube-system") ≡ codes "kube-system"
unfolding domain_to_namespace has_prefix trim_prefix new_util bytes_discrete ℕ_discrete
system_domain = refl

windows_home : home_dir (λ name. if name == codes "HOME" then [] else codes "C:") ≡ codes "C:"
unfolding home_dir bytes_discrete ℕ_discrete
windows_home = refl

namespace_to_domain-domain_to_namespace_example :
    (namespace_to_domain util (domain_to_namespace util (codes "hello-world.test"))
      ≡ codes "hello-world.test")
    ↔ IsClean (codes "hello-world.test")
unfolding domain_to_namespace is_system_namespace has_prefix replace new_util bytes_discrete
    ℕ_discrete
namespace_to_domain-domain_to_namespace_example =
    namespace_to_domain-domain_to_namespace util (codes "hello-world.test") refl refl

domain_to_namespace-namespace_to_domain_example :
    domain_to_namespace util (namespace_to_domain util (codes "a---b")) ≡ codes "a---b"
unfolding namespace_to_domain is_system_namespace has_prefix replace new_util bytes_discrete
    ℕ_discrete
domain_to_namespace-namespace_to_domain_example =
    domain_to_namespace-namespace_to_domain util (codes "a---b") (λ e. cons-ne-nil _ _)
      (λ e. (omega arith, refl))
