-- ===== src/Tests/Rules.antt =====
-- The filter of MSD rules.
use mathlib.Core.List.{Mem, Sublist}
use k8s_athenz_syncer.Common.{◌≡◌, refl, ◌↔◌, some, codes, ℕ_discrete}
use k8s_athenz_syncer.Go.{ret}
use k8s_athenz_syncer.GoStrings.{has_prefix}
use k8s_athenz_syncer.Zms.{Role, Policy, DomainData}
use k8s_athenz_syncer.Util.{
  filter_msd_rules, drop_msd_rules, filter_roles, filter_policies, is_msd_role, is_msd_policy,
}
use k8s_athenz_syncer.Util.MsdRules.{
  roles_of, policies_of, IsMsdRole, IsMsdPolicy, filter_msd_rules_keeps,
}
use k8s_athenz_syncer.Util.MsdRules.Total.{filter_msd_rules_total}
use k8s_athenz_syncer.Tests.Samples.{home, domain_data, kept_data, signed_policies, contents}

pub filtered : filter_msd_rules home (some domain_data) ≡ ret (some kept_data)
unfolding filter_msd_rules drop_msd_rules filter_roles filter_policies is_msd_role is_msd_policy
    has_prefix ℕ_discrete
filtered = refl

filter_msd_rules_keeps_example :
    ((r : Role)
      → Mem (some r) (roles_of kept_data)
        ↔ (Mem (some r) (roles_of domain_data) × (¬ IsMsdRole (codes "a.b") r.name)))
    × ((p : Policy)
        → Mem (some p) (policies_of kept_data)
          ↔ (Mem (some p) (policies_of domain_data) × (¬ IsMsdPolicy (codes "a.b") p.name)))
    × Sublist (roles_of kept_data) (roles_of domain_data)
    × Sublist (policies_of kept_data) (policies_of domain_data)
filter_msd_rules_keeps_example = filter_msd_rules_keeps home domain_data kept_data refl filtered

filter_msd_rules_total_example :
    (e : DomainData) × (filter_msd_rules home (some domain_data) ≡ ret (some e))
filter_msd_rules_total_example =
    filter_msd_rules_total home domain_data signed_policies contents refl refl (refl, (refl, tt))
      (refl, (refl, tt))
