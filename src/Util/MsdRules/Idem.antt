-- ===== src/Util/MsdRules/Idem.antt =====
-- Filtering MSD rules again.
use k8s_athenz_syncer.Common.{
  inr, Bool-cases, inl, ◌≡◌, Option, none, some, List, [], ◌∷◌, arith, Bytes,
}
use k8s_athenz_syncer.Go.{>>=-eq-ret, ret, deref, items, items-appended}
use k8s_athenz_syncer.Zms.{Role, Policy, DomainData}
use k8s_athenz_syncer.Util.{Util, filter_roles, filter_policies, drop_msd_rules, filter_msd_rules}
use k8s_athenz_syncer.Util.MsdRules.{drop_msd_rules-filter_msd_rules}

filter_roles-kept :
    (dn : Bytes) (rs ks : List (Option Role))
    → filter_roles dn rs ≡ ret ks
    → filter_roles dn ks ≡ ret ks
unfolding filter_roles
filter_roles-kept dn [] ks h = ground arith
filter_roles-kept dn (none ∷ rs) ks h = ground arith
filter_roles-kept dn (some r ∷ rs) ks h =
    let (rest, e, f) = >>=-eq-ret (filter_roles dn rs) _ h in
    ground (arith, filter_roles-kept dn rs rest e, f)

filter_policies-kept :
    (dn : Bytes) (ps ks : List (Option Policy))
    → filter_policies dn ps ≡ ret ks
    → filter_policies dn ks ≡ ret ks
unfolding filter_policies
filter_policies-kept dn [] ks h = ground arith
filter_policies-kept dn (none ∷ ps) ks h = ground arith
filter_policies-kept dn (some p ∷ ps) ks h =
    let (rest, e, f) = >>=-eq-ret (filter_policies dn ps) _ h in
    ground (arith, filter_policies-kept dn ps rest e, f)

drop_msd_rules_idem : (d e : DomainData) → drop_msd_rules d ≡ ret e → drop_msd_rules e ≡ ret e
unfolding drop_msd_rules
drop_msd_rules_idem d e h =
    let (roles, er, h1) = >>=-eq-ret (filter_roles d.name (items d.roles)) _ h in
    let (signed, es, h2) = >>=-eq-ret (deref d.policies) _ h1 in
    let (contents, ec, h3) = >>=-eq-ret (deref signed.contents) _ h2 in
    let (policies, ep, h4) = >>=-eq-ret (filter_policies d.name (items contents.policies)) _ h3 in
    ground (
      arith,
      h4,
      filter_roles-kept d.name (items d.roles) roles er,
      filter_policies-kept d.name (items contents.policies) policies ep,
      items-appended roles,
      items-appended policies,
    )

-- Filtering a second time changes nothing.
pub filter_msd_rules_idem :
    (u : Util) (d e : DomainData)
    → filter_msd_rules u (some d) ≡ ret (some e)
    → filter_msd_rules u (some e) ≡ ret (some e)
unfolding filter_msd_rules
filter_msd_rules_idem u d e h = elim (Bool-cases u.exclude_msd_rules) [
  | inl on ↦ ground (arith, drop_msd_rules_idem d e (drop_msd_rules-filter_msd_rules u d e on h))
  | inr off ↦ ground arith
]
