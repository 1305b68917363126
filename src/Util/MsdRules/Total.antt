-- ===== src/Util/MsdRules/Total.antt =====
-- When the filter of MSD rules returns.
use k8s_athenz_syncer.Common.{
  not, is_some, ◌≡◌, refl, true, Option, none, some, List, [], ◌∷◌, arith, Bytes, if◌then◌else◌,
}
use k8s_athenz_syncer.Go.{ret, items, appended}
use k8s_athenz_syncer.Zms.{Role, Policy, DomainPolicies, SignedPolicies, DomainData}
use k8s_athenz_syncer.Util.{
  Util, is_msd_role, is_msd_policy, filter_roles, filter_policies, drop_msd_rules, filter_msd_rules,
}
use k8s_athenz_syncer.Util.MsdRules.{roles_of}

-- The loops get through exactly the lists with no nil entry.
abbrev pub AllPresent {ℓ} : {A : Type ℓ} → List (Option A) → Type 0
AllPresent [] = Unit
AllPresent (a ∷ rest) = (is_some a ≡ true) × AllPresent rest

filter_roles_total :
    (dn : Bytes) (rs : List (Option Role))
    → AllPresent rs
    → (ks : List (Option Role)) × (filter_roles dn rs ≡ ret ks)
unfolding filter_roles
filter_roles_total dn [] h = ([], refl)
filter_roles_total dn (none ∷ rs) h = cc
filter_roles_total dn (some r ∷ rs) h =
    let (ks, e) = filter_roles_total dn rs h.1 in
    (if is_msd_role dn r.name then ks else some r ∷ ks, rw e)

filter_policies_total :
    (dn : Bytes) (ps : List (Option Policy))
    → AllPresent ps
    → (ks : List (Option Policy)) × (filter_policies dn ps ≡ ret ks)
unfolding filter_policies
filter_policies_total dn [] h = ([], refl)
filter_policies_total dn (none ∷ ps) h = cc
filter_policies_total dn (some p ∷ ps) h =
    let (ks, e) = filter_policies_total dn ps h.1 in
    (if is_msd_policy dn p.name then ks else some p ∷ ks, rw e)

-- A domain with its policies and with no nil entry among its roles and policies is filtered without
-- a panic.
pub filter_msd_rules_total :
    (u : Util) (d : DomainData) (signed : SignedPolicies) (contents : DomainPolicies)
    → d.policies ≡ some signed
    → signed.contents ≡ some contents
    → AllPresent (roles_of d)
    → AllPresent (items contents.policies)
    → (e : DomainData) × (filter_msd_rules u (some d) ≡ ret (some e))
unfolding filter_msd_rules drop_msd_rules
filter_msd_rules_total u d signed contents es ec hr hp =
    let (roles, er) = filter_roles_total d.name (roles_of d) hr in
    let (policies, ep) = filter_policies_total d.name (items contents.policies) hp in
    (
      if not u.exclude_msd_rules then d else record d {
        roles = appended roles;
        policies =
            some (record signed {
              contents = some (record contents { policies = appended policies });
            });
      },
      ground (arith, er, ep),
    )
