-- ===== src/Util/MsdRules.antt =====
-- What `FilterMSDRules` keeps.
pub mod Idem
pub mod Total
use mathlib.Core.Bool.{Bool-discrete}
use mathlib.Core.List.{filter, Mem, Sublist, mem-filter, filter-sublist}
use k8s_athenz_syncer.Common.{
  not, inr, Bool-cases, inl, is_some, ◌≡◌, refl, ◌⊎◌, ◌↔◌, Bool, true, false, ◌||◌, Option, none,
  some, List, [], ◌∷◌, ◌++◌, arith, Bytes, codes, if◌then◌else◌, length, drop,
}
use k8s_athenz_syncer.Go.{>>=-eq-ret, ret, deref, items, appended, items-appended}
use k8s_athenz_syncer.GoStrings.{has_prefix}
use k8s_athenz_syncer.GoStrings.Replace.{has_prefix-append, has_prefix-eq}
use k8s_athenz_syncer.Zms.{Role, Policy, DomainPolicies, SignedPolicies, DomainData}
use k8s_athenz_syncer.Util.{
  Util, is_msd_role, is_msd_policy, filter_roles, filter_policies, drop_msd_rules, filter_msd_rules,
}

-- A text that begins with another.
abbrev pub BeginsWith : Bytes → Bytes → Type 0
BeginsWith s p = (rest : Bytes) × (s ≡ p ++ rest)

-- The names of the rules that the MSD service writes for a domain.
abbrev pub IsMsdRole : Bytes → Bytes → Type 0
IsMsdRole domain_name name =
    BeginsWith name (domain_name ++ codes ":role.acl.")
    ⊎ BeginsWith name (domain_name ++ codes ":role.msd-read-role-")

abbrev pub IsMsdPolicy : Bytes → Bytes → Type 0
IsMsdPolicy domain_name name =
    BeginsWith name (domain_name ++ codes ":policy.acl.")
    ⊎ BeginsWith name (domain_name ++ codes ":policy.msd-read-policy-")

has_prefix-BeginsWith : (s p : Bytes) → (has_prefix s p ≡ true) ↔ BeginsWith s p
has_prefix-BeginsWith s p =
    (λ h. (drop (length p) s, has_prefix-eq s p h), λ (rest, e). rw e (has_prefix-append p rest))

-- What the loops leave out: a rule of the service. (A nil entry ends the call.)
abbrev drops_role : Bytes → Option Role → Bool
drops_role dn none = true
drops_role dn (some role) = is_msd_role dn role.name

abbrev drops_policy : Bytes → Option Policy → Bool
drops_policy dn none = true
drops_policy dn (some policy) = is_msd_policy dn policy.name

abbrev kept_roles : Bytes → List (Option Role) → List (Option Role)
kept_roles dn = filter (λ r. Bool-discrete (drops_role dn r) false)

abbrev kept_policies : Bytes → List (Option Policy) → List (Option Policy)
kept_policies dn = filter (λ p. Bool-discrete (drops_policy dn p) false)

filter_roles-filter :
    (dn : Bytes) (rs ks : List (Option Role)) → filter_roles dn rs ≡ ret ks → ks ≡ kept_roles dn rs
unfolding filter_roles
filter_roles-filter dn [] ks h = ground arith
filter_roles-filter dn (none ∷ rs) ks h = ground arith
filter_roles-filter dn (some r ∷ rs) ks h =
    let (rest, e, f) = >>=-eq-ret (filter_roles dn rs) _ h in
    ground (arith, filter_roles-filter dn rs rest e, f)

filter_policies-filter :
    (dn : Bytes) (ps ks : List (Option Policy))
    → filter_policies dn ps ≡ ret ks
    → ks ≡ kept_policies dn ps
unfolding filter_policies
filter_policies-filter dn [] ks h = ground arith
filter_policies-filter dn (none ∷ ps) ks h = ground arith
filter_policies-filter dn (some p ∷ ps) ks h =
    let (rest, e, f) = >>=-eq-ret (filter_policies dn ps) _ h in
    ground (arith, filter_policies-filter dn ps rest e, f)

-- The roles and the policies of a domain, and whether all pointers on the way are set.
abbrev pub roles_of : DomainData → List (Option Role)
roles_of d = items d.roles

abbrev pub policies_of : DomainData → List (Option Policy)
policies_of d = elim d.policies [
  | none ↦ []
  | some signed ↦ elim signed.contents [ none ↦ [] | some contents ↦ items contents.policies ]
]

drop_msd_rules-eq :
    (d e : DomainData)
    → drop_msd_rules d ≡ ret e
    → (roles_of e ≡ kept_roles d.name (roles_of d))
      × (policies_of e ≡ kept_policies d.name (policies_of d))
      × (e.name ≡ d.name)
unfolding drop_msd_rules
drop_msd_rules-eq d e h =
    let (roles, er, h1) = >>=-eq-ret (filter_roles d.name (items d.roles)) _ h in
    let (signed, es, h2) = >>=-eq-ret (deref d.policies) _ h1 in
    let (contents, ec, h3) = >>=-eq-ret (deref signed.contents) _ h2 in
    let (policies, ep, h4) = >>=-eq-ret (filter_policies d.name (items contents.policies)) _ h3 in
    ground (
      arith,
      h4,
      filter_roles-filter d.name (items d.roles) roles er,
      filter_policies-filter d.name (items contents.policies) policies ep,
      items-appended roles,
      items-appended policies,
      ec,
      es,
    )

has_prefixes_iff :
    (s p q : Bytes)
    → ((has_prefix s p || has_prefix s q) ≡ false) ↔ ¬ (BeginsWith s p ⊎ BeginsWith s q)
has_prefixes_iff s p q = (
  λ h m. elim m [
    | inl b ↦ ground (arith, (has_prefix-BeginsWith s p).1 b)
    | inr b ↦ ground (arith, (has_prefix-BeginsWith s q).1 b)
  ],
  λ n. elim (Bool-cases (has_prefix s p)) [
    | inl e ↦ absurd (n (inl ((has_prefix-BeginsWith s p).0 e)))
    | inr e ↦ elim (Bool-cases (has_prefix s q)) [
      | inl e' ↦ absurd (n (inr ((has_prefix-BeginsWith s q).0 e')))
      | inr e' ↦ rw (e, e')
    ]
  ],
)

not-IsMsdRole : (dn name : Bytes) → (is_msd_role dn name ≡ false) ↔ ¬ IsMsdRole dn name
unfolding is_msd_role
not-IsMsdRole dn name = has_prefixes_iff name _ _

not-IsMsdPolicy : (dn name : Bytes) → (is_msd_policy dn name ≡ false) ↔ ¬ IsMsdPolicy dn name
unfolding is_msd_policy
not-IsMsdPolicy dn name = has_prefixes_iff name _ _

drop_msd_rules-filter_msd_rules :
    (u : Util) (d e : DomainData)
    → u.exclude_msd_rules ≡ true
    → filter_msd_rules u (some d) ≡ ret (some e)
    → drop_msd_rules d ≡ ret e
unfolding filter_msd_rules
drop_msd_rules-filter_msd_rules u d e on h =
    ground (arith, >>=-eq-ret (drop_msd_rules d) _ (rw on at h))

-- With the filter on, the roles that stay are those of the domain that the MSD service did not
-- write, in their order, and so for the policies.
pub filter_msd_rules_keeps :
    (u : Util) (d e : DomainData)
    → u.exclude_msd_rules ≡ true
    → filter_msd_rules u (some d) ≡ ret (some e)
    → ((r : Role)
        → Mem (some r) (roles_of e) ↔ (Mem (some r) (roles_of d) × (¬ IsMsdRole d.name r.name)))
      × ((p : Policy)
          → Mem (some p) (policies_of e)
            ↔ (Mem (some p) (policies_of d) × (¬ IsMsdPolicy d.name p.name)))
      × Sublist (roles_of e) (roles_of d)
      × Sublist (policies_of e) (policies_of d)
filter_msd_rules_keeps u d e on h =
    let (roles, policies, _) = drop_msd_rules-eq d e (drop_msd_rules-filter_msd_rules u d e on h) in
    rw (roles, policies)
      ((
        λ r. (
          λ m. let (m', k) = (mem-filter _).0 m in (m', (not-IsMsdRole d.name r.name).0 k),
          λ m. (mem-filter _).1 (m.0, (not-IsMsdRole d.name r.name).1 m.1),
        ),
        λ p. (
          λ m. let (m', k) = (mem-filter _).0 m in (m', (not-IsMsdPolicy d.name p.name).0 k),
          λ m. (mem-filter _).1 (m.0, (not-IsMsdPolicy d.name p.name).1 m.1),
        ),
        filter-sublist _,
        filter-sublist _,
      ))
