-- ===== src/CrUtil/Update.antt =====
-- When CreateUpdateAthenzDomain calls the API server, and with what.
use k8s_athenz_syncer.Common.{
  ap, ◌≡◌, refl, ◌≢◌, ◌↔◌, ◌⊎◌, inl, inr, Bool, true, false, ◌&&◌, Option, none, some, List, [],
  ◌∷◌, ◌++◌, arith, Bytes, ◌==◌, if◌then◌else◌, Bool-cases,
}
use k8s_athenz_syncer.Go.{ret, Go-cases}
use k8s_athenz_syncer.Zms.{DomainData, SignedPolicies}
use k8s_athenz_syncer.WorkQueue.{WorkQueue}
use k8s_athenz_syncer.Cluster.{
  ok, AthenzDomain, AthenzDomainSpec, athenz_domain_spec_eq, athenz_domain_status_eq, Server, Call,
  update_cr,
}
use k8s_athenz_syncer.World.{World}
use k8s_athenz_syncer.CrUtil.{as_pointer, deep_copy, clear_signatures, update_found}

-- The specs that the API server and ZMS hand out: the domain and its policies are set.
abbrev pub IsComplete : AthenzDomainSpec → Type 0
IsComplete spec =
    (domain : DomainData) × (policies : SignedPolicies) × (spec.signed_domain.domain ≡ some domain)
    × (domain.policies ≡ some policies)

-- Both signatures of a spec given anew.
sign_policies : Bytes → Option SignedPolicies → Option SignedPolicies
sign_policies p none = none
sign_policies p (some policies) = some (record policies { signature = p })

sign_domain : Bytes → Option DomainData → Option DomainData
unfolding sign_policies
sign_domain p none = none
sign_domain p (some domain) = some (record domain { policies = sign_policies p domain.policies })

unfoldable pub sign : Bytes → Bytes → AthenzDomainSpec → AthenzDomainSpec
unfolding sign_domain
sign s p spec = record {
  signed_domain = record (spec.signed_domain) {
    domain = sign_domain p spec.signed_domain.domain;
    signature = s;
  };
}

-- Two specs that differ in their signatures at most.
abbrev pub SameButSignatures : AthenzDomainSpec → AthenzDomainSpec → Type 0
SameButSignatures a b = (s : Bytes) × (p : Bytes) × (a ≡ sign s p b)

clear_signatures-sign :
    (spec : AthenzDomainSpec)
    → IsComplete spec
    → clear_signatures (some spec) ≡ ret (sign [] [] spec)
unfolding clear_signatures sign
clear_signatures-sign spec (domain, policies, ed, ep) = ground arith

sign-sign :
    (s p s' p' : Bytes) (spec : AthenzDomainSpec) → sign s p (sign s' p' spec) ≡ sign s p spec
unfolding sign
sign-sign s p s' p' spec = ground arith

-- Its own signatures put back.
sign_self :
    (spec : AthenzDomainSpec)
    → IsComplete spec
    → (s : Bytes) × (p : Bytes) × (sign s p (sign [] [] spec) ≡ spec)
unfolding sign
sign_self spec (domain, policies, ed, ep) =
    (spec.signed_domain.signature, policies.signature, ground arith)

pub SameButSignatures-iff :
    (a b : AthenzDomainSpec) → IsComplete a → (sign [] [] a ≡ sign [] [] b) ↔ SameButSignatures a b
SameButSignatures-iff a b complete =
    let (s, p, own) = sign_self a complete in
    (
      λ h. (s, p, ground (arith, sign-sign s p [] [] b)),
      λ (s', p', e). rw e (sign-sign [] [] s' p' b),
    )

-- deepcopy.Copy returns an equal value of the same type.
abbrev pub Copies : (AthenzDomainSpec → Option AthenzDomainSpec) → Type 0
Copies copy = (spec : AthenzDomainSpec) → copy spec ≡ some spec

differ : {b : Bool} → b ≡ false → b ≡ true → ⊥
differ e h = cc

append_ne : (calls : List Call) (call : Call) → calls ++ (call ∷ []) ≢ calls
append_ne [] call h = cc
append_ne (c ∷ calls) call h = append_ne calls call (ground arith)

-- The object that an update sends: the new one with the resource version of the old one.
abbrev pub with_version_of : AthenzDomain → AthenzDomain → AthenzDomain
with_version_of old new = record new {
  object_meta = record (new.object_meta) { resource_version = old.object_meta.resource_version };
}

-- The test of updateCR.
abbrev pub is_up_to_date : AthenzDomain → AthenzDomain → Bool
is_up_to_date old new = sign [] [] old.spec == sign [] [] new.spec && old.status == new.status

pub is_up_to_date_iff :
    (old new : AthenzDomain)
    → IsComplete old.spec
    → (is_up_to_date old new ≡ true)
      ↔ (SameButSignatures old.spec new.spec × (old.status ≡ new.status))
is_up_to_date_iff old new complete =
    let (there, back) = SameButSignatures-iff old.spec new.spec complete in
    (λ h. (there (ground arith), ground arith), λ h. ground (arith, back h.0))

module _ {q : WorkQueue} (copy : AthenzDomainSpec → Option AthenzDomainSpec) (server : Server)
    (copies : Copies copy) where
  pub update_found_lem :
      (old new : AthenzDomain) (w : World q)
      → IsComplete old.spec
      → IsComplete new.spec
      → update_found copy server (some old) (some new) w ≡ (
          if is_up_to_date old new then (ret (ok none), w) else (
            ret (as_pointer (server.on_update w.calls (with_version_of old new))),
            record w { calls = w.calls ++ (update_cr (with_version_of old new) ∷ []) },
          ))
  unfolding update_found deep_copy
  update_found_lem old new w co cn =
      rw (copies, copies, clear_signatures-sign old.spec co, clear_signatures-sign new.spec cn)
        (ground arith)

  pub update_found_skips :
      (old new : AthenzDomain) (w : World q)
      → IsComplete old.spec
      → IsComplete new.spec
      → SameButSignatures old.spec new.spec
      → old.status ≡ new.status
      → update_found copy server (some old) (some new) w ≡ (ret (ok none), w)
  update_found_skips old new w co cn same status =
      rw (update_found_lem old new w co cn, (is_up_to_date_iff old new co).1 (same, status))

  -- For a cached and a new resource that both have their domain and policies set, the API server is
  -- called exactly when the new resource differs from the cached one in more than the signatures, or
  -- in its status. The call is then an update with the new resource
  -- under the cached resource version, and nothing else changes.
  pub update_found_calls :
      (old new : AthenzDomain) (w : World q)
      → IsComplete old.spec
      → IsComplete new.spec
      → let after = (update_found copy server (some old) (some new) w).1 in
        ((after ≡ w) ↔ (SameButSignatures old.spec new.spec × (old.status ≡ new.status)))
        × ((after ≡ w)
            ⊎ (after ≡ record w { calls = w.calls ++ (update_cr (with_version_of old new) ∷ []) }))
  update_found_calls old new w co cn =
      rw (update_found_lem old new w co cn) (elim (Bool-cases (is_up_to_date old new)) [
        | inl e ↦ rw e ((λ _. (is_up_to_date_iff old new co).0 e, λ _. refl), inl refl)
        | inr e ↦ rw e (
          (
            λ h. absurd (append_ne w.calls _ (ap (λ (v : World q). v.calls) h)),
            λ h. absurd (differ e ((is_up_to_date_iff old new co).1 h)),
          ),
          inr refl,
        )
      ])

module _ {q : WorkQueue} (copy : AthenzDomainSpec → Option AthenzDomainSpec) (server : Server) where
  pub update_found_world :
      (old new : AthenzDomain) (w : World q)
      → let after = (update_found copy server (some old) (some new) w).1 in
        (after ≡ w)
        ⊎ (after ≡ record w { calls = w.calls ++ (update_cr (with_version_of old new) ∷ []) })
  unfolding update_found
  update_found_world old new w = ground (
    arith,
    Go-cases (clear_signatures (deep_copy copy (some old.spec))),
    Go-cases (clear_signatures (deep_copy copy (some new.spec))),
  )
