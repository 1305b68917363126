-- ===== src/Controller/Wanted.antt =====
-- What ZMS and the validation of a domain ask for of the resource that `sync` keeps, and the outcomes
-- of a run of `sync` against the API server's store.
pub mod Granted
use k8s_athenz_syncer.Common.{◌≡◌, refl, ◌⊎◌, inr, true, false, Option, none, some, [], ◌∷◌, Bytes}
use k8s_athenz_syncer.Go.{Go, ret, panic, items}
use k8s_athenz_syncer.Zms.{DomainData, SignedDomain, SignedPolicies}
use k8s_athenz_syncer.Util.{filter_msd_rules, Util}
use k8s_athenz_syncer.Cluster.{
  GoError, err, AthenzDomain, Caches, ZmsRequest, ZmsAnswer, answered, SignedDomains,
}
use k8s_athenz_syncer.ApiServer.{ApiServer, Deletes}
use k8s_athenz_syncer.CrUtil.{new_object}
use k8s_athenz_syncer.CrUtil.Update.{
  IsComplete, SameButSignatures, SameButSignatures-iff, with_version_of,
}
use k8s_athenz_syncer.Cron.{validate_domain}
use k8s_athenz_syncer.Controller.Sync.{IsMissing, request_for}

-- The resource that a domain should have: none if it is not valid or ZMS does not have it, else the
-- one made of what ZMS answers, with its rules filtered.
module _ (u : Util) (caches : Caches) (zms : ZmsRequest → ZmsAnswer) where
  pub data Wants (domain : Bytes) : Option AthenzDomain → Type 0 where
    gone :
        (validate_domain u caches domain ≡ false) ⊎ IsMissing (zms (request_for domain))
        → Wants domain none
    held :
        (etag : Bytes) (found : SignedDomains) (signed : SignedDomain) (d : DomainData)
        (policies : SignedPolicies)
        → validate_domain u caches domain ≡ true
        → zms (request_for domain) ≡ answered (some found) etag
        → items found.domains ≡ some signed ∷ []
        → filter_msd_rules u signed.domain ≡ ret (some d)
        → d.name ≡ domain
        → d.policies ≡ some policies
        → Wants domain (some (new_object domain (record signed { domain = some d })))

-- A stored resource, if there is one, has its domain and policies set.
abbrev pub IsWhole : Option AthenzDomain → Type 0
IsWhole none = Unit
IsWhole (some old) = IsComplete old.spec

-- The stored resource is the wanted one, up to the signatures and what the server keeps of its own.
abbrev pub Agrees : Option AthenzDomain → Option AthenzDomain → Type 0
Agrees none none = Unit
Agrees (some stored) (some wanted) =
    SameButSignatures stored.spec wanted.spec × (stored.status ≡ wanted.status)
Agrees _ _ = ⊥

module _ (api : ApiServer) (s : api.State) (domain : Bytes) where
  -- The server refuses the one write that takes the stored resource to the wanted one: the create
  -- of it, the update of the stored one, or the delete. Where neither is there, no write is due.
  abbrev pub RefusesFrom : Option AthenzDomain → Option AthenzDomain → Type 0
  RefusesFrom none none = ⊥
  RefusesFrom none (some new) = (e : GoError) × ((api.create s new).0 ≡ err e)
  RefusesFrom (some old) (some new) =
      (e : GoError) × ((api.update s (with_version_of old new)).0 ≡ err e)
  RefusesFrom (some old) none = (e : GoError) × ((api.delete s domain).0 ≡ some e)

  abbrev pub Refuses : Option AthenzDomain → Type 0
  Refuses wanted = RefusesFrom (api.get s domain) wanted

  -- What a run from the state `s` ends in: no error and the wanted resource, or an error, the refusal
  -- of the write that was due, and the resource as it was.
  abbrev pub Outcome : Option AthenzDomain → Go (Option GoError) → api.State → Type 0
  Outcome wanted (ret none) t = Agrees (api.get t domain) wanted
  Outcome wanted (ret (some e)) t = (api.get t domain ≡ api.get s domain) × Refuses wanted
  Outcome wanted panic t = ⊥

  pub delete-Outcome :
      (old : AthenzDomain) (answer : Option GoError × api.State)
      → api.get s domain ≡ some old
      → api.delete s domain ≡ answer
      → Deletes api s domain answer
      → Outcome none (ret answer.0) answer.1
  delete-Outcome old (none, t) stored e deleted = rw deleted tt
  delete-Outcome old (some x, t) stored e kept = (kept, rw stored (x, rw e refl))

  pub Agrees-stored :
      (found : Option AthenzDomain) (stored wanted : AthenzDomain)
      → found ≡ some stored
      → IsComplete wanted.spec
      → stored.spec ≡ wanted.spec
      → stored.status ≡ wanted.status
      → Agrees found (some wanted)
  Agrees-stored found stored wanted e complete spec status =
      rw (e, spec, status) ((SameButSignatures-iff wanted.spec wanted.spec complete).0 refl, refl)
