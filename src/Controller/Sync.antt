-- ===== src/Controller/Sync.antt =====
-- What one run of `sync` does, on every branch.
use k8s_athenz_syncer.Common.{
  is_empty, ◌≡◌, refl, ◌≢◌, ◌⊎◌, inl, inr, true, false, Option, none, some, List, [], ◌∷◌, arith,
  Bytes, bytes_eq, nat_eq, ◌==◌, if◌then◌else◌, is_some, Bool-cases, ℕ, codes,
}
use k8s_athenz_syncer.Go.{Go, ret, panic, items}
use k8s_athenz_syncer.Zms.{Role, DomainData, SignedDomain}
use k8s_athenz_syncer.Util.{filter_msd_rules, Util}
use k8s_athenz_syncer.WorkQueue.{WorkQueue}
use k8s_athenz_syncer.Cluster.{
  GoError, resource_error, Result, ok, err, AthenzDomain, AthenzDomainSpec, Object, athenz_domain,
  Caches, Server, wrapped, ZmsRequest, ZmsAnswer, answered, failed, SignedDomains,
}
use k8s_athenz_syncer.World.{World, continue, after_adding}
use k8s_athenz_syncer.CrUtil.{get_cr_by_name, remove_athenz_domain, create_update_athenz_domain}
use mathlib.Core.List.{filter_map}
use k8s_athenz_syncer.CrUtil.Create.{Removes, remove_athenz_domain-Removes}
use k8s_athenz_syncer.Cron.{validate_domain}
use k8s_athenz_syncer.Controller.{
  sync, sync_domains, after_write, add_trusts, wants_trust, zms_get_signed_domains,
}

abbrev pub request_for : Bytes → ZmsRequest
request_for domain = record { domain = domain; meta_only = []; matching_tag = [] }

-- ZMS does not have the domain: it answers 404, or a list that is empty.
abbrev pub IsMissing : ZmsAnswer → Type 0
IsMissing (failed (resource_error code text)) = code ≡ 404
IsMissing (failed e) = ⊥
IsMissing (answered found etag) = (sd : SignedDomains) × (found ≡ some sd) × (items sd.domains ≡ [])

pub IsMissing-cases : (answer : ZmsAnswer) → IsMissing answer ⊎ ¬ IsMissing answer
IsMissing-cases (failed (resource_error code text)) = elim (Bool-cases (code == 404)) [
  | inl e ↦ inl (ground (arith, e))
  | inr e ↦ inr (λ h. absurd (ground (arith, e, h)))
]
IsMissing-cases (answered none etag) = inr (λ (sd, f, g). absurd (ground (arith, f)))
IsMissing-cases (answered (some found) etag) = elim (Bool-cases (is_empty (items found.domains))) [
  | inl e ↦ inl (found, refl, ground (arith, e))
  | inr e ↦ inr (λ (sd, f, g). absurd (ground (arith, e, f, g)))
]
IsMissing-cases (failed _) = inr (λ h. h)

-- An entry of the cache that is a resource, or no entry.
abbrev pub as_object : Option AthenzDomain → Option Object
as_object none = none
as_object (some object) = some (athenz_domain object)

test_of_eq : (a b : Bytes) → a ≡ b → (a == b) ≡ true
test_of_eq a b e = ground arith

-- What the roles of a domain put into the queue.
abbrev pub trust_of : Util → Caches → Bytes → Option Role → Option Bytes
trust_of u caches domain none = none
trust_of u caches domain (some role) =
    if wants_trust u caches domain role then some role.trust else none

module _ {q : WorkQueue} (copy : AthenzDomainSpec → Option AthenzDomainSpec) (u : Util)
    (caches : Caches) (server : Server) where
  pub add_trusts_lem :
      (domain : Bytes) (roles : List (Option Role)) (w : World q)
      → add_trusts copy u caches server domain roles w
        ≡ (ret tt, after_adding w (filter_map (trust_of u caches domain) roles))
  unfolding add_trusts filter_map
  add_trusts_lem domain [] w = refl
  add_trusts_lem domain (none ∷ rest) w = add_trusts_lem domain rest w
  add_trusts_lem domain (some role ∷ rest) w = ground (
    arith,
    add_trusts_lem domain rest w,
    add_trusts_lem domain rest (after_adding w (role.trust ∷ [])),
  )

  -- What follows the write of a fetched domain: its wanted trust domains enter the queue after a
  -- success, and an error is passed on.
  abbrev pub after_create :
      Bytes
      → DomainData
      → Go (Result (Option AthenzDomain)) × World q
      → Go (Option GoError) × World q
  after_create domain d (panic, w) = (panic, w)
  after_create domain d (ret (err e), w) = (
    ret (some (wrapped (codes "Error occurred when creating AthenzDomain custom resources") e)),
    w,
  )
  after_create domain d (ret (ok cr), w) =
      (ret none, after_adding w (filter_map (trust_of u caches domain) (items d.roles)))

  after_write_lem :
      (domain : Bytes) (d : DomainData) (written : Go (Result (Option AthenzDomain)) × World q)
      → continue
          (λ r.
            after_write copy u caches server domain d
              (sync_domains copy u caches server domain [])
              r)
          written
        ≡ after_create domain d written
  unfolding after_write sync_domains
  after_write_lem domain d (panic, w) = refl
  after_write_lem domain d (ret (err e), w) = refl
  after_write_lem domain d (ret (ok cr), w) = rw add_trusts_lem

  sync_domains_one :
      (domain : Bytes) (signed : SignedDomain) (d : DomainData) (w : World q)
      → signed.domain ≡ some d
      → d.name ≡ domain
      → sync_domains copy u caches server domain (some signed ∷ []) w
        ≡ after_create domain d
            (create_update_athenz_domain copy caches server domain (some signed) w)
  unfolding sync_domains
  sync_domains_one domain signed d w e same =
      rw e (rw (test_of_eq d.name domain same) (after_write_lem domain d _))

module _ {q : WorkQueue} (copy : AthenzDomainSpec → Option AthenzDomainSpec) (u : Util)
    (caches : Caches) (server : Server) (zms : ZmsRequest → ZmsAnswer) where
  sync_missing :
      (domain : Bytes) (answer : ZmsAnswer) (w : World q)
      → zms (request_for domain) ≡ answer
      → validate_domain u caches domain ≡ true
      → IsMissing answer
      → sync copy u caches server zms domain w ≡ remove_athenz_domain caches server domain w
  unfolding sync zms_get_signed_domains
  sync_missing domain (failed (resource_error code text)) w e valid h = rw (valid, e) (ground arith)
  sync_missing domain (answered found etag) w e valid (sd, f, g) =
      rw (valid, e) (ground (arith, f, g))
  sync_missing domain (failed _) w e valid h = absurd h

  sync_invalid :
      (domain : Bytes) (w : World q)
      → validate_domain u caches domain ≡ false
      → sync copy u caches server zms domain w ≡ remove_athenz_domain caches server domain w
  unfolding sync
  sync_invalid domain w h = rw h

  -- A domain that is not valid, or that ZMS does not have (it answers 404 or an empty list), is
  -- removed: one delete of its resource if the cache holds one, else no call at all. ZMS need not be
  -- asked, and nothing is queued.
  pub sync-Removes :
      (domain : Bytes) (w : World q)
      → (validate_domain u caches domain ≡ false) ⊎ IsMissing (zms (request_for domain))
      → Removes caches server domain w
          (caches.cr_by_key domain)
          (sync copy u caches server zms domain w)
  sync-Removes domain w (inl invalid) =
      rw (sync_invalid domain w invalid) (remove_athenz_domain-Removes caches server domain w)
  sync-Removes domain w (inr missing) = elim (Bool-cases (validate_domain u caches domain)) [
    | inl valid ↦
        rw (sync_missing domain _ w refl valid missing)
          (remove_athenz_domain-Removes caches server domain w)
    | inr invalid ↦
        rw (sync_invalid domain w invalid) (remove_athenz_domain-Removes caches server domain w)
  ]

  -- A valid domain for which ZMS answers an error other than 404, such as 429: the run panics if the
  -- cache holds a resource for the domain, and returns no error, so that there is no retry, if it
  -- holds nothing. Nothing is called or queued, and the message of the error is not recorded.
  pub sync_zms_error :
      (domain : Bytes) (code : ℕ) (text : Bytes) (cached : Option AthenzDomain) (w : World q)
      → validate_domain u caches domain ≡ true
      → zms (request_for domain) ≡ failed (resource_error code text)
      → code ≢ 404
      → caches.cr_by_key domain ≡ as_object cached
      → sync copy u caches server zms domain w ≡ (if is_some cached then panic else ret none, w)
  unfolding sync zms_get_signed_domains get_cr_by_name
  sync_zms_error domain code text none w valid e other held = rw (valid, e) (ground (arith, held))
  sync_zms_error domain code text (some old) w valid e other held =
      rw (valid, e) (ground (arith, held))

  -- A valid domain that ZMS answers alone, under its name, with its rules filtered: what is left is
  -- the create or update of its resource, and then the trust domains that its roles want.
  pub sync_found :
      (domain etag : Bytes) (found : SignedDomains) (signed : SignedDomain) (d : DomainData)
      (w : World q)
      → validate_domain u caches domain ≡ true
      → zms (request_for domain) ≡ answered (some found) etag
      → items found.domains ≡ some signed ∷ []
      → filter_msd_rules u signed.domain ≡ ret (some d)
      → d.name ≡ domain
      → sync copy u caches server zms domain w
        ≡ after_create copy u caches server domain d (
            create_update_athenz_domain copy caches server domain
              (some (record signed { domain = some d }))
              w)
  unfolding sync zms_get_signed_domains
  sync_found domain etag found signed d w valid e one filtered same =
      rw (valid, e, one, filtered)
        (sync_domains_one copy u caches server domain (record signed { domain = some d }) d w refl
          same)
