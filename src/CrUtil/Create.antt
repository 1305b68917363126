-- ===== src/CrUtil/Create.antt =====
-- CreateUpdateAthenzDomain and RemoveAthenzDomain as a whole.
use k8s_athenz_syncer.Common.{
  ◌≡◌, refl, ◌⊎◌, inl, inr, Option, none, some, [], ◌∷◌, ◌++◌, arith, Bytes,
}
use k8s_athenz_syncer.Go.{Go, ret}
use k8s_athenz_syncer.Zms.{SignedDomain}
use k8s_athenz_syncer.WorkQueue.{WorkQueue}
use k8s_athenz_syncer.Cluster.{
  wrapped, GoError, already_exists, Result, ok, err, AthenzDomain, AthenzDomainSpec, Object,
  athenz_domain, tombstone, other, Caches, Server, create_cr, update_cr, delete_cr,
}
use k8s_athenz_syncer.World.{World}
use k8s_athenz_syncer.CrUtil.{
  get_cr_by_name, cast_found, update_found, new_object, create_update_athenz_domain,
  create_or_update, created, nothing_to_compare, remove_athenz_domain, remove_found,
}
use k8s_athenz_syncer.CrUtil.Update.{
  Copies, IsComplete, SameButSignatures, with_version_of, update_found_skips, update_found_world,
}

module _ {q : WorkQueue} (copy : AthenzDomainSpec → Option AthenzDomainSpec) (caches : Caches)
    (server : Server) where
  -- What a call leaves: the world as it was, one create of the new resource if the cache has no
  -- entry for the domain, or one update of the cached resource to the new one.
  abbrev pub Writes : Bytes → SignedDomain → World q → World q → Type 0
  Writes domain domain_data before after =
      (after ≡ before)
      ⊎ ((caches.cr_by_key domain ≡ none)
          × (after ≡ record before {
            calls = before.calls ++ (create_cr (new_object domain domain_data) ∷ []);
          }))
      ⊎ ((old : AthenzDomain) × (caches.cr_by_key domain ≡ some (athenz_domain old))
          × (after ≡ record before {
            calls =
                before.calls
                ++ (update_cr (with_version_of old (new_object domain domain_data)) ∷ []);
          }))

  created_world :
      (domain : Bytes) (new : AthenzDomain) (answer : Result AthenzDomain) (w : World q)
      → (created copy caches server domain new none answer w).1 ≡ w
  unfolding created update_found
  created_world domain new (ok cr) w = refl
  created_world domain new (err e) w = ground arith

  create_or_update-Writes :
      (domain : Bytes) (domain_data : SignedDomain) (cached : Option Object) (w : World q)
      → caches.cr_by_key domain ≡ cached
      → Writes domain domain_data w
          (create_or_update copy caches server domain domain_data (cast_found cached) w).1
  unfolding create_or_update cast_found
  create_or_update-Writes domain domain_data none w e =
      inr (inl (e, created_world domain (new_object domain domain_data) _ _))
  create_or_update-Writes domain domain_data (some (athenz_domain old)) w e =
      elim (update_found_world copy server old (new_object domain domain_data) w) [
        | inl same ↦ inl same
        | inr updated ↦ inr (inr (old, e, updated))
      ]
  create_or_update-Writes domain domain_data (some (tombstone o)) w e = inl refl
  create_or_update-Writes domain domain_data (some other) w e = inl refl

  -- A call changes nothing, or makes one call of the API server: a create of the new resource, and
  -- only where the cache has no entry for the domain, or an update of the cached resource to the new
  -- one. The queue and the etag stay.
  pub create_update_athenz_domain-Writes :
      (domain : Bytes) (domain_data : SignedDomain) (w : World q)
      → Writes domain domain_data w
          (create_update_athenz_domain copy caches server domain (some domain_data) w).1
  unfolding create_update_athenz_domain get_cr_by_name
  create_update_athenz_domain-Writes domain domain_data w =
      create_or_update-Writes domain domain_data (caches.cr_by_key domain) w refl

  create_absent :
      (domain : Bytes) (domain_data : SignedDomain) (w : World q)
      → caches.cr_by_key domain ≡ none
      → let new = new_object domain domain_data in
        create_update_athenz_domain copy caches server domain (some domain_data) w
        ≡ created copy caches server domain new none
            (server.on_create w.calls new)
            (record w { calls = w.calls ++ (create_cr new ∷ []) })
  unfolding create_update_athenz_domain get_cr_by_name create_or_update cast_found
  create_absent domain domain_data w absent = rw absent refl

  pub create_update_athenz_domain-created :
      (domain : Bytes) (domain_data : SignedDomain) (cr : AthenzDomain) (w : World q)
      → caches.cr_by_key domain ≡ none
      → let new = new_object domain domain_data in
        server.on_create w.calls new ≡ ok cr
        → create_update_athenz_domain copy caches server domain (some domain_data) w
          ≡ (ret (ok (some cr)), record w { calls = w.calls ++ (create_cr new ∷ []) })
  unfolding created
  create_update_athenz_domain-created domain domain_data cr w absent e =
      rw (create_absent domain domain_data w absent, e) refl

  created_err :
      (domain : Bytes) (new : AthenzDomain) (e : GoError) (v : World q)
      → (x : GoError) × (created copy caches server domain new none (err e) v ≡ (ret (err x), v))
  unfolding created update_found
  created_err domain new already_exists v = (_, refl)
  created_err domain new (wrapped m e) v = (_, refl)
  created_err domain new _ v = (_, refl)

  pub create_update_athenz_domain-refused :
      (domain : Bytes) (domain_data : SignedDomain) (e : GoError) (w : World q)
      → caches.cr_by_key domain ≡ none
      → let new = new_object domain domain_data in
        server.on_create w.calls new ≡ err e
        → (x : GoError) × (create_update_athenz_domain copy caches server domain
              (some domain_data)
              w
            ≡ (ret (err x), record w { calls = w.calls ++ (create_cr new ∷ []) }))
  create_update_athenz_domain-refused domain domain_data e w absent refused =
      rw (create_absent domain domain_data w absent, refused) (created_err domain _ e _)

  pub create_update_athenz_domain-cached :
      (domain : Bytes) (domain_data : SignedDomain) (old : AthenzDomain) (w : World q)
      → caches.cr_by_key domain ≡ some (athenz_domain old)
      → create_update_athenz_domain copy caches server domain (some domain_data) w
        ≡ update_found copy server (some old) (some (new_object domain domain_data)) w
  unfolding create_update_athenz_domain get_cr_by_name create_or_update cast_found
  create_update_athenz_domain-cached domain domain_data old w cached = rw cached refl

  -- A create that the server refuses because the resource exists after all ends in an error: there
  -- is no cached resource to update.
  pub create_update_athenz_domain_exists :
      (domain : Bytes) (domain_data : SignedDomain) (w : World q)
      → caches.cr_by_key domain ≡ none
      → server.on_create w.calls (new_object domain domain_data) ≡ err already_exists
      → (create_update_athenz_domain copy caches server domain (some domain_data) w).0
        ≡ ret (err nothing_to_compare)
  unfolding create_update_athenz_domain get_cr_by_name create_or_update created cast_found
      update_found
  create_update_athenz_domain_exists domain domain_data w absent exists = ground arith

  -- Where the cache holds what an earlier call has written, with any signatures, a call is a no-op
  -- that returns no resource and no error.
  pub create_update_athenz_domain_idem :
      (domain : Bytes) (domain_data : SignedDomain) (old : AthenzDomain) (w : World q)
      → Copies copy
      → caches.cr_by_key domain ≡ some (athenz_domain old)
      → IsComplete old.spec
      → IsComplete (new_object domain domain_data).spec
      → SameButSignatures old.spec (new_object domain domain_data).spec
      → old.status ≡ (new_object domain domain_data).status
      → create_update_athenz_domain copy caches server domain (some domain_data) w
        ≡ (ret (ok none), w)
  unfolding create_update_athenz_domain get_cr_by_name create_or_update cast_found
  create_update_athenz_domain_idem domain domain_data old w copies cached co cn same status =
      rw (cached, cast_found)
        (update_found_skips copy server copies old (new_object domain domain_data) w co cn same
          status)

module _ {q : WorkQueue} (caches : Caches) (server : Server) where
  -- What is left of a call, by the cache's entry.
  abbrev pub Removes : Bytes → World q → Option Object → Go (Option GoError) × World q → Type 0
  Removes domain w none r = r ≡ (ret none, w)
  Removes domain w (some (athenz_domain old)) r = r ≡ (
    ret (server.on_delete w.calls domain),
    record w { calls = w.calls ++ (delete_cr domain ∷ []) },
  )
  Removes domain w (some cached) r = (e : GoError) × (r ≡ (ret (some e), w))

  remove_found-Removes :
      (domain : Bytes) (cached : Option Object) (w : World q)
      → Removes domain w cached (remove_found caches server domain (cast_found cached) w)
  unfolding remove_found cast_found
  remove_found-Removes domain none w = refl
  remove_found-Removes domain (some (athenz_domain old)) w = refl
  remove_found-Removes domain (some (tombstone o)) w = (_, refl)
  remove_found-Removes domain (some other) w = (_, refl)

  -- Removing a domain is one delete of it if the cache holds a resource for it, with the server's
  -- answer as the result, and nothing if the cache has no entry. An entry of another type is an error
  -- with no call.
  pub remove_athenz_domain-Removes :
      (domain : Bytes) (w : World q)
      → Removes domain w (caches.cr_by_key domain) (remove_athenz_domain caches server domain w)
  unfolding remove_athenz_domain get_cr_by_name
  remove_athenz_domain-Removes domain w = remove_found-Removes domain (caches.cr_by_key domain) w
