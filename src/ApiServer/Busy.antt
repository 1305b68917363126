-- ===== src/ApiServer/Busy.antt =====
-- A server that refuses its first writes and then works as another server does: the refusals that
-- the worker's retries are for.
use k8s_athenz_syncer.Common.{◌≢◌, none, [], ℕ, zero, suc, ◌≡◌, refl, Option, some, Bytes}
use k8s_athenz_syncer.Cluster.{GoError, api_error, Result, ok, err, AthenzDomain}
use k8s_athenz_syncer.ApiServer.{Deletes, none, Stores, ApiServer, IsLawful}

module _ (api : ApiServer) where
  abbrev busy_write :
      (api.State → AthenzDomain → Result AthenzDomain × api.State)
      → ℕ × api.State
      → AthenzDomain
      → Result AthenzDomain × (ℕ × api.State)
  busy_write write (zero, s) object = ((write s object).0, (zero, (write s object).1))
  busy_write write (suc n, s) object = (err (api_error []), (n, s))

  abbrev busy_delete : ℕ × api.State → Bytes → Option GoError × (ℕ × api.State)
  busy_delete (zero, s) name = ((api.delete s name).0, (zero, (api.delete s name).1))
  busy_delete (suc n, s) name = (some (api_error []), (n, s))

  -- The state has the number of writes that are still to be refused.
  abbrev pub busy : ApiServer
  busy = record {
    State = ℕ × api.State;
    get = λ s name. api.get s.1 name;
    create = busy_write api.create;
    update = busy_write api.update;
    delete = busy_delete;
  }

  write-Stores :
      (s : api.State) (object : AthenzDomain) (r : Result AthenzDomain × api.State)
      → Stores api s object r
      → Stores busy (zero, s) object (r.0, (zero, r.1))
  write-Stores s object (ok stored, t) h = h
  write-Stores s object (err e, t) h = h

  delete-Deletes :
      (s : api.State) (name : Bytes) (r : Option GoError × api.State)
      → Deletes api s name r
      → Deletes busy (zero, s) name (r.0, (zero, r.1))
  delete-Deletes s name (none, t) h = h
  delete-Deletes s name (some e, t) h = h

  module _ (lawful : IsLawful api) where
    create_law :
        (s : ℕ × api.State) (object : AthenzDomain)
        → api.get s.1 object.object_meta.name ≡ none
        → Stores busy s object (busy_write api.create s object)
    create_law (zero, s) object h = write-Stores s object _ (lawful.create-Stores s object h)
    create_law (suc n, s) object h = refl

    update_law :
        (s : ℕ × api.State) (object old : AthenzDomain)
        → api.get s.1 object.object_meta.name ≡ some old
        → object.object_meta.resource_version ≡ old.object_meta.resource_version
        → Stores busy s object (busy_write api.update s object)
    update_law (zero, s) object old h v =
        write-Stores s object _ (lawful.update-Stores s object old h v)
    update_law (suc n, s) object old h v = refl

    delete_law :
        (s : ℕ × api.State) (name : Bytes) (old : AthenzDomain)
        → api.get s.1 name ≡ some old
        → Deletes busy s name (busy_delete s name)
    delete_law (zero, s) name old h = delete-Deletes s name _ (lawful.delete-Deletes s name old h)
    delete_law (suc n, s) name old h = refl

    write_elsewhere :
        (write : api.State → AthenzDomain → Result AthenzDomain × api.State)
        → ((s : api.State) (object : AthenzDomain) (name : Bytes)
            → name ≢ object.object_meta.name
            → api.get (write s object).1 name ≡ api.get s name)
        → (s : ℕ × api.State) (object : AthenzDomain) (name : Bytes)
        → name ≢ object.object_meta.name
        → api.get (busy_write write s object).1.1 name ≡ api.get s.1 name
    write_elsewhere write h (zero, s) object name apart = h s object name apart
    write_elsewhere write h (suc n, s) object name apart = refl

    delete_elsewhere :
        (s : ℕ × api.State) (deleted name : Bytes)
        → name ≢ deleted
        → api.get (busy_delete s deleted).1.1 name ≡ api.get s.1 name
    delete_elsewhere (zero, s) deleted name apart = lawful.get-delete s deleted name apart
    delete_elsewhere (suc n, s) deleted name apart = refl

    pub busy-IsLawful : IsLawful busy
    busy-IsLawful = record {
      create-Stores = create_law;
      update-Stores = update_law;
      delete-Deletes = delete_law;
      get-create = write_elsewhere api.create lawful.get-create;
      get-update = write_elsewhere api.update lawful.get-update;
      get-delete = delete_elsewhere;
    }
