-- ===== src/ApiServer.antt =====
-- The API server's store of AthenzDomain resources, which the program calls and does not contain: an
-- interface, with what its documentation says of conditional writes as laws.
pub mod Replay
pub mod Memory
pub mod Busy
pub mod Origin
use k8s_athenz_syncer.Common.{◌≡◌, ◌≢◌, Option, none, some, Bytes}
use k8s_athenz_syncer.Cluster.{GoError, Result, ok, err, AthenzDomain}

pub record ApiServer : Type 1 where
  pub State : Type 0
  -- The resource of a name.
  pub get : State → Bytes → Option AthenzDomain
  pub create : State → AthenzDomain → Result AthenzDomain × State
  pub update : State → AthenzDomain → Result AthenzDomain × State
  pub delete : State → Bytes → Option GoError × State

module _ (api : ApiServer) where
  -- A write either stores the object's spec and status under its name, or is refused and leaves the
  -- resource of that name. A refusal may change other parts of the state, such as a quota.
  abbrev pub Stores : api.State → AthenzDomain → Result AthenzDomain × api.State → Type 0
  Stores s object (ok stored, t) =
      (api.get t object.object_meta.name ≡ some stored)
      × (stored.spec ≡ object.spec)
      × (stored.status ≡ object.status)
  Stores s object (err e, t) = api.get t object.object_meta.name ≡ api.get s object.object_meta.name

  abbrev pub Deletes : api.State → Bytes → Option GoError × api.State → Type 0
  Deletes s name (none, t) = api.get t name ≡ none
  Deletes s name (some e, t) = api.get t name ≡ api.get s name

pub record IsLawful (api : ApiServer) : Type 0 where
  -- A create of a name that is not in the store.
  pub create-Stores :
      (s : api.State) (object : AthenzDomain)
      → api.get s object.object_meta.name ≡ none
      → Stores api s object (api.create s object)
  -- An update that names the resource version of the stored resource.
  pub update-Stores :
      (s : api.State) (object old : AthenzDomain)
      → api.get s object.object_meta.name ≡ some old
      → object.object_meta.resource_version ≡ old.object_meta.resource_version
      → Stores api s object (api.update s object)
  pub delete-Deletes :
      (s : api.State) (name : Bytes) (old : AthenzDomain)
      → api.get s name ≡ some old
      → Deletes api s name (api.delete s name)
  -- Resources of other names stay.
  pub get-create :
      (s : api.State) (object : AthenzDomain) (name : Bytes)
      → name ≢ object.object_meta.name
      → api.get (api.create s object).1 name ≡ api.get s name
  pub get-update :
      (s : api.State) (object : AthenzDomain) (name : Bytes)
      → name ≢ object.object_meta.name
      → api.get (api.update s object).1 name ≡ api.get s name
  pub get-delete :
      (s : api.State) (deleted name : Bytes)
      → name ≢ deleted
      → api.get (api.delete s deleted).1 name ≡ api.get s name
